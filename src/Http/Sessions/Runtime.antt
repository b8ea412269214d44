-- ===== src/Http/Sessions/Runtime.antt =====
-- src/transport/http_session_manager.cpp: `SessionRuntime`, and the responses that its requests wait
-- for. Functions are the pieces of code between two suspensions; a timer only wakes the coroutine that
-- waits, which then looks at the state again, so it is not part of the state. The messages that a
-- session writes to its server are kept as a list.
use mcp_cpp_sdk.Prelude.{
  Bool, true, false, not, ◌&&◌, ◌||◌, Option, none, some, List, [], ◌∷◌, ◌++◌, if◌then◌else◌, Bytes,
  codes, Table, lookup, erase, update,
}
use mcp_cpp_sdk.Json.Api.{JsonApi, has_member}
use mcp_cpp_sdk.Json.Envelope.{JsonRpcEnvelope, nullopt, out_of_fuel, found, scan_jsonrpc_envelope}
use mcp_cpp_sdk.Http.EventStore.{Event, EventStore, append, advance, to_string}

pub record PendingResponse : Type 0 where
  pub response_body : Option Bytes
  pub stream_events : List Event
  pub response_ready : Bool

abbrev pub unanswered : PendingResponse
unanswered = record { response_body = none; stream_events = []; response_ready = false }

pub record SessionRuntime (V : Type 0) : Type 0 where
  pub session_id : Bytes
  pub transport_closed : Bool
  pub written : List V
  pub negotiated_protocol_version : Bytes
  pub event_store : EventStore
  pub pending_responses : Table PendingResponse
  pub unassigned_stream_events : List Event

-- Where a message of the server goes.
pub data Destination : Type 0 where
  dropped notice : Destination
  response_to : Bytes → Destination

module _ (api : JsonApi) where
  abbrev response_of_id : Option api.Value → Destination
  response_of_id none = dropped
  response_of_id (some id) = response_to (api.dump id)

  abbrev pub is_empty : Bytes → Bool
  is_empty [] = true
  is_empty (c ∷ cs) = false

  abbrev envelope_destination : JsonRpcEnvelope → Destination
  envelope_destination envelope =
      if not (is_empty envelope.id) && envelope.has_result_or_error
      then response_of_id (api.parse envelope.id)
      else notice

  abbrev member_destination : Option api.Value → Bool → Destination
  member_destination none has_answer = notice
  member_destination (some id) true = response_to (api.dump id)
  member_destination (some id) false = notice

  -- The message as a whole, when the envelope cannot be scanned.
  abbrev parsed_destination : Option api.Value → Destination
  parsed_destination none = dropped
  parsed_destination (some message) =
      if api.is_object message
      then member_destination (api.at message (codes "id"))
          (has_member api message (codes "result") || has_member api message (codes "error"))
      else dropped

  unfoldable pub destination : Bytes → Destination
  destination message = elim (scan_jsonrpc_envelope message) [
    | found envelope ↦ envelope_destination envelope
    | nullopt ↦ parsed_destination (api.parse message)
    | out_of_fuel ↦ dropped
  ]

-- A message that is no response goes to the only request that waits.
abbrev pub push_event : Event → PendingResponse → PendingResponse
push_event event pending = record pending { stream_events = pending.stream_events ++ event ∷ [] }

abbrev pub answered : List Event → Bytes → PendingResponse → PendingResponse
answered events message pending = record {
  response_body = some message;
  stream_events = pending.stream_events ++ events;
  response_ready = true;
}

abbrev pub ready : PendingResponse → PendingResponse
ready pending = record pending { response_ready = true }

unfoldable pub all_ready : Table PendingResponse → Table PendingResponse
all_ready [] = []
all_ready ((key, pending) ∷ rest) = (key, ready pending) ∷ all_ready rest

module _ {V : Type 0} where
  unfoldable pub store_event : Bool → Bytes → SessionRuntime V → SessionRuntime V
  store_event true message session = session
  store_event false message session = record session {
    event_store = append session.event_store message;
  }

  -- The event that `append` returns the identifier of.
  unfoldable pub stream_event : Bytes → SessionRuntime V → Event
  stream_event message session = (to_string (advance session.event_store.next_id), message)

  unfoldable pub notify : Event → SessionRuntime V → Table PendingResponse → SessionRuntime V
  notify event session [] = session
  notify event session ((key, pending) ∷ []) = record session {
    pending_responses = (key, push_event event pending) ∷ [];
  }
  notify event session (first ∷ second ∷ rest) = record session {
    unassigned_stream_events = session.unassigned_stream_events ++ event ∷ [];
  }

  -- A response: to a request that waits, or to none. The events are those that it streams.
  unfoldable pub respond :
      Bytes → Bytes → List Event → List Event → SessionRuntime V → SessionRuntime V
  respond key message events unassigned session = elim (lookup key session.pending_responses) [
    | none ↦ record session { unassigned_stream_events = [] }
    | some pending ↦ record session {
      pending_responses = update key (answered events message) session.pending_responses;
      unassigned_stream_events = unassigned;
    }
  ]

  unfoldable pub dispatch_to : Destination → Bool → Bytes → SessionRuntime V → SessionRuntime V
  unfolding store_event stream_event notify respond
  dispatch_to dropped json_only message session = session
  dispatch_to notice true message session = session
  dispatch_to notice false message session =
      notify (stream_event message session) (store_event false message session)
        session.pending_responses
  dispatch_to (response_to key) true message session =
      respond key message [] session.unassigned_stream_events session
  dispatch_to (response_to key) false message session =
      respond key message (session.unassigned_stream_events ++ stream_event message session ∷ []) []
        (store_event false message session)

  -- The end of `read_outbound_messages`.
  unfoldable pub outbound_ended : SessionRuntime V → SessionRuntime V
  unfolding all_ready
  outbound_ended session = record session {
    pending_responses = all_ready session.pending_responses;
  }

  -- What `destroy_session` and `close` do to a session: every waiter is released, then the transport
  -- closes.
  unfoldable pub release : SessionRuntime V → SessionRuntime V
  unfolding all_ready
  release session = record session {
    pending_responses = all_ready session.pending_responses;
    transport_closed = true;
  }

  -- The session without the pending response.
  unfoldable pub consumed : Bytes → SessionRuntime V → SessionRuntime V
  consumed key session = record session { pending_responses = erase key session.pending_responses }

unfoldable pub dispatch_response_to_pending :
    (api : JsonApi) → SessionRuntime api.Value → Bytes → Bool → SessionRuntime api.Value
unfolding destination dispatch_to
dispatch_response_to_pending api session message json_only =
    dispatch_to (destination api message) json_only message session
