-- ===== src/Http/Sessions/Stream.antt =====
-- What src/transport/http_session_manager.cpp streams to a request that waits alone.
use mcp_cpp_sdk.Prelude.{ℕ, ◌≡◌, false, none, List, [], ◌∷◌, Bytes}
use mcp_cpp_sdk.Json.Api.{JsonApi}
use mcp_cpp_sdk.Http.EventStore.{Event, EventStore, append, advance, to_string}
use mcp_cpp_sdk.Http.Sessions.Runtime.{
  PendingResponse, SessionRuntime, notice, destination, dispatch_response_to_pending,
}
use mcp_cpp_sdk.Http.Sessions.Manager.{Manager}
use mcp_cpp_sdk.Http.Sessions.Delivery.{server_sends}

-- The events that a store numbers behind an identifier.
abbrev pub events_from : ℕ → List Bytes → List Event
events_from id [] = []
events_from id (message ∷ messages) =
    (to_string (advance id), message) ∷ events_from (advance id) messages

abbrev store_all : EventStore → List Bytes → EventStore
store_all store [] = store
store_all store (message ∷ messages) = store_all (append store message) messages

abbrev with_events : List Event → PendingResponse
with_events events = record { response_body = none; stream_events = events; response_ready = false }

module _ (api : JsonApi) where
  -- A session in which one request waits.
  abbrev pub waiting : SessionRuntime api.Value → Bytes → List Event → SessionRuntime api.Value
  waiting base key events = record base {
    pending_responses = (key, with_events events) ∷ [];
    unassigned_stream_events = [];
  }

  unfoldable pub dispatch_all : SessionRuntime api.Value → List Bytes → SessionRuntime api.Value
  unfolding dispatch_response_to_pending
  dispatch_all session [] = session
  dispatch_all session (message ∷ messages) =
      dispatch_all (dispatch_response_to_pending api session message false) messages

  abbrev pub IsNotice : Bytes → Type 0
  IsNotice message = destination api message ≡ notice

  abbrev stored : SessionRuntime api.Value → Bytes → SessionRuntime api.Value
  stored base message = record base { event_store = append base.event_store message }

  -- The manager after messages of the server of a session.
  unfoldable pub server_sends_all : Manager api.Value → ℕ → List Bytes → Manager api.Value
  unfolding server_sends
  server_sends_all manager p [] = manager
  server_sends_all manager p (message ∷ messages) =
      server_sends_all (server_sends api manager p message) p messages
