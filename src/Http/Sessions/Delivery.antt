-- ===== src/Http/Sessions/Delivery.antt =====
-- How a response of src/transport/http_session_manager.cpp reaches the request that waits for it.
use mcp_cpp_sdk.Prelude.{
  ℕ, ◌<◌, ◌≡◌, refl, ap, ◌∙◌, Bool, true, false, Option, some, List, [], ◌∷◌, ◌++◌, if-both, length,
  Bytes, bytes_eq, lookup, update, lookup-update_self, lookup-update_ne, arith,
}
use mcp_cpp_sdk.Json.Api.{JsonApi}
use mcp_cpp_sdk.Http.EventStore.{Event}
use mcp_cpp_sdk.Http.Sse.{sse_body}
use mcp_cpp_sdk.Http.Sessions.Runtime.{
  PendingResponse, SessionRuntime, response_to, destination, store_event, stream_event, answered,
  respond, dispatch_to, dispatch_response_to_pending,
}
use mcp_cpp_sdk.Http.Sessions.Manager.{Manager, runtime, set_runtime}
use mcp_cpp_sdk.Http.Sessions.Invariant.{runtime-set_runtime}
use mcp_cpp_sdk.Http.Sessions.Handlers.{
  Reply, json_response, sse_response, accepts_sse, response_reply, consume_pending_response,
  wait_for_pending, wait_for_response,
}

-- A request that does not accept a stream is answered with the response.
response_reply-json :
    (json_only : Bool) (accept : Option Bytes) (id body : Bytes) (events : List Event)
    → accepts_sse accept ≡ false
    → response_reply json_only accept id
        (record { response_body = some body; stream_events = events; response_ready = true })
      ≡ json_response 200 (some id) body
unfolding response_reply
response_reply-json json_only accept id body [] h = refl
response_reply-json json_only accept id body (event ∷ events) h = ground (arith, h)

pub response_reply-sse :
    (accept : Option Bytes) (id body : Bytes) (event : Event) (events : List Event)
    → accepts_sse accept ≡ true
    → response_reply false accept id (record {
      response_body = some body;
      stream_events = event ∷ events;
      response_ready = true;
    })
      ≡ sse_response (some id) (sse_body (event ∷ events))
unfolding response_reply
response_reply-sse accept id body event events h = ground (arith, h)

module _ {V : Type 0} where
  -- A wait whose response is there.
  pub wait_for_response-ready :
      (manager : Manager V) (p : ℕ) (session : SessionRuntime V) (key : Bytes)
      (accept : Option Bytes) (pending : PendingResponse)
      → manager.closed ≡ false
      → runtime manager p ≡ session
      → lookup key session.pending_responses ≡ some pending
      → pending.response_ready ≡ true
      → wait_for_response manager p key accept
        ≡ some (
          consume_pending_response manager p key,
          response_reply manager.json_only_mode accept session.session_id pending,
        )
  unfolding wait_for_response wait_for_pending
  wait_for_response-ready manager p session key accept pending open_still at there ready =
      let Answer : Option (Manager V × Reply) → Type 0 = λ x.
        x
        ≡ some (
          consume_pending_response manager p key,
          response_reply manager.json_only_mode accept session.session_id pending,
        ) in
      if-both Answer manager.closed _ _ (λ e. ground (arith, e, open_still))
        (λ e.
          ap (wait_for_pending manager p key accept)
            (ap (λ s. lookup key s.pending_responses) at ∙ there)
          ∙ if-both Answer pending.response_ready _ _
              (λ r.
                ap
                  (λ s. some (
                    consume_pending_response manager p key,
                    response_reply manager.json_only_mode accept s.session_id pending,
                  ))
                  at)
              (λ r. ground (arith, r, ready)))

module _ (api : JsonApi) where
  -- A response changes the entry of its request, and no other.
  respond-lookup :
      (session : SessionRuntime api.Value) (key message : Bytes) (events unassigned : List Event)
      (pending : PendingResponse)
      → lookup key session.pending_responses ≡ some pending
      → respond key message events unassigned session ≡ record session {
        pending_responses = update key (answered events message) session.pending_responses;
        unassigned_stream_events = unassigned;
      }
  unfolding respond
  respond-lookup session key message events unassigned pending h = rw (respond, h) refl

  -- The events that a response streams, if it streams any.
  abbrev pub response_events : Bool → Bytes → SessionRuntime api.Value → List Event
  response_events true message session = []
  response_events false message session =
      session.unassigned_stream_events ++ stream_event message session ∷ []

  -- What a response does to the entries and to the identifier of its session.
  abbrev pub Delivers :
      SessionRuntime api.Value → SessionRuntime api.Value → Bytes → Bytes → List Event → Type 0
  Delivers before after key message events =
      (after.session_id ≡ before.session_id)
      × (after.pending_responses ≡ update key (answered events message) before.pending_responses)

  pub dispatch-Delivers :
      (session : SessionRuntime api.Value) (json_only : Bool) (key message : Bytes)
      (pending : PendingResponse)
      → destination api message ≡ response_to key
      → lookup key session.pending_responses ≡ some pending
      → Delivers session
          (dispatch_response_to_pending api session message json_only)
          key
          message
          (response_events json_only message session)
  unfolding dispatch_response_to_pending dispatch_to store_event
  dispatch-Delivers session true key message pending goes there =
      let e =
        ap (λ d. dispatch_to d true message session) goes
        ∙ respond-lookup session key message [] session.unassigned_stream_events pending there in
      (ap (λ s. s.session_id) e, ap (λ s. s.pending_responses) e)
  dispatch-Delivers session false key message pending goes there =
      let e =
        ap (λ d. dispatch_to d false message session) goes
        ∙ respond-lookup (store_event false message session) key message
            (response_events false message session) [] pending there in
      (ap (λ s. s.session_id) e, ap (λ s. s.pending_responses) e)

  -- The manager after a message of the server of a session.
  unfoldable pub server_sends : Manager api.Value → ℕ → Bytes → Manager api.Value
  unfolding set_runtime runtime dispatch_response_to_pending
  server_sends manager p message =
      set_runtime manager p
        (dispatch_response_to_pending api (runtime manager p) message manager.json_only_mode)

  -- A response of the server of an open manager to a request that waits ends the wait of that request, which is answered with the
  -- response where it accepts no stream, and changes what no other request of the session waits for.
  pub wait_for_response-server_sends :
      (manager : Manager api.Value) (p : ℕ) (key message : Bytes) (accept : Option Bytes)
      (pending : PendingResponse)
      → manager.closed ≡ false
      → p < length manager.runtimes
      → lookup key (runtime manager p).pending_responses ≡ some pending
      → destination api message ≡ response_to key
      → accepts_sse accept ≡ false
      → (wait_for_response (server_sends manager p message) p key accept
          ≡ some (
            consume_pending_response (server_sends manager p message) p key,
            json_response 200 (some (runtime manager p).session_id) message,
          ))
        × ((other : Bytes)
            → bytes_eq other key ≡ false
            → lookup other (runtime (server_sends manager p message) p).pending_responses
              ≡ lookup other (runtime manager p).pending_responses)
  unfolding server_sends
  wait_for_response-server_sends manager p key message accept pending open_still inside there goes
        plain =
      let before = runtime manager p in
      let json_only = manager.json_only_mode in
      let after = dispatch_response_to_pending api before message json_only in
      let sent = set_runtime manager p after in
      let at = runtime-set_runtime manager p after inside in
      let events = response_events json_only message before in
      let delivered = dispatch-Delivers before json_only key message pending goes there in
      let found : lookup key after.pending_responses ≡ some (answered events message pending) =
        ap (lookup key) delivered.1
        ∙ lookup-update_self key (answered events message) before.pending_responses pending there in
      (
        wait_for_response-ready sent p after key accept (answered events message pending) open_still
              at found refl
            ∙ ap (λ reply. some (consume_pending_response sent p key, reply))
                (response_reply-json json_only accept after.session_id message _ plain
                  ∙ ap (λ id. json_response 200 (some id) message) delivered.0),
        λ other differs.
            ap (λ s. lookup other s.pending_responses) at
            ∙ ap (lookup other) delivered.1
            ∙ lookup-update_ne other key (answered events message) before.pending_responses differs,
      )
