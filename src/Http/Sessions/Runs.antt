-- ===== src/Http/Sessions/Runs.antt =====
-- The runs of the session manager of src/transport/http_session_manager.cpp: requests, messages of
-- the servers, waits that end, and the close, in any order.
use mcp_cpp_sdk.Prelude.{
  ℕ, ◌≡◌, refl, Bool, true, false, Option, none, some, List, [], ◌∷◌, if-both, Option-cases, inl,
  inr, subst, Bytes, Table, lookup, arith,
}
use mcp_cpp_sdk.Json.Api.{JsonApi}
use mcp_cpp_sdk.Http.EventStore.{Event}
use mcp_cpp_sdk.Http.Sessions.Runtime.{
  PendingResponse, SessionRuntime, Destination, dropped, notice, response_to, destination,
  store_event, stream_event, notify, respond, dispatch_to, outbound_ended, consumed,
  dispatch_response_to_pending,
}
use mcp_cpp_sdk.Http.Sessions.Manager.{Manager, runtime, set_runtime, close}
use mcp_cpp_sdk.Http.Sessions.Handlers.{
  HttpRequest, Reply, delete_admitted, refused, admitted, Admission, handle_delete,
  consume_pending_response, wait_for_pending, wait_for_response,
}
use mcp_cpp_sdk.Http.Sessions.Post.{handle_post}
use mcp_cpp_sdk.Http.Sessions.Invariant.{
  IsValid, set_runtime-IsValid, destroy_session-IsValid, close-IsValid,
}
use mcp_cpp_sdk.Http.Sessions.Refusals.{handle_post-Handled}
use mcp_cpp_sdk.Http.Sessions.Delivery.{server_sends}

-- A manager that has just been made.
abbrev pub new_manager : {V : Type 0} → ℕ → Manager V
new_manager capacity = record {
  closed = false;
  json_only_mode = false;
  stateless_json_mode = false;
  event_store_capacity = capacity;
  factory_calls = 0;
  discover_server = false;
  runtimes = [];
  sessions = [];
}

module _ (api : JsonApi) where
  pub data Step : Manager api.Value → Manager api.Value → Type 0 where
    posts :
        (manager : Manager api.Value) (server : Bool) (new_id : Bytes) (request : HttpRequest)
        → Step manager (handle_post api manager server new_id request).manager
    deletes :
        (manager : Manager api.Value) (request : HttpRequest)
        → Step manager (handle_delete manager request).0
    answers :
        (manager after : Manager api.Value) (p : ℕ) (key : Bytes) (accept : Option Bytes)
        (reply : Reply)
        → wait_for_response manager p key accept ≡ some (after, reply)
        → Step manager after
    sends :
        (manager : Manager api.Value) (p : ℕ) (message : Bytes)
        → Step manager (server_sends api manager p message)
    ends :
        (manager : Manager api.Value) (p : ℕ)
        → Step manager (set_runtime manager p (outbound_ended (runtime manager p)))
    sets_json_only :
        (manager : Manager api.Value) (json_only : Bool)
        → Step manager (record manager { json_only_mode = json_only })
    closes : (manager : Manager api.Value) → Step manager (close manager)

  pub data Run : ℕ → Manager api.Value → Type 0 where
    starts :
        (capacity : ℕ) (stateless : Bool)
        → Run capacity (record (new_manager capacity) {
          stateless_json_mode = stateless;
          json_only_mode = stateless;
        })
    steps :
        (capacity : ℕ) (manager after : Manager api.Value)
        → Run capacity manager
        → Step manager after
        → Run capacity after

  respond-id :
      (key message : Bytes) (events unassigned : List Event) (session : SessionRuntime api.Value)
      → (respond key message events unassigned session).session_id ≡ session.session_id
  unfolding respond
  respond-id key message events unassigned session =
      elim (Option-cases (lookup key session.pending_responses)) [
        | inl e ↦ rw (respond, e) refl
        | inr (pending, e) ↦ rw (respond, e) refl
      ]

  notify-id :
      (event : Event) (session : SessionRuntime api.Value) (table : Table PendingResponse)
      → (notify event session table).session_id ≡ session.session_id
  unfolding notify
  notify-id event session [] = refl
  notify-id event session ((key, pending) ∷ []) = refl
  notify-id event session (first ∷ second ∷ rest) = refl

  dispatch_to-id :
      (to : Destination) (json_only : Bool) (message : Bytes) (session : SessionRuntime api.Value)
      → (dispatch_to to json_only message session).session_id ≡ session.session_id
  unfolding dispatch_to store_event
  dispatch_to-id dropped json_only message session = refl
  dispatch_to-id notice true message session = refl
  dispatch_to-id notice false message session =
      notify-id (stream_event message session) (store_event false message session)
        session.pending_responses
  dispatch_to-id (response_to key) true message session = respond-id key message [] _ session
  dispatch_to-id (response_to key) false message session =
      respond-id key message _ [] (store_event false message session)

  server_sends-IsValid :
      (manager : Manager api.Value) (p : ℕ) (message : Bytes)
      → IsValid manager
      → IsValid (server_sends api manager p message)
  unfolding server_sends dispatch_response_to_pending
  server_sends-IsValid manager p message valid =
      set_runtime-IsValid manager p _
        (dispatch_to-id (destination api message) manager.json_only_mode message
          (runtime manager p))
        valid

  consume-IsValid :
      (manager : Manager api.Value) (p : ℕ) (key : Bytes)
      → IsValid manager
      → IsValid (consume_pending_response manager p key)
  unfolding consume_pending_response consumed
  consume-IsValid manager p key valid = set_runtime-IsValid manager p _ refl valid

  -- Every manager that a wait ends in is well-formed.
  abbrev EndsValid : Option (Manager api.Value × Reply) → Type 0
  EndsValid none = Unit
  EndsValid (some (manager, reply)) = IsValid manager

  wait_for_pending-EndsValid :
      (manager : Manager api.Value) (p : ℕ) (key : Bytes) (accept : Option Bytes)
      (found : Option PendingResponse)
      → IsValid manager
      → EndsValid (wait_for_pending manager p key accept found)
  unfolding wait_for_pending
  wait_for_pending-EndsValid manager p key accept none valid = valid
  wait_for_pending-EndsValid manager p key accept (some pending) valid =
      if-both EndsValid pending.response_ready _ _ (λ e. consume-IsValid manager p key valid)
        (λ e. tt)

  wait_for_response-EndsValid :
      (manager : Manager api.Value) (p : ℕ) (key : Bytes) (accept : Option Bytes)
      → IsValid manager
      → EndsValid (wait_for_response manager p key accept)
  unfolding wait_for_response
  wait_for_response-EndsValid manager p key accept valid =
      if-both EndsValid manager.closed _ _ (λ e. consume-IsValid manager p key valid)
        (λ e. wait_for_pending-EndsValid manager p key accept _ valid)

  delete_admitted-IsValid :
      (manager : Manager api.Value) (admission : Admission)
      → IsValid manager
      → IsValid (delete_admitted manager admission).0
  unfolding delete_admitted
  delete_admitted-IsValid manager (refused reply) valid = valid
  delete_admitted-IsValid manager (admitted id p) valid = destroy_session-IsValid manager id valid

  Step-IsValid :
      (manager after : Manager api.Value) → Step manager after → IsValid manager → IsValid after
  unfolding handle_delete outbound_ended
  Step-IsValid _ _ (posts manager server new_id request) valid =
      (handle_post-Handled api manager server new_id request valid).0
  Step-IsValid _ _ (deletes manager request) valid = delete_admitted-IsValid manager _ valid
  Step-IsValid _ _ (answers manager after p key accept reply e) valid =
      subst EndsValid e (wait_for_response-EndsValid manager p key accept valid)
  Step-IsValid _ _ (sends manager p message) valid = server_sends-IsValid manager p message valid
  Step-IsValid _ _ (ends manager p) valid = set_runtime-IsValid manager p _ refl valid
  Step-IsValid _ _ (sets_json_only manager json_only) valid = record {
    are_sessions = valid.are_sessions;
    closed_empty = valid.closed_empty;
  }
  Step-IsValid _ _ (closes manager) valid = close-IsValid manager valid

  -- In every run, whatever the order of requests, of messages of the servers, of waits that end and
  -- of a close, each identifier in the map of the sessions leads to a session that was made, which
  -- has that identifier, and a manager that is closed has no sessions.
  pub Run-IsValid :
      (capacity : ℕ) (manager : Manager api.Value) → Run capacity manager → IsValid manager
  Run-IsValid _ _ (starts capacity stateless) = record {
    are_sessions = λ id p found. ground (arith, found);
    closed_empty = λ e. refl;
  }
  Run-IsValid _ _ (steps capacity manager after run step) =
      Step-IsValid manager after step (Run-IsValid capacity manager run)
