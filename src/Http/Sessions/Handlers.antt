-- ===== src/Http/Sessions/Handlers.antt =====
-- src/transport/http_session_manager.cpp: the answers of the manager, `handle_get`, `handle_delete`
-- and `wait_for_response`. Of an answer, its status, its body or message, and the `Mcp-Session-Id` are
-- modelled.
use mcp_cpp_sdk.Prelude.{
  ℕ, Bool, true, false, not, ◌&&◌, Option, none, some, List, [], ◌∷◌, if◌then◌else◌, Bytes, codes,
  bytes_eq, lookup,
}
use mcp_cpp_sdk.Http.Types.{after_prefix}
use mcp_cpp_sdk.Http.EventStore.{Event, events_after}
use mcp_cpp_sdk.Http.Sse.{sse_body}
use mcp_cpp_sdk.Http.Sessions.Runtime.{PendingResponse, SessionRuntime, consumed}
use mcp_cpp_sdk.Http.Sessions.Manager.{Manager, runtime, set_runtime, find_session, destroy_session}

-- The fields of a request that the handlers read.
pub record HttpRequest : Type 0 where
  pub body : Bytes
  pub mcp_session_id : Option Bytes
  pub mcp_protocol_version : Option Bytes
  pub last_event_id : Option Bytes
  pub accept : Option Bytes

pub data Reply : Type 0 where
  error_response : ℕ → Bytes → Reply
  jsonrpc_error_response : ℕ → Bytes → Reply
  json_response : ℕ → Option Bytes → Bytes → Reply
  sse_response : Option Bytes → Bytes → Reply

-- `text.find(wanted) != npos`
unfoldable pub contains_text : Bytes → Bytes → Bool
contains_text wanted [] = elim (after_prefix wanted []) [ none ↦ false | some rest ↦ true ]
contains_text wanted (c ∷ text) = elim (after_prefix wanted (c ∷ text)) [
  | none ↦ contains_text wanted text
  | some rest ↦ true
]

unfoldable pub accepts_sse : Option Bytes → Bool
unfolding contains_text
accepts_sse none = false
accepts_sse (some accept) = contains_text (codes "text/event-stream") accept

-- A header that names another version than the session's.
unfoldable pub wrong_version : Option Bytes → Bytes → Bool
wrong_version none version = false
wrong_version (some header) version = not (bytes_eq header version)

abbrev pub missing_session_id : Reply
missing_session_id = error_response 400 (codes "Missing Mcp-Session-Id header")

abbrev pub session_not_found : Reply
session_not_found = jsonrpc_error_response 404 (codes "Session not found")

abbrev pub invalid_version : Reply
invalid_version = error_response 400 (codes "Invalid MCP-Protocol-Version header")

-- The session that a request of `handle_get` or `handle_delete` is for, or why it is refused.
pub data Admission : Type 0 where
  refused : Reply → Admission
  admitted : Bytes → ℕ → Admission

unfoldable pub replay : Option (List Event) → Reply
replay none = error_response 410 (codes "Event ID has been evicted from store")
replay (some []) = json_response 200 none []
replay (some (event ∷ events)) = sse_response none (sse_body (event ∷ events))

-- What a request that is answered is answered with.
unfoldable pub response_reply : Bool → Option Bytes → Bytes → PendingResponse → Reply
unfolding accepts_sse sse_body
response_reply json_only accept id pending = elim pending.response_body [
  | none ↦ error_response 500 (codes "Missing response body for request")
  | some body ↦ elim pending.stream_events [
    | [] ↦ json_response 200 (some id) body
    | event ∷ events ↦
        if not json_only && accepts_sse accept
        then sse_response (some id) (sse_body (event ∷ events))
        else json_response 200 (some id) body
  ]
]

module _ {V : Type 0} where
  unfoldable pub admit_version : Manager V → Option Bytes → Bytes → ℕ → Admission
  unfolding wrong_version runtime
  admit_version manager version id pointer =
      if wrong_version version (runtime manager pointer).negotiated_protocol_version
      then refused invalid_version
      else admitted id pointer

  unfoldable pub admit_found : Manager V → Option Bytes → Bytes → Option ℕ → Admission
  unfolding admit_version
  admit_found manager version id none = refused session_not_found
  admit_found manager version id (some pointer) = admit_version manager version id pointer

  unfoldable pub admit : Manager V → Option Bytes → Option Bytes → Admission
  unfolding admit_found find_session
  admit manager version none = refused missing_session_id
  admit manager version (some id) = admit_found manager version id (find_session manager id)

  unfoldable pub delete_admitted : Manager V → Admission → Manager V × Reply
  unfolding destroy_session
  delete_admitted manager (refused reply) = (manager, reply)
  delete_admitted manager (admitted id pointer) =
      (destroy_session manager id, json_response 200 none (codes "{}"))

  unfoldable pub handle_delete : Manager V → HttpRequest → Manager V × Reply
  unfolding admit delete_admitted
  handle_delete manager request =
      delete_admitted manager (admit manager request.mcp_protocol_version request.mcp_session_id)

  unfoldable pub get_events : SessionRuntime V → Option Bytes → Reply
  unfolding replay events_after
  get_events session none = json_response 200 none []
  get_events session (some last_event_id) = replay (events_after session.event_store last_event_id)

  unfoldable pub get_admitted : Manager V → Option Bytes → Admission → Reply
  unfolding get_events runtime
  get_admitted manager last_event_id (refused reply) = reply
  get_admitted manager last_event_id (admitted id pointer) =
      get_events (runtime manager pointer) last_event_id

  unfoldable pub handle_get : Manager V → HttpRequest → Reply
  unfolding admit get_admitted
  handle_get manager request =
      get_admitted manager request.last_event_id
        (admit manager request.mcp_protocol_version request.mcp_session_id)

  unfoldable pub consume_pending_response : Manager V → ℕ → Bytes → Manager V
  unfolding set_runtime runtime consumed
  consume_pending_response manager pointer key =
      set_runtime manager pointer (consumed key (runtime manager pointer))

  -- `none` when the coroutine waits on.
  unfoldable pub wait_for_pending :
      Manager V → ℕ → Bytes → Option Bytes → Option PendingResponse → Option (Manager V × Reply)
  unfolding consume_pending_response response_reply runtime
  wait_for_pending manager pointer key accept none =
      some (manager, error_response 500 (codes "Response lost"))
  wait_for_pending manager pointer key accept (some pending) =
      if pending.response_ready
      then some (
        consume_pending_response manager pointer key,
        response_reply manager.json_only_mode accept (runtime manager pointer).session_id pending,
      )
      else none

  -- One round of the loop, from its start or from the end of a wait.
  unfoldable pub wait_for_response :
      Manager V → ℕ → Bytes → Option Bytes → Option (Manager V × Reply)
  unfolding wait_for_pending consume_pending_response runtime
  wait_for_response manager pointer key accept =
      if manager.closed
      then some (
        consume_pending_response manager pointer key,
        error_response 500 (codes "Transport closed while waiting response"),
      )
      else wait_for_pending manager pointer key accept
          (lookup key (runtime manager pointer).pending_responses)
