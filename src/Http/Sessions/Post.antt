-- ===== src/Http/Sessions/Post.antt =====
-- src/transport/http_session_manager.cpp: `handle_post`, up to the wait for its response. The
-- per-connection `stateless_server` is an argument and a result. A request that a server of its own
-- answers ends in `direct`, whose response is the body of an answer 200. An exception ends the
-- connection and is `thrown`.
use mcp_cpp_sdk.Prelude.{
  ℕ, ◌+◌, Bool, true, false, not, ◌&&◌, Option, none, some, [], ◌∷◌, ◌++◌, if◌then◌else◌, Bytes,
  codes, has, emplace,
}
use mcp_cpp_sdk.Json.Api.{JsonApi, has_member, is_some, string_member, is_text, parse_peer_json}
use mcp_cpp_sdk.Protocol.{
  is_supported_protocol_version, negotiate_protocol_version, latest_protocol_version,
}
use mcp_cpp_sdk.Http.Sessions.Runtime.{SessionRuntime, unanswered}
use mcp_cpp_sdk.Http.Sessions.Manager.{Manager, runtime, set_runtime, find_session, create_session}
use mcp_cpp_sdk.Http.Sessions.Handlers.{
  HttpRequest, Reply, error_response, jsonrpc_error_response, json_response, session_not_found,
  invalid_version, wrong_version,
}

pub data Outcome (V : Type 0) : Type 0 where
  replies : Reply → Outcome V
  waits : ℕ → Bytes → Outcome V
  direct : V → Outcome V
  thrown : Outcome V

pub record Post (V : Type 0) : Type 0 where
  pub manager : Manager V
  pub stateless_server : Bool
  pub outcome : Outcome V

abbrev pub transport_closed_reply : Reply
transport_closed_reply = error_response 503 (codes "Transport closed")

abbrev pub missing_session : Reply
missing_session =
    jsonrpc_error_response 400
      (codes "Missing Mcp-Session-Id header; only initialize is allowed without a session")

abbrev pub bad_id_reply : Reply
bad_id_reply =
    jsonrpc_error_response 400 (codes "JSON-RPC request id must be a string or an integer")

abbrev pub invalid_payload : Reply
invalid_payload = error_response 400 (codes "Invalid JSON-RPC payload")

-- A header that names no supported version.
unfoldable pub unsupported_version : Option Bytes → Bool
unsupported_version none = false
unsupported_version (some version) = not (is_supported_protocol_version version)

module _ (api : JsonApi) where
  -- `request_json.is_object()` holds of every payload that gets here.
  abbrev pub has_method : Bytes → api.Value → Bool
  has_method name payload =
      api.is_object payload && is_text api (string_member api payload (codes "method")) name

  abbrev pub is_initialize_request : api.Value → Bool
  is_initialize_request payload = has_method (codes "initialize") payload

  abbrev pub is_discover_request : api.Value → Bool
  is_discover_request payload = has_method (codes "server/discover") payload

  abbrev pub is_request : api.Value → Bool
  is_request payload =
      has_member api payload (codes "id") && has_member api payload (codes "method")

  abbrev version_of_params : Option api.Value → Option Bytes
  version_of_params none = none
  version_of_params (some params) =
      if api.is_object params then string_member api params (codes "protocolVersion") else none

  unfoldable pub initialize_protocol_version : api.Value → Option Bytes
  unfolding string_member
  initialize_protocol_version payload =
      if api.is_object payload then version_of_params (api.at payload (codes "params")) else none

  abbrev pub negotiated : Option Bytes → Bytes
  negotiated none = negotiate_protocol_version latest_protocol_version
  negotiated (some requested) = negotiate_protocol_version requested

  -- An id that the server cannot echo.
  abbrev unechoable : Option api.Value → Bool
  unechoable none = false
  unechoable (some id) = not (is_some (api.as_string id)) && not (api.is_number_integer id)

  unfoldable pub bad_request_id : api.Value → Bool
  bad_request_id payload =
      has_member api payload (codes "method") && unechoable (api.at payload (codes "id"))

  abbrev pub refuse : Manager api.Value → Bool → Reply → Post api.Value
  refuse manager server reply = record {
    manager = manager;
    stateless_server = server;
    outcome = replies reply;
  }

  -- A server that is made by the factory at its first use.
  abbrev pub use_stateless_server : Manager api.Value → Bool → Manager api.Value
  use_stateless_server manager true = manager
  use_stateless_server manager false = record manager { factory_calls = manager.factory_calls + 1 }

  unfoldable pub handle_stateless_post :
      Manager api.Value → Bool → HttpRequest → api.Value → Post api.Value
  unfolding unsupported_version
  handle_stateless_post manager server request payload =
      if manager.closed
      then refuse manager server transport_closed_reply
      else if (not (is_initialize_request payload) && not (is_discover_request payload))
          && unsupported_version request.mcp_protocol_version
      then refuse manager server invalid_version
      else if not (is_request payload)
      then refuse manager server (json_response 202 none [])
      else record {
        manager = use_stateless_server manager server;
        stateless_server = true;
        outcome = direct payload;
      }

  abbrev pub use_discover_server : Manager api.Value → Bool → Manager api.Value
  use_discover_server manager true = manager
  use_discover_server manager false = record manager {
    factory_calls = manager.factory_calls + 1;
    discover_server = true;
  }

  unfoldable pub handle_sessionless_discover : Manager api.Value → Bool → api.Value → Post api.Value
  handle_sessionless_discover manager server payload =
      if manager.closed then refuse manager server transport_closed_reply else record {
        manager = use_discover_server manager manager.discover_server;
        stateless_server = server;
        outcome = direct payload;
      }

  abbrev pub write : api.Value → SessionRuntime api.Value → SessionRuntime api.Value
  write payload session = record session { written = session.written ++ payload ∷ [] }

  abbrev pub await_response : Bytes → SessionRuntime api.Value → SessionRuntime api.Value
  await_response key session = record session {
    pending_responses = emplace key unanswered session.pending_responses;
  }

  -- `write_json` into the session, which throws when its transport is closed.
  unfoldable pub write_json :
      Manager api.Value
      → Bool
      → ℕ
      → SessionRuntime api.Value
      → api.Value
      → Outcome api.Value
      → Post api.Value
  unfolding set_runtime
  write_json manager server pointer session payload outcome =
      if session.transport_closed
      then record {
        manager = set_runtime manager pointer session;
        stateless_server = server;
        outcome = thrown;
      }
      else record {
        manager = set_runtime manager pointer (write payload session);
        stateless_server = server;
        outcome = outcome;
      }

  abbrev id_text : Option api.Value → Bytes
  id_text none = []
  id_text (some id) = api.dump id

  -- `request_json.at("id").dump()`, behind the test for the member.
  abbrev pub request_id_key : api.Value → Bytes
  request_id_key payload = id_text (api.at payload (codes "id"))

  -- The end of `handle_post`, with the session as it is then.
  unfoldable pub forward :
      Manager api.Value → Bool → ℕ → SessionRuntime api.Value → api.Value → Post api.Value
  unfolding write_json set_runtime
  forward manager server pointer session payload =
      if not (is_request payload)
      then write_json manager server pointer session payload
          (replies (json_response 202 (some session.session_id) []))
      else if has (request_id_key payload) session.pending_responses
      then refuse (set_runtime manager pointer session) server
          (error_response 400 (codes "Request id already pending"))
      else write_json manager server pointer (await_response (request_id_key payload) session)
          payload (waits pointer (request_id_key payload))

  abbrev pub with_version : Bytes → SessionRuntime api.Value → SessionRuntime api.Value
  with_version version session = record session { negotiated_protocol_version = version }

  -- A request of a session that exists.
  unfoldable pub post_found :
      Manager api.Value → Bool → HttpRequest → api.Value → Option ℕ → Post api.Value
  unfolding runtime wrong_version forward
  post_found manager server request payload none = refuse manager server session_not_found
  post_found manager server request payload (some pointer) =
      let session = runtime manager pointer in
      if not (is_initialize_request payload)
        && wrong_version request.mcp_protocol_version session.negotiated_protocol_version
      then refuse manager server invalid_version
      else forward manager server pointer session payload

  -- The session that an initialize has made.
  unfoldable pub post_created :
      Manager api.Value → Bool → api.Value → Option (Manager api.Value × ℕ) → Post api.Value
  unfolding runtime forward initialize_protocol_version
  post_created manager server payload none = refuse manager server transport_closed_reply
  post_created manager server payload (some (created, pointer)) =
      forward created server pointer
        (with_version (negotiated (initialize_protocol_version payload)) (runtime created pointer))
        payload

  -- `resolve_session_for_post` and what follows it.
  unfoldable pub post_resolved :
      Manager api.Value → Bool → Bytes → HttpRequest → api.Value → Option Bytes → Post api.Value
  unfolding post_found post_created find_session create_session
  post_resolved manager server new_id request payload none =
      if is_initialize_request payload
      then post_created manager server payload (create_session manager new_id)
      else refuse manager server missing_session
  post_resolved manager server new_id request payload (some id) =
      post_found manager server request payload (find_session manager id)

  -- A sessionless `server/discover` never gets a session.
  unfoldable pub post_stateful :
      Manager api.Value → Bool → Bytes → HttpRequest → api.Value → Post api.Value
  unfolding bad_request_id handle_sessionless_discover post_resolved
  post_stateful manager server new_id request payload =
      if bad_request_id payload
      then refuse manager server bad_id_reply
      else if is_discover_request payload && not (is_some request.mcp_session_id)
      then handle_sessionless_discover manager server payload
      else post_resolved manager server new_id request payload request.mcp_session_id

  unfoldable pub post_payload :
      Manager api.Value → Bool → Bytes → HttpRequest → Option api.Value → Post api.Value
  unfolding unsupported_version handle_stateless_post post_stateful
  post_payload manager server new_id request none = refuse manager server invalid_payload
  post_payload manager server new_id request (some payload) =
      if not (api.is_object payload)
      then refuse manager server invalid_payload
      else if is_initialize_request payload && unsupported_version request.mcp_protocol_version
      then refuse manager server invalid_version
      else if manager.stateless_json_mode
      then handle_stateless_post manager server request payload
      else post_stateful manager server new_id request payload

  unfoldable pub handle_post : Manager api.Value → Bool → Bytes → HttpRequest → Post api.Value
  unfolding post_payload parse_peer_json
  handle_post manager server new_id request =
      if manager.closed
      then refuse manager server transport_closed_reply
      else post_payload manager server new_id request (parse_peer_json api request.body)
