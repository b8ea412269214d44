-- ===== src/Http/Sessions/Refusals.antt =====
-- `handle_post` keeps the sessions of src/transport/http_session_manager.cpp well-formed, and a
-- request that it refuses leaves them as they were.
use mcp_cpp_sdk.Prelude.{
  ℕ, ◌≡◌, refl, ap, Bool, true, false, not, ◌&&◌, Option, none, some, [], if-both, length, Bytes,
  has, get_or-append_last, arith,
}
use mcp_cpp_sdk.Json.Api.{JsonApi, is_some, parse_peer_json}
use mcp_cpp_sdk.Http.Sessions.Runtime.{SessionRuntime}
use mcp_cpp_sdk.Http.Sessions.Manager.{
  Manager, new_session, runtime, set_runtime, find_session, with_session, create_session,
}
use mcp_cpp_sdk.Http.Sessions.Handlers.{
  HttpRequest, Reply, error_response, jsonrpc_error_response, json_response, session_not_found,
  invalid_version,
}
use mcp_cpp_sdk.Http.Sessions.Post.{
  Outcome, replies, direct, Post, transport_closed_reply, bad_id_reply, invalid_payload,
  unsupported_version, is_initialize_request, is_discover_request, is_request, bad_request_id,
  refuse, use_stateless_server, use_discover_server, handle_stateless_post,
  handle_sessionless_discover, write, await_response, write_json, request_id_key, forward,
  with_version, post_found, post_created, missing_session, post_resolved, post_stateful,
  post_payload, handle_post,
}
use mcp_cpp_sdk.Http.Sessions.Invariant.{
  IsValid, set_runtime-same, set_runtime-IsValid, with_session-IsValid,
}

-- The outcomes that refuse a request.
abbrev pub is_refusal : {V : Type 0} → Outcome V → Bool
is_refusal (replies (error_response status message)) = true
is_refusal (replies (jsonrpc_error_response status message)) = true
is_refusal _ = false

-- What a request leads to from a manager: a well-formed one, and the same if it is refused.
abbrev pub Handled : {V : Type 0} → Manager V → Post V → Type 0
Handled manager post =
    IsValid post.manager × ((is_refusal post.outcome ≡ true) → post.manager ≡ manager)

module _ (api : JsonApi) where
  refuse-Handled :
      (manager : Manager api.Value) (server : Bool) (reply : Reply)
      → IsValid manager
      → Handled manager (refuse api manager server reply)
  refuse-Handled manager server reply valid = (valid, λ e. refl)

  -- The change of a session in front of a write, and after it.
  write_json-Handled :
      (base manager : Manager api.Value) (server : Bool) (pointer : ℕ)
      (session : SessionRuntime api.Value) (payload : api.Value) (outcome : Outcome api.Value)
      → IsValid manager
      → session.session_id ≡ (runtime manager pointer).session_id
      → is_refusal outcome ≡ false
      → Handled base (write_json api manager server pointer session payload outcome)
  unfolding write_json
  write_json-Handled base manager server pointer session payload outcome valid same accepted =
      if-both (Handled base) session.transport_closed _ _
        (λ e. (set_runtime-IsValid manager pointer session same valid, λ h. ground (arith, h)))
        (λ e. (
          set_runtime-IsValid manager pointer (write api payload session) same valid,
          λ h. ground (arith, h, accepted),
        ))

  forward-Handled :
      (base manager : Manager api.Value) (server : Bool) (pointer : ℕ)
      (session : SessionRuntime api.Value) (payload : api.Value)
      → IsValid manager
      → session.session_id ≡ (runtime manager pointer).session_id
      → ((has (request_id_key api payload) session.pending_responses ≡ true)
          → set_runtime manager pointer session ≡ base)
      → Handled base (forward api manager server pointer session payload)
  unfolding forward
  forward-Handled base manager server pointer session payload valid same unchanged =
      if-both (Handled base) (not (is_request api payload)) _ _
        (λ e. write_json-Handled base manager server pointer session payload _ valid same refl)
        (λ e.
          if-both (Handled base) (has (request_id_key api payload) session.pending_responses) _ _
            (λ there.
              (set_runtime-IsValid manager pointer session same valid, λ h. unchanged there))
            (λ absent.
              write_json-Handled base manager server pointer
                (await_response api (request_id_key api payload) session) payload _ valid same
                refl))

  post_found-Handled :
      (manager : Manager api.Value) (server : Bool) (request : HttpRequest) (payload : api.Value)
      (found : Option ℕ)
      → IsValid manager
      → Handled manager (post_found api manager server request payload found)
  unfolding post_found
  post_found-Handled manager server request payload none valid =
      refuse-Handled manager server session_not_found valid
  post_found-Handled manager server request payload (some pointer) valid =
      if-both (Handled manager) (not (is_initialize_request api payload) && _) _ _
        (λ e. refuse-Handled manager server invalid_version valid)
        (λ e.
          forward-Handled manager manager server pointer (runtime manager pointer) payload valid
            refl (λ there. set_runtime-same manager pointer))

  -- A session that was just made has no request that waits.
  runtime-with_session :
      (manager : Manager api.Value) (id : Bytes)
      → runtime (with_session manager id) (length manager.runtimes)
        ≡ new_session id manager.event_store_capacity
  unfolding runtime
  runtime-with_session manager id = get_or-append_last manager.runtimes _ (new_session [] 0)

  post_created-Handled :
      (manager : Manager api.Value) (server : Bool) (new_id : Bytes) (payload : api.Value)
      → manager.closed ≡ false
      → IsValid manager
      → Handled manager (
          post_created api manager server payload
            (some (with_session manager new_id, length manager.runtimes)))
  unfolding post_created
  post_created-Handled manager server new_id payload open_still valid =
      let created = with_session manager new_id in
      let pointer = length manager.runtimes in
      forward-Handled manager created server pointer (with_version api _ (runtime created pointer))
        payload (with_session-IsValid manager new_id open_still valid) refl
        (λ there. ground (
          arith,
          there,
          ap (λ s. has (request_id_key api payload) s.pending_responses)
              (runtime-with_session manager new_id),
        ))

  create-Handled :
      (manager : Manager api.Value) (server : Bool) (new_id : Bytes) (payload : api.Value)
      → IsValid manager
      → Handled manager (post_created api manager server payload (create_session manager new_id))
  unfolding create_session post_created
  create-Handled manager server new_id payload valid =
      if-both (λ made. Handled manager (post_created api manager server payload made))
        manager.closed _ _ (λ e. refuse-Handled manager server transport_closed_reply valid)
        (λ e. post_created-Handled manager server new_id payload e valid)

  post_resolved-Handled :
      (manager : Manager api.Value) (server : Bool) (new_id : Bytes) (request : HttpRequest)
      (payload : api.Value) (id : Option Bytes)
      → IsValid manager
      → Handled manager (post_resolved api manager server new_id request payload id)
  unfolding post_resolved
  post_resolved-Handled manager server new_id request payload none valid =
      if-both (Handled manager) (is_initialize_request api payload) _ _
        (λ e. create-Handled manager server new_id payload valid)
        (λ e. refuse-Handled manager server missing_session valid)
  post_resolved-Handled manager server new_id request payload (some id) valid =
      post_found-Handled manager server request payload (find_session manager id) valid

  -- A server that the factory makes is no session.
  direct-Handled :
      (base manager : Manager api.Value) (server : Bool) (payload : api.Value)
      → IsValid manager
      → Handled base
          (record { manager = manager; stateless_server = server; outcome = direct payload })
  direct-Handled base manager server payload valid = (valid, λ h. ground (arith, h))

  use_server-IsValid :
      (manager : Manager api.Value) (server : Bool)
      → IsValid manager
      → IsValid (use_stateless_server api manager server)
        × IsValid (use_discover_server api manager server)
  use_server-IsValid manager true valid = (valid, valid)
  use_server-IsValid manager false valid = (
    record { are_sessions = valid.are_sessions; closed_empty = valid.closed_empty },
    record { are_sessions = valid.are_sessions; closed_empty = valid.closed_empty },
  )

  handle_stateless_post-Handled :
      (manager : Manager api.Value) (server : Bool) (request : HttpRequest) (payload : api.Value)
      → IsValid manager
      → Handled manager (handle_stateless_post api manager server request payload)
  unfolding handle_stateless_post
  handle_stateless_post-Handled manager server request payload valid =
      if-both (Handled manager) manager.closed _ _
        (λ e. refuse-Handled manager server transport_closed_reply valid)
        (λ e.
          if-both (Handled manager)
            ((not (is_initialize_request api payload) && not (is_discover_request api payload))
              && _)
            _ _ (λ e. refuse-Handled manager server invalid_version valid)
            (λ e.
              if-both (Handled manager) (not (is_request api payload)) _ _
                (λ e. refuse-Handled manager server (json_response 202 none []) valid)
                (λ e.
                  direct-Handled manager _ true payload
                    (use_server-IsValid manager server valid).0)))

  handle_sessionless_discover-Handled :
      (manager : Manager api.Value) (server : Bool) (payload : api.Value)
      → IsValid manager
      → Handled manager (handle_sessionless_discover api manager server payload)
  unfolding handle_sessionless_discover
  handle_sessionless_discover-Handled manager server payload valid =
      if-both (Handled manager) manager.closed _ _
        (λ e. refuse-Handled manager server transport_closed_reply valid)
        (λ e.
          direct-Handled manager _ server payload
            (use_server-IsValid manager manager.discover_server valid).1)

  post_stateful-Handled :
      (manager : Manager api.Value) (server : Bool) (new_id : Bytes) (request : HttpRequest)
      (payload : api.Value)
      → IsValid manager
      → Handled manager (post_stateful api manager server new_id request payload)
  unfolding post_stateful
  post_stateful-Handled manager server new_id request payload valid =
      if-both (Handled manager) (bad_request_id api payload) _ _
        (λ e. refuse-Handled manager server bad_id_reply valid)
        (λ e.
          if-both (Handled manager)
            (is_discover_request api payload && not (is_some request.mcp_session_id)) _ _
            (λ e. handle_sessionless_discover-Handled manager server payload valid)
            (λ e.
              post_resolved-Handled manager server new_id request payload request.mcp_session_id
                valid))

  post_payload-Handled :
      (manager : Manager api.Value) (server : Bool) (new_id : Bytes) (request : HttpRequest)
      (payload : Option api.Value)
      → IsValid manager
      → Handled manager (post_payload api manager server new_id request payload)
  unfolding post_payload
  post_payload-Handled manager server new_id request none valid =
      refuse-Handled manager server invalid_payload valid
  post_payload-Handled manager server new_id request (some payload) valid =
      if-both (Handled manager) (not (api.is_object payload)) _ _
        (λ e. refuse-Handled manager server invalid_payload valid)
        (λ e.
          if-both (Handled manager)
            (is_initialize_request api payload && unsupported_version request.mcp_protocol_version)
            _ _ (λ e. refuse-Handled manager server invalid_version valid)
            (λ e.
              if-both (Handled manager) manager.stateless_json_mode _ _
                (λ e. handle_stateless_post-Handled manager server request payload valid)
                (λ e. post_stateful-Handled manager server new_id request payload valid)))

  -- From a manager whose sessions are well-formed, a POST leads to one whose sessions are
  -- well-formed, and one that is refused with an error, whatever the error, leaves the manager as it
  -- was: no session is made or changed, no request waits, and no server is made.
  pub handle_post-Handled :
      (manager : Manager api.Value) (server : Bool) (new_id : Bytes) (request : HttpRequest)
      → IsValid manager
      → Handled manager (handle_post api manager server new_id request)
  unfolding handle_post
  handle_post-Handled manager server new_id request valid =
      if-both (Handled manager) manager.closed _ _
        (λ e. refuse-Handled manager server transport_closed_reply valid)
        (λ e.
          post_payload-Handled manager server new_id request (parse_peer_json api request.body)
            valid)
