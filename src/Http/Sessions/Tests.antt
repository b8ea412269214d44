-- ===== src/Http/Sessions/Tests.antt =====
-- Runs of the session manager of src/transport/http_session_manager.cpp, with a parser that knows a
-- few documents.
use mcp_cpp_sdk.Prelude.{
  ◌≡◌, refl, Bool, true, false, Option, none, some, List, [], ◌∷◌, map, if◌then◌else◌, within,
  Bytes, codes, bytes_eq, arith, lookup,
}
use mcp_cpp_sdk.Json.Api.{JsonApi}
use mcp_cpp_sdk.Json.Depth.{exceeds_json_depth}
use mcp_cpp_sdk.Json.Envelope.{scan_jsonrpc_envelope}
use mcp_cpp_sdk.Json.Syntax.{
  Part, plain, Json, scalar, string, object, Members, no_member, member, dump, parts_text, no_gaps,
}
use mcp_cpp_sdk.Protocol.{negotiate_protocol_version}
use mcp_cpp_sdk.Http.Sessions.Runtime.{SessionRuntime, response_to, destination, unanswered}
use mcp_cpp_sdk.Http.Sessions.Manager.{Manager, runtime, find_session}
use mcp_cpp_sdk.Http.Sessions.Handlers.{
  HttpRequest, json_response, consume_pending_response, wait_for_response, handle_delete,
  accepts_sse, wrong_version,
}
use mcp_cpp_sdk.Http.Sessions.Post.{Post, waits, handle_post}
use mcp_cpp_sdk.Http.Sessions.Invariant.{IsValid}
use mcp_cpp_sdk.Http.Sessions.Refusals.{is_refusal, handle_post-Handled, Handled}
use mcp_cpp_sdk.Http.Sessions.Delivery.{server_sends, wait_for_response-server_sends}
use mcp_cpp_sdk.Http.Sessions.Stream.{server_sends_all}
use mcp_cpp_sdk.Http.Sessions.Deletion.{Destroyed, Unfound, handle_delete-Destroyed}
use mcp_cpp_sdk.Http.Sessions.Runs.{new_manager, Run, starts, steps, posts, Run-IsValid}

abbrev plains : Bytes → List Part
plains text = map plain text

abbrev find_member : Members → Bytes → Option Json
find_member (no_member blank) name = none
find_member (member gaps key value rest) name =
    if bytes_eq (parts_text key) name then some value else find_member rest name

abbrev member_of : Json → Bytes → Option Json
member_of (object members) name = find_member members name
member_of _ name = none

abbrev text_of : Json → Option Bytes
text_of (string parts) = some (parts_text parts)
text_of _ = none

abbrev object_test : Json → Bool
object_test (object members) = true
object_test _ = false

abbrev integer_test : Json → Bool
integer_test (scalar c text) = within b'0' b'9' c
integer_test _ = false

abbrev one : Json
one = scalar b'1' []

abbrev initialize : Json
initialize = object (
    member no_gaps (plains (codes "id")) one (
      member no_gaps (plains (codes "method")) (string (plains (codes "initialize")))
        (no_member [])))

-- The document whose text it is.
abbrev read : List Json → Bytes → Option Json
read [] text = none
read (document ∷ documents) text =
    if bytes_eq (dump document) text then some document else read documents text

abbrev api : JsonApi
api = record {
  Value = Json;
  parse = read (one ∷ initialize ∷ []);
  dump = dump;
  is_object = object_test;
  at = member_of;
  as_string = text_of;
  is_number_integer = integer_test;
}

abbrev initialize_request : HttpRequest
initialize_request = record {
  body = codes "{\"id\":1,\"method\":\"initialize\"}";
  mcp_session_id = none;
  mcp_protocol_version = none;
  last_event_id = none;
  accept = some (codes "application/json, text/event-stream");
}

abbrev made : Manager Json
made = new_manager 2

abbrev initialized : Post Json
initialized = handle_post api made false (codes "s") initialize_request

initialize_waits : initialized.outcome ≡ waits 0 (codes "1")
unfolding handle_post exceeds_json_depth
initialize_waits = refl

abbrev answer : Bytes
answer = codes "{\"id\":1,\"result\":{}}"

answer_routed : destination api answer ≡ response_to (codes "1")
unfolding destination scan_jsonrpc_envelope
answer_routed = refl

abbrev log_notice : Bytes
log_notice = codes "{\"method\":\"log\"}"

abbrev open_session : Manager Json
open_session = initialized.manager

made_runs : Run api 2 made
made_runs = starts 2 false

open_session_runs : Run api 2 open_session
open_session_runs = steps 2 made _ made_runs (posts made false (codes "s") initialize_request)

Run-IsValid_example : IsValid open_session
Run-IsValid_example = Run-IsValid api 2 open_session open_session_runs

-- A second initialize under the same id, in the session, is refused while the first waits.
abbrev again : HttpRequest
again = record initialize_request { mcp_session_id = some (codes "s") }

handle_post-Handled_example :
    Handled open_session (handle_post api open_session false (codes "t") again)
handle_post-Handled_example =
    handle_post-Handled api open_session false (codes "t") again Run-IsValid_example

again_is_refused : is_refusal (handle_post api open_session false (codes "t") again).outcome ≡ true
unfolding handle_post exceeds_json_depth
again_is_refused = refl

session_found : find_session open_session (codes "s") ≡ some 0
unfolding handle_post exceeds_json_depth find_session
session_found = refl

wait_for_response-server_sends_example :
    (wait_for_response (server_sends api open_session 0 answer) 0 (codes "1") none
      ≡ some (
        consume_pending_response (server_sends api open_session 0 answer) 0 (codes "1"),
        json_response 200 (some (runtime open_session 0).session_id) answer,
      ))
    × ((other : Bytes)
        → bytes_eq other (codes "1") ≡ false
        → lookup other (runtime (server_sends api open_session 0 answer) 0).pending_responses
          ≡ lookup other (runtime open_session 0).pending_responses)
unfolding handle_post exceeds_json_depth runtime accepts_sse
wait_for_response-server_sends_example =
    wait_for_response-server_sends api open_session 0 (codes "1") answer none unanswered refl
      (omega arith) refl answer_routed refl

abbrev base : SessionRuntime Json
base = runtime open_session 0

abbrev sent : Manager Json
sent = server_sends_all api open_session 0 (log_notice ∷ answer ∷ [])

abbrev delete_request : HttpRequest
delete_request = record {
  body = [];
  mcp_session_id = some (codes "s");
  mcp_protocol_version = some (codes "2025-11-25");
  last_event_id = none;
  accept = none;
}

handle_delete-Destroyed_example :
    ((handle_delete open_session delete_request).1 ≡ json_response 200 none (codes "{}"))
    × (Destroyed open_session (codes "s") 0 (handle_delete open_session delete_request).0
        × Unfound (handle_delete open_session delete_request).0 (codes "s"))
unfolding handle_post exceeds_json_depth runtime wrong_version negotiate_protocol_version
handle_delete-Destroyed_example =
    handle_delete-Destroyed open_session delete_request (codes "s") 0 Run-IsValid_example refl
      session_found refl
