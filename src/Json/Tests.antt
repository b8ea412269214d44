-- ===== src/Json/Tests.antt =====
-- Runs of the scanners of src/detail on concrete texts.
use mcp_cpp_sdk.Prelude.{◌≡◌, ◌≢◌, refl, true, false, [], ◌∷◌, ◌++◌, Bytes, codes}
use mcp_cpp_sdk.Json.Syntax.{
  plain, escaped, Json, scalar, string, array, object, no_item, item, Members, no_member, member,
  dump, IsJson, AreMembers, Gaps, no_gaps,
}
use mcp_cpp_sdk.Json.Depth.{exceeds_json_depth}
use mcp_cpp_sdk.Json.Nesting.{exceeds_json_depth-dump}
use mcp_cpp_sdk.Json.Envelope.{found, nullopt, out_of_fuel, assign_member, scan_jsonrpc_envelope}
use mcp_cpp_sdk.Json.Progress.{scan_jsonrpc_envelope-ends}
use mcp_cpp_sdk.Json.Routing.{PlainKeys, scan_jsonrpc_envelope-dump}

abbrev one : Json
one = scalar b'1' []

abbrev spaces : Bytes
spaces = codes " "

abbrev feed : Bytes
feed = 0x0D ∷ 0x0A ∷ 0x09 ∷ []

-- `[ [1 ],"[\""]`
abbrev nested : Json
nested = array (
    item spaces (array (item [] one spaces (no_item []))) []
      (item [] (string (plain b'[' ∷ escaped 0x22 ∷ [])) [] (no_item [])))

nested-IsJson : IsJson nested
nested-IsJson =
    ((refl, tt), (tt, ((tt, ((refl, tt), ((refl, tt), tt))), (tt, (tt, ((refl, (tt, tt)), tt))))))

exceeds_json_depth-dump_example : exceeds_json_depth (spaces ++ (dump nested ++ feed)) 2 ≡ false
exceeds_json_depth-dump_example =
    exceeds_json_depth-dump spaces feed nested 2 (refl, tt) (refl, (refl, (refl, tt))) nested-IsJson

abbrev spaced : Gaps
spaced = record { before_key = feed; behind_key = spaces; before_value = spaces; behind_value = [] }

-- `{"id":1,` and, on a new line, `"result" : [1] }`
abbrev response : Members
response = member no_gaps (plain b'i' ∷ plain b'd' ∷ []) one (
    member spaced (plain b'r' ∷ plain b'e' ∷ plain b's' ∷ plain b'u' ∷ plain b'l' ∷ plain b't' ∷ [])
      (array (item [] one [] (no_item []))) (no_member spaces))

response-PlainKeys : PlainKeys response
response-PlainKeys = ((refl, (refl, tt)), ((refl, (refl, (refl, (refl, (refl, (refl, tt)))))), tt))

response-AreMembers : AreMembers response
response-AreMembers = (
  (tt, (tt, (tt, tt))),
  (
    (refl, (refl, tt)),
    (
      (refl, tt),
      (
        ((refl, (refl, (refl, tt))), ((refl, tt), ((refl, tt), tt))),
        (
          (refl, (refl, (refl, (refl, (refl, (refl, tt)))))),
          ((tt, (tt, ((refl, tt), tt))), (refl, tt)),
        ),
      ),
    ),
  ),
)

scan_jsonrpc_envelope-dump_example :
    scan_jsonrpc_envelope (feed ++ (dump (object response) ++ codes "x"))
    ≡ found (record { id = codes "1"; has_result_or_error = true })
unfolding assign_member
scan_jsonrpc_envelope-dump_example =
    scan_jsonrpc_envelope-dump feed (codes "x") response (refl, (refl, (refl, tt)))
      response-AreMembers response-PlainKeys

scan_jsonrpc_envelope-ends_example : scan_jsonrpc_envelope (codes "{\"id\": [7") ≢ out_of_fuel
scan_jsonrpc_envelope-ends_example = scan_jsonrpc_envelope-ends (codes "{\"id\": [7")

escaped_key : scan_jsonrpc_envelope (codes "{\"i\\u0064\": 7}") ≡ nullopt
unfolding scan_jsonrpc_envelope
escaped_key = refl

unterminated : scan_jsonrpc_envelope (codes "{\"id\": [7") ≡ nullopt
unfolding scan_jsonrpc_envelope
unterminated = refl
