-- ===== src/Json/Api.antt =====
-- What the SDK uses of nlohmann::json, which is not code of the SDK: the operations are parameters.
-- `at` is a look-up that `contains` guards; `as_string` is `get<std::string>` behind `is_string`.
use mcp_cpp_sdk.Prelude.{Bool, true, false, Option, none, some, Bytes, bytes_eq, if◌then◌else◌}
use mcp_cpp_sdk.Json.Depth.{exceeds_json_depth, max_peer_json_depth}

pub record JsonApi : Type 1 where
  pub Value : Type 0
  pub parse : Bytes → Option Value
  pub dump : Value → Bytes
  pub is_object : Value → Bool
  pub at : Value → Bytes → Option Value
  pub as_string : Value → Option Bytes
  pub is_number_integer : Value → Bool

abbrev pub is_some {ℓ} : {A : Type ℓ} → Option A → Bool
is_some none = false
is_some (some a) = true

module _ (api : JsonApi) where
  abbrev pub has_member : api.Value → Bytes → Bool
  has_member value name = is_some (api.at value name)

  -- The member, where it is a string.
  unfoldable pub string_member : api.Value → Bytes → Option Bytes
  string_member value name = elim (api.at value name) [ none ↦ none | some v ↦ api.as_string v ]

  -- A discarded value is `none`.
  unfoldable pub parse_peer_json : Bytes → Option api.Value
  parse_peer_json text =
      if exceeds_json_depth text max_peer_json_depth then none else api.parse text

  abbrev pub is_text : Option Bytes → Bytes → Bool
  is_text none expected = false
  is_text (some text) expected = bytes_eq text expected
