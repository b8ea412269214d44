-- ===== src/Json/Depth.antt =====
-- src/detail/peer_json.hpp: the bound on the nesting of a document that a peer sends. The parser,
-- nlohmann's, is not modelled.
use mcp_cpp_sdk.Prelude.{
  ℕ, suc, ◌-◌, Bool, true, false, ◌||◌, [], ◌∷◌, ltb, ◌==◌, if◌then◌else◌, Bytes,
}

abbrev pub max_peer_json_depth : ℕ
max_peer_json_depth = 128

-- `in_string` and `escaped`.
pub data Mode : Type 0 where
  outside in_string in_escape : Mode

-- The cases of the `switch`.
pub data Effect : Type 0 where
  quotes opens closes other : Effect

abbrev pub effect : ℕ → Effect
effect c =
    if c == 0x22
    then quotes
    else if c == b'[' || c == b'{'
    then opens
    else if c == b']' || c == b'}'
    then closes
    else other

-- The loop, from a depth and a mode.
unfoldable pub exceeds_from : ℕ → Mode → ℕ → Bytes → Bool
exceeds_from max_depth mode depth [] = false
exceeds_from max_depth in_escape depth (c ∷ text) = exceeds_from max_depth in_string depth text
exceeds_from max_depth in_string depth (c ∷ text) =
    exceeds_from max_depth
      (if c == 0x5C then in_escape else if c == 0x22 then outside else in_string) depth text
exceeds_from max_depth outside depth (c ∷ text) = elim (effect c) [
  | quotes ↦ exceeds_from max_depth in_string depth text
  | opens ↦ elim (ltb max_depth (suc depth)) [
    | true ↦ true
    | false ↦ exceeds_from max_depth outside (suc depth) text
  ]
  | closes ↦ exceeds_from max_depth outside (depth - 1) text
  | other ↦ exceeds_from max_depth outside depth text
]

unfoldable pub exceeds_json_depth : Bytes → ℕ → Bool
unfolding exceeds_from
exceeds_json_depth text max_depth = exceeds_from max_depth outside 0 text
