-- ===== src/Json/Envelope.antt =====
-- src/detail/jsonrpc_envelope.hpp. A position in the text is the suffix that starts there, and npos
-- is `none`.
use mcp_cpp_sdk.Prelude.{
  ℕ, zero, suc, ◌-◌, Bool, true, false, ◌||◌, Option, none, some, [], ◌∷◌, ◌==◌, if◌then◌else◌,
  length, take, Bytes, codes, bytes_eq,
}
use mcp_cpp_sdk.Json.Depth.{
  Mode, outside, in_string, in_escape, quotes, opens, closes, other, effect,
}

pub record JsonRpcEnvelope : Type 0 where
  pub id : Bytes
  pub has_result_or_error : Bool

abbrev pub is_json_blank : ℕ → Bool
is_json_blank c = c == b' ' || (c == 0x09 || (c == 0x0A || c == 0x0D))

unfoldable pub skip_json_whitespace : Bytes → Bytes
skip_json_whitespace [] = []
skip_json_whitespace (c ∷ text) = if is_json_blank c then skip_json_whitespace text else c ∷ text

-- The loop, behind the opening quote; the flag says that the character before escapes this one.
unfoldable pub skip_string_from : Bool → Bytes → Option Bytes
skip_string_from escaped [] = none
skip_string_from true (c ∷ text) = skip_string_from false text
skip_string_from false (c ∷ text) = elim (c == 0x5C) [
  | true ↦ skip_string_from true text
  | false ↦ elim (c == 0x22) [ true ↦ some text | false ↦ skip_string_from false text ]
]

unfoldable pub skip_json_string : Bytes → Option Bytes
unfolding skip_string_from
skip_json_string [] = none
skip_json_string (opening ∷ text) = skip_string_from false text

-- The bracket loop of `skip_json_value`; the call of `skip_json_string` in it is the modes inside a
-- string.
unfoldable pub skip_nested : Mode → ℕ → Bytes → Option Bytes
skip_nested mode depth [] = none
skip_nested in_escape depth (c ∷ text) = skip_nested in_string depth text
skip_nested in_string depth (c ∷ text) =
    skip_nested (if c == 0x5C then in_escape else if c == 0x22 then outside else in_string) depth
      text
skip_nested outside depth (c ∷ text) = elim (effect c) [
  | quotes ↦ skip_nested in_string depth text
  | opens ↦ skip_nested outside (suc depth) text
  | closes ↦ elim (depth - 1 == 0) [
    | true ↦ some text
    | false ↦ skip_nested outside (depth - 1) text
  ]
  | other ↦ skip_nested outside depth text
]

abbrev pub ends_scalar : ℕ → Bool
ends_scalar c =
    c == b','
    || (c == b'}' || (c == b']' || (c == b' ' || (c == 0x09 || (c == 0x0D || c == 0x0A)))))

unfoldable pub skip_scalar : Bytes → Bytes
skip_scalar [] = []
skip_scalar (c ∷ text) = if ends_scalar c then c ∷ text else skip_scalar text

unfoldable pub skip_json_value : Bytes → Option Bytes
unfolding skip_json_string skip_nested skip_scalar
skip_json_value [] = none
skip_json_value (c ∷ text) = elim (effect c) [
  | quotes ↦ skip_json_string (c ∷ text)
  | opens ↦ skip_nested outside 0 (c ∷ text)
  | closes ↦ some (skip_scalar (c ∷ text))
  | other ↦ some (skip_scalar (c ∷ text))
]

-- The text in front of a suffix of it.
abbrev pub in_front : Bytes → Bytes → Bytes
in_front text rest = take (length text - length rest) text

-- One round of the loop: it returns nothing, it returns the envelope, or it goes on behind a comma.
pub data Step : Type 0 where
  refuse : Step
  finish : JsonRpcEnvelope → Step
  next : JsonRpcEnvelope → Bytes → Step

unfoldable pub assign_member : JsonRpcEnvelope → Bytes → Bytes → JsonRpcEnvelope
assign_member envelope key value =
    if bytes_eq key (codes "id")
    then record envelope { id = value }
    else if bytes_eq key (codes "result") || bytes_eq key (codes "error")
    then record envelope { has_result_or_error = true }
    else envelope

-- Behind a value and its whitespace.
unfoldable pub after_value : JsonRpcEnvelope → Bytes → Step
unfolding skip_json_whitespace
after_value envelope [] = refuse
after_value envelope (c ∷ text) =
    if c == b'}'
    then finish envelope
    else if c == b','
    then next envelope (skip_json_whitespace text)
    else refuse

abbrev pub same_length : Bytes → Bytes → Bool
same_length xs ys = length xs == length ys

-- The value, from its first character.
unfoldable pub member_value : JsonRpcEnvelope → Bytes → Bytes → Step
unfolding skip_json_value assign_member after_value skip_json_whitespace
member_value envelope key text = elim (skip_json_value text) [
  | none ↦ refuse
  | some rest ↦
      if same_length rest text
      then refuse
      else after_value (assign_member envelope key (in_front text rest)) (skip_json_whitespace rest)
]

-- Behind a key and its whitespace.
unfoldable pub after_key : JsonRpcEnvelope → Bytes → Bytes → Step
unfolding member_value skip_json_whitespace
after_key envelope key [] = refuse
after_key envelope key (c ∷ text) =
    if c == b':' then member_value envelope key (skip_json_whitespace text) else refuse

abbrev pub has_backslash : Bytes → Bool
has_backslash [] = false
has_backslash (c ∷ text) = c == 0x5C || has_backslash text

-- `text.substr(pos + 1, key_end - pos - 2)`: the text is what stands behind the opening quote.
abbrev pub key_of : Bytes → Bytes → Bytes
key_of text rest = take (length text - length rest - 1) text

unfoldable pub scan_key : JsonRpcEnvelope → Bytes → Step
unfolding skip_string_from after_key skip_json_whitespace
scan_key envelope text = elim (skip_string_from false text) [
  | none ↦ refuse
  | some rest ↦
      if has_backslash (key_of text rest)
      then refuse
      else after_key envelope (key_of text rest) (skip_json_whitespace rest)
]

unfoldable pub scan_member : JsonRpcEnvelope → Bytes → Step
unfolding scan_key
scan_member envelope [] = refuse
scan_member envelope (c ∷ text) = if c == 0x22 then scan_key envelope text else refuse

-- The outcome of the scan: `std::nullopt`, an envelope, or the fuel of the loop does not suffice.
pub data Outcome : Type 0 where
  nullopt out_of_fuel : Outcome
  found : JsonRpcEnvelope → Outcome

-- What a round leads to, given the rest of the loop.
unfoldable pub after_step : (JsonRpcEnvelope → Bytes → Outcome) → Step → Outcome
after_step loop refuse = nullopt
after_step loop (finish envelope) = found envelope
after_step loop (next envelope text) = loop envelope text

unfoldable pub scan_from : ℕ → JsonRpcEnvelope → Bytes → Outcome
unfolding scan_member after_step
scan_from zero envelope text = out_of_fuel
scan_from (suc fuel) envelope text = after_step (scan_from fuel) (scan_member envelope text)

abbrev pub empty_envelope : JsonRpcEnvelope
empty_envelope = record { id = []; has_result_or_error = false }

-- Behind the opening brace and its whitespace.
unfoldable pub scan_object : Bytes → Outcome
unfolding scan_from
scan_object [] = scan_from 1 empty_envelope []
scan_object (c ∷ text) =
    if c == b'}'
    then found empty_envelope
    else scan_from (suc (length (c ∷ text))) empty_envelope (c ∷ text)

unfoldable pub scan_start : Bytes → Outcome
unfolding scan_object skip_json_whitespace
scan_start [] = nullopt
scan_start (c ∷ text) = if c == b'{' then scan_object (skip_json_whitespace text) else nullopt

unfoldable pub scan_jsonrpc_envelope : Bytes → Outcome
unfolding scan_start skip_json_whitespace
scan_jsonrpc_envelope text = scan_start (skip_json_whitespace text)
