-- ===== src/Json/Progress.antt =====
-- The loop of src/detail/jsonrpc_envelope.hpp moves forward in every round, so the scan ends.
use mcp_cpp_sdk.Prelude.{
  ℕ, zero, suc, ◌-◌, ◌≤◌, ◌<◌, ◌≢◌, subst, Bool, true, false, Option, none, some, [], ◌∷◌, ◌==◌,
  if◌then◌else◌, length, Bytes, arith, Bool-cases, Option-cases, inl, inr,
}
use mcp_cpp_sdk.Json.Depth.{
  Mode, outside, in_string, in_escape, quotes, opens, closes, other, effect,
}
use mcp_cpp_sdk.Json.Envelope.{
  JsonRpcEnvelope, is_json_blank, skip_json_whitespace, skip_string_from, skip_json_string,
  skip_nested, ends_scalar, skip_scalar, skip_json_value, Step, refuse, finish, next, after_value,
  same_length, member_value, after_key, has_backslash, key_of, scan_key, scan_member, Outcome,
  out_of_fuel, scan_from, empty_envelope, scan_object, scan_start, scan_jsonrpc_envelope,
  after_step,
}

skip_json_whitespace-length : (text : Bytes) → length (skip_json_whitespace text) ≤ length text
unfolding skip_json_whitespace
skip_json_whitespace-length [] = omega arith
skip_json_whitespace-length (c ∷ text) = elim (Bool-cases (is_json_blank c)) [
  | inl e ↦ rw (e, if◌then◌else◌) (omega (arith, skip_json_whitespace-length text))
  | inr e ↦ rw (e, if◌then◌else◌) (omega arith)
]

abbrev AtMost : ℕ → Option Bytes → Type 0
AtMost n none = Unit
AtMost n (some rest) = length rest ≤ n

AtMost-suc :
    (text : Bytes) (o : Option Bytes) → AtMost (length text) o → AtMost (suc (length text)) o
AtMost-suc text none h = tt
AtMost-suc text (some rest) h = omega arith

skip_string_from-AtMost :
    (escaped : Bool) (text : Bytes) → AtMost (length text) (skip_string_from escaped text)
unfolding skip_string_from
skip_string_from-AtMost escaped [] = tt
skip_string_from-AtMost true (c ∷ text) =
    AtMost-suc text (skip_string_from false text) (skip_string_from-AtMost false text)
skip_string_from-AtMost false (c ∷ text) =
    ground (arith, skip_string_from-AtMost true text, skip_string_from-AtMost false text)

skip_nested-AtMost :
    (mode : Mode) (depth : ℕ) (text : Bytes) → AtMost (length text) (skip_nested mode depth text)
unfolding skip_nested
skip_nested-AtMost mode depth [] = tt
skip_nested-AtMost in_escape depth (c ∷ text) =
    AtMost-suc text _ (skip_nested-AtMost in_string depth text)
skip_nested-AtMost in_string depth (c ∷ text) = AtMost-suc text _ (skip_nested-AtMost _ depth text)
skip_nested-AtMost outside depth (c ∷ text) =
    elim (effect c)
      as (λ e. AtMost (suc (length text)) (elim e [
        | quotes ↦ skip_nested in_string depth text
        | opens ↦ skip_nested outside (suc depth) text
        | closes ↦ elim (depth - 1 == 0) [
          | true ↦ some text
          | false ↦ skip_nested outside (depth - 1) text
        ]
        | other ↦ skip_nested outside depth text
      ])) [
        | quotes ↦ AtMost-suc text _ (skip_nested-AtMost in_string depth text)
        | opens ↦ AtMost-suc text _ (skip_nested-AtMost outside (suc depth) text)
        | closes ↦
            elim (depth - 1 == 0)
              as (λ b.
                AtMost (suc (length text))
                  (elim b [ true ↦ some text | false ↦ skip_nested outside (depth - 1) text ])) [
                    | true ↦ omega arith
                    | false ↦ AtMost-suc text _ (skip_nested-AtMost outside (depth - 1) text)
                  ]
        | other ↦ AtMost-suc text _ (skip_nested-AtMost outside depth text)
      ]

skip_scalar-length : (text : Bytes) → length (skip_scalar text) ≤ length text
unfolding skip_scalar
skip_scalar-length [] = omega arith
skip_scalar-length (c ∷ text) = elim (Bool-cases (ends_scalar c)) [
  | inl e ↦ rw (e, if◌then◌else◌) (omega arith)
  | inr e ↦ rw (e, if◌then◌else◌) (omega (arith, skip_scalar-length text))
]

skip_json_value-AtMost : (text : Bytes) → AtMost (length text) (skip_json_value text)
unfolding skip_json_value skip_json_string
skip_json_value-AtMost [] = tt
skip_json_value-AtMost (c ∷ text) =
    elim (effect c)
      as (λ e. AtMost (suc (length text)) (elim e [
        | quotes ↦ skip_json_string (c ∷ text)
        | opens ↦ skip_nested outside 0 (c ∷ text)
        | closes ↦ some (skip_scalar (c ∷ text))
        | other ↦ some (skip_scalar (c ∷ text))
      ])) [
        | quotes ↦ AtMost-suc text _ (skip_string_from-AtMost false text)
        | opens ↦ skip_nested-AtMost outside 0 (c ∷ text)
        | closes ↦ skip_scalar-length (c ∷ text)
        | other ↦ skip_scalar-length (c ∷ text)
      ]

-- A round that goes on from a text of length n does so at a shorter one.
abbrev Shorter : ℕ → Step → Type 0
Shorter n refuse = Unit
Shorter n (finish envelope) = Unit
Shorter n (next envelope text) = length text < n

Shorter-le : (m n : ℕ) (step : Step) → m ≤ n → Shorter m step → Shorter n step
Shorter-le m n refuse le h = tt
Shorter-le m n (finish envelope) le h = tt
Shorter-le m n (next envelope text) le h = omega arith

after_value-Shorter :
    (envelope : JsonRpcEnvelope) (text : Bytes) → Shorter (length text) (after_value envelope text)
unfolding after_value
after_value-Shorter envelope [] = tt
after_value-Shorter envelope (c ∷ text) = elim (Bool-cases (c == b'}')) [
  | inl e ↦ rw (e, if◌then◌else◌) tt
  | inr e ↦ elim (Bool-cases (c == b',')) [
    | inl e' ↦
        rw (e, if◌then◌else◌, e', if◌then◌else◌) (omega (arith, skip_json_whitespace-length text))
    | inr e' ↦ rw (e, if◌then◌else◌, e', if◌then◌else◌) tt
  ]
]

member_value-Shorter :
    (envelope : JsonRpcEnvelope) (key text : Bytes)
    → Shorter (length text) (member_value envelope key text)
unfolding member_value
member_value-Shorter envelope key text = elim (Option-cases (skip_json_value text)) [
  | inl e ↦ rw (member_value, e) tt
  | inr (rest, e) ↦ elim (Bool-cases (same_length rest text)) [
    | inl s ↦ rw (member_value, e, s, if◌then◌else◌) tt
    | inr s ↦
        let below = subst (AtMost (length text)) e (skip_json_value-AtMost text) in
        rw (member_value, e, s, if◌then◌else◌)
          (Shorter-le (length (skip_json_whitespace rest)) (length text) _
            (omega (arith, below, skip_json_whitespace-length rest))
            (after_value-Shorter _ (skip_json_whitespace rest)))
  ]
]

after_key-Shorter :
    (envelope : JsonRpcEnvelope) (key text : Bytes)
    → Shorter (length text) (after_key envelope key text)
unfolding after_key
after_key-Shorter envelope key [] = tt
after_key-Shorter envelope key (c ∷ text) = elim (Bool-cases (c == b':')) [
  | inl e ↦
      rw (e, if◌then◌else◌)
        (Shorter-le (length (skip_json_whitespace text)) (suc (length text)) _
          (omega (arith, skip_json_whitespace-length text))
          (member_value-Shorter envelope key (skip_json_whitespace text)))
  | inr e ↦ rw (e, if◌then◌else◌) tt
]

scan_key-Shorter :
    (envelope : JsonRpcEnvelope) (text : Bytes) → Shorter (length text) (scan_key envelope text)
unfolding scan_key
scan_key-Shorter envelope text = elim (Option-cases (skip_string_from false text)) [
  | inl e ↦ rw (scan_key, e) tt
  | inr (rest, e) ↦ elim (Bool-cases (has_backslash (key_of text rest))) [
    | inl s ↦ rw (scan_key, e, s, if◌then◌else◌) tt
    | inr s ↦
        let below = subst (AtMost (length text)) e (skip_string_from-AtMost false text) in
        rw (scan_key, e, s, if◌then◌else◌)
          (Shorter-le (length (skip_json_whitespace rest)) (length text) _
            (omega (arith, below, skip_json_whitespace-length rest))
            (after_key-Shorter envelope (key_of text rest) (skip_json_whitespace rest)))
  ]
]

scan_member-Shorter :
    (envelope : JsonRpcEnvelope) (text : Bytes) → Shorter (length text) (scan_member envelope text)
unfolding scan_member
scan_member-Shorter envelope [] = tt
scan_member-Shorter envelope (c ∷ text) = elim (Bool-cases (c == 0x22)) [
  | inl e ↦
      rw (e, if◌then◌else◌)
        (Shorter-le (length text) (suc (length text)) _ (omega arith)
          (scan_key-Shorter envelope text))
  | inr e ↦ rw (e, if◌then◌else◌) tt
]

after_step-ends :
    (fuel : ℕ) (loop : JsonRpcEnvelope → Bytes → Outcome) (step : Step)
    → ((envelope : JsonRpcEnvelope) (text : Bytes)
        → length text < fuel
        → loop envelope text ≢ out_of_fuel)
    → Shorter fuel step
    → after_step loop step ≢ out_of_fuel
unfolding after_step
after_step-ends fuel loop refuse ih h e = ground (arith, e)
after_step-ends fuel loop (finish envelope) ih h e = ground (arith, e)
after_step-ends fuel loop (next envelope text) ih h e = ih envelope text h e

scan_from-ends :
    (fuel : ℕ) (envelope : JsonRpcEnvelope) (text : Bytes)
    → length text < fuel
    → scan_from fuel envelope text ≢ out_of_fuel
unfolding scan_from
scan_from-ends zero envelope text h = absurd (omega arith)
scan_from-ends (suc fuel) envelope text h =
    after_step-ends fuel (scan_from fuel) (scan_member envelope text) (scan_from-ends fuel) (
      Shorter-le (length text) fuel (scan_member envelope text) (omega arith)
        (scan_member-Shorter envelope text))

scan_object-ends : (text : Bytes) → scan_object text ≢ out_of_fuel
unfolding scan_object
scan_object-ends [] = scan_from-ends 1 empty_envelope [] (omega arith)
scan_object-ends (c ∷ text) = elim (Bool-cases (c == b'}')) [
  | inl e ↦ rw (e, if◌then◌else◌) (λ h. ground (arith, h))
  | inr e ↦
      rw (e, if◌then◌else◌)
        (scan_from-ends (suc (length (c ∷ text))) empty_envelope (c ∷ text) (omega arith))
]

scan_start-ends : (text : Bytes) → scan_start text ≢ out_of_fuel
unfolding scan_start
scan_start-ends [] = λ h. ground (arith, h)
scan_start-ends (c ∷ text) = elim (Bool-cases (c == b'{')) [
  | inl e ↦ rw (e, if◌then◌else◌) (scan_object-ends (skip_json_whitespace text))
  | inr e ↦ rw (e, if◌then◌else◌) (λ h. ground (arith, h))
]

-- The scan of any text ends: its fuel suffices.
pub scan_jsonrpc_envelope-ends : (text : Bytes) → scan_jsonrpc_envelope text ≢ out_of_fuel
unfolding scan_jsonrpc_envelope
scan_jsonrpc_envelope-ends text = scan_start-ends (skip_json_whitespace text)
