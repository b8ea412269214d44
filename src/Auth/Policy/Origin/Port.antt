-- ===== src/Auth/Policy/Origin/Port.antt =====
-- The ports that src/auth/metadata_policy.cpp reads.
use mcp_cpp_sdk.Prelude.{
  ℕ, ◌+◌, ◌*◌, ◌-◌, ◌≤◌, ◌≡◌, refl, sym, ◌∙◌, Bool, true, false, not, ◌&&◌, Option, none, some, [],
  ◌∷◌, ltb, ltb-false, leb, within, if◌then◌else◌, if-both, Bytes, arith,
}
use mcp_cpp_sdk.Http.Types.{is_empty}
use mcp_cpp_sdk.Auth.Policy.Origin.{port_from, parse_strict_port}

abbrev pub are_digits : Bytes → Bool
are_digits [] = true
are_digits (c ∷ text) = within b'0' b'9' c && are_digits text

-- The number that digits write behind a value, of any size.
abbrev pub decimal_from : ℕ → Bytes → ℕ
decimal_from value [] = value
decimal_from value (c ∷ text) = decimal_from (value * 10 + (c - b'0')) text

abbrev pub in_range : Bool → ℕ → Option ℕ
in_range digits value = if digits && leb value 65535 then some value else none

decimal_from_le : (value : ℕ) (text : Bytes) → value ≤ decimal_from value text
decimal_from_le value [] = omega arith
decimal_from_le value (c ∷ text) = omega (arith, decimal_from_le (value * 10 + (c - b'0')) text)

too_large :
    (digits : Bool) (next value : ℕ)
    → next ≤ value
    → ltb 65535 next ≡ true
    → in_range digits value ≡ none
too_large digits next value h e =
    if-both (λ o. o ≡ none) (digits && leb value 65535) _ _ (λ b. ground (arith, h, e, b))
      (λ b. refl)

too_large_digits :
    (digits : Bool) (next : ℕ) (text : Bytes)
    → ltb 65535 next ≡ true
    → none ≡ in_range digits (decimal_from next text)
too_large_digits digits next text e =
    sym (too_large digits next (decimal_from next text) (decimal_from_le next text) e)

no_digit :
    (digit digits : Bool) (value : ℕ) → not digit ≡ true → none ≡ in_range (digit && digits) value
no_digit true digits value h = ground (arith, h)
no_digit false digits value h = refl

a_digit :
    (digit digits : Bool) (value : ℕ)
    → not digit ≡ false
    → in_range digits value ≡ in_range (digit && digits) value
a_digit true digits value h = refl
a_digit false digits value h = ground (arith, h)

port_from-decimal :
    (value : ℕ) (text : Bytes)
    → value ≤ 65535
    → port_from value text ≡ in_range (are_digits text) (decimal_from value text)
unfolding port_from
port_from-decimal value [] h = ground (arith, h)
port_from-decimal value (c ∷ text) h =
    let next = value * 10 + (c - b'0') in
    let P : Option ℕ → Type 0 =
      λ o. o ≡ in_range (within b'0' b'9' c && are_digits text) (decimal_from next text) in
    if-both P (not (within b'0' b'9' c)) _ _
      (λ bad. no_digit (within b'0' b'9' c) (are_digits text) (decimal_from next text) bad)
      (λ good.
        if-both P (ltb 65535 next) _ _
          (λ e. too_large_digits (within b'0' b'9' c && are_digits text) next text e)
          (λ e.
            port_from-decimal next text (ltb-false 65535 next e)
            ∙ a_digit (within b'0' b'9' c) (are_digits text) (decimal_from next text) good))

-- A port is read exactly if its text is not empty and has digits only and if the number that they
-- write, however many they are, is at most 65535; then it is that number.
pub parse_strict_port-decimal :
    (text : Bytes)
    → parse_strict_port text
      ≡ in_range (not (is_empty text) && are_digits text) (decimal_from 0 text)
unfolding parse_strict_port
parse_strict_port-decimal [] = refl
parse_strict_port-decimal (c ∷ text) = port_from-decimal 0 (c ∷ text) (omega arith)
