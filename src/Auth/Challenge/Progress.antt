-- ===== src/Auth/Challenge/Progress.antt =====
-- The parser of src/auth/challenge.cpp moves forward in every round, so it ends within the header.
use mcp_cpp_sdk.Prelude.{
  ℕ, zero, suc, ◌+◌, ◌≤◌, ◌<◌, ◌≡◌, refl, subst, Bool, true, false, Option, none, some, List, [],
  ◌∷◌, ◌==◌, if◌then◌else◌, length, Bytes, arith, Bool-cases, Option-cases, inl, inr,
}
use mcp_cpp_sdk.Auth.Challenge.{
  after_round, quote, take_value, skip_whitespace, skip_separators, Read, is_token_char, read_token,
  read_quoted_from, read_quoted_string, BearerChallenge, Parse, flush, Round, break, continue,
  start_challenge, read_value, skip_padding, ends_element, after_equals, after_name, is_empty,
  parse_round, parse_from, initial, parse_www_authenticate,
}

pub skip_whitespace-length : (text : Bytes) → length (skip_whitespace text) ≤ length text
unfolding skip_whitespace
skip_whitespace-length [] = omega arith
skip_whitespace-length (c ∷ text) = ground (arith, skip_whitespace-length text)

pub skip_separators-length : (text : Bytes) → length (skip_separators text) ≤ length text
unfolding skip_separators
skip_separators-length [] = omega arith
skip_separators-length (c ∷ text) = ground (arith, skip_separators-length text)

skip_padding-length : (text : Bytes) → length (skip_padding text) ≤ length text
unfolding skip_padding
skip_padding-length [] = omega arith
skip_padding-length (c ∷ text) = ground (arith, skip_padding-length text)

read_token-length :
    (text : Bytes) → length (read_token text).rest + length (read_token text).value ≤ length text
unfolding read_token
read_token-length [] = omega arith
read_token-length (c ∷ text) = elim (Bool-cases (is_token_char c)) [
  | inl h ↦ rw (h, if◌then◌else◌) omega (arith, read_token-length text)
  | inr h ↦ rw (h, if◌then◌else◌) omega arith
]

-- A round that continues from a text of length n does so at a shorter one.
abbrev Shorter : ℕ → Round → Type 0
Shorter n break = Unit
Shorter n (continue p text) = length text < n

abbrev RestBelow : ℕ → Option Read → Type 0
RestBelow n none = Unit
RestBelow n (some read) = length read.rest < n

read_quoted_from-length :
    (escaped : Bool) (text : Bytes) → RestBelow (length text) (read_quoted_from escaped text)
unfolding read_quoted_from
read_quoted_from-length escaped [] = tt
read_quoted_from-length true (c ∷ text) = ground (arith, read_quoted_from-length false text)
read_quoted_from-length false (c ∷ text) =
    ground (arith, read_quoted_from-length true text, read_quoted_from-length false text)

take_value-Shorter :
    (n : ℕ) (p : Parse) (name : Bytes) (read : Read)
    → length read.rest < n
    → Shorter n (take_value p name read)
unfolding take_value
take_value-Shorter n p name read h = omega (arith, skip_separators-length read.rest)

read_value-Shorter :
    (n : ℕ) (p : Parse) (name text : Bytes) → length text < n → Shorter n (read_value p name text)
unfolding read_value read_quoted_string
read_value-Shorter n p name [] h = take_value-Shorter n p name (read_token []) h
read_value-Shorter n p name (c ∷ text) h = elim (Bool-cases (c == quote)) [
  | inl opens ↦ elim (Option-cases (read_quoted_from false text)) [
    | inl e ↦ rw (opens, read_value, e) tt
    | inr (read, e) ↦
        let below = subst (RestBelow (length text)) e (read_quoted_from-length false text) in
        rw (opens, read_value, e) (take_value-Shorter n p name read (omega arith))
  ]
  | inr other ↦
      let read = read_token (c ∷ text) in
      let below = read_token-length (c ∷ text) in
      rw (other, read_value) (take_value-Shorter n p name read (omega (arith, h, below)))
]

after_equals-Shorter :
    (n : ℕ) (p : Parse) (name text : Bytes) → length text < n → Shorter n (after_equals p name text)
unfolding after_equals
after_equals-Shorter n p name text h =
    let probe = skip_whitespace (skip_padding text) in
    let below = skip_whitespace-length (skip_padding text) in
    let value = skip_whitespace-length text in
    elim (Bool-cases (ends_element probe)) [
      | inl e ↦
          rw (e, if◌then◌else◌)
            (omega (arith, below, skip_padding-length text, skip_separators-length probe))
      | inr e ↦
          rw (e, if◌then◌else◌) (read_value-Shorter n p name (skip_whitespace text) (omega arith))
    ]

after_name-Shorter :
    (n : ℕ) (p : Parse) (name : Read) (text : Bytes)
    → length name.rest < n
    → length text ≤ length name.rest
    → Shorter n (after_name p name text)
unfolding after_name start_challenge
after_name-Shorter n p name [] h h' = omega (arith, skip_separators-length name.rest)
after_name-Shorter n p name (c ∷ text) h h' = elim (Bool-cases (c == b'=')) [
  | inl e ↦ rw (e, if◌then◌else◌) (after_equals-Shorter n p name.value text (omega arith))
  | inr e ↦ rw (e, if◌then◌else◌) (omega (arith, skip_separators-length name.rest))
]

nonempty-length : (xs : Bytes) → is_empty xs ≡ false → 0 < length xs
nonempty-length [] h = ground arith
nonempty-length (x ∷ xs) h = omega arith

pub parse_round-Shorter : (p : Parse) (text : Bytes) → Shorter (length text) (parse_round p text)
unfolding parse_round
parse_round-Shorter p text =
    let name = read_token text in
    elim (Bool-cases (is_empty name.value)) [
      | inl e ↦ rw (e, if◌then◌else◌) tt
      | inr e ↦
          rw (e, if◌then◌else◌)
            (after_name-Shorter (length text) p name (skip_whitespace name.rest)
              (omega (arith, read_token-length text, nonempty-length name.value e))
              (skip_whitespace-length name.rest))
    ]

after_round-ends :
    (fuel : ℕ) (loop : Parse → Bytes → Option (List BearerChallenge)) (p : Parse) (round : Round)
    → ((p : Parse) (text : Bytes)
        → length text ≤ fuel
        → (cs : List BearerChallenge) × (loop p text ≡ some cs))
    → Shorter (suc fuel) round
    → (cs : List BearerChallenge) × (after_round loop p round ≡ some cs)
unfolding after_round
after_round-ends fuel loop p break ih h = (flush p, refl)
after_round-ends fuel loop p (continue p' text) ih h = ih p' text (omega arith)

Shorter-le : (m n : ℕ) (round : Round) → m ≤ n → Shorter m round → Shorter n round
Shorter-le m n break le h = tt
Shorter-le m n (continue p text) le h = omega arith

-- With fuel for the length of the text, the loop ends.
pub parse_from-ends :
    (fuel : ℕ) (p : Parse) (text : Bytes)
    → length text ≤ fuel
    → (cs : List BearerChallenge) × (parse_from fuel p text ≡ some cs)
unfolding parse_from
parse_from-ends fuel p [] h = (flush p, refl)
parse_from-ends zero p (c ∷ text) h = absurd (omega arith)
parse_from-ends (suc fuel) p (c ∷ text) h =
    after_round-ends fuel (parse_from fuel) p (parse_round p (c ∷ text)) (parse_from-ends fuel) (
      Shorter-le (length (c ∷ text)) (suc fuel) (parse_round p (c ∷ text)) h
        (parse_round-Shorter p (c ∷ text)))

-- Every header is parsed: the fuel that `parse_www_authenticate` starts with suffices.
pub parse_www_authenticate-ends :
    (header : Bytes) → (cs : List BearerChallenge) × (parse_www_authenticate header ≡ some cs)
unfolding parse_www_authenticate
parse_www_authenticate-ends header =
    parse_from-ends (length header) initial (skip_separators header) (skip_separators-length header)
