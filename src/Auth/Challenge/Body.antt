-- ===== src/Auth/Challenge/Body.antt =====
-- How the parser of src/auth/challenge.cpp reads the parameters that
-- `format_www_authenticate` writes.
use mcp_cpp_sdk.Prelude.{
  ℕ, zero, suc, ◌≤◌, ◌<◌, ◌≡◌, refl, ap, subst, ◌∙◌, Bool, true, false, some, List, [], ◌∷◌, ◌++◌,
  append_assoc, length-append, All, if◌then◌else◌, length, Bytes, arith, Bool-cases, inl, inr,
}
use mcp_cpp_sdk.Http.Types.{escape, needs_escape, challenge_parameter, append_parameters}
use mcp_cpp_sdk.Auth.Challenge.{
  push_back, quote, take_value, skip_separators, Read, is_separator, is_token_char, read_token,
  read_quoted_from, read_quoted_string, BearerChallenge, Parameter, assign_parameter, Parse,
  read_value, after_equals, after_name, is_empty, parse_round, after_round, parse_from, to_lower,
  to_lower_ascii,
}
use mcp_cpp_sdk.Auth.Challenge.Progress.{skip_separators-length}

read_quoted_from-plain :
    (c : ℕ) (text : Bytes)
    → needs_escape c ≡ false
    → read_quoted_from false (c ∷ text) ≡ push_back c (read_quoted_from false text)
unfolding read_quoted_from
read_quoted_from-plain c text h = ground (arith, h)

-- Reading a quoted-string undoes the escaping.
read_quoted_from-escape :
    (value rest : Bytes)
    → read_quoted_from false (escape value ++ quote ∷ rest)
      ≡ some (record { value = value; rest = rest })
unfolding read_quoted_from escape
read_quoted_from-escape [] rest = refl
read_quoted_from-escape (c ∷ value) rest = elim (Bool-cases (needs_escape c)) [
  | inl special ↦
      rw (special, if◌then◌else◌) (ap (push_back c) (read_quoted_from-escape value rest))
  | inr plain ↦
      rw (plain, if◌then◌else◌)
        (read_quoted_from-plain c (escape value ++ quote ∷ rest) plain
          ∙ ap (push_back c) (read_quoted_from-escape value rest))
]

-- A name in lower case that is a token.
abbrev pub IsTokenChar : ℕ → Type 0
IsTokenChar c = (is_token_char c ≡ true) × (to_lower c ≡ c)

abbrev pub IsName : Bytes → Type 0
IsName [] = ⊥
IsName (c ∷ name) = All IsTokenChar (c ∷ name)

is_token_char-separator : (c : ℕ) → is_token_char c ≡ true → is_separator c ≡ false
unfolding is_token_char
is_token_char-separator c h = ground (arith, h)

read_token-name :
    (name text : Bytes) (c : ℕ)
    → All IsTokenChar name
    → is_token_char c ≡ false
    → read_token (name ++ c ∷ text) ≡ record { value = name; rest = c ∷ text }
unfolding read_token
read_token-name [] text c h stop = rw (stop, if◌then◌else◌) refl
read_token-name (x ∷ name) text c h stop =
    rw (h.0.0, if◌then◌else◌, read_token-name name text c h.1 stop) refl

to_lower_ascii-name : (name : Bytes) → All IsTokenChar name → to_lower_ascii name ≡ name
unfolding to_lower_ascii
to_lower_ascii-name [] h = refl
to_lower_ascii-name (x ∷ name) h = rw (h.0.1, to_lower_ascii-name name h.1) refl

abbrev pair : Bytes → Bytes → Read
pair value rest = record { value = value; rest = rest }

-- What follows the separators in front of the parameters.
abbrev body : List Parameter → Bytes
body [] = []
body ((name, value) ∷ rest) =
    if is_empty value
    then body rest
    else name ++ (b'=' ∷ quote ∷ (escape value ++ (quote ∷ append_parameters false rest)))

parameter_assoc :
    (name value rest : Bytes)
    → (name ++ (b'=' ∷ quote ∷ (escape value ++ (quote ∷ [])))) ++ rest
      ≡ name ++ (b'=' ∷ quote ∷ (escape value ++ (quote ∷ rest)))
parameter_assoc [] value rest =
    ap (λ t. b'=' ∷ quote ∷ t) (append_assoc (escape value) (quote ∷ []) rest)
parameter_assoc (c ∷ name) value rest = ap (λ t. c ∷ t) (parameter_assoc name value rest)

challenge_parameter-body :
    (first : Bool) (name value rest : Bytes)
    → IsName name
    → skip_separators (challenge_parameter first name value ++ rest)
      ≡ name ++ (b'=' ∷ quote ∷ (escape value ++ (quote ∷ rest)))
unfolding challenge_parameter skip_separators
challenge_parameter-body first [] value rest h = absurd h
challenge_parameter-body true (c ∷ name) value rest h =
    rw (is_token_char-separator c h.0.0, if◌then◌else◌) (parameter_assoc (c ∷ name) value rest)
challenge_parameter-body false (c ∷ name) value rest h =
    rw (is_token_char-separator c h.0.0, if◌then◌else◌) (parameter_assoc (c ∷ name) value rest)

pub append_parameters-body :
    (first : Bool) (ps : List Parameter)
    → All (λ p. IsName p.0) ps
    → skip_separators (append_parameters first ps) ≡ body ps
unfolding append_parameters skip_separators
append_parameters-body first [] h = refl
append_parameters-body first ((name, value) ∷ rest) h = elim (Bool-cases (is_empty value)) [
  | inl e ↦ rw (e, append_parameters, body, if◌then◌else◌) (append_parameters-body first rest h.1)
  | inr e ↦
      rw (e, append_parameters, body, if◌then◌else◌)
        (challenge_parameter-body first name value (append_parameters false rest) h.0)
]

read_value-quoted :
    (p : Parse) (name value rest : Bytes)
    → read_value p name (quote ∷ (escape value ++ (quote ∷ rest)))
      ≡ take_value p name (pair value rest)
unfolding read_value read_quoted_string
read_value-quoted p name value rest = rw (read_value, read_quoted_from-escape value rest) refl

parse_round-parameter :
    (p : Parse) (name value rest : Bytes)
    → IsName name
    → parse_round p (name ++ (b'=' ∷ quote ∷ (escape value ++ (quote ∷ rest))))
      ≡ take_value p name (pair value rest)
unfolding parse_round after_name after_equals
parse_round-parameter p [] value rest h = absurd h
parse_round-parameter p (c ∷ name) value rest h =
    rw
      (
        parse_round,
        read_token-name (c ∷ name) (quote ∷ (escape value ++ (quote ∷ rest))) b'=' h refl,
      )
      (read_value-quoted p (c ∷ name) value rest)

-- The challenge with every parameter that has a value.
abbrev pub assign_all : BearerChallenge → List Parameter → BearerChallenge
assign_all c [] = c
assign_all c ((name, value) ∷ rest) =
    assign_all (if is_empty value then c else assign_parameter c name value) rest

body-length :
    (name value rest : Bytes)
    → length rest < length (name ++ (b'=' ∷ quote ∷ (escape value ++ (quote ∷ rest))))
body-length [] value rest = omega (arith, length-append (escape value) (quote ∷ rest))
body-length (c ∷ name) value rest = omega (arith, body-length name value rest)

abbrev pub open_challenge : BearerChallenge → Parse
open_challenge c = record { challenges = []; current = some c }

parse_from-parameter :
    (fuel : ℕ) (c : BearerChallenge) (name value rest : Bytes)
    → IsName name
    → parse_from
        (suc fuel)
        (open_challenge c)
        (name ++ (b'=' ∷ quote ∷ (escape value ++ (quote ∷ rest))))
      ≡ parse_from fuel (open_challenge (assign_parameter c name value)) (skip_separators rest)
unfolding parse_from take_value
parse_from-parameter fuel c [] value rest h = absurd h
parse_from-parameter fuel c (x ∷ name) value rest h =
    ap (after_round (parse_from fuel) (open_challenge c))
      (parse_round-parameter (open_challenge c) (x ∷ name) value rest h)
    ∙ ap (λ n. parse_from fuel (open_challenge (assign_parameter c n value)) (skip_separators rest))
        (to_lower_ascii-name (x ∷ name) h)

-- One step of the next proof: the parameter in front of the rest is read.
parse_from-given :
    (fuel : ℕ) (c : BearerChallenge) (name value : Bytes) (rest : List Parameter)
    → IsName name
    → ((fuel : ℕ)
        → length (body rest) ≤ fuel
        → parse_from fuel (open_challenge (assign_parameter c name value)) (body rest)
          ≡ some (assign_all (assign_parameter c name value) rest ∷ []))
    → All (λ p. IsName p.0) rest
    → length (name ++ (b'=' ∷ quote ∷ (escape value ++ (quote ∷ append_parameters false rest))))
      ≤ fuel
    → parse_from fuel
        (open_challenge c)
        (name ++ (b'=' ∷ quote ∷ (escape value ++ (quote ∷ append_parameters false rest))))
      ≡ some (assign_all (assign_parameter c name value) rest ∷ [])
parse_from-given zero c name value rest h ih names le =
    absurd (omega (arith, body-length name value (append_parameters false rest)))
parse_from-given (suc fuel) c name value rest h ih names le =
    let eq = append_parameters-body false rest names in
    parse_from-parameter fuel c name value (append_parameters false rest) h
    ∙ ap (parse_from fuel (open_challenge (assign_parameter c name value))) eq
    ∙ ih fuel (
        subst (λ t. length t ≤ fuel) eq
          (omega (
            arith,
            skip_separators-length (append_parameters false rest),
            body-length name value (append_parameters false rest),
          )))

pub parse_from-body :
    (fuel : ℕ) (c : BearerChallenge) (ps : List Parameter)
    → All (λ p. IsName p.0) ps
    → length (body ps) ≤ fuel
    → parse_from fuel (open_challenge c) (body ps) ≡ some (assign_all c ps ∷ [])
unfolding parse_from
parse_from-body fuel c [] h le = refl
parse_from-body fuel c ((name, value) ∷ rest) h le = elim (Bool-cases (is_empty value)) [
  | inl e ↦
      let le' : length (body rest) ≤ fuel =
        subst (λ b. length (if b then body rest else text) ≤ fuel) e le in
      rw (e, body, assign_all, if◌then◌else◌) (parse_from-body fuel c rest h.1 le')
  | inr e ↦
      let le' : length text ≤ fuel =
        subst (λ b. length (if b then body rest else text) ≤ fuel) e le in
      rw (e, body, assign_all, if◌then◌else◌)
        (parse_from-given fuel c name value rest h.0
          (λ f h'. parse_from-body f (assign_parameter c name value) rest h.1 h') h.1 le')
]
  where
    text : Bytes
    text = name ++ (b'=' ∷ quote ∷ (escape value ++ (quote ∷ append_parameters false rest)))
