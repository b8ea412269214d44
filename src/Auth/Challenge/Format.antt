-- ===== src/Auth/Challenge/Format.antt =====
-- The header that src/transport/http_types.cpp formats is the one that src/auth/challenge.cpp reads.
use mcp_cpp_sdk.Prelude.{
  ℕ, suc, ◌≤◌, ◌≡◌, refl, ap, subst, ◌∙◌, Bool, true, false, ◌&&◌, Option, none, some, List, [],
  ◌∷◌, ◌++◌, All, ◌==◌, if◌then◌else◌, length, Bytes, codes, arith,
}
use mcp_cpp_sdk.Http.Types.{
  BearerChallengeConfig, challenge_parameter, append_parameters, parameters, all_quotable,
  format_www_authenticate,
}
use mcp_cpp_sdk.Auth.Challenge.{
  skip_whitespace, skip_separators, Read, is_blank, is_token_char, BearerChallenge, Parameter,
  fresh_challenge, assign_parameter, Parse, continue, start_challenge, after_name, parse_round,
  after_round, parse_from, initial, to_lower, parse_www_authenticate,
}
use mcp_cpp_sdk.Auth.Challenge.Progress.{skip_separators-length}
use mcp_cpp_sdk.Auth.Challenge.Body.{
  IsTokenChar, IsName, append_parameters-body, assign_all, open_challenge, parse_from-body,
}

abbrev given : Bytes → Option Bytes
given [] = none
given (c ∷ value) = some (c ∷ value)

abbrev named : Bytes → Bytes → List Parameter
named name [] = []
named name (c ∷ value) = (name, c ∷ value) ∷ []

-- The challenge that a server configures.
abbrev pub challenge_of : BearerChallengeConfig → BearerChallenge
challenge_of config = record {
  scheme = codes "Bearer";
  realm = given config.realm;
  resource_metadata = given config.resource_metadata;
  scope = given config.scope;
  error = given config.error;
  error_description = none;
  error_uri = none;
  params =
      named (codes "realm") config.realm
      ++ (named (codes "error") config.error
          ++ (named (codes "scope") config.scope
              ++ named (codes "resource_metadata") config.resource_metadata));
}

abbrev config_of : Bytes → Bytes → Bytes → Bytes → BearerChallengeConfig
config_of realm error scope resource_metadata = record {
  resource_metadata = resource_metadata;
  scope = scope;
  realm = realm;
  error = error;
}

assign_all-config :
    (realm error scope resource_metadata : Bytes)
    → assign_all
        (fresh_challenge (codes "Bearer"))
        (parameters (config_of realm error scope resource_metadata))
      ≡ challenge_of (config_of realm error scope resource_metadata)
unfolding assign_parameter
assign_all-config [] [] [] [] = refl
assign_all-config [] [] [] (d ∷ dd) = refl
assign_all-config [] [] (c ∷ cc) [] = refl
assign_all-config [] [] (c ∷ cc) (d ∷ dd) = refl
assign_all-config [] (b ∷ bb) [] [] = refl
assign_all-config [] (b ∷ bb) [] (d ∷ dd) = refl
assign_all-config [] (b ∷ bb) (c ∷ cc) [] = refl
assign_all-config [] (b ∷ bb) (c ∷ cc) (d ∷ dd) = refl
assign_all-config (a ∷ aa) [] [] [] = refl
assign_all-config (a ∷ aa) [] [] (d ∷ dd) = refl
assign_all-config (a ∷ aa) [] (c ∷ cc) [] = refl
assign_all-config (a ∷ aa) [] (c ∷ cc) (d ∷ dd) = refl
assign_all-config (a ∷ aa) (b ∷ bb) [] [] = refl
assign_all-config (a ∷ aa) (b ∷ bb) [] (d ∷ dd) = refl
assign_all-config (a ∷ aa) (b ∷ bb) (c ∷ cc) [] = refl
assign_all-config (a ∷ aa) (b ∷ bb) (c ∷ cc) (d ∷ dd) = refl

name_chars : Bytes → Bool
name_chars [] = true
name_chars (c ∷ name) = is_token_char c && (to_lower c == c) && name_chars name

name_chars-All : (name : Bytes) → name_chars name ≡ true → All IsTokenChar name
unfolding name_chars
name_chars-All [] h = tt
name_chars-All (c ∷ name) h =
    ((ground (arith, h), ground (arith, h)), name_chars-All name (ground (arith, h)))

Bearer-names : (config : BearerChallengeConfig) → All (λ p. IsName p.0) (parameters config)
unfolding name_chars is_token_char to_lower
Bearer-names config = (
  name_chars-All (codes "realm") refl,
  (
    name_chars-All (codes "error") refl,
    (name_chars-All (codes "scope") refl, (name_chars-All (codes "resource_metadata") refl, tt)),
  ),
)

abbrev fresh : Parse
fresh = open_challenge (fresh_challenge (codes "Bearer"))

-- What follows the scheme: nothing, or a space and a parameter.
data Tail : Bytes → Type 0 where
  nothing : Tail []
  parameter : (c : ℕ) (text : Bytes) → is_token_char c ≡ true → Tail (b' ' ∷ c ∷ text)

challenge_parameter-Tail :
    (name value rest : Bytes) → IsName name → Tail (challenge_parameter true name value ++ rest)
unfolding challenge_parameter
challenge_parameter-Tail [] value rest h = absurd h
challenge_parameter-Tail (c ∷ name) value rest h = parameter c _ h.0.0

append_parameters-Tail :
    (ps : List Parameter) → All (λ p. IsName p.0) ps → Tail (append_parameters true ps)
unfolding append_parameters
append_parameters-Tail [] h = nothing
append_parameters-Tail ((name, []) ∷ rest) h = append_parameters-Tail rest h.1
append_parameters-Tail ((name, c ∷ value) ∷ rest) h =
    challenge_parameter-Tail name (c ∷ value) (append_parameters false rest) h.0

is_token_char-blank : (c : ℕ) → is_token_char c ≡ true → is_blank c ≡ false
unfolding is_token_char
is_token_char-blank c h = ground (arith, h)

is_token_char-equals : (c : ℕ) → is_token_char c ≡ true → (c == b'=') ≡ false
unfolding is_token_char
is_token_char-equals c h = ground (arith, h)

skip_whitespace-token :
    (c : ℕ) (text : Bytes) → is_token_char c ≡ true → skip_whitespace (b' ' ∷ c ∷ text) ≡ c ∷ text
unfolding skip_whitespace
skip_whitespace-token c text h = rw (is_token_char-blank c h, if◌then◌else◌) refl

after_name-token :
    (p : Parse) (name : Read) (c : ℕ) (text : Bytes)
    → is_token_char c ≡ true
    → after_name p name (c ∷ text) ≡ start_challenge p name
unfolding after_name
after_name-token p name c text h = rw (is_token_char-equals c h, if◌then◌else◌) refl

abbrev scheme_read : Bytes → Read
scheme_read text = record { value = codes "Bearer"; rest = text }

-- The scheme, and the whitespace behind it.
parse_round-scheme :
    (text : Bytes)
    → Tail text
    → parse_round initial (codes "Bearer" ++ text) ≡ continue fresh (skip_separators text)
unfolding parse_round start_challenge
parse_round-scheme _ nothing = refl
parse_round-scheme _ (parameter c text h) =
    let name = scheme_read (b' ' ∷ c ∷ text) in
    ap (after_name initial name) (skip_whitespace-token c text h)
    ∙ after_name-token initial name c text h

header-parse :
    (ps : List Parameter)
    → All (λ p. IsName p.0) ps
    → parse_www_authenticate (codes "Bearer" ++ append_parameters true ps)
      ≡ some (assign_all (fresh_challenge (codes "Bearer")) ps ∷ [])
unfolding parse_www_authenticate parse_from
header-parse ps h =
    let text = append_parameters true ps in
    let fuel = suc (suc (suc (suc (suc (length text))))) in
    ap (after_round (parse_from fuel) initial)
      (parse_round-scheme text (append_parameters-Tail ps h))
    ∙ ap (parse_from fuel fresh) (append_parameters-body true ps h)
    ∙ parse_from-body fuel (fresh_challenge (codes "Bearer")) ps h (
        subst (λ t. length t ≤ fuel) (append_parameters-body true ps h)
          (omega (arith, skip_separators-length text)))

if-some {ℓ} : {A : Type ℓ} (b : Bool) (x y : A) → (if b then some x else none) ≡ some y → x ≡ y
if-some true x y h = ap (λ o. elim o [ none ↦ x | some z ↦ z ]) h
if-some false x y h = ground arith

-- A header that is formatted is the scheme with the parameters.
format_www_authenticate-header :
    (config : BearerChallengeConfig) (header : Bytes)
    → format_www_authenticate config ≡ some header
    → codes "Bearer" ++ append_parameters true (parameters config) ≡ header
unfolding format_www_authenticate
format_www_authenticate-header config header h =
    if-some (all_quotable (parameters config))
      (codes "Bearer" ++ append_parameters true (parameters config)) header h

-- A header that the server formats is read as one challenge, of the configured parameters that have
-- a value, in the order of `format_www_authenticate`.
pub parse_www_authenticate-format_www_authenticate :
    (config : BearerChallengeConfig) (header : Bytes)
    → format_www_authenticate config ≡ some header
    → parse_www_authenticate header ≡ some (challenge_of config ∷ [])
unfolding format_www_authenticate
parse_www_authenticate-format_www_authenticate config header h =
    subst (λ t. parse_www_authenticate t ≡ some (challenge_of config ∷ []))
      (format_www_authenticate-header config header h)
      (header-parse (parameters config) (Bearer-names config)
        ∙ ap (λ c. some (c ∷ []))
            (assign_all-config config.realm config.error config.scope config.resource_metadata))
