-- ===== src/Auth/Tests.antt =====
-- Runs of src/auth/challenge.cpp and of the form encoding of src/auth/oauth.cpp on concrete inputs.
use mcp_cpp_sdk.Prelude.{
  ◌≡◌, ◌↔◌, refl, some, List, [], ◌∷◌, ◌++◌, Bool, true, false, ◌&&◌, ◌==◌, ltb, Bytes, codes, All,
  arith,
}
use mcp_cpp_sdk.Http.Types.{BearerChallengeConfig, format_www_authenticate}
use mcp_cpp_sdk.Auth.Challenge.{BearerChallenge, parse_www_authenticate, fresh_challenge}
use mcp_cpp_sdk.Auth.Challenge.Format.{challenge_of, parse_www_authenticate-format_www_authenticate}
use mcp_cpp_sdk.Auth.Challenge.Progress.{parse_www_authenticate-ends}
use mcp_cpp_sdk.Auth.Form.{Parameter, build_form_body, split_fields, decode_fields}
use mcp_cpp_sdk.Auth.Form.Fields.{IsByte, AllBytes, decode_fields-build_form_body}
use mcp_cpp_sdk.Auth.Response.{
  AuthorizationRequest, accepted, parse_authorization_response, validate_authorization_response,
}
use mcp_cpp_sdk.Auth.Response.Fields.{response_of, parse_authorization_response-build_form_body}
use mcp_cpp_sdk.Auth.Response.Validation.{
  StateAgrees, IssuerAgrees, CarriesCode, validate_authorization_response-accepted,
}

abbrev config : BearerChallengeConfig
config = record {
  resource_metadata = codes "https://h/m";
  scope = [];
  realm = codes "a \"b\\c\"";
  error = codes "invalid_token";
}

abbrev header : Bytes
header =
    codes
      "Bearer realm=\"a \\\"b\\\\c\\\"\", error=\"invalid_token\", resource_metadata=\"https://h/m\""

config-header : format_www_authenticate config ≡ some header
unfolding format_www_authenticate
config-header = refl

parse_www_authenticate-format_www_authenticate_example :
    parse_www_authenticate header ≡ some (challenge_of config ∷ [])
parse_www_authenticate-format_www_authenticate_example =
    parse_www_authenticate-format_www_authenticate config header config-header

two_challenges :
    parse_www_authenticate (codes "Basic dGVzdA==, Bearer x=@y")
    ≡ some (
        fresh_challenge (codes "Basic")
        ∷ record (fresh_challenge (codes "Bearer")) { params = (codes "x", []) ∷ [] }
        ∷ [])
unfolding parse_www_authenticate
two_challenges = refl

parse_www_authenticate-ends_example :
    (cs : List BearerChallenge) × (parse_www_authenticate (codes "Bearer realm=x, a=\"") ≡ some cs)
parse_www_authenticate-ends_example = parse_www_authenticate-ends (codes "Bearer realm=x, a=\"")

abbrev fields : List Parameter
fields =
    (codes "code", codes "a b&=")
    ∷ (codes "STATE", codes "s#1")
    ∷ (codes "iss", codes "https://as")
    ∷ []

all_bytes : Bytes → Bool
all_bytes [] = true
all_bytes (c ∷ text) = ltb c 256 && all_bytes text

bytes-All : (text : Bytes) → all_bytes text ≡ true → All IsByte text
unfolding all_bytes
bytes-All [] h = tt
bytes-All (c ∷ text) h = (ground (arith, h), bytes-All text (ground (arith, h)))

base_plain : All (λ c. (c == b'?') ≡ false) (codes "cb:")
base_plain = (refl, (refl, (refl, tt)))

fields-AllBytes : AllBytes fields
unfolding all_bytes
fields-AllBytes = (
  (bytes-All (codes "code") refl, bytes-All (codes "a b&=") refl),
  (
    (bytes-All (codes "STATE") refl, bytes-All (codes "s#1") refl),
    ((bytes-All (codes "iss") refl, bytes-All (codes "https://as") refl), tt),
  ),
)

decode_fields-build_form_body_example :
    decode_fields (split_fields [] (build_form_body fields)) ≡ fields
decode_fields-build_form_body_example = decode_fields-build_form_body fields fields-AllBytes

parse_authorization_response-build_form_body_example :
    parse_authorization_response (codes "cb:" ++ b'?' ∷ build_form_body fields) ≡ response_of fields
parse_authorization_response-build_form_body_example =
    parse_authorization_response-build_form_body (codes "cb:") fields base_plain fields-AllBytes

abbrev request : AuthorizationRequest
request = record {
  state = codes "s#1";
  issuer = codes "https://as";
  issuer_parameter_supported = true;
}

validate_authorization_response-accepted_example :
    (validate_authorization_response request (response_of fields) ≡ accepted) ↔ (
      StateAgrees request (response_of fields)
      × (IssuerAgrees request (response_of fields) × CarriesCode (response_of fields)))
validate_authorization_response-accepted_example =
    validate_authorization_response-accepted request (response_of fields)
