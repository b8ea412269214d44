-- ===== src/Auth/Response.antt =====
-- src/auth/challenge.cpp: the authorization response and its validation. The message of a
-- validation, a diagnostic text, is not modelled.
pub mod Fields
pub mod Validation
use mcp_cpp_sdk.Prelude.{
  ℕ, Bool, true, false, not, ◌&&◌, ◌||◌, Option, none, some, List, [], ◌∷◌, ◌==◌, if◌then◌else◌,
  Bytes, codes, bytes_eq,
}
use mcp_cpp_sdk.Auth.Challenge.{assign_once, to_lower_ascii}
use mcp_cpp_sdk.Auth.Form.{Parameter, split_fields, decode_fields}

pub record AuthorizationResponse : Type 0 where
  pub code : Option Bytes
  pub state : Option Bytes
  pub iss : Option Bytes
  pub error : Option Bytes
  pub error_description : Option Bytes
  pub error_uri : Option Bytes

abbrev pub empty_response : AuthorizationResponse
empty_response = record {
  code = none;
  state = none;
  iss = none;
  error = none;
  error_description = none;
  error_uri = none;
}

unfoldable pub assign_response_field : AuthorizationResponse → Bytes → Bytes → AuthorizationResponse
assign_response_field r name value =
    if bytes_eq name (codes "code")
    then record r { code = assign_once r.code value }
    else if bytes_eq name (codes "state")
    then record r { state = assign_once r.state value }
    else if bytes_eq name (codes "iss")
    then record r { iss = assign_once r.iss value }
    else if bytes_eq name (codes "error")
    then record r { error = assign_once r.error value }
    else if bytes_eq name (codes "error_description")
    then record r { error_description = assign_once r.error_description value }
    else if bytes_eq name (codes "error_uri")
    then record r { error_uri = assign_once r.error_uri value }
    else r

-- The assignments of the field loop.
unfoldable pub assign_fields : AuthorizationResponse → List Parameter → AuthorizationResponse
unfolding assign_response_field
assign_fields r [] = r
assign_fields r ((name, value) ∷ fields) =
    assign_fields (assign_response_field r (to_lower_ascii name) value) fields

-- What stands behind the first occurrence of a character, if there is one.
unfoldable pub behind : ℕ → Bytes → Option Bytes
behind mark [] = none
behind mark (c ∷ text) = if c == mark then some text else behind mark text

unfoldable pub up_to : ℕ → Bytes → Bytes
up_to mark [] = []
up_to mark (c ∷ text) = if c == mark then [] else c ∷ up_to mark text

unfoldable pub query_of : Bytes → Bytes
unfolding behind up_to
query_of url = up_to b'#' (elim (behind b'?' url) [ none ↦ url | some query ↦ query ])

unfoldable pub parse_authorization_response : Bytes → AuthorizationResponse
unfolding query_of assign_fields split_fields decode_fields
parse_authorization_response url =
    assign_fields empty_response (decode_fields (split_fields [] (query_of url)))

pub data AuthorizationResponseStatus : Type 0 where
  accepted state_missing state_mismatch : AuthorizationResponseStatus
  issuer_missing issuer_mismatch : AuthorizationResponseStatus
  server_error code_missing : AuthorizationResponseStatus

-- The fields of `AuthorizationRequest` that the validation reads.
pub record AuthorizationRequest : Type 0 where
  pub state : Bytes
  pub issuer : Bytes
  pub issuer_parameter_supported : Bool

-- The test of `state`: the status it returns, or none when the validation goes on.
unfoldable pub state_status : Bytes → Option Bytes → Option AuthorizationResponseStatus
state_status [] state = none
state_status (c ∷ expected) none = some state_missing
state_status (c ∷ expected) (some state) =
    if bytes_eq state (c ∷ expected) then none else some state_mismatch

unfoldable pub issuer_status :
    AuthorizationRequest → Option Bytes → Option AuthorizationResponseStatus
issuer_status request none =
    if request.issuer_parameter_supported then some issuer_missing else none
issuer_status request (some iss) =
    if bytes_eq iss request.issuer then none else some issuer_mismatch

unfoldable pub code_status : Option Bytes → Option Bytes → AuthorizationResponseStatus
code_status (some error) code = server_error
code_status none none = code_missing
code_status none (some []) = code_missing
code_status none (some (c ∷ code)) = accepted

unfoldable pub validate_authorization_response :
    AuthorizationRequest → AuthorizationResponse → AuthorizationResponseStatus
unfolding state_status issuer_status code_status
validate_authorization_response request response =
    elim (state_status request.state response.state) [
      | some status ↦ status
      | none ↦ elim (issuer_status request response.iss) [
        | some status ↦ status
        | none ↦ code_status response.error response.code
      ]
    ]
