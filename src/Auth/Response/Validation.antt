-- ===== src/Auth/Response/Validation.antt =====
-- When `validate_authorization_response` of src/auth/challenge.cpp lets a code be used.
use mcp_cpp_sdk.Prelude.{
  ◌≡◌, ◌↔◌, ◌⊎◌, ◌≢◌, refl, ap, false, Option, none, some, [], ◌∷◌, Bytes, bytes_eq_iff, arith, inl,
}
use mcp_cpp_sdk.Auth.Response.{
  AuthorizationResponse, AuthorizationResponseStatus, accepted, AuthorizationRequest, state_status,
  issuer_status, code_status, validate_authorization_response,
}

-- The state was not recorded, or it came back.
abbrev pub StateAgrees : AuthorizationRequest → AuthorizationResponse → Type 0
StateAgrees request response = (request.state ≡ []) ⊎ (response.state ≡ some request.state)

-- The issuer came back, or it is absent and was not announced.
abbrev pub IssuerAgrees : AuthorizationRequest → AuthorizationResponse → Type 0
IssuerAgrees request response =
    (response.iss ≡ some request.issuer)
    ⊎ ((response.iss ≡ none) × (request.issuer_parameter_supported ≡ false))

abbrev pub CarriesCode : AuthorizationResponse → Type 0
CarriesCode response =
    (response.error ≡ none) × ((code : Bytes) × ((response.code ≡ some code) × (code ≢ [])))

abbrev StateGoes : Bytes → Option Bytes → Type 0
StateGoes expected state = (expected ≡ []) ⊎ (state ≡ some expected)

state_status-none :
    (expected : Bytes) (state : Option Bytes)
    → (state_status expected state ≡ none) ↔ StateGoes expected state
unfolding state_status
state_status-none [] state = (λ h. inl refl, λ h. refl)
state_status-none (c ∷ expected) none = ground arith
state_status-none (c ∷ expected) (some state) = ground (arith, bytes_eq_iff state (c ∷ expected))

abbrev IssuerGoes : AuthorizationRequest → Option Bytes → Type 0
IssuerGoes request iss =
    (iss ≡ some request.issuer) ⊎ ((iss ≡ none) × (request.issuer_parameter_supported ≡ false))

issuer_status-none :
    (request : AuthorizationRequest) (iss : Option Bytes)
    → (issuer_status request iss ≡ none) ↔ IssuerGoes request iss
unfolding issuer_status
issuer_status-none request none = ground arith
issuer_status-none request (some iss) = ground (arith, bytes_eq_iff iss request.issuer)

abbrev CodeGoes : Option Bytes → Option Bytes → Type 0
CodeGoes error code = (error ≡ none) × ((c : Bytes) × ((code ≡ some c) × (c ≢ [])))

code_status-accepted :
    (error code : Option Bytes) → (code_status error code ≡ accepted) ↔ CodeGoes error code
unfolding code_status
code_status-accepted (some error) code = (λ h. ground arith, λ h. ground (arith, h.0))
code_status-accepted none none = (λ h. ground arith, λ h. ground (arith, h.1.1.0))
code_status-accepted none (some []) =
    (λ h. ground arith, λ h. absurd (h.1.1.1 (ground (arith, h.1.1.0))))
code_status-accepted none (some (c ∷ code)) =
    (λ h. (refl, (c ∷ code, (refl, λ e. ground arith))), λ h. refl)

-- Two checks, of which the second counts if the first passes.
abbrev decides :
    Option AuthorizationResponseStatus → AuthorizationResponseStatus → AuthorizationResponseStatus
decides check rest = elim check [ some status ↦ status | none ↦ rest ]

decides-accepted :
    (check : Option AuthorizationResponseStatus) (rest : AuthorizationResponseStatus)
    → check ≢ some accepted
    → (decides check rest ≡ accepted) ↔ ((check ≡ none) × (rest ≡ accepted))
decides-accepted none rest h = (λ e. (refl, e), λ e. e.1)
decides-accepted (some status) rest h = (λ e. absurd (h (ap some e)), λ e. ground (arith, e.0))

state_status-refuses :
    (expected : Bytes) (state : Option Bytes) → state_status expected state ≢ some accepted
unfolding state_status
state_status-refuses [] state h = ground (arith, h)
state_status-refuses (c ∷ expected) none h = ground (arith, h)
state_status-refuses (c ∷ expected) (some state) h = ground (arith, h)

issuer_status-refuses :
    (request : AuthorizationRequest) (iss : Option Bytes)
    → issuer_status request iss ≢ some accepted
unfolding issuer_status
issuer_status-refuses request none h = ground (arith, h)
issuer_status-refuses request (some iss) h = ground (arith, h)

-- The response is accepted exactly if the state and the issuer agree with the request, there is no
-- error, and there is a code that is not empty.
pub validate_authorization_response-accepted :
    (request : AuthorizationRequest) (response : AuthorizationResponse)
    → (validate_authorization_response request response ≡ accepted)
      ↔ (StateAgrees request response × (IssuerAgrees request response × CarriesCode response))
unfolding validate_authorization_response
validate_authorization_response-accepted request response =
    let state = state_status-none request.state response.state in
    let issuer = issuer_status-none request response.iss in
    let code = code_status-accepted response.error response.code in
    let checks = state_status request.state response.state in
    let issuers = issuer_status request response.iss in
    let codes = code_status response.error response.code in
    let outer =
      decides-accepted checks (decides issuers codes)
        (state_status-refuses request.state response.state) in
    let inner = decides-accepted issuers codes (issuer_status-refuses request response.iss) in
    (
      λ h.
          let both = outer.0 h in
          let rest = inner.0 both.1 in (state.0 both.0, (issuer.0 rest.0, code.0 rest.1)),
      λ h. outer.1 (state.1 h.0, inner.1 (issuer.1 h.1.0, code.1 h.1.1)),
    )
