-- ===== src/Auth/Response/Fields.antt =====
-- What `parse_authorization_response` of src/auth/challenge.cpp reads from a redirect URL.
use mcp_cpp_sdk.Prelude.{
  ◌≡◌, refl, ap, sym, subst, ◌∙◌, Bool, true, false, Option, none, some, List, [], ◌∷◌, ◌++◌, ◌==◌,
  if◌then◌else◌, Bytes, codes, bytes_eq, bytes_eq→eq, All, Bool-cases, inl, inr,
}
use mcp_cpp_sdk.Auth.Challenge.{assign_once, to_lower_ascii}
use mcp_cpp_sdk.Auth.Form.{Parameter, build_form_body, split_fields, decode_fields}
use mcp_cpp_sdk.Auth.Form.Fields.{
  NotHash, build_form_body-NotHash, AllBytes, decode_fields-build_form_body,
}
use mcp_cpp_sdk.Auth.Response.{
  AuthorizationResponse, empty_response, assign_response_field, assign_fields, behind, up_to,
  query_of, parse_authorization_response,
}

-- The value of the first parameter of a name, whose case does not matter.
abbrev pub first : Bytes → List Parameter → Option Bytes
first name [] = none
first name ((key, value) ∷ params) =
    if bytes_eq (to_lower_ascii key) name then some value else first name params

abbrev pub response_of : List Parameter → AuthorizationResponse
response_of params = record {
  code = first (codes "code") params;
  state = first (codes "state") params;
  iss = first (codes "iss") params;
  error = first (codes "error") params;
  error_description = first (codes "error_description") params;
  error_uri = first (codes "error_uri") params;
}

abbrev assign_if : Bool → Option Bytes → Bytes → Option Bytes
assign_if b field value = if b then assign_once field value else field

-- The assignment, field by field.
abbrev assign_each : AuthorizationResponse → Bytes → Bytes → AuthorizationResponse
assign_each r name value = record {
  code = assign_if (bytes_eq name (codes "code")) r.code value;
  state = assign_if (bytes_eq name (codes "state")) r.state value;
  iss = assign_if (bytes_eq name (codes "iss")) r.iss value;
  error = assign_if (bytes_eq name (codes "error")) r.error value;
  error_description =
      assign_if (bytes_eq name (codes "error_description")) r.error_description value;
  error_uri = assign_if (bytes_eq name (codes "error_uri")) r.error_uri value;
}

abbrev Assigns : AuthorizationResponse → Bytes → Bytes → Type 0
Assigns r value name = assign_response_field r name value ≡ assign_each r name value

assign_response_field-each : (r : AuthorizationResponse) (name value : Bytes) → Assigns r value name
unfolding assign_response_field
assign_response_field-each r name value = elim (Bool-cases (bytes_eq name (codes "code"))) [
  | inl e ↦ subst (Assigns r value) (sym (bytes_eq→eq name _ e)) refl
  | inr a ↦ elim (Bool-cases (bytes_eq name (codes "state"))) [
    | inl e ↦ subst (Assigns r value) (sym (bytes_eq→eq name _ e)) refl
    | inr b ↦ elim (Bool-cases (bytes_eq name (codes "iss"))) [
      | inl e ↦ subst (Assigns r value) (sym (bytes_eq→eq name _ e)) refl
      | inr c ↦ elim (Bool-cases (bytes_eq name (codes "error"))) [
        | inl e ↦ subst (Assigns r value) (sym (bytes_eq→eq name _ e)) refl
        | inr d ↦ elim (Bool-cases (bytes_eq name (codes "error_description"))) [
          | inl e ↦ subst (Assigns r value) (sym (bytes_eq→eq name _ e)) refl
          | inr f ↦ elim (Bool-cases (bytes_eq name (codes "error_uri"))) [
            | inl e ↦ subst (Assigns r value) (sym (bytes_eq→eq name _ e)) refl
            | inr g ↦ rw (a, b, c, d, f, g) refl
          ]
        ]
      ]
    ]
  ]
]

abbrev or_else : Option Bytes → Option Bytes → Option Bytes
or_else none other = other
or_else (some x) other = some x

or_else-assign_if :
    (b : Bool) (field other : Option Bytes) (value : Bytes)
    → or_else (assign_if b field value) other ≡ or_else field (if b then some value else other)
or_else-assign_if true none other value = refl
or_else-assign_if true (some x) other value = refl
or_else-assign_if false field other value = refl

abbrev merged : AuthorizationResponse → List Parameter → AuthorizationResponse
merged r params = record {
  code = or_else r.code (first (codes "code") params);
  state = or_else r.state (first (codes "state") params);
  iss = or_else r.iss (first (codes "iss") params);
  error = or_else r.error (first (codes "error") params);
  error_description = or_else r.error_description (first (codes "error_description") params);
  error_uri = or_else r.error_uri (first (codes "error_uri") params);
}

or_else-none : (field : Option Bytes) → or_else field none ≡ field
or_else-none none = refl
or_else-none (some x) = refl

assign_fields-merged :
    (r : AuthorizationResponse) (params : List Parameter) → assign_fields r params ≡ merged r params
unfolding assign_fields
assign_fields-merged r [] =
    rw
      (
        or_else-none r.code,
        or_else-none r.state,
        or_else-none r.iss,
        or_else-none r.error,
        or_else-none r.error_description,
        or_else-none r.error_uri,
      )
      refl
assign_fields-merged r ((key, value) ∷ params) =
    let name = to_lower_ascii key in
    ap (λ r'. assign_fields r' params) (assign_response_field-each r name value)
    ∙ assign_fields-merged (assign_each r name value) params
    ∙ rw
        (
          or_else-assign_if (bytes_eq name (codes "code")) r.code (first (codes "code") params)
              value,
          or_else-assign_if (bytes_eq name (codes "state")) r.state (first (codes "state") params)
              value,
          or_else-assign_if (bytes_eq name (codes "iss")) r.iss (first (codes "iss") params) value,
          or_else-assign_if (bytes_eq name (codes "error")) r.error (first (codes "error") params)
              value,
          or_else-assign_if (bytes_eq name (codes "error_description")) r.error_description
              (first (codes "error_description") params) value,
          or_else-assign_if (bytes_eq name (codes "error_uri")) r.error_uri
              (first (codes "error_uri") params) value,
        )
        refl

behind-append :
    (base text : Bytes)
    → All (λ c. (c == b'?') ≡ false) base
    → behind b'?' (base ++ b'?' ∷ text) ≡ some text
unfolding behind
behind-append [] text h = refl
behind-append (c ∷ base) text h = rw (h.0, if◌then◌else◌) (behind-append base text h.1)

up_to-All : (text : Bytes) → All NotHash text → up_to b'#' text ≡ text
unfolding up_to
up_to-All [] h = refl
up_to-All (c ∷ text) h = rw (h.0, if◌then◌else◌) (ap (λ t. c ∷ t) (up_to-All text h.1))

query_of-append :
    (base text : Bytes)
    → All (λ c. (c == b'?') ≡ false) base
    → All NotHash text
    → query_of (base ++ b'?' ∷ text) ≡ text
unfolding query_of
query_of-append base text h h' = rw (behind-append base text h, up_to-All text h') refl

-- A redirect URL whose base has no question mark, and whose query is the form body of parameters of
-- bytes, is read as the response of these parameters.
pub parse_authorization_response-build_form_body :
    (base : Bytes) (params : List Parameter)
    → All (λ c. (c == b'?') ≡ false) base
    → AllBytes params
    → parse_authorization_response (base ++ b'?' ∷ build_form_body params) ≡ response_of params
unfolding parse_authorization_response
parse_authorization_response-build_form_body base params h h' =
    ap (λ q. assign_fields empty_response (decode_fields (split_fields [] q)))
      (query_of-append base (build_form_body params) h (build_form_body-NotHash params h'))
    ∙ ap (assign_fields empty_response) (decode_fields-build_form_body params h')
    ∙ assign_fields-merged empty_response params
