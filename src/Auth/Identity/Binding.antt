-- ===== src/Auth/Identity/Binding.antt =====
-- To whom src/auth/client_identity.cpp presents a secret.
use mcp_cpp_sdk.Prelude.{
  ◌≡◌, ◌⊎◌, inl, inr, refl, true, false, ◌&&◌, Option, none, some, if-both, Bytes, bytes_eq,
  bytes_eq→eq, arith,
}
use mcp_cpp_sdk.Http.Types.{is_empty}
use mcp_cpp_sdk.Auth.Identity.{
  OAuthClientInformation, ClientIdentityConfig, ClientIdentityServerFacts, ClientIdentityDecision,
  use_pre_registered, reuse_stored_registration, unavailable, has_text, select_injected,
  is_reusable, select_other, select_from, select_client_identity,
}

-- The credentials that a decision presents, where they exist.
abbrev pub presented :
    Option OAuthClientInformation
    → Option OAuthClientInformation
    → ClientIdentityDecision
    → Option OAuthClientInformation
presented injected stored use_pre_registered = injected
presented injected stored reuse_stored_registration = stored
presented injected stored _ = none

-- Credentials of another issuer have no secret, and those of none neither.
abbrev pub IsBound : Option OAuthClientInformation → Bytes → Type 0
IsBound none issuer = Unit
IsBound (some information) issuer =
    (has_text information.client_secret ≡ true)
    → (information.issuer ≡ issuer) × (is_empty issuer ≡ false)

abbrev Bound :
    Option OAuthClientInformation
    → Option OAuthClientInformation
    → Bytes
    → ClientIdentityDecision
    → Type 0
Bound injected stored issuer decision = IsBound (presented injected stored decision) issuer

nonempty :
    (issuer expected : Bytes)
    → issuer ≡ expected
    → is_empty issuer ≡ false
    → is_empty expected ≡ false
nonempty issuer expected e h = ground (arith, e, h)

select_injected-Bound :
    (injected : OAuthClientInformation) (stored : Option OAuthClientInformation)
    (server : ClientIdentityServerFacts)
    → Bound (some injected) stored server.issuer (select_injected injected server)
unfolding select_injected
select_injected-Bound injected stored server =
    if-both (Bound (some injected) stored server.issuer) (is_empty injected.issuer) _ _
      (λ unbound.
        if-both (Bound (some injected) stored server.issuer) (has_text injected.client_secret) _ _
          (λ e. tt) (λ e secret. ground (arith, e, secret)))
      (λ bound.
        if-both (Bound (some injected) stored server.issuer)
          (bytes_eq injected.issuer server.issuer) _ _
          (λ e secret.
            let same = bytes_eq→eq injected.issuer server.issuer e in
            (same, nonempty injected.issuer server.issuer same bound))
          (λ e. tt))

is_reusable-IsBound :
    (stored : Option OAuthClientInformation) (issuer : Bytes)
    → is_reusable stored issuer ≡ true
    → IsBound stored issuer
unfolding is_reusable
is_reusable-IsBound none issuer h = tt
is_reusable-IsBound (some stored) issuer h =
    λ secret. (bytes_eq→eq stored.issuer issuer (ground (arith, h)), ground (arith, h))

select_other-Bound :
    (injected stored : Option OAuthClientInformation) (client_metadata_url : Option Bytes)
    (server : ClientIdentityServerFacts)
    → Bound injected stored server.issuer (select_other client_metadata_url server stored)
unfolding select_other
select_other-Bound injected stored client_metadata_url server =
    let P = Bound injected stored server.issuer in
    if-both P (has_text client_metadata_url && server.client_id_metadata_document_supported) _ _
      (λ e. tt)
      (λ e.
        if-both P (is_reusable stored server.issuer) _ _
          (λ e. is_reusable-IsBound stored server.issuer e)
          (λ e. if-both P (has_text server.registration_endpoint) _ _ (λ e. tt) (λ e. tt)))

select_from-Bound :
    (injected stored : Option OAuthClientInformation) (client_metadata_url : Option Bytes)
    (server : ClientIdentityServerFacts)
    → Bound injected stored server.issuer (select_from injected client_metadata_url server stored)
unfolding select_from
select_from-Bound none stored client_metadata_url server =
    select_other-Bound none stored client_metadata_url server
select_from-Bound (some injected) stored client_metadata_url server =
    if-both (Bound (some injected) stored server.issuer) (is_empty injected.client_id) _ _
      (λ e. select_other-Bound (some injected) stored client_metadata_url server)
      (λ e. select_injected-Bound injected stored server)

-- Injected credentials with an identifier are used or nothing is.
abbrev pub IsTerminal : Option OAuthClientInformation → ClientIdentityDecision → Type 0
IsTerminal none decision = Unit
IsTerminal (some injected) decision =
    (is_empty injected.client_id ≡ false)
    → (decision ≡ use_pre_registered) ⊎ (decision ≡ unavailable)

select_injected-ends :
    (injected : OAuthClientInformation) (server : ClientIdentityServerFacts)
    → (select_injected injected server ≡ use_pre_registered)
      ⊎ (select_injected injected server ≡ unavailable)
unfolding select_injected
select_injected-ends injected server =
    let P : ClientIdentityDecision → Type 0 = λ d. (d ≡ use_pre_registered) ⊎ (d ≡ unavailable) in
    if-both P (is_empty injected.issuer) _ _
      (λ e. if-both P (has_text injected.client_secret) _ _ (λ e. inr refl) (λ e. inl refl))
      (λ e. if-both P (bytes_eq injected.issuer server.issuer) _ _ (λ e. inl refl) (λ e. inr refl))

select_from-IsTerminal :
    (injected stored : Option OAuthClientInformation) (client_metadata_url : Option Bytes)
    (server : ClientIdentityServerFacts)
    → IsTerminal injected (select_from injected client_metadata_url server stored)
unfolding select_from
select_from-IsTerminal none stored client_metadata_url server = tt
select_from-IsTerminal (some injected) stored client_metadata_url server =
    if-both (IsTerminal (some injected)) (is_empty injected.client_id) _ _
      (λ e given. ground (arith, e, given)) (λ e given. select_injected-ends injected server)

-- Whatever the configuration, the server and the stored registration, credentials that are presented with a secret name the issuer
-- of the server, which is not empty; and injected credentials with a client identifier are
-- presented, or no identity is.
pub select_client_identity-IsBound :
    (config : ClientIdentityConfig) (server : ClientIdentityServerFacts)
    (stored : Option OAuthClientInformation)
    → let decision = select_client_identity config server stored in
      IsBound (presented config.pre_registered stored decision) server.issuer
      × IsTerminal config.pre_registered decision
unfolding select_client_identity
select_client_identity-IsBound config server stored = (
  select_from-Bound config.pre_registered stored config.client_metadata_url server,
  select_from-IsTerminal config.pre_registered stored config.client_metadata_url server,
)
