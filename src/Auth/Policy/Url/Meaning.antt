-- ===== src/Auth/Policy/Url/Meaning.antt =====
-- What the tests of `validate_metadata_url` of src/auth/metadata_policy.cpp mean.
use mcp_cpp_sdk.Prelude.{
  ◌⊎◌, inl, inr, or_iff, and_iff, some_iff, bytes_eq, bytes_eq_iff, ◌≡◌, ◌↔◌, refl, Bool, true,
  Option, none, some, Bytes, codes, arith,
}
use mcp_cpp_sdk.Auth.Policy.Address.{AddressApi, Address, validate_metadata_address, allowed}
use mcp_cpp_sdk.Auth.Policy.Origin.{CanonicalOrigin, contains_origin}
use mcp_cpp_sdk.Auth.Policy.Origin.Lists.{Lists, contains_origin-Lists}
use mcp_cpp_sdk.Auth.Policy.Url.{
  allowance, is_loopback_host, literal_is_loopback, MetadataFetchPolicy, scheme_allowed,
  literal_decision, origin_allowed,
}

abbrev Accepts : Option (Bytes → Bool) → Bytes → Type 0
Accepts none origin = ⊥
Accepts (some callback) origin = callback origin ≡ true

allowance-Accepts :
    (callback : Option (Bytes → Bool)) (origin : Bytes)
    → (allowance callback origin ≡ true) ↔ Accepts callback origin
allowance-Accepts none origin = ((λ h. ground (arith, h)), (λ k. absurd k))
allowance-Accepts (some callback) origin = ((λ h. h), (λ h. h))

module _ (api : AddressApi) where
  -- The name, or an address that is a loopback address.
  abbrev IsLoopback : Bytes → Type 0
  IsLoopback host =
      (host ≡ codes "localhost")
      ⊎ ((address : Address) × ((api.make_address host ≡ some address)
            × (api.is_loopback_address address ≡ true)))

module _ (api : AddressApi) (policy : MetadataFetchPolicy) where
  abbrev pub IsSecure : CanonicalOrigin → Type 0
  IsSecure canonical =
      (canonical.scheme ≡ codes "https")
      ⊎ ((policy.allow_plain_http_loopback ≡ true)
          × ((canonical.scheme ≡ codes "http") × IsLoopback api canonical.host))

  -- No address, or one that is allowed in its canonical form.
  abbrev pub IsNotRefused : Bytes → Type 0
  IsNotRefused host =
      (api.make_address host ≡ none)
      ⊎ ((address : Address) × ((api.make_address host ≡ some address)
            × (validate_metadata_address api policy.allow_plain_http_loopback
                  (api.to_string address)
                ≡ allowed)))

  abbrev pub IsListed : Bytes → Type 0
  IsListed origin = Lists api origin policy.allowed_origins ⊎ Accepts policy.origin_allowance origin

module _ (api : AddressApi) (policy : MetadataFetchPolicy) where
  literal-loopback :
      (o : Option Address)
      → (literal_is_loopback api o ≡ true)
        ↔ ((address : Address) × ((o ≡ some address) × (api.is_loopback_address address ≡ true)))
  literal-loopback none = ((λ h. ground (arith, h)), (λ k. ground (arith, k.1.0)))
  literal-loopback (some x) = some_iff (λ address. api.is_loopback_address address ≡ true) x

  is_loopback_host-IsLoopback :
      (host : Bytes) → (is_loopback_host api host ≡ true) ↔ IsLoopback api host
  unfolding is_loopback_host
  is_loopback_host-IsLoopback host =
      or_iff (bytes_eq host (codes "localhost")) (literal_is_loopback api (api.make_address host))
        (bytes_eq_iff host (codes "localhost")) (literal-loopback (api.make_address host))

  pub scheme_allowed-IsSecure :
      (canonical : CanonicalOrigin)
      → (scheme_allowed api policy canonical ≡ true) ↔ IsSecure api policy canonical
  unfolding scheme_allowed
  scheme_allowed-IsSecure canonical =
      or_iff (bytes_eq canonical.scheme (codes "https")) _
        (bytes_eq_iff canonical.scheme (codes "https"))
        (and_iff policy.allow_plain_http_loopback _ ((λ h. h), (λ h. h))
          (and_iff (bytes_eq canonical.scheme (codes "http")) (is_loopback_host api canonical.host)
            (bytes_eq_iff canonical.scheme (codes "http"))
            (is_loopback_host-IsLoopback canonical.host)))

  literal-allowed :
      (o : Option Address)
      → (literal_decision api policy.allow_plain_http_loopback o ≡ allowed) ↔ (
          (o ≡ none)
          ⊎ ((address : Address) × ((o ≡ some address)
                × (validate_metadata_address api policy.allow_plain_http_loopback
                      (api.to_string address)
                    ≡ allowed))))
  unfolding literal_decision
  literal-allowed none = ((λ _. inl refl), (λ _. refl))
  literal-allowed (some x) =
      let P : Address → Type 0 = λ address.
        validate_metadata_address api policy.allow_plain_http_loopback (api.to_string address)
        ≡ allowed in
      (
        (λ h. inr ((some_iff P x).0 h)),
        (λ k. elim k [ inl e ↦ ground (arith, e) | inr found ↦ (some_iff P x).1 found ]),
      )

  pub literal_decision-IsNotRefused :
      (host : Bytes)
      → (literal_decision api policy.allow_plain_http_loopback (api.make_address host) ≡ allowed)
        ↔ IsNotRefused api policy host
  unfolding literal_decision
  literal_decision-IsNotRefused host = literal-allowed (api.make_address host)

  pub origin_allowed-IsListed :
      (origin : Bytes) → (origin_allowed api policy origin ≡ true) ↔ IsListed api policy origin
  origin_allowed-IsListed origin =
      or_iff (contains_origin api policy.allowed_origins origin)
        (allowance policy.origin_allowance origin)
        (contains_origin-Lists api policy.allowed_origins origin)
        (allowance-Accepts policy.origin_allowance origin)
