-- ===== src/Auth/Policy/Url/Admission.antt =====
-- Which URLs src/auth/metadata_policy.cpp allows.
use mcp_cpp_sdk.Prelude.{
  ◌≡◌, ◌↔◌, refl, sym, ap, ◌∙◌, Bool, true, false, not, Option, none, some, ◌++◌, if◌then◌else◌,
  if-both, if-false, Bytes, codes, arith,
}
use mcp_cpp_sdk.Auth.Policy.Address.{
  AddressApi, MetadataUrlDecision, allowed, malformed_url, scheme_not_allowed, origin_not_allowed,
}
use mcp_cpp_sdk.Auth.Policy.Origin.{
  split_url, has_char, authority_host, CanonicalOrigin, canonicalize_origin_parts,
  format_canonical_origin, denies_origin,
}
use mcp_cpp_sdk.Auth.Policy.Origin.Lists.{DeniesNot, denies_origin-DeniesNot}
use mcp_cpp_sdk.Auth.Policy.Url.{
  MetadataFetchPolicy, Verdict, decides, throws, scheme_allowed, literal_decision, origin_allowed,
  decide_undenied, decide_denial, decide_canonical, decide_host, decide_url, validate_metadata_url,
}
use mcp_cpp_sdk.Auth.Policy.Url.Meaning.{
  IsSecure, IsNotRefused, IsListed, scheme_allowed-IsSecure, literal_decision-IsNotRefused,
  origin_allowed-IsListed,
}

abbrev decision_of : Verdict → MetadataUrlDecision
decision_of (decides decision) = decision
decision_of throws = malformed_url

abbrev throws_at_all : Verdict → Bool
throws_at_all throws = true
throws_at_all (decides decision) = false

no_throw : throws ≡ decides allowed → ⊥
no_throw h = ground (arith, ap throws_at_all h)

not-false : (b : Bool) → not b ≡ false → b ≡ true
not-false true h = refl
not-false false h = sym h

module _ (api : AddressApi) (policy : MetadataFetchPolicy) where
  -- What a URL that is allowed is.
  pub record IsAdmissible (url : Bytes) : Type 0 where
    pub scheme : Bytes
    pub authority : Bytes
    pub host : Bytes
    pub canonical : CanonicalOrigin
    pub splits : split_url url ≡ some (scheme, authority)
    pub no_userinfo : has_char b'@' authority ≡ false
    pub has_host : authority_host authority ≡ some host
    pub is_origin :
        canonicalize_origin_parts api (scheme ++ (codes "://" ++ authority)) ≡ some canonical
    pub undenied : DeniesNot api (format_canonical_origin api canonical) policy.denied_origins
    pub listed : IsListed api policy (format_canonical_origin api canonical)
    pub secure : IsSecure api policy canonical
    pub address_allowed : IsNotRefused api policy host

module _ (api : AddressApi) (policy : MetadataFetchPolicy) where
  -- The tests of the code, each passed.
  record Passes (url : Bytes) : Type 0 where
    scheme : Bytes
    authority : Bytes
    host : Bytes
    canonical : CanonicalOrigin
    splits : split_url url ≡ some (scheme, authority)
    no_userinfo : has_char b'@' authority ≡ false
    has_host : authority_host authority ≡ some host
    is_origin :
        canonicalize_origin_parts api (scheme ++ (codes "://" ++ authority)) ≡ some canonical
    undenied :
        denies_origin api policy.denied_origins (format_canonical_origin api canonical) ≡ some false
    listed : origin_allowed api policy (format_canonical_origin api canonical) ≡ true
    secure : scheme_allowed api policy canonical ≡ true
    address_allowed :
        literal_decision api policy.allow_plain_http_loopback (api.make_address host) ≡ allowed

  decide_undenied-allowed :
      (host : Bytes) (canonical : CanonicalOrigin)
      → decide_undenied api policy host canonical ≡ allowed
      → (origin_allowed api policy (format_canonical_origin api canonical) ≡ true)
        × (scheme_allowed api policy canonical ≡ true)
        × (literal_decision api policy.allow_plain_http_loopback (api.make_address host) ≡ allowed)
  unfolding decide_undenied
  decide_undenied-allowed host canonical =
      let Goal =
        (origin_allowed api policy (format_canonical_origin api canonical) ≡ true)
        × (scheme_allowed api policy canonical ≡ true)
        × (literal_decision api policy.allow_plain_http_loopback (api.make_address host)
            ≡ allowed) in
      let P : MetadataUrlDecision → Type 0 = λ d. (d ≡ allowed) → Goal in
      if-both P (not (origin_allowed api policy (format_canonical_origin api canonical))) _ _
        (λ e h. ground (arith, h))
        (λ e1.
          if-both P (not (scheme_allowed api policy canonical)) _ _ (λ e h. ground (arith, h))
            (λ e2 h. (not-false _ e1, not-false _ e2, h)))

  -- The parts of an admission from the host on.
  abbrev Undenied : Bytes → CanonicalOrigin → Type 0
  Undenied host canonical =
      (denies_origin api policy.denied_origins (format_canonical_origin api canonical) ≡ some false)
      × (decide_undenied api policy host canonical ≡ allowed)

  decide_denial-allowed :
      (host : Bytes) (canonical : CanonicalOrigin) (denial : Option Bool)
      → decide_denial api policy host canonical denial ≡ decides allowed
      → (denial ≡ some false) × (decide_undenied api policy host canonical ≡ allowed)
  decide_denial-allowed host canonical none h = absurd (no_throw h)
  decide_denial-allowed host canonical (some true) h = ground (arith, ap decision_of h)
  decide_denial-allowed host canonical (some false) h = (refl, ap decision_of h)

  decide_canonical-allowed :
      (host : Bytes) (parts : Option CanonicalOrigin)
      → decide_canonical api policy host parts ≡ decides allowed
      → (canonical : CanonicalOrigin) × ((parts ≡ some canonical) × Undenied host canonical)
  decide_canonical-allowed host none h = ground (arith, ap decision_of h)
  decide_canonical-allowed host (some canonical) h =
      (canonical, (refl, decide_denial-allowed host canonical _ h))

  decide_host-allowed :
      (origin : Bytes) (found : Option Bytes)
      → decide_host api policy origin found ≡ decides allowed
      → (host : Bytes) × (canonical : CanonicalOrigin) × (found ≡ some host)
        × (canonicalize_origin_parts api origin ≡ some canonical)
        × Undenied host canonical
  decide_host-allowed origin none h = ground (arith, ap decision_of h)
  decide_host-allowed origin (some host) h =
      let rest = decide_canonical-allowed host (canonicalize_origin_parts api origin) h in
      (host, rest.0, refl, rest.1.0, rest.1.1)

  decide_url-allowed :
      (url : Bytes) (parts : Option (Bytes × Bytes))
      → split_url url ≡ parts
      → decide_url api policy parts ≡ decides allowed
      → Passes url
  decide_url-allowed url none splits h = ground (arith, ap decision_of h)
  decide_url-allowed url (some (scheme, authority)) splits h =
      let P : Verdict → Type 0 = λ v. (v ≡ decides allowed) → Passes url in
      if-both P (has_char b'@' authority) _ _ (λ e h. ground (arith, ap decision_of h))
        (λ e h.
          let rest =
            decide_host-allowed (scheme ++ (codes "://" ++ authority)) (authority_host authority)
              h in
          let last = decide_undenied-allowed rest.0 rest.1 rest.4.1 in
          record {
            scheme = scheme;
            authority = authority;
            host = rest.0;
            canonical = rest.1;
            splits = splits;
            no_userinfo = e;
            has_host = rest.2;
            is_origin = rest.3;
            undenied = rest.4.0;
            listed = last.0;
            secure = last.1;
            address_allowed = last.2;
          })
        h

  -- The other direction, through the same functions.
  Passes-allowed :
      (url : Bytes) → Passes url → validate_metadata_url api policy url ≡ decides allowed
  unfolding validate_metadata_url decide_undenied
  Passes-allowed url a =
      ap (decide_url api policy) a.splits
      ∙ if-false _ _ (has_char b'@' a.authority) a.no_userinfo
      ∙ ap (decide_host api policy (a.scheme ++ (codes "://" ++ a.authority))) a.has_host
      ∙ ap (decide_canonical api policy a.host) a.is_origin
      ∙ ap (decide_denial api policy a.host a.canonical) a.undenied
      ∙ ap decides (
          ap
            (λ b.
              if not b
              then origin_not_allowed
              else if not (scheme_allowed api policy a.canonical)
              then scheme_not_allowed
              else literal_decision api policy.allow_plain_http_loopback (api.make_address a.host))
            a.listed
          ∙ ap
              (λ b.
                if not b
                then scheme_not_allowed
                else literal_decision api policy.allow_plain_http_loopback
                    (api.make_address a.host))
              a.secure
          ∙ a.address_allowed)

  Passes-IsAdmissible : (url : Bytes) → Passes url ↔ IsAdmissible api policy url
  Passes-IsAdmissible url = (
    λ c. record {
      scheme = c.scheme;
      authority = c.authority;
      host = c.host;
      canonical = c.canonical;
      splits = c.splits;
      no_userinfo = c.no_userinfo;
      has_host = c.has_host;
      is_origin = c.is_origin;
      undenied = (denies_origin-DeniesNot api policy.denied_origins _).0 c.undenied;
      listed = (origin_allowed-IsListed api policy _).0 c.listed;
      secure = (scheme_allowed-IsSecure api policy c.canonical).0 c.secure;
      address_allowed = (literal_decision-IsNotRefused api policy c.host).0 c.address_allowed;
    },
    λ a. record {
      scheme = a.scheme;
      authority = a.authority;
      host = a.host;
      canonical = a.canonical;
      splits = a.splits;
      no_userinfo = a.no_userinfo;
      has_host = a.has_host;
      is_origin = a.is_origin;
      undenied = (denies_origin-DeniesNot api policy.denied_origins _).1 a.undenied;
      listed = (origin_allowed-IsListed api policy _).1 a.listed;
      secure = (scheme_allowed-IsSecure api policy a.canonical).1 a.secure;
      address_allowed = (literal_decision-IsNotRefused api policy a.host).1 a.address_allowed;
    },
  )

  -- A URL is allowed exactly if it splits into a scheme and an authority without userinfo and with a
  -- host, its origin has a canonical form, every entry of the deny list has a canonical form and none
  -- has that one, an entry of the allow list has it or the callback accepts it, its scheme is https, or
  -- it is http, the loopback opt-out is set and the host is localhost or a loopback address, and the
  -- host, if it reads as an address, is not refused as one.
  pub validate_metadata_url-IsAdmissible :
      (url : Bytes)
      → (validate_metadata_url api policy url ≡ decides allowed) ↔ IsAdmissible api policy url
  unfolding validate_metadata_url
  validate_metadata_url-IsAdmissible url = (
    (λ h. (Passes-IsAdmissible url).0 (decide_url-allowed url (split_url url) refl h)),
    (λ a. Passes-allowed url ((Passes-IsAdmissible url).1 a)),
  )
