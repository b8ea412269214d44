-- ===== src/Auth/Policy/Url.antt =====
-- src/auth/metadata_policy.cpp: `validate_metadata_url`. A callback of the user is a function.
pub mod Admission
pub mod Meaning
pub mod Front
mod Tests
use mcp_cpp_sdk.Prelude.{
  Bool, true, false, not, ◌&&◌, ◌||◌, Option, none, some, List, [], ◌∷◌, ◌++◌, if◌then◌else◌, Bytes,
  codes, bytes_eq,
}
use mcp_cpp_sdk.Auth.Policy.Address.{
  AddressApi, Address, MetadataUrlDecision, allowed, malformed_url, scheme_not_allowed,
  origin_denied, origin_not_allowed, validate_metadata_address,
}
use mcp_cpp_sdk.Auth.Policy.Origin.{
  split_url, has_char, authority_host, CanonicalOrigin, canonicalize_origin_parts,
  format_canonical_origin, contains_origin, denies_origin,
}

pub record MetadataFetchPolicy : Type 0 where
  pub allowed_origins : List Bytes
  pub denied_origins : List Bytes
  pub origin_allowance : Option (Bytes → Bool)
  pub allow_plain_http_loopback : Bool

-- A decision, or the exception for an entry of the deny list that is no origin.
pub data Verdict : Type 0 where
  decides : MetadataUrlDecision → Verdict
  throws : Verdict

-- `metadata_url_origin`, which is empty for a malformed URL.
abbrev pub origin_text : Option (Bytes × Bytes) → Bytes
origin_text none = []
origin_text (some (scheme, authority)) = scheme ++ (codes "://" ++ authority)

unfoldable pub metadata_url_origin : Bytes → Bytes
unfolding split_url
metadata_url_origin url = origin_text (split_url url)

abbrev pub allowance : Option (Bytes → Bool) → Bytes → Bool
allowance none origin = false
allowance (some callback) origin = callback origin

module _ (api : AddressApi) where
  abbrev literal_is_loopback : Option Address → Bool
  literal_is_loopback none = false
  literal_is_loopback (some address) = api.is_loopback_address address

  unfoldable pub is_loopback_host : Bytes → Bool
  is_loopback_host host =
      bytes_eq host (codes "localhost") || literal_is_loopback (api.make_address host)

  -- The scheme of a canonical origin, and whether the opt-out covers it.
  unfoldable pub scheme_allowed : MetadataFetchPolicy → CanonicalOrigin → Bool
  unfolding is_loopback_host
  scheme_allowed policy canonical =
      bytes_eq canonical.scheme (codes "https")
      || (policy.allow_plain_http_loopback
          && (bytes_eq canonical.scheme (codes "http") && is_loopback_host canonical.host))

  -- A host that is written as an address.
  unfoldable pub literal_decision : Bool → Option Address → MetadataUrlDecision
  unfolding validate_metadata_address
  literal_decision loopback none = allowed
  literal_decision loopback (some address) =
      validate_metadata_address api loopback (api.to_string address)

  abbrev pub origin_allowed : MetadataFetchPolicy → Bytes → Bool
  origin_allowed policy canonical_origin =
      contains_origin api policy.allowed_origins canonical_origin
      || allowance policy.origin_allowance canonical_origin

  -- Behind the deny list.
  unfoldable pub decide_undenied :
      MetadataFetchPolicy → Bytes → CanonicalOrigin → MetadataUrlDecision
  unfolding contains_origin scheme_allowed literal_decision
  decide_undenied policy host canonical =
      if not (origin_allowed policy (format_canonical_origin api canonical))
      then origin_not_allowed
      else if not (scheme_allowed policy canonical)
      then scheme_not_allowed
      else literal_decision policy.allow_plain_http_loopback (api.make_address host)

  abbrev pub decide_denial : MetadataFetchPolicy → Bytes → CanonicalOrigin → Option Bool → Verdict
  decide_denial policy host canonical none = throws
  decide_denial policy host canonical (some denied) =
      if denied then decides origin_denied else decides (decide_undenied policy host canonical)

  abbrev pub decide_canonical : MetadataFetchPolicy → Bytes → Option CanonicalOrigin → Verdict
  decide_canonical policy host none = decides malformed_url
  decide_canonical policy host (some canonical) =
      decide_denial policy host canonical
        (denies_origin api policy.denied_origins (format_canonical_origin api canonical))

  abbrev pub decide_host : MetadataFetchPolicy → Bytes → Option Bytes → Verdict
  decide_host policy origin none = decides malformed_url
  decide_host policy origin (some host) =
      decide_canonical policy host (canonicalize_origin_parts api origin)

  -- A URL with userinfo is malformed.
  abbrev pub decide_url : MetadataFetchPolicy → Option (Bytes × Bytes) → Verdict
  decide_url policy none = decides malformed_url
  decide_url policy (some (scheme, authority)) =
      if has_char b'@' authority
      then decides malformed_url
      else decide_host policy (scheme ++ (codes "://" ++ authority)) (authority_host authority)

  unfoldable pub validate_metadata_url : MetadataFetchPolicy → Bytes → Verdict
  unfolding split_url authority_host canonicalize_origin_parts denies_origin decide_undenied
  validate_metadata_url policy url = decide_url policy (split_url url)
