-- ===== src/Auth/Policy/Url/Tests.antt =====
-- Runs of `validate_metadata_url` of src/auth/metadata_policy.cpp, with a resolver that knows two
-- addresses.
use mcp_cpp_sdk.Prelude.{
  ◌≡◌, ◌↔◌, refl, false, not, ◌&&◌, none, some, [], ◌∷◌, if◌then◌else◌, Option, Bytes, codes,
  bytes_eq,
}
use mcp_cpp_sdk.Http.Types.{is_empty}
use mcp_cpp_sdk.Auth.Policy.Address.{
  AddressApi, Address, v4, v4_of, allowed, origin_denied, address_link_local,
}
use mcp_cpp_sdk.Auth.Policy.Origin.{canonicalize_origin, parse_strict_port}
use mcp_cpp_sdk.Auth.Policy.Origin.Port.{
  in_range, are_digits, decimal_from, parse_strict_port-decimal,
}
use mcp_cpp_sdk.Auth.Policy.Url.{MetadataFetchPolicy, decides, throws, validate_metadata_url}
use mcp_cpp_sdk.Auth.Policy.Url.Admission.{IsAdmissible, validate_metadata_url-IsAdmissible}

abbrev metadata_service : Bytes
metadata_service = codes "169.254.169.254"

abbrev read_address : Bytes → Option Address
read_address text =
    if bytes_eq text metadata_service then some (v4 (v4_of 169 254 169 254)) else none

abbrev api : AddressApi
api = record {
  make_address = read_address;
  to_string = λ address. metadata_service;
  is_loopback_address = λ address. false;
  is_unspecified = λ bytes. false;
  is_loopback = λ bytes. false;
  is_link_local = λ bytes. false;
  is_multicast = λ bytes. false;
  is_site_local = λ bytes. false;
}

abbrev policy : MetadataFetchPolicy
policy = record {
  allowed_origins = codes "https://as.test" ∷ codes "https://169.254.169.254" ∷ [];
  denied_origins = codes "https://evil.test" ∷ [];
  origin_allowance = none;
  allow_plain_http_loopback = false;
}

listed_origin : validate_metadata_url api policy (codes "HTTPS://AS.test.:443/x") ≡ decides allowed
unfolding validate_metadata_url mcp_cpp_sdk.Http.Types.take_until
listed_origin = refl

denied_spelling :
    validate_metadata_url api policy (codes "https://EVIL.test..:00443") ≡ decides origin_denied
unfolding validate_metadata_url mcp_cpp_sdk.Http.Types.take_until
denied_spelling = refl

link_local_refused :
    validate_metadata_url api policy (codes "https://169.254.169.254/latest")
    ≡ decides address_link_local
unfolding validate_metadata_url mcp_cpp_sdk.Http.Types.take_until
link_local_refused = refl

malformed_entry_throws :
    validate_metadata_url api
      (record policy { denied_origins = codes "https://evil.test/path" ∷ [] })
      (codes "https://as.test")
    ≡ throws
unfolding validate_metadata_url mcp_cpp_sdk.Http.Types.take_until
malformed_entry_throws = refl

-- What stands behind the brackets of a host is dropped.
text_behind_brackets :
    canonicalize_origin api (codes "https://[::1]evil") ≡ some (codes "https://[::1]")
unfolding canonicalize_origin mcp_cpp_sdk.Http.Types.take_until
text_behind_brackets = refl

validate_metadata_url-IsAdmissible_example :
    (validate_metadata_url api policy (codes "https://as.test/x") ≡ decides allowed)
    ↔ IsAdmissible api policy (codes "https://as.test/x")
validate_metadata_url-IsAdmissible_example =
    validate_metadata_url-IsAdmissible api policy (codes "https://as.test/x")

port_with_zeros : parse_strict_port (codes "00443") ≡ some 443
unfolding parse_strict_port
port_with_zeros = refl

parse_strict_port-decimal_example :
    parse_strict_port (codes "65536")
    ≡ in_range
        (not (is_empty (codes "65536")) && are_digits (codes "65536"))
        (decimal_from 0 (codes "65536"))
parse_strict_port-decimal_example = parse_strict_port-decimal (codes "65536")
