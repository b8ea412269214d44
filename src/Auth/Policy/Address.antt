-- ===== src/Auth/Policy/Address.antt =====
-- src/auth/metadata_policy.cpp: the classification of addresses. An IPv4 address is a number below
-- 2^32, an IPv6 address the list of its sixteen bytes. What Boost.Asio says of an IPv6 address is a
-- parameter.
pub mod Blocks
pub mod Embedded
use mcp_cpp_sdk.Prelude.{
  ℕ, ◌+◌, ◌*◌, ◌/◌, ◌%◌, ◌^◌, Bool, true, false, ◌&&◌, ◌||◌, Option, none, some, List, [], ◌∷◌,
  ◌==◌, leb, within, if◌then◌else◌, get_or, take, replicate, Bytes, bytes_eq,
}

pub data MetadataUrlDecision : Type 0 where
  allowed malformed_url scheme_not_allowed origin_denied origin_not_allowed : MetadataUrlDecision
  address_link_local address_private address_loopback address_multicast : MetadataUrlDecision
  address_reserved redirect_limit_exceeded response_too_large : MetadataUrlDecision
  denied_origin_entry_malformed : MetadataUrlDecision

-- `value >> shift & 0xFF`, with the shift as a power of two.
abbrev pub octet : ℕ → ℕ → ℕ
octet value power = value / power % 256

-- The tests in the order of the code; the first argument is `allow_plain_http_loopback`.
unfoldable pub classify_octets : Bool → ℕ → ℕ → ℕ → ℕ → MetadataUrlDecision
classify_octets loopback value octet1 octet2 octet3 =
    if octet1 == 127
    then if loopback then allowed else address_loopback
    else if octet1 == 169 && octet2 == 254
    then address_link_local
    else if octet1 == 10
        || ((octet1 == 172 && (leb 16 octet2 && leb octet2 31)) || (octet1 == 192 && octet2 == 168))
    then address_private
    else if value == 0xFFFFFFFF
    then address_multicast
    else if leb 224 octet1 && leb octet1 239
    then address_multicast
    else if octet1 == 0 || leb 240 octet1
    then address_reserved
    else if octet1 == 100 && (leb 64 octet2 && leb octet2 127)
    then address_reserved
    else if octet1 == 192 && (octet2 == 0 && (octet3 == 0 || octet3 == 2))
    then address_reserved
    else if octet1 == 198 && (octet2 == 18 || octet2 == 19)
    then address_reserved
    else if octet1 == 198 && (octet2 == 51 && octet3 == 100)
    then address_reserved
    else if octet1 == 203 && (octet2 == 0 && octet3 == 113)
    then address_reserved
    else allowed

unfoldable pub classify_v4 : Bool → ℕ → MetadataUrlDecision
unfolding classify_octets
classify_v4 loopback value =
    classify_octets loopback value (octet value 0x1000000) (octet value 0x10000) (octet value 0x100)

-- An address that Boost.Asio has parsed.
pub data Address : Type 0 where
  v4 : ℕ → Address
  v6 : Bytes → Address

-- What the code asks Boost.Asio about a text, an address, and the bytes of an IPv6 address.
pub record AddressApi : Type 0 where
  pub make_address : Bytes → Option Address
  pub to_string : Address → Bytes
  pub is_loopback_address : Address → Bool
  pub is_unspecified : Bytes → Bool
  pub is_loopback : Bytes → Bool
  pub is_link_local : Bytes → Bool
  pub is_multicast : Bytes → Bool
  pub is_site_local : Bytes → Bool

abbrev pub byte : Bytes → ℕ → ℕ
byte bytes index = get_or bytes index 0

-- The address of four bytes.
abbrev pub v4_of : ℕ → ℕ → ℕ → ℕ → ℕ
v4_of a b c d = a * 0x1000000 + b * 0x10000 + c * 0x100 + d

abbrev pub v4_at : Bytes → ℕ → ℕ → ℕ → ℕ → ℕ
v4_at bytes a b c d = v4_of (byte bytes a) (byte bytes b) (byte bytes c) (byte bytes d)

-- `::ffff:a.b.c.d`
unfoldable pub mapped_v4 : Bytes → Option ℕ
mapped_v4 bytes =
    if bytes_eq (take 10 bytes) (replicate 10 0) && (byte bytes 10 == 0xFF && byte bytes 11 == 0xFF)
    then some (v4_at bytes 12 13 14 15)
    else none

abbrev pub nat64_prefix : Bytes
nat64_prefix = 0x00 ∷ 0x64 ∷ 0xFF ∷ 0x9B ∷ replicate 8 0

unfoldable pub embedded_v4 : Bytes → Option ℕ
embedded_v4 bytes =
    if bytes_eq (take 12 bytes) nat64_prefix
    then some (v4_at bytes 12 13 14 15)
    else if byte bytes 0 == 0x20 && byte bytes 1 == 0x02
    then some (v4_at bytes 2 3 4 5)
    else none

-- The bytes of an address with no IPv4 address in it. `(byte & 0xFE) == 0xFC` leaves two bytes.
unfoldable pub classify_plain_v6 : AddressApi → Bool → Bytes → MetadataUrlDecision
classify_plain_v6 api loopback bytes =
    if api.is_unspecified bytes
    then address_reserved
    else if api.is_loopback bytes
    then if loopback then allowed else address_loopback
    else if api.is_link_local bytes
    then address_link_local
    else if api.is_multicast bytes
    then address_multicast
    else if byte bytes 0 == 0xFC || byte bytes 0 == 0xFD
    then address_private
    else if api.is_site_local bytes
    then address_private
    else allowed

unfoldable pub classify_embedded : AddressApi → Bool → Bytes → Option ℕ → MetadataUrlDecision
unfolding classify_v4 classify_plain_v6
classify_embedded api loopback bytes none = classify_plain_v6 api loopback bytes
classify_embedded api loopback bytes (some value) = classify_v4 false value

unfoldable pub classify_mapped : AddressApi → Bool → Bytes → Option ℕ → MetadataUrlDecision
unfolding classify_v4 classify_embedded embedded_v4
classify_mapped api loopback bytes none = classify_embedded api loopback bytes (embedded_v4 bytes)
classify_mapped api loopback bytes (some value) = classify_v4 loopback value

unfoldable pub classify_v6 : AddressApi → Bool → Bytes → MetadataUrlDecision
unfolding classify_mapped mapped_v4
classify_v6 api loopback bytes = classify_mapped api loopback bytes (mapped_v4 bytes)

unfoldable pub validate_address : AddressApi → Bool → Option Address → MetadataUrlDecision
unfolding classify_v4 classify_v6
validate_address api loopback none = malformed_url
validate_address api loopback (some (v4 value)) = classify_v4 loopback value
validate_address api loopback (some (v6 bytes)) = classify_v6 api loopback bytes

unfoldable pub validate_metadata_address : AddressApi → Bool → Bytes → MetadataUrlDecision
unfolding validate_address
validate_metadata_address api loopback literal =
    validate_address api loopback (api.make_address literal)
