-- ===== src/Auth/Policy/Origin.antt =====
-- src/auth/metadata_policy.cpp: origins in their canonical form, and the lists of a policy. A port is
-- below 2^16, and the loop that reads it never leaves 20 bits.
pub mod Lists
pub mod Port
use mcp_cpp_sdk.Prelude.{
  ℕ, ◌+◌, ◌*◌, ◌-◌, Bool, true, false, not, ◌&&◌, ◌||◌, Option, none, some, List, [], ◌∷◌, ◌++◌,
  map, ltb, ◌==◌, within, if◌then◌else◌, length, Bytes, codes, bytes_eq,
}
use mcp_cpp_sdk.Http.Types.{is_empty, lower, after_prefix, take_until}
use mcp_cpp_sdk.Http.EventStore.{to_string}
use mcp_cpp_sdk.Auth.Policy.Address.{AddressApi, Address}

-- The text in front of the first `c` and the text behind it.
unfoldable pub split_at : ℕ → Bytes → Option (Bytes × Bytes)
split_at c [] = none
split_at c (x ∷ text) =
    let rest = split_at c text in
    if x == c
    then some ([], text)
    else elim rest [ none ↦ none | some (front, behind) ↦ some (x ∷ front, behind) ]

-- The text in front of the first `://` and the text behind it.
unfoldable pub split_at_separator : Bytes → Option (Bytes × Bytes)
split_at_separator [] = none
split_at_separator (x ∷ text) = elim (after_prefix (codes "://") (x ∷ text)) [
  | some rest ↦ some ([], rest)
  | none ↦ elim (split_at_separator text) [
    | none ↦ none
    | some (front, behind) ↦ some (x ∷ front, behind)
  ]
]

abbrev pub ends_authority : ℕ → Bool
ends_authority c = c == b'/' || (c == b'?' || c == b'#')

-- The scheme and the authority of a URL, unless one of them is empty.
abbrev pub scheme_and_authority : Option (Bytes × Bytes) → Option (Bytes × Bytes)
scheme_and_authority none = none
scheme_and_authority (some (scheme, rest)) =
    if is_empty scheme || is_empty (take_until ends_authority rest)
    then none
    else some (scheme, take_until ends_authority rest)

unfoldable pub split_url : Bytes → Option (Bytes × Bytes)
unfolding split_at_separator
split_url url = scheme_and_authority (split_at_separator url)

abbrev pub has_char : ℕ → Bytes → Bool
has_char c [] = false
has_char c (x ∷ text) = x == c || has_char c text

-- The host in brackets, behind the opening one.
abbrev pub bracketed_host : Option (Bytes × Bytes) → Option Bytes
bracketed_host none = none
bracketed_host (some (host, behind)) = if is_empty host then none else some host

abbrev pub named_host : Bytes → Option (Bytes × Bytes) → Option Bytes
named_host authority none = some authority
named_host authority (some (host, port)) =
    if has_char b':' port then none else if is_empty host then none else some host

unfoldable pub authority_host : Bytes → Option Bytes
unfolding split_at
authority_host [] = none
authority_host (c ∷ authority) =
    if c == b'['
    then bracketed_host (split_at b']' authority)
    else named_host (c ∷ authority) (split_at b':' (c ∷ authority))

abbrev pub lowercase_ascii : Bytes → Bytes
lowercase_ascii value = map lower value

-- The loop of `parse_strict_port`.
unfoldable pub port_from : ℕ → Bytes → Option ℕ
port_from value [] = some value
port_from value (c ∷ text) =
    let next = value * 10 + (c - b'0') in
    let rest = port_from next text in
    if not (within b'0' b'9' c) then none else if ltb 65535 next then none else rest

unfoldable pub parse_strict_port : Bytes → Option ℕ
unfolding port_from
parse_strict_port [] = none
parse_strict_port (c ∷ text) = port_from 0 (c ∷ text)

pub record CanonicalOrigin : Type 0 where
  pub scheme : Bytes
  pub host : Bytes
  pub port : Option ℕ
  pub bracketed : Bool

abbrev behind_bracket : Option (Bytes × Bytes) → Option Bytes
behind_bracket none = none
behind_bracket (some (host, [])) = none
behind_bracket (some (host, c ∷ port)) = if c == b':' then some port else none

abbrev behind_colon : Option (Bytes × Bytes) → Option Bytes
behind_colon none = none
behind_colon (some (host, port)) = some port

abbrev pub is_bracketed : Bytes → Bool
is_bracketed [] = false
is_bracketed (c ∷ authority) = c == b'['

-- The text of the port, if there is one.
unfoldable pub port_text : Bytes → Option Bytes
unfolding split_at
port_text authority =
    if is_bracketed authority
    then behind_bracket (split_at b']' authority)
    else behind_colon (split_at b':' authority)

-- `while (!host.empty() && host.back() == '.') host.pop_back()`
unfoldable pub strip_dots : Bytes → Bytes
strip_dots [] = []
strip_dots (c ∷ host) =
    let rest = strip_dots host in if c == b'.' && is_empty rest then [] else c ∷ rest

abbrev pub some_text : Bytes → Option Bytes
some_text [] = none
some_text (c ∷ text) = some (c ∷ text)

module _ (api : AddressApi) where
  abbrev host_of_literal : Bytes → Option Address → Option Bytes
  host_of_literal host none = some_text (strip_dots (lowercase_ascii host))
  host_of_literal host (some address) = some (api.to_string address)

  unfoldable pub canonical_host : Bytes → Option Bytes
  unfolding strip_dots
  canonical_host host = host_of_literal host (api.make_address host)

-- The port, unless it is the default of the scheme.
unfoldable pub explicit_port : Bytes → ℕ → Option ℕ
explicit_port scheme port =
    if (port == 443 && bytes_eq scheme (codes "https"))
      || (port == 80 && bytes_eq scheme (codes "http"))
    then none
    else some port

-- The port of an origin, which is `none` where it is malformed.
unfoldable pub canonical_port : Bytes → Option Bytes → Option (Option ℕ)
unfolding parse_strict_port explicit_port
canonical_port scheme none = some none
canonical_port scheme (some text) = elim (parse_strict_port text) [
  | none ↦ none
  | some port ↦ some (explicit_port scheme port)
]

abbrev pub with_port : Bytes → Bytes → Bool → Option (Option ℕ) → Option CanonicalOrigin
with_port scheme host bracketed none = none
with_port scheme host bracketed (some port) =
    some (record { scheme = scheme; host = host; port = port; bracketed = bracketed })

module _ (api : AddressApi) where
  abbrev with_host : Bytes → Bytes → Option Bytes → Option CanonicalOrigin
  with_host scheme authority none = none
  with_host scheme authority (some host) =
      with_port scheme host (is_bracketed authority) (canonical_port scheme (port_text authority))

  abbrev of_host : Bytes → Bytes → Option Bytes → Option CanonicalOrigin
  of_host scheme authority none = none
  of_host scheme authority (some host) =
      with_host (lowercase_ascii scheme) authority (canonical_host api host)

  -- The parts of an origin with nothing behind its authority.
  unfoldable pub canonicalize_parts : Bytes → Option (Bytes × Bytes) → Option CanonicalOrigin
  unfolding authority_host canonical_host canonical_port port_text
  canonicalize_parts origin none = none
  canonicalize_parts origin (some (scheme, authority)) =
      if length scheme + 3 + length authority == length origin
      then of_host scheme authority (authority_host authority)
      else none

  unfoldable pub canonicalize_origin_parts : Bytes → Option CanonicalOrigin
  unfolding canonicalize_parts split_url
  canonicalize_origin_parts origin = canonicalize_parts origin (split_url origin)

  abbrev port_suffix : Option ℕ → Bytes
  port_suffix none = []
  port_suffix (some port) = b':' ∷ to_string port

  unfoldable pub format_canonical_origin : CanonicalOrigin → Bytes
  unfolding to_string
  format_canonical_origin parts =
      parts.scheme
      ++ (codes "://"
          ++ ((if parts.bracketed then b'[' ∷ (parts.host ++ b']' ∷ []) else parts.host)
              ++ port_suffix parts.port))

  unfoldable pub canonicalize_origin : Bytes → Option Bytes
  unfolding canonicalize_origin_parts format_canonical_origin
  canonicalize_origin origin = elim (canonicalize_origin_parts origin) [
    | none ↦ none
    | some parts ↦ some (format_canonical_origin parts)
  ]

  abbrev pub is_origin : Option Bytes → Bytes → Bool
  is_origin none canonical_origin = false
  is_origin (some candidate) canonical_origin = bytes_eq candidate canonical_origin

  unfoldable pub contains_origin : List Bytes → Bytes → Bool
  unfolding canonicalize_origin
  contains_origin [] canonical_origin = false
  contains_origin (candidate ∷ origins) canonical_origin =
      is_origin (canonicalize_origin candidate) canonical_origin
      || contains_origin origins canonical_origin

  -- `none` when the rest of the list or this entry throws.
  abbrev pub denied_by : Option Bytes → Bytes → Option Bool → Option Bool
  denied_by none canonical_origin rest = none
  denied_by (some candidate) canonical_origin none = none
  denied_by (some candidate) canonical_origin (some denied) =
      some (bytes_eq candidate canonical_origin || denied)

  unfoldable pub denies_origin : List Bytes → Bytes → Option Bool
  unfolding canonicalize_origin
  denies_origin [] canonical_origin = some false
  denies_origin (candidate ∷ origins) canonical_origin =
      denied_by (canonicalize_origin candidate) canonical_origin
        (denies_origin origins canonical_origin)
