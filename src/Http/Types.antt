-- ===== src/Http/Types.antt =====
-- src/transport/http_types.cpp. A text is the list of its bytes, and a position in it the suffix that
-- starts there; `std::invalid_argument` is `none`, its wording is not modelled.

pub mod Splits
pub mod Paths
pub mod Document
use mcp_cpp_sdk.Prelude.{
  ℕ, ◌+◌, ◌-◌, Bool, true, false, not, ◌&&◌, ◌||◌, Option, none, some, List, [], ◌∷◌, ◌++◌, leb,
  ltb, ◌==◌, within, if◌then◌else◌, length, Bytes, codes, bytes_eq,
}

abbrev pub quote : ℕ
quote = 0x22

abbrev pub backslash : ℕ
backslash = 0x5C

-- The URL's parts: the scheme and authority, and what follows the authority.
pub record SplitResource : Type 0 where
  pub origin : Bytes
  pub path : Bytes

abbrev pub after_prefix : Bytes → Bytes → Option Bytes
after_prefix [] text = some text
after_prefix (x ∷ xs) [] = none
after_prefix (x ∷ xs) (c ∷ text) = if x == c then after_prefix xs text else none

abbrev pub separator : Bytes
separator = codes "://"

-- The text up to the first `://` and with it, and the text behind.
pub split_scheme : Bytes → Option (Bytes × Bytes)
split_scheme [] = none
split_scheme (c ∷ text) = elim (after_prefix separator (c ∷ text)) [
  | some rest ↦ some (separator, rest)
  | none ↦ elim (split_scheme text) [ none ↦ none | some (front, rest) ↦ some (c ∷ front, rest) ]
]

-- `text.substr(0, text.find(...))` for a set of bytes, and the rest.
unfoldable pub take_until : (ℕ → Bool) → Bytes → Bytes
take_until stop [] = []
take_until stop (c ∷ text) = if stop c then [] else c ∷ take_until stop text

pub drop_until : (ℕ → Bool) → Bytes → Bytes
drop_until stop [] = []
drop_until stop (c ∷ text) = if stop c then c ∷ text else drop_until stop text

abbrev pub is_slash : ℕ → Bool
is_slash c = c == b'/'

abbrev pub ends_path : ℕ → Bool
ends_path c = c == b'?' || c == b'#'

abbrev pub is_empty : Bytes → Bool
is_empty [] = true
is_empty (c ∷ cs) = false

-- The parts of what stands behind the separator; an empty authority is refused.
pub split_rest : Bytes → Bytes → Option SplitResource
unfolding take_until drop_until
split_rest scheme rest =
    let trimmed = take_until ends_path rest in
    let authority = take_until is_slash trimmed in
    if is_empty authority
    then none
    else some (record { origin = scheme ++ authority; path = drop_until is_slash trimmed })

unfoldable pub split_resource : Bytes → Option SplitResource
unfolding split_scheme split_rest
split_resource resource = elim (split_scheme resource) [
  | none ↦ none
  | some (scheme, rest) ↦ split_rest scheme rest
]

abbrev pub is_dots : Bytes → Bool
is_dots segment = bytes_eq segment (codes ".") || bytes_eq segment (codes "..")

-- The loop of `validate_metadata_path` over the segments; the first argument is the segment so far.
pub has_dots_from : Bytes → Bytes → Bool
has_dots_from segment [] = is_dots segment
has_dots_from segment (c ∷ text) = elim (is_slash c) [
  | true ↦ is_dots segment || has_dots_from [] text
  | false ↦ has_dots_from (segment ++ c ∷ []) text
]

-- Whether `validate_metadata_path` accepts the path.
pub validate_metadata_path : Bytes → Bool
unfolding has_dots_from
validate_metadata_path [] = false
validate_metadata_path (c ∷ path) = c == b'/' && not (has_dots_from [] (c ∷ path))

pub is_quotable : Bytes → Bool
is_quotable [] = true
is_quotable (byte ∷ value) =
    not (not (byte == 0x09) && (ltb byte 0x20 || ltb 0x7E byte)) && is_quotable value

abbrev pub needs_escape : ℕ → Bool
needs_escape c = c == backslash || c == quote

-- The loop of `append_challenge_parameter`.
unfoldable pub escape : Bytes → Bytes
escape [] = []
escape (c ∷ value) =
    let rest = escape value in if needs_escape c then backslash ∷ c ∷ rest else c ∷ rest

-- What `append_challenge_parameter` appends.
unfoldable pub challenge_parameter : Bool → Bytes → Bytes → Bytes
unfolding escape
challenge_parameter first key value =
    (if first then codes " " else codes ", ")
    ++ (key ++ (b'=' ∷ quote ∷ (escape value ++ (quote ∷ []))))

abbrev pub lower : ℕ → ℕ
lower c = if within b'A' b'Z' c then c + 32 else c

-- The loop of `http_bearer_token` over the scheme: the rest of the header, if they agree.
pub after_scheme : Bytes → Bytes → Option Bytes
after_scheme [] header = some header
after_scheme (expected ∷ scheme) [] = none
after_scheme (expected ∷ scheme) (actual ∷ header) =
    if lower actual == lower expected then after_scheme scheme header else none

unfoldable pub http_bearer_token : Bytes → Bytes
unfolding after_scheme
http_bearer_token header =
    if leb (length header) (length (codes "Bearer "))
    then []
    else elim (after_scheme (codes "Bearer ") header) [ none ↦ [] | some token ↦ token ]

unfoldable pub http_request_path : Bytes → Bytes
unfolding take_until
http_request_path target = take_until ends_path target

pub record BearerChallengeConfig : Type 0 where
  pub resource_metadata : Bytes
  pub scope : Bytes
  pub realm : Bytes
  pub error : Bytes

abbrev pub Parameter : Type 0
Parameter = Bytes × Bytes

abbrev pub parameters : BearerChallengeConfig → List Parameter
parameters config =
    (codes "realm", config.realm)
    ∷ (codes "error", config.error)
    ∷ (codes "scope", config.scope)
    ∷ (codes "resource_metadata", config.resource_metadata)
    ∷ []

unfoldable pub all_quotable : List Parameter → Bool
unfolding is_quotable
all_quotable [] = true
all_quotable ((key, value) ∷ rest) = is_quotable value && all_quotable rest

-- The second loop of `format_www_authenticate`; the flag is `first`.
unfoldable pub append_parameters : Bool → List Parameter → Bytes
unfolding challenge_parameter
append_parameters first [] = []
append_parameters first ((key, value) ∷ rest) = elim (is_empty value) [
  | true ↦ append_parameters first rest
  | false ↦ challenge_parameter first key value ++ append_parameters false rest
]

unfoldable pub format_www_authenticate : BearerChallengeConfig → Option Bytes
unfolding all_quotable append_parameters
format_www_authenticate config =
    if all_quotable (parameters config)
    then some (codes "Bearer" ++ append_parameters true (parameters config))
    else none

pub record ProtectedResourceMetadataConfig : Type 0 where
  pub resource : Bytes
  pub authorization_servers : List Bytes
  pub scopes_supported : List Bytes
  pub path : Bytes

-- `while (!resource_path.empty() && resource_path.back() == '/')`
pub strip_slashes : Bytes → Bytes
strip_slashes [] = []
strip_slashes (c ∷ path) =
    let rest = strip_slashes path in if is_slash c && is_empty rest then [] else c ∷ rest

abbrev pub well_known_prefix : Bytes
well_known_prefix = codes "/.well-known/oauth-protected-resource"

-- The path, when the resource is split; the first argument is `metadata.path`.
pub path_of : Bytes → SplitResource → Option Bytes
unfolding validate_metadata_path strip_slashes
path_of [] resource = some (well_known_prefix ++ strip_slashes resource.path)
path_of (c ∷ path) resource = if validate_metadata_path (c ∷ path) then some (c ∷ path) else none

unfoldable pub protected_resource_metadata_path : ProtectedResourceMetadataConfig → Option Bytes
unfolding split_resource path_of
protected_resource_metadata_path metadata = elim (split_resource metadata.resource) [
  | none ↦ none
  | some resource ↦ path_of metadata.path resource
]

unfoldable pub protected_resource_metadata_url : ProtectedResourceMetadataConfig → Option Bytes
unfolding split_resource protected_resource_metadata_path
protected_resource_metadata_url metadata = elim (split_resource metadata.resource) [
  | none ↦ none
  | some resource ↦ elim (protected_resource_metadata_path metadata) [
    | none ↦ none
    | some path ↦ some (resource.origin ++ path)
  ]
]
