-- ===== src/Auth/Resource.antt =====
-- src/auth/oauth.cpp: `resource_identifies_server` and the check that throws unless it holds.
pub mod Audience
mod Tests
use mcp_cpp_sdk.Prelude.{
  ℕ, Bool, true, false, not, ◌&&◌, ◌||◌, Option, none, some, List, [], ◌∷◌, ◌++◌, ◌==◌,
  if◌then◌else◌, length, drop, Bytes, codes, bytes_eq,
}
use mcp_cpp_sdk.Http.Types.{is_empty, after_prefix}
use mcp_cpp_sdk.Auth.Policy.Sanitize.{sanitize_for_diagnostics}
use mcp_cpp_sdk.Auth.Policy.Origin.{has_char}
use mcp_cpp_sdk.Auth.Policy.Url.{metadata_url_origin}

-- `if (resource_path.back() == '/') resource_path.pop_back()`
abbrev pub without_slash : Bytes → Bytes
without_slash [] = []
without_slash (c ∷ []) = if c == b'/' then [] else c ∷ []
without_slash (c ∷ d ∷ path) = c ∷ without_slash (d ∷ path)

-- What stands behind the path of the resource, where that is a prefix.
abbrev pub starts_segment : Option Bytes → Bool
starts_segment none = false
starts_segment (some []) = false
starts_segment (some (c ∷ rest)) = c == b'/'

abbrev pub is_root : Bytes → Bool
is_root path = is_empty path || bytes_eq path (codes "/")

unfoldable pub covers_path : Bytes → Bytes → Bool
covers_path resource_path server_path =
    if is_root resource_path
    then true
    else bytes_eq server_path (without_slash resource_path)
      || starts_segment (after_prefix (without_slash resource_path) server_path)

-- Behind the first two tests, with the origins of the resource and of the server.
unfoldable pub identifies_by_path : Bytes → Bytes → Bytes → Bytes → Bool
unfolding covers_path
identifies_by_path resource server_url resource_origin server_origin =
    if is_empty resource_origin || not (bytes_eq resource_origin server_origin)
    then false
    else covers_path (drop (length resource_origin) resource)
        (drop (length server_origin) server_url)

unfoldable pub resource_identifies_server : Bytes → Bytes → Bool
unfolding identifies_by_path metadata_url_origin
resource_identifies_server resource server_url =
    if bytes_eq resource server_url
    then true
    else if has_char b'?' resource || has_char b'#' resource
    then false
    else identifies_by_path resource server_url (metadata_url_origin resource)
        (metadata_url_origin server_url)

-- The exceptions, with the texts that their messages quote.
pub data Requirement : Type 0 where
  meets : Requirement
  missing_resource : (server_url : Bytes) → Requirement
  other_resource : (resource server_url : Bytes) → Requirement

unfoldable pub require_resource_identifies_server : Bytes → Bytes → Requirement
unfolding resource_identifies_server sanitize_for_diagnostics
require_resource_identifies_server resource server_url =
    if is_empty resource
    then missing_resource (sanitize_for_diagnostics server_url)
    else if not (resource_identifies_server resource server_url)
    then other_resource (sanitize_for_diagnostics resource) (sanitize_for_diagnostics server_url)
    else meets
