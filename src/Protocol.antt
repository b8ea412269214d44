-- ===== src/Protocol.antt =====
-- include/mcp/protocol/capabilities.hpp: the versions of the protocol.
use mcp_cpp_sdk.Prelude.{Bool, false, ◌||◌, List, [], ◌∷◌, if◌then◌else◌, Bytes, codes, bytes_eq}

abbrev pub latest_protocol_version : Bytes
latest_protocol_version = codes "2025-11-25"

abbrev pub supported_protocol_versions : List Bytes
supported_protocol_versions =
    codes "2024-11-05" ∷ codes "2025-03-26" ∷ codes "2025-06-18" ∷ codes "2025-11-25" ∷ []

-- `std::find` on a list of texts.
unfoldable pub is_listed : Bytes → List Bytes → Bool
is_listed version [] = false
is_listed version (v ∷ versions) = bytes_eq v version || is_listed version versions

unfoldable pub is_supported_protocol_version : Bytes → Bool
unfolding is_listed
is_supported_protocol_version version = is_listed version supported_protocol_versions

unfoldable pub negotiate_protocol_version : Bytes → Bytes
unfolding is_supported_protocol_version
negotiate_protocol_version requested =
    if is_supported_protocol_version requested then requested else latest_protocol_version
