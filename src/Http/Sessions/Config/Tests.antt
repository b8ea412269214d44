-- ===== src/Http/Sessions/Config/Tests.antt =====
-- Runs of the configuration of src/transport/http_session_manager.cpp.
use mcp_cpp_sdk.Prelude.{◌≡◌, refl, true, Option, some, List, [], ◌∷◌, ◌++◌, Bytes, codes}
use mcp_cpp_sdk.Http.Types.{BearerChallengeConfig, ProtectedResourceMetadataConfig}
use mcp_cpp_sdk.Http.Sessions.Config.{Config, initial, is_frozen, no_challenge}
use mcp_cpp_sdk.Http.Sessions.Config.Challenge.{
  Call, bearer_challenge, protected_resource_metadata, listen, allow_all_origins,
  max_request_body_bytes, apply_all, IsSound, Announces, apply_all-IsSound, apply_all-Announces,
}
use mcp_cpp_sdk.Http.Sessions.Config.Frozen.{fixed, apply_all-fixed}

-- A printer of texts that have nothing to escape.
abbrev quoted : Bytes → Option Bytes
quoted text = some (0x22 ∷ (text ++ 0x22 ∷ []))

abbrev metadata : ProtectedResourceMetadataConfig
metadata = record {
  resource = codes "https://host/mcp";
  authorization_servers = codes "https://as" ∷ [];
  scopes_supported = [];
  path = [];
}

abbrev calls : List Call
calls =
    bearer_challenge (record no_challenge { scope = codes "tools" })
    ∷ max_request_body_bytes 0
    ∷ protected_resource_metadata metadata
    ∷ []

abbrev config : Config
config = apply_all quoted initial calls

document_body :
    config.protected_resource_metadata_body
    ≡ codes "{\"authorization_servers\":[\"https://as\"],\"resource\":\"https://host/mcp\"}"
unfolding apply_all mcp_cpp_sdk.Http.Sessions.Config.set_protected_resource_metadata
    mcp_cpp_sdk.Http.Sessions.Config.set_max_request_body_bytes
    mcp_cpp_sdk.Http.Sessions.Config.set_bearer_challenge
    mcp_cpp_sdk.Http.Types.format_www_authenticate
    mcp_cpp_sdk.Http.Types.protected_resource_metadata_url
    mcp_cpp_sdk.Http.Types.Document.format_protected_resource_metadata
document_body = refl

header :
    config.www_authenticate_value
    ≡ codes
        "Bearer scope=\"tools\", resource_metadata=\"https://host/.well-known/oauth-protected-resource/mcp\""
unfolding apply_all mcp_cpp_sdk.Http.Sessions.Config.set_protected_resource_metadata
    mcp_cpp_sdk.Http.Sessions.Config.set_max_request_body_bytes
    mcp_cpp_sdk.Http.Sessions.Config.set_bearer_challenge
    mcp_cpp_sdk.Http.Types.format_www_authenticate
    mcp_cpp_sdk.Http.Types.protected_resource_metadata_url
    mcp_cpp_sdk.Http.Types.Document.format_protected_resource_metadata
header = refl

apply_all-IsSound_example : IsSound (apply_all quoted initial calls)
apply_all-IsSound_example = apply_all-IsSound quoted calls

apply_all-Announces_example :
    (announced : BearerChallengeConfig) × Announces (apply_all quoted initial calls) announced
apply_all-Announces_example = apply_all-Announces quoted calls

abbrev listening : Config
listening = apply_all quoted config (listen ∷ [])

apply_all-fixed_example :
    fixed (apply_all quoted listening (allow_all_origins true ∷ [])) ≡ fixed listening
unfolding apply_all is_frozen mcp_cpp_sdk.Http.Sessions.Config.begin_listening
    mcp_cpp_sdk.Http.Sessions.Config.set_protected_resource_metadata
    mcp_cpp_sdk.Http.Sessions.Config.set_max_request_body_bytes
    mcp_cpp_sdk.Http.Sessions.Config.set_bearer_challenge
    mcp_cpp_sdk.Http.Types.format_www_authenticate
    mcp_cpp_sdk.Http.Types.protected_resource_metadata_url
    mcp_cpp_sdk.Http.Types.Document.format_protected_resource_metadata
apply_all-fixed_example = apply_all-fixed quoted listening (allow_all_origins true ∷ []) refl
