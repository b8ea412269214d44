-- ===== src/Http/Sessions/Config.antt =====
-- src/transport/http_session_manager.cpp: the configuration of the manager. A setter that throws
-- leaves it as it was. Of a tool executor, only that it is set is modelled.
pub mod Challenge
pub mod Frozen
mod Tests
use mcp_cpp_sdk.Prelude.{
  ℕ, ◌*◌, Bool, true, false, ◌&&◌, ◌||◌, Option, none, some, List, [], ◌∷◌, ◌==◌, if◌then◌else◌,
  Bytes, codes,
}
use mcp_cpp_sdk.Json.Api.{is_some}
use mcp_cpp_sdk.Http.Types.{
  BearerChallengeConfig, ProtectedResourceMetadataConfig, format_www_authenticate,
  protected_resource_metadata_url, protected_resource_metadata_path, is_empty,
}
use mcp_cpp_sdk.Http.Types.Document.{format_protected_resource_metadata}
use mcp_cpp_sdk.Http.Gate.{Gate, Request, Validator, contains}

pub record Config : Type 0 where
  pub gate : Gate
  pub listening_started : Bool
  pub max_request_body_bytes : ℕ
  pub bearer_challenge : BearerChallengeConfig
  pub www_authenticate_value : Bytes
  pub protected_resource_metadata : Option ProtectedResourceMetadataConfig
  pub protected_resource_metadata_body : Bytes
  pub json_only_mode : Bool
  pub has_tool_executor : Bool

-- What a call ends with.
pub data Setting : Type 0 where
  configured : Config → Setting
  logic_error invalid_argument type_error : Setting

abbrev pub no_challenge : BearerChallengeConfig
no_challenge = record { resource_metadata = []; scope = []; realm = []; error = [] }

abbrev pub initial_gate : Gate
initial_gate = record {
  closed = false;
  allow_all_origins = false;
  allowed_origins = [];
  protected_resource_metadata_path = none;
  unauthenticated_paths = [];
  bearer_token_validator = none;
  async_bearer_token_validator = none;
  custom_handler = none;
  stateless_json_mode = false;
}

abbrev pub initial : Config
initial = record {
  gate = initial_gate;
  listening_started = false;
  max_request_body_bytes = 8 * 1024 * 1024;
  bearer_challenge = no_challenge;
  www_authenticate_value = codes "Bearer";
  protected_resource_metadata = none;
  protected_resource_metadata_body = [];
  json_only_mode = false;
  has_tool_executor = false;
}

-- Whether `ensure_configurable` throws.
unfoldable pub is_frozen : Config → Bool
is_frozen config = config.listening_started || config.gate.closed

-- A setter, behind `ensure_configurable`.
unfoldable pub configure : Config → Setting → Setting
unfolding is_frozen
configure config setting = if is_frozen config then logic_error else setting

-- The challenge of a 401, with the URL of the metadata where it names none.
abbrev pub with_url : BearerChallengeConfig → Option Bytes → Option BearerChallengeConfig
with_url challenge none = none
with_url challenge (some url) = some (record challenge { resource_metadata = url })

unfoldable pub effective :
    BearerChallengeConfig → Option ProtectedResourceMetadataConfig → Option BearerChallengeConfig
effective challenge none = some challenge
effective challenge (some metadata) =
    if is_empty challenge.resource_metadata
    then with_url challenge (protected_resource_metadata_url metadata)
    else some challenge

abbrev pub formatted : Option BearerChallengeConfig → Option Bytes
formatted none = none
formatted (some challenge) = format_www_authenticate challenge

unfoldable pub render_challenge :
    Option ProtectedResourceMetadataConfig → BearerChallengeConfig → Option Bytes
unfolding effective
render_challenge metadata challenge = formatted (effective challenge metadata)

unfoldable pub set_custom_request_handler : Config → Option (Request → Option Bytes) → Setting
unfolding configure
set_custom_request_handler config handler =
    configure config
      (configured (record config { gate = record config.gate { custom_handler = handler } }))

-- `insert` of an `unordered_set`, for each text.
unfoldable pub insert_all : List Bytes → List Bytes → List Bytes
insert_all set [] = set
insert_all set (text ∷ texts) = insert_all (if contains set text then set else text ∷ set) texts

unfoldable pub set_allowed_origins : Config → List Bytes → Setting
unfolding configure insert_all
set_allowed_origins config origins = configure config (
    configured (record config {
      gate = record config.gate {
        allowed_origins = insert_all [] origins;
        allow_all_origins = false;
      };
    }))

unfoldable pub set_allow_all_origins : Config → Bool → Setting
unfolding configure
set_allow_all_origins config allow_all =
    configure config
      (configured (record config { gate = record config.gate { allow_all_origins = allow_all } }))

unfoldable pub set_bearer_token_validator : Config → Option Validator → Setting
unfolding configure
set_bearer_token_validator config validator = configure config (
    if is_some validator && is_some config.gate.async_bearer_token_validator
    then logic_error
    else configured
        (record config { gate = record config.gate { bearer_token_validator = validator } }))

unfoldable pub set_async_bearer_token_validator : Config → Option Validator → Setting
unfolding configure
set_async_bearer_token_validator config validator = configure config (
    if is_some validator && is_some config.gate.bearer_token_validator
    then logic_error
    else configured
        (record config { gate = record config.gate { async_bearer_token_validator = validator } }))

unfoldable pub set_max_request_body_bytes : Config → ℕ → Setting
unfolding configure
set_max_request_body_bytes config max_bytes = configure config (
    if max_bytes == 0
    then invalid_argument
    else configured (record config { max_request_body_bytes = max_bytes }))

abbrev pub with_challenge : Config → BearerChallengeConfig → Option Bytes → Setting
with_challenge config challenge none = invalid_argument
with_challenge config challenge (some value) =
    configured (record config { bearer_challenge = challenge; www_authenticate_value = value })

unfoldable pub set_bearer_challenge : Config → BearerChallengeConfig → Setting
unfolding configure render_challenge
set_bearer_challenge config challenge = configure config (
    with_challenge config challenge (render_challenge config.protected_resource_metadata challenge))

-- The commit at the end of `set_protected_resource_metadata`. Without a document, nlohmann::json has
-- thrown, over a text that is no UTF-8.
abbrev pub with_metadata :
    Config → ProtectedResourceMetadataConfig → Option Bytes → Option Bytes → Option Bytes → Setting
with_metadata config metadata (some value) (some document) (some path) = configured (record config {
  gate = record config.gate { protected_resource_metadata_path = some path };
  www_authenticate_value = value;
  protected_resource_metadata = some metadata;
  protected_resource_metadata_body = document;
})
with_metadata config metadata _ none _ = type_error
with_metadata config metadata _ (some document) _ = invalid_argument

unfoldable pub set_protected_resource_metadata :
    (Bytes → Option Bytes) → Config → ProtectedResourceMetadataConfig → Setting
unfolding configure
set_protected_resource_metadata quoted config metadata = configure config (
    if is_empty metadata.resource
    then invalid_argument
    else elim (protected_resource_metadata_url metadata) [
      | none ↦ invalid_argument
      | some url ↦
          with_metadata config metadata
            (format_www_authenticate (
              if is_empty config.bearer_challenge.resource_metadata
              then record config.bearer_challenge { resource_metadata = url }
              else config.bearer_challenge))
            (format_protected_resource_metadata quoted metadata)
            (protected_resource_metadata_path metadata)
    ])

unfoldable pub set_unauthenticated_paths : Config → List Bytes → Setting
unfolding configure insert_all
set_unauthenticated_paths config paths = configure config (
    configured
      (record config { gate = record config.gate { unauthenticated_paths = insert_all [] paths } }))

-- `set_json_only` is not a setter that `ensure_configurable` guards.
unfoldable pub set_json_only : Config → Bool → Setting
set_json_only config json_only = configured (record config { json_only_mode = json_only })

unfoldable pub set_stateless_json_mode : Config → Bool → Setting
unfolding configure
set_stateless_json_mode config enabled = configure config (
    configured (record config {
      gate = record config.gate { stateless_json_mode = enabled };
      json_only_mode = enabled || config.json_only_mode;
    }))

unfoldable pub set_tool_executor : Config → Setting
unfolding configure
set_tool_executor config =
    configure config (configured (record config { has_tool_executor = true }))

-- `false` is a closed manager, whose `listen` accepts nothing.
unfoldable pub begin_listening : Config → Setting
begin_listening config =
    if config.gate.closed
    then configured config
    else if config.listening_started
    then logic_error
    else configured (record config { listening_started = true })

unfoldable pub close_gate : Config → Setting
close_gate config = configured (record config { gate = record config.gate { closed = true } })
