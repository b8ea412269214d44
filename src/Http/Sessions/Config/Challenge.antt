-- ===== src/Http/Sessions/Config/Challenge.antt =====
-- What every configuration of src/transport/http_session_manager.cpp that its calls lead to has, and
-- what a client reads in the header of a 401.
use mcp_cpp_sdk.Prelude.{
  ℕ, ◌<◌, ◌≡◌, refl, sym, ap, ◌∙◌, Bool, true, false, ◌&&◌, Option, none, some, List, [], ◌∷◌, ◌==◌,
  if◌then◌else◌, if-both, Bytes, Option-cases, inl, inr, arith,
}
use mcp_cpp_sdk.Json.Api.{is_some}
use mcp_cpp_sdk.Http.Types.{
  BearerChallengeConfig, ProtectedResourceMetadataConfig, format_www_authenticate,
  protected_resource_metadata_url, protected_resource_metadata_path, is_empty,
}
use mcp_cpp_sdk.Http.Gate.{Request, Validator}
use mcp_cpp_sdk.Auth.Challenge.{parse_www_authenticate}
use mcp_cpp_sdk.Auth.Challenge.Format.{challenge_of, parse_www_authenticate-format_www_authenticate}
use mcp_cpp_sdk.Http.Sessions.Config.{
  Config, Setting, configured, logic_error, invalid_argument, type_error, initial, is_frozen,
  configure, with_url, effective, formatted, render_challenge, set_custom_request_handler,
  set_allowed_origins, set_allow_all_origins, set_bearer_token_validator,
  set_async_bearer_token_validator, set_max_request_body_bytes, with_challenge,
  set_bearer_challenge, with_metadata, set_protected_resource_metadata, set_unauthenticated_paths,
  set_json_only, set_stateless_json_mode, set_tool_executor, begin_listening, close_gate,
}

-- The public calls.
pub data Call : Type 0 where
  custom_request_handler : Option (Request → Option Bytes) → Call
  allowed_origins unauthenticated_paths : List Bytes → Call
  allow_all_origins json_only stateless_json_mode : Bool → Call
  bearer_token_validator async_bearer_token_validator : Option Validator → Call
  max_request_body_bytes : ℕ → Call
  bearer_challenge : BearerChallengeConfig → Call
  protected_resource_metadata : ProtectedResourceMetadataConfig → Call
  tool_executor listen close : Call

-- The configuration after a call, which is the old one when the call throws.
unfoldable pub after_setting : Config → Setting → Config
after_setting config (configured next) = next
after_setting config _ = config

module _ (quoted : Bytes → Option Bytes) where
  unfoldable pub apply : Config → Call → Setting
  apply config (custom_request_handler handler) = set_custom_request_handler config handler
  apply config (allowed_origins origins) = set_allowed_origins config origins
  apply config (unauthenticated_paths paths) = set_unauthenticated_paths config paths
  apply config (allow_all_origins allow_all) = set_allow_all_origins config allow_all
  apply config (json_only value) = set_json_only config value
  apply config (stateless_json_mode enabled) = set_stateless_json_mode config enabled
  apply config (bearer_token_validator validator) = set_bearer_token_validator config validator
  apply config (async_bearer_token_validator validator) =
      set_async_bearer_token_validator config validator
  apply config (max_request_body_bytes max_bytes) = set_max_request_body_bytes config max_bytes
  apply config (bearer_challenge challenge) = set_bearer_challenge config challenge
  apply config (protected_resource_metadata metadata) =
      set_protected_resource_metadata quoted config metadata
  apply config tool_executor = set_tool_executor config
  apply config listen = begin_listening config
  apply config close = close_gate config

  unfoldable pub apply_all : Config → List Call → Config
  unfolding apply after_setting
  apply_all config [] = config
  apply_all config (call ∷ calls) = apply_all (after_setting config (apply config call)) calls

-- The path of the document, where there is one.
abbrev path_of : Option ProtectedResourceMetadataConfig → Option Bytes
path_of none = none
path_of (some metadata) = protected_resource_metadata_path metadata

-- The header of a 401 is rendered from the challenge and the metadata that are set, the path of the
-- document is the one of the metadata, one validator is set at most, and a body has room.
pub record IsSound (config : Config) : Type 0 where
  pub rendered :
      render_challenge config.protected_resource_metadata config.bearer_challenge
      ≡ some config.www_authenticate_value
  pub path_served :
      config.gate.protected_resource_metadata_path ≡ path_of config.protected_resource_metadata
  pub one_validator :
      (is_some config.gate.bearer_token_validator
        && is_some config.gate.async_bearer_token_validator)
      ≡ false
  pub has_room : 0 < config.max_request_body_bytes

abbrev Sound : Setting → Type 0
Sound (configured config) = IsSound config
Sound logic_error = Unit
Sound invalid_argument = Unit
Sound type_error = Unit

configure-Sound :
    (config : Config) (setting : Setting) → Sound setting → Sound (configure config setting)
unfolding configure
configure-Sound config setting h = if-both Sound (is_frozen config) _ _ (λ e. tt) (λ e. h)

with_challenge-Sound :
    (config : Config) (challenge : BearerChallengeConfig) (value : Option Bytes)
    → render_challenge config.protected_resource_metadata challenge ≡ value
    → IsSound config
    → Sound (with_challenge config challenge value)
with_challenge-Sound config challenge none h sound = tt
with_challenge-Sound config challenge (some value) h sound = record {
  rendered = h;
  path_served = sound.path_served;
  one_validator = sound.one_validator;
  has_room = sound.has_room;
}

with_metadata-Sound :
    (config : Config) (metadata : ProtectedResourceMetadataConfig)
    (value document path : Option Bytes)
    → render_challenge (some metadata) config.bearer_challenge ≡ value
    → protected_resource_metadata_path metadata ≡ path
    → IsSound config
    → Sound (with_metadata config metadata value document path)
with_metadata-Sound config metadata (some value) (some document) (some path) h hp sound = record {
  rendered = h;
  path_served = sym hp;
  one_validator = sound.one_validator;
  has_room = sound.has_room;
}
with_metadata-Sound config metadata none none path h hp sound = tt
with_metadata-Sound config metadata none (some document) path h hp sound = tt
with_metadata-Sound config metadata (some value) none path h hp sound = tt
with_metadata-Sound config metadata (some value) (some document) none h hp sound = tt

formatted-if :
    (b : Bool) (x y : BearerChallengeConfig)
    → formatted (if b then some x else some y) ≡ format_www_authenticate (if b then x else y)
formatted-if true x y = refl
formatted-if false x y = refl

-- `set_protected_resource_metadata` formats what `render_challenge` would.
render_challenge-metadata :
    (metadata : ProtectedResourceMetadataConfig) (challenge : BearerChallengeConfig) (url : Bytes)
    → protected_resource_metadata_url metadata ≡ some url
    → render_challenge (some metadata) challenge
      ≡ format_www_authenticate (
          if is_empty challenge.resource_metadata
          then record challenge { resource_metadata = url }
          else challenge)
unfolding render_challenge effective
render_challenge-metadata metadata challenge url h =
    ap
      (λ o.
        formatted
          (if is_empty challenge.resource_metadata then with_url challenge o else some challenge))
      h
    ∙ formatted-if (is_empty challenge.resource_metadata)
        (record challenge { resource_metadata = url }) challenge

set_protected_resource_metadata-Sound :
    (quoted : Bytes → Option Bytes) (config : Config) (metadata : ProtectedResourceMetadataConfig)
    → IsSound config
    → Sound (set_protected_resource_metadata quoted config metadata)
unfolding set_protected_resource_metadata
set_protected_resource_metadata-Sound quoted config metadata sound = configure-Sound config _ (
    if-both Sound (is_empty metadata.resource) _ _ (λ e. tt)
      (λ e. elim (Option-cases (protected_resource_metadata_url metadata)) [
        | inl none_there ↦ rw (none_there) tt
        | inr (url, there) ↦ rw (there) (
            with_metadata-Sound config metadata _ _ _
              (render_challenge-metadata metadata config.bearer_challenge url there) refl sound)
      ]))

and_comm : (a b : Bool) → (a && b) ≡ (b && a)
and_comm true true = refl
and_comm true false = refl
and_comm false true = refl
and_comm false false = refl

apply-Sound :
    (quoted : Bytes → Option Bytes) (config : Config) (call : Call)
    → IsSound config
    → Sound (apply quoted config call)
unfolding apply set_custom_request_handler set_allowed_origins set_unauthenticated_paths
    set_allow_all_origins set_json_only set_stateless_json_mode set_bearer_token_validator
    set_async_bearer_token_validator set_max_request_body_bytes set_bearer_challenge
    set_tool_executor begin_listening close_gate
apply-Sound quoted config (custom_request_handler handler) sound =
    configure-Sound config _ (record {
      rendered = sound.rendered;
      path_served = sound.path_served;
      one_validator = sound.one_validator;
      has_room = sound.has_room;
    })
apply-Sound quoted config (allowed_origins origins) sound = configure-Sound config _ (record {
  rendered = sound.rendered;
  path_served = sound.path_served;
  one_validator = sound.one_validator;
  has_room = sound.has_room;
})
apply-Sound quoted config (unauthenticated_paths paths) sound = configure-Sound config _ (record {
  rendered = sound.rendered;
  path_served = sound.path_served;
  one_validator = sound.one_validator;
  has_room = sound.has_room;
})
apply-Sound quoted config (allow_all_origins b) sound = configure-Sound config _ (record {
  rendered = sound.rendered;
  path_served = sound.path_served;
  one_validator = sound.one_validator;
  has_room = sound.has_room;
})
apply-Sound quoted config (json_only b) sound = record {
  rendered = sound.rendered;
  path_served = sound.path_served;
  one_validator = sound.one_validator;
  has_room = sound.has_room;
}
apply-Sound quoted config (stateless_json_mode b) sound = configure-Sound config _ (record {
  rendered = sound.rendered;
  path_served = sound.path_served;
  one_validator = sound.one_validator;
  has_room = sound.has_room;
})
apply-Sound quoted config (bearer_token_validator validator) sound = configure-Sound config _ (
    if-both Sound (is_some validator && is_some config.gate.async_bearer_token_validator) _ _
      (λ e. tt)
      (λ e. record {
        rendered = sound.rendered;
        path_served = sound.path_served;
        one_validator = e;
        has_room = sound.has_room;
      }))
apply-Sound quoted config (async_bearer_token_validator validator) sound =
    configure-Sound config _ (
      if-both Sound (is_some validator && is_some config.gate.bearer_token_validator) _ _ (λ e. tt)
        (λ e. record {
          rendered = sound.rendered;
          path_served = sound.path_served;
          one_validator =
              and_comm (is_some config.gate.bearer_token_validator) (is_some validator) ∙ e;
          has_room = sound.has_room;
        }))
apply-Sound quoted config (max_request_body_bytes max_bytes) sound = configure-Sound config _ (
    if-both Sound (max_bytes == 0) _ _ (λ e. tt)
      (λ e. record {
        rendered = sound.rendered;
        path_served = sound.path_served;
        one_validator = sound.one_validator;
        has_room = ground (arith, e);
      }))
apply-Sound quoted config (bearer_challenge challenge) sound =
    configure-Sound config _ (with_challenge-Sound config challenge _ refl sound)
apply-Sound quoted config (protected_resource_metadata metadata) sound =
    set_protected_resource_metadata-Sound quoted config metadata sound
apply-Sound quoted config tool_executor sound = configure-Sound config _ (record {
  rendered = sound.rendered;
  path_served = sound.path_served;
  one_validator = sound.one_validator;
  has_room = sound.has_room;
})
apply-Sound quoted config listen sound =
    if-both Sound config.gate.closed _ _ (λ e. sound)
      (λ e.
        if-both Sound config.listening_started _ _ (λ e. tt)
          (λ e. record {
            rendered = sound.rendered;
            path_served = sound.path_served;
            one_validator = sound.one_validator;
            has_room = sound.has_room;
          }))
apply-Sound quoted config close sound = record {
  rendered = sound.rendered;
  path_served = sound.path_served;
  one_validator = sound.one_validator;
  has_room = sound.has_room;
}

initial-IsSound : IsSound initial
unfolding render_challenge effective format_www_authenticate
initial-IsSound = record {
  rendered = refl;
  path_served = refl;
  one_validator = refl;
  has_room = omega arith;
}

after_setting-IsSound :
    (config : Config) (setting : Setting)
    → IsSound config
    → Sound setting
    → IsSound (after_setting config setting)
unfolding after_setting
after_setting-IsSound config (configured next) sound h = h
after_setting-IsSound config logic_error sound h = sound
after_setting-IsSound config invalid_argument sound h = sound
after_setting-IsSound config type_error sound h = sound

apply_all-Sound :
    (quoted : Bytes → Option Bytes) (config : Config) (calls : List Call)
    → IsSound config
    → IsSound (apply_all quoted config calls)
unfolding apply_all
apply_all-Sound quoted config [] sound = sound
apply_all-Sound quoted config (call ∷ calls) sound =
    apply_all-Sound quoted (after_setting config (apply quoted config call)) calls
      (after_setting-IsSound config _ sound (apply-Sound quoted config call sound))

-- After any calls of a new manager, in any order and whether they throw or not, the header of a 401 is
-- the rendering of the challenge and the metadata that are set, the document is served at the path
-- of the metadata, at most one validator is set, and the bound on a body is positive.
pub apply_all-IsSound :
    (quoted : Bytes → Option Bytes) (calls : List Call) → IsSound (apply_all quoted initial calls)
apply_all-IsSound quoted calls = apply_all-Sound quoted initial calls initial-IsSound

-- The challenge that a client is to read.
abbrev pub Announces : Config → BearerChallengeConfig → Type 0
Announces config challenge =
    (effective config.bearer_challenge config.protected_resource_metadata ≡ some challenge)
    × (parse_www_authenticate config.www_authenticate_value ≡ some (challenge_of challenge ∷ []))

formatted-Announces :
    (config : Config) (challenge : Option BearerChallengeConfig)
    → effective config.bearer_challenge config.protected_resource_metadata ≡ challenge
    → formatted challenge ≡ some config.www_authenticate_value
    → (announced : BearerChallengeConfig) × Announces config announced
formatted-Announces config none h e = ground (arith, e)
formatted-Announces config (some challenge) h e = (
  challenge,
  (h, parse_www_authenticate-format_www_authenticate challenge config.www_authenticate_value e),
)

-- After any calls of a new manager, in any order and whether they throw or not, a client reads in the
-- header of a 401 one Bearer challenge, the one that is set, with the URL of the metadata document
-- that is set where the challenge names none.
pub apply_all-Announces :
    (quoted : Bytes → Option Bytes) (calls : List Call)
    → (announced : BearerChallengeConfig) × Announces (apply_all quoted initial calls) announced
unfolding render_challenge
apply_all-Announces quoted calls =
    formatted-Announces (apply_all quoted initial calls) _ refl
      (apply_all-IsSound quoted calls).rendered
