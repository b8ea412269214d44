-- ===== src/Http/Sessions/Config/Frozen.antt =====
-- The configuration of src/transport/http_session_manager.cpp does not change under a server that
-- listens.
use mcp_cpp_sdk.Prelude.{
  ◌≡◌, refl, ◌∙◌, Bool, true, false, ◌||◌, Option, List, [], ◌∷◌, if-both, Bytes, arith,
}
use mcp_cpp_sdk.Http.Sessions.Config.{
  Config, Setting, is_frozen, configure, set_custom_request_handler, set_allowed_origins,
  set_allow_all_origins, set_bearer_token_validator, set_async_bearer_token_validator,
  set_max_request_body_bytes, set_bearer_challenge, set_protected_resource_metadata,
  set_unauthenticated_paths, set_json_only, set_stateless_json_mode, set_tool_executor,
  begin_listening, close_gate,
}
use mcp_cpp_sdk.Http.Sessions.Config.Challenge.{
  Call, custom_request_handler, allowed_origins, unauthenticated_paths, allow_all_origins,
  json_only, stateless_json_mode, bearer_token_validator, async_bearer_token_validator,
  max_request_body_bytes, bearer_challenge, protected_resource_metadata, tool_executor, listen,
  close, after_setting, apply, apply_all,
}

-- What is fixed once the manager listens or is closed: all but these two flags and the JSON-only mode.
abbrev pub fixed : Config → Config
fixed config = record config {
  gate = record config.gate { closed = true };
  listening_started = true;
  json_only_mode = true;
}

abbrev Keeps : Config → Setting → Type 0
Keeps config setting =
    (fixed (after_setting config setting) ≡ fixed config)
    × (is_frozen (after_setting config setting) ≡ true)

configure-Keeps :
    (config : Config) (setting : Setting)
    → is_frozen config ≡ true
    → Keeps config (configure config setting)
unfolding configure after_setting
configure-Keeps config setting frozen =
    if-both (Keeps config) (is_frozen config) _ _ (λ e. (refl, frozen))
      (λ e. ground (arith, e, frozen))

or-true : (a : Bool) → (a || true) ≡ true
or-true true = refl
or-true false = refl

apply-Keeps :
    (quoted : Bytes → Option Bytes) (config : Config) (call : Call)
    → is_frozen config ≡ true
    → Keeps config (apply quoted config call)
unfolding apply after_setting is_frozen set_custom_request_handler set_allowed_origins
    set_unauthenticated_paths set_allow_all_origins set_json_only set_stateless_json_mode
    set_bearer_token_validator set_async_bearer_token_validator set_max_request_body_bytes
    set_bearer_challenge set_protected_resource_metadata set_tool_executor begin_listening
    close_gate
apply-Keeps quoted config (custom_request_handler handler) frozen = configure-Keeps config _ frozen
apply-Keeps quoted config (allowed_origins origins) frozen = configure-Keeps config _ frozen
apply-Keeps quoted config (unauthenticated_paths paths) frozen = configure-Keeps config _ frozen
apply-Keeps quoted config (allow_all_origins b) frozen = configure-Keeps config _ frozen
apply-Keeps quoted config (json_only b) frozen = (refl, frozen)
apply-Keeps quoted config (stateless_json_mode b) frozen = configure-Keeps config _ frozen
apply-Keeps quoted config (bearer_token_validator v) frozen = configure-Keeps config _ frozen
apply-Keeps quoted config (async_bearer_token_validator v) frozen = configure-Keeps config _ frozen
apply-Keeps quoted config (max_request_body_bytes n) frozen = configure-Keeps config _ frozen
apply-Keeps quoted config (bearer_challenge c) frozen = configure-Keeps config _ frozen
apply-Keeps quoted config (protected_resource_metadata m) frozen = configure-Keeps config _ frozen
apply-Keeps quoted config tool_executor frozen = configure-Keeps config _ frozen
apply-Keeps quoted config listen frozen =
    if-both (Keeps config) config.gate.closed _ _ (λ e. (refl, frozen))
      (λ e.
        if-both (Keeps config) config.listening_started _ _ (λ e. (refl, frozen))
          (λ e. (refl, refl)))
apply-Keeps quoted config close frozen = (refl, or-true config.listening_started)

-- Whatever calls follow, once a manager listens or is closed, nothing of its configuration changes but
-- the JSON-only mode and that it listens or is closed.
pub apply_all-fixed :
    (quoted : Bytes → Option Bytes) (config : Config) (calls : List Call)
    → is_frozen config ≡ true
    → fixed (apply_all quoted config calls) ≡ fixed config
unfolding apply_all
apply_all-fixed quoted config [] frozen = refl
apply_all-fixed quoted config (call ∷ calls) frozen =
    let kept = apply-Keeps quoted config call frozen in
    apply_all-fixed quoted (after_setting config (apply quoted config call)) calls kept.1 ∙ kept.0
