-- ===== src/Auth/Identity/Tests.antt =====
-- Runs of src/auth/client_identity.cpp.
use mcp_cpp_sdk.Prelude.{◌≡◌, refl, true, none, some, [], ◌∷◌, codes}
use mcp_cpp_sdk.Auth.Identity.{
  pos, OAuthClientInformation, ClientIdentityConfig, ClientIdentityServerFacts, secret_expired,
  offline_access, use_pre_registered, unavailable, register_dynamically, select_client_identity,
  registration_scope,
}
use mcp_cpp_sdk.Auth.Identity.Binding.{
  presented, IsBound, IsTerminal, select_client_identity-IsBound,
}
use mcp_cpp_sdk.Auth.Identity.Scope.{Registers, registration_scope-Registers}

abbrev injected : OAuthClientInformation
injected = record {
  client_id = codes "app";
  client_secret = some (codes "s3cret");
  client_id_issued_at = none;
  client_secret_expires_at = some (pos 100);
  issuer = codes "https://as";
}

abbrev config : ClientIdentityConfig
config = record {
  pre_registered = some injected;
  client_metadata_url = none;
  scope = some (codes "a  b");
}

abbrev server : ClientIdentityServerFacts
server = record {
  issuer = codes "https://as";
  client_id_metadata_document_supported = true;
  registration_endpoint = some (codes "https://as/register");
  scopes_supported = codes "a" ∷ offline_access ∷ [];
}

bound_used : select_client_identity config server none ≡ use_pre_registered
unfolding select_client_identity
bound_used = refl

other_issuer :
    select_client_identity config (record server { issuer = codes "https://evil" }) none
    ≡ unavailable
unfolding select_client_identity
other_issuer = refl

no_identity :
    select_client_identity (record config { pre_registered = none }) server none
    ≡ register_dynamically
unfolding select_client_identity
no_identity = refl

expiry_is_inclusive : secret_expired injected (pos 100) ≡ true
unfolding secret_expired
expiry_is_inclusive = refl

registered : registration_scope config.scope server ≡ some (codes "a b offline_access")
unfolding registration_scope
registered = refl

select_client_identity-IsBound_example :
    IsBound
      (presented config.pre_registered none (select_client_identity config server none))
      server.issuer
    × IsTerminal config.pre_registered (select_client_identity config server none)
select_client_identity-IsBound_example = select_client_identity-IsBound config server none

registration_scope-Registers_example :
    Registers config.scope server (registration_scope config.scope server)
registration_scope-Registers_example = registration_scope-Registers config.scope server
