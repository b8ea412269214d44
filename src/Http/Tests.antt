-- ===== src/Http/Tests.antt =====
-- Runs of src/transport/http_types.cpp on concrete inputs.
use mcp_cpp_sdk.Prelude.{
  ◌≡◌, ◌≢◌, ◌↔◌, refl, true, false, none, some, List, [], ◌∷◌, codes, Bytes, bytes_eq, All, arith,
}
use mcp_cpp_sdk.Http.Gate.{
  post, Request, Gate, unauthorized, not_found, handle_post, handle_request,
}
use mcp_cpp_sdk.Http.Gate.Dispatch.{dispatches, Admitted, handle_request-Admitted}
use mcp_cpp_sdk.Http.EventStore.{fresh, append, to_string, events_after}
use mcp_cpp_sdk.Http.EventStore.Replay.{append_all, events_after-append_all}
use mcp_cpp_sdk.Http.Types.{
  SplitResource, split_resource, http_bearer_token, http_request_path,
  ProtectedResourceMetadataConfig, protected_resource_metadata_path,
  protected_resource_metadata_url,
}
use mcp_cpp_sdk.Http.Types.Paths.{
  IsRooted, NotDots, segments_from, protected_resource_metadata_url-origin,
  protected_resource_metadata_path-configured,
}

bearer_any_case : http_bearer_token (codes "bEARER abc") ≡ codes "abc"
unfolding http_bearer_token
bearer_any_case = refl

basic_scheme : http_bearer_token (codes "Basic abcdef") ≡ []
unfolding http_bearer_token
basic_scheme = refl

path_without_query : http_request_path (codes "/mcp?x=1") ≡ codes "/mcp"
unfolding http_request_path
path_without_query = refl

abbrev served : ProtectedResourceMetadataConfig
served = record {
  resource = codes "https://host/mcp/?x";
  authorization_servers = [];
  scopes_supported = [];
  path = [];
}

abbrev configured : ProtectedResourceMetadataConfig
configured = record served { path = codes "/meta/doc" }

served_url :
    protected_resource_metadata_url served
    ≡ some (codes "https://host/.well-known/oauth-protected-resource/mcp")
unfolding protected_resource_metadata_url
served_url = refl

relative_path_refused :
    protected_resource_metadata_path (record served { path = codes "evil" }) ≡ none
unfolding protected_resource_metadata_path
relative_path_refused = refl

dots_refused : protected_resource_metadata_path (record served { path = codes "/a/../b" }) ≡ none
unfolding protected_resource_metadata_path
dots_refused = refl

configured_path : protected_resource_metadata_path configured ≡ some (codes "/meta/doc")
unfolding protected_resource_metadata_path
configured_path = refl

protected_resource_metadata_url-origin_example :
    (r : SplitResource) × (r' : SplitResource) × ((split_resource (codes "https://host/mcp/?x")
        ≡ some r)
      × ((split_resource (codes "https://host/.well-known/oauth-protected-resource/mcp") ≡ some r')
          × (r'.origin ≡ r.origin)))
protected_resource_metadata_url-origin_example =
    protected_resource_metadata_url-origin served
      (codes "https://host/.well-known/oauth-protected-resource/mcp") served_url

has_path : codes "/meta/doc" ≢ []
has_path h = ground (arith, h)

protected_resource_metadata_path-configured_example :
    (codes "/meta/doc" ≡ codes "/meta/doc")
    × (IsRooted (codes "/meta/doc") × All NotDots (segments_from [] (codes "/meta/doc")))
protected_resource_metadata_path-configured_example =
    protected_resource_metadata_path-configured configured (codes "/meta/doc") has_path
      configured_path

abbrev gate : Gate
gate = record {
  closed = false;
  allow_all_origins = false;
  allowed_origins = codes "http://ok" ∷ [];
  protected_resource_metadata_path = none;
  unauthenticated_paths = codes "/health" ∷ [];
  bearer_token_validator = some (λ token. some (bytes_eq token (codes "secret")));
  async_bearer_token_validator = none;
  custom_handler = none;
  stateless_json_mode = false;
}

abbrev call : Request
call = record {
  method = post;
  target = codes "/mcp";
  origin = some (codes "http://ok");
  authorization = some (codes "Bearer secret");
}

call_accepted : handle_request gate call ≡ handle_post
unfolding handle_request http_request_path http_bearer_token
call_accepted = refl

no_token : handle_request gate (record call { authorization = none }) ≡ unauthorized
unfolding handle_request http_request_path http_bearer_token
no_token = refl

exempt_path : handle_request gate (record call { target = codes "/health?x" }) ≡ not_found
unfolding handle_request http_request_path http_bearer_token
exempt_path = refl

handle_request-Admitted_example :
    (dispatches (handle_request gate call) ≡ true) ↔ Admitted gate call
handle_request-Admitted_example = handle_request-Admitted gate call

abbrev log : List Bytes
log = codes "a" ∷ codes "b" ∷ codes "c" ∷ []

events_after-append_all_example :
    events_after (append_all (fresh 2) log) (to_string 2) ≡ some ((to_string 3, codes "c") ∷ [])
events_after-append_all_example =
    events_after-append_all 2 2 log (omega arith) (omega arith) (omega arith) (omega arith)

evicted : events_after (append_all (fresh 2) log) (codes "1") ≡ none
unfolding events_after append
evicted = refl
