-- ===== src/Auth/Resource/Tests.antt =====
-- Runs of `require_resource_identifies_server` of src/auth/oauth.cpp.
use mcp_cpp_sdk.Prelude.{◌≡◌, ◌↔◌, refl, true, false, [], Bytes, codes}
use mcp_cpp_sdk.Http.Types.{is_empty}
use mcp_cpp_sdk.Auth.Resource.{
  resource_identifies_server, meets, missing_resource, require_resource_identifies_server,
}
use mcp_cpp_sdk.Auth.Resource.Audience.{Identifies, require_resource_identifies_server-Identifies}

abbrev server : Bytes
server = codes "https://h:8/api/mcp"

prefix_accepted : resource_identifies_server (codes "https://h:8/api/") server ≡ true
unfolding resource_identifies_server mcp_cpp_sdk.Http.Types.take_until
prefix_accepted = refl

root_accepted : resource_identifies_server (codes "https://h:8") server ≡ true
unfolding resource_identifies_server mcp_cpp_sdk.Http.Types.take_until
root_accepted = refl

part_of_segment_refused : resource_identifies_server (codes "https://h:8/ap") server ≡ false
unfolding resource_identifies_server mcp_cpp_sdk.Http.Types.take_until
part_of_segment_refused = refl

other_port_refused : resource_identifies_server (codes "https://h:80/api") server ≡ false
unfolding resource_identifies_server mcp_cpp_sdk.Http.Types.take_until
other_port_refused = refl

-- The query of the server's URL counts as part of its path.
query_refused :
    resource_identifies_server (codes "https://h/mcp") (codes "https://h/mcp?t=1") ≡ false
unfolding resource_identifies_server mcp_cpp_sdk.Http.Types.take_until
query_refused = refl

absent_refused : require_resource_identifies_server [] (codes "s\n") ≡ missing_resource (codes "s ")
unfolding require_resource_identifies_server
absent_refused = refl

require_resource_identifies_server-Identifies_example :
    (require_resource_identifies_server (codes "https://h:8/api/") server ≡ meets)
    ↔ ((is_empty (codes "https://h:8/api/") ≡ false) × Identifies (codes "https://h:8/api/") server)
require_resource_identifies_server-Identifies_example =
    require_resource_identifies_server-Identifies (codes "https://h:8/api/") server
