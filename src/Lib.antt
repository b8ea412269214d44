-- ===== src/Lib.antt =====
-- The core logic of mcp-cpp-sdk, a C++ SDK for the Model Context Protocol: a server and a client that
-- exchange JSON-RPC messages over HTTP, standard streams or memory. Modelled are the parts of the SDK
-- that take bytes from a peer and decide about them, and those that keep state for a peer: the sessions
-- of the HTTP server, the stored events, the two ends of a transport in memory, and the writer in front
-- of a transport.
--
-- Regex (src/core/regex.cpp, include/mcp/detail/regex.hpp): the engine that checks the `pattern` of a
--   schema. Regex.Utf8 decodes the text (`decode_utf8`), Regex.Parser and the modules below it build
--   the nodes (`Parser`), Regex.Compiler turns them into a program (`Compiler`), Regex.Construct is
--   the constructor `Regex`, Regex.Machine is `search` with its budget of steps, over the sparse set
--   of Regex.ThreadList (`ThreadList`) and the character classes of Regex.Ranges (`normalize`,
--   `complement`, `contains`). Regex.Machine.Accepts defines what a program finds by the steps of an
--   automaton, which knows no thread list and no budget.
-- Json (src/detail/peer_json.hpp, src/detail/jsonrpc_envelope.hpp): Json.Depth is
--   `exceeds_json_depth`, the bound on the nesting of a document before it is parsed, Json.Envelope is
--   `scan_jsonrpc_envelope`, which finds where a message goes without parsing it. Json.Syntax is the
--   reference for both: JSON values and their text, with any whitespace between the tokens.
--   Json.Api has the operations of nlohmann::json that the SDK calls, as a record that the modules
--   with JSON values take as a parameter.
-- Protocol (include/mcp/protocol/capabilities.hpp): the supported versions and their negotiation.
-- Http.Types (src/transport/http_types.cpp): the bearer token and the path of a request, the
--   `WWW-Authenticate` header, and the place and the text of the protected-resource metadata.
-- Http.Gate (src/transport/http_session_manager.cpp): the checks of `handle_request`, which stand in
--   front of the handlers of MCP messages and use Http.Types.
-- Http.EventStore (include/mcp/transport/http_server.hpp): the events that a client can ask for again;
--   Http.Sse is the text of an event stream.
-- Http.Sessions (src/transport/http_session_manager.cpp): Sessions.Runtime is `SessionRuntime`, with
--   `dispatch_response_to_pending`, which uses Json.Envelope and Http.EventStore; Sessions.Manager is
--   the map of the sessions with `create_session`, `destroy_session` and `close`; Sessions.Handlers has
--   `handle_get`, `handle_delete` and `wait_for_response`, Sessions.Post is `handle_post`, and
--   Sessions.Config are the setters, whose state holds that of Http.Gate. Sessions.Runs defines the runs:
--   requests, messages of the servers, waits that end, and the close, in any order.
-- Auth (src/auth/challenge.cpp, and `url_encode` and `build_form_body` of src/auth/oauth.cpp):
--   Auth.Challenge parses the header that Http.Types formats, Auth.Form encodes and decodes forms,
--   Auth.Response reads the redirect of an authorization server and validates it.
-- Auth.Identity (src/auth/client_identity.cpp): which credentials a client presents to a server, and
--   the scope that it registers with.
-- Auth.Policy (src/auth/metadata_policy.cpp): Policy.Address classifies addresses, Policy.Origin has the
--   canonical form of an origin and the lists, Policy.Url is `validate_metadata_url`, which uses both,
--   and Policy.Sanitize is `sanitize_for_diagnostics`.
-- Auth.Resource (src/auth/oauth.cpp): `resource_identifies_server` and the check in front of what the
--   client does with a metadata document, with the origins and the diagnostics of Auth.Policy.
-- Transport.Writer (src/core/serialized_transport_writer.cpp): the queue in front of a transport, which
--   writes one message at a time; its runs are sequences of calls, writes that end, and cancellations.
-- Transport.Memory (src/transport/memory.cpp): one end of a pair of transports in memory; its runs are
--   sequences of deliveries, reads, wakings, readers that are dropped, and a close.
-- Prelude has the lists, the tables, the Boolean tests and the text that these share; the modules named
-- Tests run the definitions on concrete inputs.
--
-- A text is the list of its bytes or code points, and a position in it is a suffix, or an index
-- where the code computes with it. A number of the source is a natural number; where a width
-- matters, the wrap-around is written out (Utf8, ThreadList, Ranges, EventStore). A coroutine is
-- cut at its suspensions, and each piece is a function of the state; a shared pointer to a session
-- is its position in the list of all sessions, so that a request can hold a session that the map
-- has lost. An exception is `none` or the `err` of a result. Recursion that is not on the data runs
-- on fuel, which is out of sight of a caller: the search of the regular expressions starts with a
-- budget, as in the source, and is proved to answer when the budget is as large as stated;
-- `add_thread` has twice as much fuel as the program has instructions, and one more; the parser of
-- challenges starts with the length of the header, which always suffices; the scan of an envelope
-- starts with the length of the text, which always suffices; the parser and the compiler of regular
-- expressions report `out_of_fuel` apart from the errors of the source, and that they never do is
-- not proved.
--
-- Not modelled: sockets, timers, executors and threads (Boost.Asio and Boost.Beast), so that the
-- pieces of a coroutine do not overlap, and what happens while a token validator is suspended; the
-- parser and the printer of nlohmann::json, the parser of addresses of Boost.Asio and the random
-- source, which are parameters; OpenSSL; and of the SDK itself the server, the client, the
-- transports over sockets and standard streams, the rest of the OAuth flow, the conversions to and
-- from JSON, and the schemas.
pub mod Auth
pub mod Http
pub mod Json
pub mod Prelude
pub mod Protocol
pub mod Regex
pub mod Transport
