-- ===== src/Http/Sse.antt =====
-- src/transport/http_session_manager.cpp: the body of an event stream.
use mcp_cpp_sdk.Prelude.{List, [], ◌∷◌, ◌++◌, Bytes, codes}
use mcp_cpp_sdk.Http.EventStore.{Event}

abbrev pub line_feed : Bytes
line_feed = 0x0A ∷ []

abbrev pub event_text : Event → Bytes
event_text (id, message) =
    codes "id: " ++ (id ++ (line_feed ++ (codes "data: " ++ (message ++ (line_feed ++ line_feed)))))

-- The loop of `make_sse_response`.
unfoldable pub sse_body : List Event → Bytes
sse_body [] = []
sse_body (event ∷ events) = event_text event ++ sse_body events
