-- ===== src/Json.antt =====
-- JSON text as src/detail/peer_json.hpp and src/detail/jsonrpc_envelope.hpp scan it.
pub mod Syntax
pub mod Api
pub mod Depth
pub mod Nesting
pub mod Envelope
pub mod Scan
pub mod Values
pub mod Routing
pub mod Progress
mod Tests
