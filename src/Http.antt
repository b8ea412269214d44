-- ===== src/Http.antt =====
-- The HTTP boundary: src/transport.
pub mod Types
pub mod Gate
pub mod EventStore
pub mod Sse
pub mod Sessions
mod Tests
