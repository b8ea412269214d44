-- ===== src/Transport.antt =====
-- What moves messages: src/core/serialized_transport_writer.cpp.
pub mod Writer
pub mod Memory
mod Tests
