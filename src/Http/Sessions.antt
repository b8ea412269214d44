-- ===== src/Http/Sessions.antt =====
-- The sessions of src/transport/http_session_manager.cpp.
pub mod Runtime
pub mod Manager
pub mod Handlers
pub mod Post
pub mod Invariant
pub mod Refusals
pub mod Delivery
pub mod Stream
pub mod Deletion
pub mod Runs
pub mod Config
mod Tests
