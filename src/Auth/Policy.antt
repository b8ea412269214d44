-- ===== src/Auth/Policy.antt =====
-- src/auth/metadata_policy.cpp: which URLs and addresses a client may fetch metadata from.
pub mod Address
pub mod Sanitize
pub mod Origin
pub mod Url
mod Tests
