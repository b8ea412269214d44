-- ===== src/Auth.antt =====
-- The client side of authorization: src/auth.
pub mod Challenge
pub mod Form
pub mod Identity
pub mod Policy
pub mod Resource
pub mod Response
mod Tests
