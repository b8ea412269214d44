-- ===== src/Regex.antt =====
-- src/core/regex.cpp, one module for each part of the engine.
pub mod Ranges
pub mod Utf8
pub mod Program
pub mod ThreadList
pub mod Machine
pub mod Node
pub mod Parser
pub mod Compiler
pub mod Construct
mod Tests
