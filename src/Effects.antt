-- ===== src/Effects.antt =====
-- crates/interpreter/src/value.rs: effect labels, and the capabilities that may discharge them.
pub mod Tag
pub mod Privilege
mod Tests
