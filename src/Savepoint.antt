-- ===== src/Savepoint.antt =====
-- crates/interpreter/src/savepoint.rs: the local savepoints, their texts and their order.
pub mod Frame
pub mod Circles
pub mod Ancestry
mod Tests
