-- ===== src/Routing.antt =====
-- crates/interpreter/src/routing.rs: the index of known peers by distance from this node.
pub mod Distance
pub mod Table
mod Tests
