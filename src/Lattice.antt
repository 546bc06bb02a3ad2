-- ===== src/Lattice.antt =====
-- crates/interpreter/src/unify.rs and value.rs: numbers in their order, and the meet of ranges.
pub mod Numbers
pub mod Range
mod Tests
