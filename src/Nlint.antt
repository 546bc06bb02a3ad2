-- ===== src/Nlint.antt =====
-- crates/oo/src/nlint.rs: the graph part of the linter.
pub mod Cliques
pub mod Context
pub mod Components
pub mod Combinations
pub mod Repeated
pub mod Sealed
mod Tests
