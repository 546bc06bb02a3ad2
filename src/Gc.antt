-- ===== src/Gc.antt =====
-- crates/interpreter/src/gc.rs: the collection of the store's unreachable objects.
pub mod Mark
pub mod Sweep
mod Tests
