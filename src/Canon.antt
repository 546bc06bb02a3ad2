-- ===== src/Canon.antt =====
-- crates/interpreter/src/bn_serial.rs: the bytes that the identity of an expression is hashed from.
pub mod Leb
pub mod Reader
pub mod Atoms
pub mod Encode
mod Tests
