-- ===== src/Builtins.antt =====
-- crates/interpreter/src/builtins: the functions that the language has built in.
pub mod Csv
pub mod Url
pub mod Math
mod Tests
