-- ===== src/Parser.antt =====
-- crates/parser: the syntax tree, its passes, and the fences that stand before and behind the
-- grammar.
pub mod Ast
pub mod Spans
pub mod Tier
pub mod Depth
pub mod Nesting
pub mod Params
pub mod Address
mod Tests
