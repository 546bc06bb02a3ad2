-- ===== src/Parser/Tier/Form.antt =====
-- crates/parser/src/tier.rs: the forms of a pipe's right side, and the tiers.
use nlang_tools.Prelude.{String}

pub data RhsForm : Type 0 where
  transformer morphism atom unknown : RhsForm

-- `Tier::C`, `M`, `Q` and `U`
pub data Tier : Type 0 where
  in_c in_m in_q in_u : Tier

unfoldable pub as_str : Tier → String
as_str in_c = "C"
as_str in_m = "M"
as_str in_q = "Q"
as_str in_u = "U"
