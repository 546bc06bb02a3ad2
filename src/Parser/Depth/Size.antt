-- ===== src/Parser/Depth/Size.antt =====
-- How many expressions a tree holds, itself and those in pattern keys included, and how many
-- levels it has. The first is the fuel of the two worklist loops.
use nlang_tools.Prelude.{ℕ, ◌+◌, ◌<◌, arith, suc, max}
use nlang_tools.Parser.Ast.{
  Expr, ExprKind, Exprs, RangeStep, Parts, StringPart, Fields, Field, FieldKey, node, atom, path,
  binary, morphism, combo, complement, ternary, unary, list, tuple, poset, anon_set, interpolated,
  range, context, spread, structural, no_exprs, and_expr, no_step, step, no_parts, and_part,
  literal, interpolation, no_fields, and_field, field, named, quoted, pattern_key, path_key,
}

unfoldable mutual
  pub size : Expr → ℕ
  size (node k _) = suc (size_kind k)

  pub size_kind : ExprKind → ℕ
  size_kind (binary _ a b) = size a + size b
  size_kind (morphism param body) = size param + size body
  size_kind (combo fields _ _) = size_fields fields
  size_kind (ternary a b c) = size a + (size b + size c)
  size_kind (unary _ e) = size e
  size_kind (complement e) = size e
  size_kind (anon_set e) = size e
  size_kind (spread e) = size e
  size_kind (structural e) = size e
  size_kind (list items) = size_items items
  size_kind (tuple items) = size_items items
  size_kind (interpolated parts) = size_parts parts
  size_kind (range a b c) = size a + (size b + size_step c)
  size_kind (atom _) = 0
  size_kind (path _) = 0
  size_kind (poset _) = 0
  size_kind context = 0

  pub size_items : Exprs → ℕ
  size_items no_exprs = 0
  size_items (and_expr e es) = size e + size_items es

  pub size_step : RangeStep → ℕ
  size_step no_step = 0
  size_step (step e) = size e

  pub size_parts : Parts → ℕ
  size_parts no_parts = 0
  size_parts (and_part p ps) = size_part p + size_parts ps

  pub size_part : StringPart → ℕ
  size_part (literal _) = 0
  size_part (interpolation e) = size e

  pub size_fields : Fields → ℕ
  size_fields no_fields = 0
  size_fields (and_field f fs) = size_field f + size_fields fs

  pub size_field : Field → ℕ
  size_field (field key value _) = size_key key + size value

  pub size_key : FieldKey → ℕ
  size_key (pattern_key e) = size e
  size_key (named _ _) = 0
  size_key (quoted _) = 0
  size_key (path_key _) = 0

-- A leaf has one level.
unfoldable mutual
  pub depth : Expr → ℕ
  depth (node k _) = suc (depth_kind k)

  pub depth_kind : ExprKind → ℕ
  depth_kind (binary _ a b) = max (depth a) (depth b)
  depth_kind (morphism param body) = max (depth param) (depth body)
  depth_kind (combo fields _ _) = depth_fields fields
  depth_kind (ternary a b c) = max (depth a) (max (depth b) (depth c))
  depth_kind (unary _ e) = depth e
  depth_kind (complement e) = depth e
  depth_kind (anon_set e) = depth e
  depth_kind (spread e) = depth e
  depth_kind (structural e) = depth e
  depth_kind (list items) = depth_items items
  depth_kind (tuple items) = depth_items items
  depth_kind (interpolated parts) = depth_parts parts
  depth_kind (range a b c) = max (depth a) (max (depth b) (depth_step c))
  depth_kind (atom _) = 0
  depth_kind (path _) = 0
  depth_kind (poset _) = 0
  depth_kind context = 0

  pub depth_items : Exprs → ℕ
  depth_items no_exprs = 0
  depth_items (and_expr e es) = max (depth e) (depth_items es)

  pub depth_step : RangeStep → ℕ
  depth_step no_step = 0
  depth_step (step e) = depth e

  pub depth_parts : Parts → ℕ
  depth_parts no_parts = 0
  depth_parts (and_part p ps) = max (depth_part p) (depth_parts ps)

  pub depth_part : StringPart → ℕ
  depth_part (literal _) = 0
  depth_part (interpolation e) = depth e

  pub depth_fields : Fields → ℕ
  depth_fields no_fields = 0
  depth_fields (and_field f fs) = max (depth_field f) (depth_fields fs)

  pub depth_field : Field → ℕ
  depth_field (field key value _) = max (depth_key key) (depth value)

  pub depth_key : FieldKey → ℕ
  depth_key (pattern_key e) = depth e
  depth_key (named _ _) = 0
  depth_key (quoted _) = 0
  depth_key (path_key _) = 0

pub depth-pos : (e : Expr) → 0 < depth e
unfolding depth
depth-pos (node k s) = omega arith
