-- ===== src/Canon/Encode/Tasks.antt =====
-- crates/interpreter/src/bn_serial.rs: how many tasks the walk runs for an expression, its fuel.
use nlang_tools.Prelude.{ℕ, suc, ◌+◌, List, [], ◌∷◌}
use nlang_tools.Parser.Ast.{
  Relation, Expr, ExprKind, Exprs, RangeStep, Parts, StringPart, Fields, Field, FieldKey, node,
  atom, path, binary, morphism, combo, complement, ternary, unary, list, tuple, poset, anon_set,
  interpolated, range, context, spread, structural, no_exprs, and_expr, no_step, step, no_parts,
  and_part, literal, interpolation, no_fields, and_field, field, named, quoted, pattern_key,
  path_key,
}

unfoldable pub tasks_of_relations : List Relation → ℕ
tasks_of_relations [] = 0
tasks_of_relations (r ∷ rs) = 4 + tasks_of_relations rs

-- the tasks of each part, its own included
unfoldable mutual
  unfolding tasks_of_relations

  pub tasks_of : Expr → ℕ
  tasks_of (node k _) = suc (tasks_of_kind k)

  pub tasks_of_kind : ExprKind → ℕ
  tasks_of_kind (atom _) = 1
  tasks_of_kind (path _) = 1
  tasks_of_kind (binary _ a b) = tasks_of a + tasks_of b
  tasks_of_kind (morphism param body) = tasks_of param + tasks_of body
  tasks_of_kind (combo fields relations _) = tasks_of_fields fields + tasks_of_relations relations
  tasks_of_kind (complement e) = tasks_of e
  tasks_of_kind (ternary c a b) = tasks_of c + (tasks_of a + tasks_of b)
  tasks_of_kind (unary _ e) = tasks_of e
  tasks_of_kind (list items) = tasks_of_items items
  tasks_of_kind (tuple items) = tasks_of_items items
  tasks_of_kind (poset relations) = tasks_of_relations relations
  tasks_of_kind (anon_set e) = tasks_of e
  tasks_of_kind (interpolated parts) = tasks_of_parts parts
  tasks_of_kind (range first last by) = tasks_of first + (tasks_of last + tasks_of_step by)
  tasks_of_kind context = 0
  tasks_of_kind (spread e) = tasks_of e
  tasks_of_kind (structural e) = tasks_of e

  pub tasks_of_items : Exprs → ℕ
  tasks_of_items no_exprs = 0
  tasks_of_items (and_expr e es) = tasks_of e + tasks_of_items es

  pub tasks_of_step : RangeStep → ℕ
  tasks_of_step no_step = 1
  tasks_of_step (step e) = 1 + tasks_of e

  pub tasks_of_parts : Parts → ℕ
  tasks_of_parts no_parts = 0
  tasks_of_parts (and_part p ps) = tasks_of_part p + tasks_of_parts ps

  pub tasks_of_part : StringPart → ℕ
  tasks_of_part (literal _) = 1
  tasks_of_part (interpolation e) = suc (tasks_of e)

  pub tasks_of_fields : Fields → ℕ
  tasks_of_fields no_fields = 0
  tasks_of_fields (and_field f fs) = tasks_of_field f + tasks_of_fields fs

  pub tasks_of_field : Field → ℕ
  tasks_of_field (field key value _) = suc (tasks_of_key key + tasks_of value)

  pub tasks_of_key : FieldKey → ℕ
  tasks_of_key (named _ _) = 1
  tasks_of_key (quoted _) = 1
  tasks_of_key (pattern_key e) = suc (tasks_of e)
  tasks_of_key (path_key _) = 2
