-- ===== src/Nlint/Repeated/Walk/Containers.antt =====
-- crates/oo/src/nlint.rs: the container literals of a tree.
use nlang_tools.Prelude.{◌≡◌, ◌⊎◌}
use nlang_tools.Parser.Ast.{
  Expr, ExprKind, Exprs, RangeStep, Parts, StringPart, Fields, Field, FieldKey, node, atom, path,
  binary, morphism, combo, complement, ternary, unary, list, tuple, poset, anon_set, interpolated,
  range, context, spread, structural, no_exprs, and_expr, no_step, step, no_parts, and_part,
  literal, interpolation, no_fields, and_field, field, named, quoted, pattern_key, path_key,
}

-- A container literal with the fields `c` stands somewhere in the tree.
unfoldable mutual
  pub Holds : Fields → Expr → Type 0
  Holds c (node k s) = HoldsKind c k

  pub HoldsKind : Fields → ExprKind → Type 0
  HoldsKind c (combo fields rs closed) = (c ≡ fields) ⊎ HoldsFields c fields
  HoldsKind c (morphism a b) = Holds c a ⊎ Holds c b
  HoldsKind c (binary op a b) = Holds c a ⊎ Holds c b
  HoldsKind c (ternary a b e) = Holds c a ⊎ (Holds c b ⊎ Holds c e)
  HoldsKind c (list es) = HoldsItems c es
  HoldsKind c (tuple es) = HoldsItems c es
  HoldsKind c (unary op e) = Holds c e
  HoldsKind c (complement e) = Holds c e
  HoldsKind c (spread e) = Holds c e
  HoldsKind c (structural e) = Holds c e
  HoldsKind c (anon_set e) = Holds c e
  HoldsKind c (range a b e) = Holds c a ⊎ (Holds c b ⊎ HoldsStep c e)
  HoldsKind c (interpolated ps) = HoldsParts c ps
  HoldsKind c (atom a) = ⊥
  HoldsKind c (path p) = ⊥
  HoldsKind c (poset rs) = ⊥
  HoldsKind c context = ⊥

  pub HoldsItems : Fields → Exprs → Type 0
  HoldsItems c no_exprs = ⊥
  HoldsItems c (and_expr e es) = Holds c e ⊎ HoldsItems c es

  pub HoldsStep : Fields → RangeStep → Type 0
  HoldsStep c no_step = ⊥
  HoldsStep c (step e) = Holds c e

  pub HoldsParts : Fields → Parts → Type 0
  HoldsParts c no_parts = ⊥
  HoldsParts c (and_part q ps) = HoldsPart c q ⊎ HoldsParts c ps

  pub HoldsPart : Fields → StringPart → Type 0
  HoldsPart c (literal l) = ⊥
  HoldsPart c (interpolation e) = Holds c e

  pub HoldsFields : Fields → Fields → Type 0
  HoldsFields c no_fields = ⊥
  HoldsFields c (and_field f fs) = HoldsField c f ⊎ HoldsFields c fs

  pub HoldsField : Fields → Field → Type 0
  HoldsField c (field key value s) = Holds c value ⊎ HoldsKey c key

  pub HoldsKey : Fields → FieldKey → Type 0
  HoldsKey c (pattern_key e) = Holds c e
  HoldsKey c (named p name) = ⊥
  HoldsKey c (quoted s) = ⊥
  HoldsKey c (path_key p) = ⊥
