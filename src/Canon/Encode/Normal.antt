-- ===== src/Canon/Encode/Normal.antt =====
-- crates/interpreter/src/bn_serial.rs: what of an expression its bytes hold, and the ranges that the
-- types of the source give to the numbers in it.
use nlang_tools.Parser.Ast.{
  Expr, ExprKind, Exprs, RangeStep, Parts, StringPart, Fields, Field, FieldKey, node, atom, path,
  binary, morphism, combo, complement, ternary, unary, list, tuple, poset, anon_set, interpolated,
  range, context, spread, structural, no_exprs, and_expr, no_step, step, no_parts, and_part,
  literal, interpolation, no_fields, and_field, field, named, quoted, pattern_key, path_key,
}
use nlang_tools.Parser.Spans.{default, set_path}
use nlang_tools.Canon.Atoms.{Host}
use nlang_tools.Canon.Atoms.Reading.{Inverse, normal_atom}
use nlang_tools.Canon.Atoms.Paths.{IsSizedAnchor, normal_relations}

module _ {h : Host} (i : Inverse h) where
  -- The expression with no positions, and with each atom as it is for the identity.
  unfoldable mutual
    unfolding normal_atom normal_relations set_path

    pub normal : Expr → Expr
    normal (node k _) = node (normal_kind k) default

    pub normal_kind : ExprKind → ExprKind
    normal_kind (atom a) = atom (normal_atom i a)
    normal_kind (path p) = path (set_path default p)
    normal_kind (binary op a b) = binary op (normal a) (normal b)
    normal_kind (morphism param body) = morphism (normal param) (normal body)
    normal_kind (combo fields relations closed) =
        combo (normal_fields fields) (normal_relations i relations) closed
    normal_kind (complement e) = complement (normal e)
    normal_kind (ternary c a b) = ternary (normal c) (normal a) (normal b)
    normal_kind (unary op e) = unary op (normal e)
    normal_kind (list items) = list (normal_items items)
    normal_kind (tuple items) = tuple (normal_items items)
    normal_kind (poset relations) = poset (normal_relations i relations)
    normal_kind (anon_set e) = anon_set (normal e)
    normal_kind (interpolated parts) = interpolated (normal_parts parts)
    normal_kind (range first last by) = range (normal first) (normal last) (normal_step by)
    normal_kind context = context
    normal_kind (spread e) = spread (normal e)
    normal_kind (structural e) = structural (normal e)

    pub normal_items : Exprs → Exprs
    normal_items no_exprs = no_exprs
    normal_items (and_expr e es) = and_expr (normal e) (normal_items es)

    pub normal_step : RangeStep → RangeStep
    normal_step no_step = no_step
    normal_step (step e) = step (normal e)

    pub normal_parts : Parts → Parts
    normal_parts no_parts = no_parts
    normal_parts (and_part p ps) = and_part (normal_part p) (normal_parts ps)

    pub normal_part : StringPart → StringPart
    normal_part (literal s) = literal s
    normal_part (interpolation e) = interpolation (normal e)

    pub normal_fields : Fields → Fields
    normal_fields no_fields = no_fields
    normal_fields (and_field f fs) = and_field (normal_field f) (normal_fields fs)

    pub normal_field : Field → Field
    normal_field (field key value _) = field (normal_key key) (normal value) default

    pub normal_key : FieldKey → FieldKey
    normal_key (named prefix name) = named prefix name
    normal_key (quoted s) = quoted s
    normal_key (pattern_key e) = pattern_key (normal e)
    normal_key (path_key p) = path_key (set_path default p)

-- Every parent count is a `u32` and every digest has 32 bytes.
unfoldable mutual
  pub IsSized : Expr → Type 0
  IsSized (node k _) = IsSizedKind k

  pub IsSizedKind : ExprKind → Type 0
  IsSizedKind (atom a) = Unit {0}
  IsSizedKind (path p) = IsSizedAnchor p.anchor
  IsSizedKind (binary op a b) = IsSized a × IsSized b
  IsSizedKind (morphism param body) = IsSized param × IsSized body
  IsSizedKind (combo fields relations closed) = IsSizedFields fields
  IsSizedKind (complement e) = IsSized e
  IsSizedKind (ternary c a b) = IsSized c × (IsSized a × IsSized b)
  IsSizedKind (unary op e) = IsSized e
  IsSizedKind (list items) = IsSizedItems items
  IsSizedKind (tuple items) = IsSizedItems items
  IsSizedKind (poset relations) = Unit {0}
  IsSizedKind (anon_set e) = IsSized e
  IsSizedKind (interpolated parts) = IsSizedParts parts
  IsSizedKind (range first last by) = IsSized first × (IsSized last × IsSizedStep by)
  IsSizedKind context = Unit {0}
  IsSizedKind (spread e) = IsSized e
  IsSizedKind (structural e) = IsSized e

  pub IsSizedItems : Exprs → Type 0
  IsSizedItems no_exprs = Unit {0}
  IsSizedItems (and_expr e es) = IsSized e × IsSizedItems es

  pub IsSizedStep : RangeStep → Type 0
  IsSizedStep no_step = Unit {0}
  IsSizedStep (step e) = IsSized e

  pub IsSizedParts : Parts → Type 0
  IsSizedParts no_parts = Unit {0}
  IsSizedParts (and_part p ps) = IsSizedPart p × IsSizedParts ps

  pub IsSizedPart : StringPart → Type 0
  IsSizedPart (literal s) = Unit {0}
  IsSizedPart (interpolation e) = IsSized e

  pub IsSizedFields : Fields → Type 0
  IsSizedFields no_fields = Unit {0}
  IsSizedFields (and_field f fs) = IsSizedField f × IsSizedFields fs

  pub IsSizedField : Field → Type 0
  IsSizedField (field key value _) = IsSizedKey key × IsSized value

  pub IsSizedKey : FieldKey → Type 0
  IsSizedKey (named prefix name) = Unit {0}
  IsSizedKey (quoted s) = Unit {0}
  IsSizedKey (pattern_key e) = IsSized e
  IsSizedKey (path_key p) = IsSizedAnchor p.anchor
