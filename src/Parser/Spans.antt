-- ===== src/Parser/Spans.antt =====
-- crates/parser/src/ast.rs: the passes that forget source positions, `strip_spans` (every span
-- zeroed, for comparisons) and `mark_spans_unknown` (every span marked absent, for storage).
-- Both walk the tree alike and differ in the span that they write, so one walk takes that span.
pub mod Laws
pub mod Every
use nlang_tools.Prelude.{ℕ, ◌-◌, ◌^◌, Bool, ◌&&◌, ◌==◌, List, [], ◌∷◌, max, min}
use nlang_tools.Parser.Ast.{
  Span, AstPath, Relation, Expr, ExprKind, Exprs, RangeStep, Parts, StringPart, Fields, Field,
  FieldKey, Program, node, atom, path, binary, morphism, combo, complement, ternary, unary, list,
  tuple, poset, anon_set, interpolated, range, context, spread, structural, no_exprs, and_expr,
  no_step, step, no_parts, and_part, literal, interpolation, no_fields, and_field, field, named,
  quoted, pattern_key, path_key,
}

-- `usize::MAX` on a 64-bit host
abbrev pub usize_max : ℕ
usize_max = 2 ^ 64 - 1

-- `Span::default()`
abbrev pub default : Span
default = record { start = 0; end = 0 }

abbrev pub unknown : Span
unknown = record { start = usize_max; end = usize_max }

unfoldable pub is_unknown : Span → Bool
is_unknown s = s.start == usize_max && s.end == usize_max

unfoldable pub merge : Span → Span → Span
merge a b = record { start = min a.start b.start; end = max a.end b.end }

module _ (s : Span) where
  unfoldable pub set_path : AstPath → AstPath
  set_path p = record p { span = s }

  unfoldable pub set_relations : List Relation → List Relation
  set_relations [] = []
  set_relations (r ∷ rs) = record r { span = s } ∷ set_relations rs

  unfoldable mutual
    unfolding set_path set_relations

    pub set_spans : Expr → Expr
    set_spans (node k _) = node (set_kind k) s

    pub set_kind : ExprKind → ExprKind
    set_kind (atom a) = atom a
    set_kind (path p) = path (set_path p)
    set_kind (binary op a b) = binary op (set_spans a) (set_spans b)
    set_kind (morphism param body) = morphism (set_spans param) (set_spans body)
    set_kind (combo fields relations closed) =
        combo (set_fields fields) (set_relations relations) closed
    set_kind (complement e) = complement (set_spans e)
    set_kind (ternary c t e) = ternary (set_spans c) (set_spans t) (set_spans e)
    set_kind (unary op e) = unary op (set_spans e)
    set_kind (list items) = list (set_items items)
    set_kind (tuple items) = tuple (set_items items)
    set_kind (poset relations) = poset (set_relations relations)
    set_kind (anon_set e) = anon_set (set_spans e)
    set_kind (interpolated parts) = interpolated (set_parts parts)
    set_kind (range first last by) = range (set_spans first) (set_spans last) (set_step by)
    set_kind context = context
    set_kind (spread e) = spread (set_spans e)
    set_kind (structural e) = structural (set_spans e)

    pub set_items : Exprs → Exprs
    set_items no_exprs = no_exprs
    set_items (and_expr e es) = and_expr (set_spans e) (set_items es)

    pub set_step : RangeStep → RangeStep
    set_step no_step = no_step
    set_step (step e) = step (set_spans e)

    pub set_parts : Parts → Parts
    set_parts no_parts = no_parts
    set_parts (and_part p ps) = and_part (set_part p) (set_parts ps)

    pub set_part : StringPart → StringPart
    set_part (literal t) = literal t
    set_part (interpolation e) = interpolation (set_spans e)

    pub set_fields : Fields → Fields
    set_fields no_fields = no_fields
    set_fields (and_field f fs) = and_field (set_field f) (set_fields fs)

    pub set_field : Field → Field
    set_field (field key value _) = field (set_key key) (set_spans value) s

    pub set_key : FieldKey → FieldKey
    set_key (named prefix name) = named prefix name
    set_key (quoted t) = quoted t
    set_key (pattern_key e) = pattern_key (set_spans e)
    set_key (path_key p) = path_key (set_path p)

unfoldable pub strip_spans : Expr → Expr
unfolding set_spans
strip_spans e = set_spans default e

unfoldable pub mark_spans_unknown : Expr → Expr
unfolding set_spans
mark_spans_unknown e = set_spans unknown e

unfoldable pub without_spans : Expr → Expr
unfolding strip_spans
without_spans e = strip_spans e

unfoldable pub strip_program : Program → Program
unfolding set_spans
strip_program p = record { fields = set_fields default p.fields }
