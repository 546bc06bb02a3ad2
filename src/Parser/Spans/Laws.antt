-- ===== src/Parser/Spans/Laws.antt =====
-- The last pass over the positions wins, and no position of the tree escapes a pass.
use nlang_tools.Prelude.{◌≡◌, refl, List, [], ◌∷◌}
use nlang_tools.Parser.Ast.{
  Span, Relation, Expr, ExprKind, Exprs, RangeStep, Parts, StringPart, Fields, Field, FieldKey,
  node, atom, path, binary, morphism, combo, complement, ternary, unary, list, tuple, poset,
  anon_set, interpolated, range, context, spread, structural, no_exprs, and_expr, no_step, step,
  no_parts, and_part, literal, interpolation, no_fields, and_field, field, named, quoted,
  pattern_key, path_key,
}
use nlang_tools.Parser.Spans.{
  default, unknown, set_path, set_relations, set_spans, set_kind, set_items, set_step, set_parts,
  set_part, set_fields, set_field, set_key, strip_spans, mark_spans_unknown,
}

module _ (s t : Span) where
  relations_last : (rs : List Relation) → set_relations s (set_relations t rs) ≡ set_relations s rs
  unfolding set_relations
  relations_last [] = refl
  relations_last (r ∷ rs) = rw (relations_last rs)

  mutual
    unfolding set_spans set_path

    spans_last : (e : Expr) → set_spans s (set_spans t e) ≡ set_spans s e
    spans_last (node k _) = rw (kind_last k)

    kind_last : (k : ExprKind) → set_kind s (set_kind t k) ≡ set_kind s k
    kind_last (atom a) = refl
    kind_last (path p) = refl
    kind_last (binary op a b) = rw (spans_last a, spans_last b)
    kind_last (morphism a b) = rw (spans_last a, spans_last b)
    kind_last (combo fs rs c) = rw (fields_last fs, relations_last rs)
    kind_last (complement e) = rw (spans_last e)
    kind_last (ternary a b c) = rw (spans_last a, spans_last b, spans_last c)
    kind_last (unary op e) = rw (spans_last e)
    kind_last (list es) = rw (items_last es)
    kind_last (tuple es) = rw (items_last es)
    kind_last (poset rs) = rw (relations_last rs)
    kind_last (anon_set e) = rw (spans_last e)
    kind_last (interpolated ps) = rw (parts_last ps)
    kind_last (range a b c) = rw (spans_last a, spans_last b, step_last c)
    kind_last context = refl
    kind_last (spread e) = rw (spans_last e)
    kind_last (structural e) = rw (spans_last e)

    items_last : (es : Exprs) → set_items s (set_items t es) ≡ set_items s es
    items_last no_exprs = refl
    items_last (and_expr e es) = rw (spans_last e, items_last es)

    step_last : (c : RangeStep) → set_step s (set_step t c) ≡ set_step s c
    step_last no_step = refl
    step_last (step e) = rw (spans_last e)

    parts_last : (ps : Parts) → set_parts s (set_parts t ps) ≡ set_parts s ps
    parts_last no_parts = refl
    parts_last (and_part p ps) = rw (part_last p, parts_last ps)

    part_last : (p : StringPart) → set_part s (set_part t p) ≡ set_part s p
    part_last (literal l) = refl
    part_last (interpolation e) = rw (spans_last e)

    fields_last : (fs : Fields) → set_fields s (set_fields t fs) ≡ set_fields s fs
    fields_last no_fields = refl
    fields_last (and_field f fs) = rw (field_last f, fields_last fs)

    field_last : (f : Field) → set_field s (set_field t f) ≡ set_field s f
    field_last (field key value _) = rw (key_last key, spans_last value)

    key_last : (key : FieldKey) → set_key s (set_key t key) ≡ set_key s key
    key_last (named p n) = refl
    key_last (quoted q) = refl
    key_last (pattern_key e) = rw (spans_last e)
    key_last (path_key p) = refl

  pub set_spans_last : (e : Expr) → set_spans s (set_spans t e) ≡ set_spans s e
  set_spans_last e = spans_last e

-- Stripping and marking are idempotent, and of two passes in either order the last one decides:
-- a tree that was stored without positions and one that was never stored are stripped to the
-- same tree.
pub strip_mark_last :
    (e : Expr)
    → (strip_spans (strip_spans e) ≡ strip_spans e)
      × (mark_spans_unknown (mark_spans_unknown e) ≡ mark_spans_unknown e)
      × (strip_spans (mark_spans_unknown e) ≡ strip_spans e)
      × (mark_spans_unknown (strip_spans e) ≡ mark_spans_unknown e)
unfolding strip_spans mark_spans_unknown
strip_mark_last e = (
  set_spans_last default default e,
  set_spans_last unknown unknown e,
  set_spans_last default unknown e,
  set_spans_last unknown default e,
)
