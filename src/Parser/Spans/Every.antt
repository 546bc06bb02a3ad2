-- ===== src/Parser/Spans/Every.antt =====
-- No position of the tree escapes a pass: a test on spans, asked at every node, field, path and
-- relation.
use nlang_tools.Prelude.{◌≡◌, refl, Bool, true, ◌&&◌, List, [], ◌∷◌}
use nlang_tools.Parser.Ast.{
  Span, Relation, Expr, ExprKind, Exprs, RangeStep, Parts, StringPart, Fields, Field, FieldKey,
  node, atom, path, binary, morphism, combo, complement, ternary, unary, list, tuple, poset,
  anon_set, interpolated, range, context, spread, structural, no_exprs, and_expr, no_step, step,
  no_parts, and_part, literal, interpolation, no_fields, and_field, field, named, quoted,
  pattern_key, path_key,
}
use nlang_tools.Parser.Spans.{
  unknown, is_unknown, set_path, set_relations, set_spans, set_kind, set_items, set_step, set_parts,
  set_part, set_fields, set_field, set_key, mark_spans_unknown,
}

module _ (p : Span → Bool) where
  unfoldable pub every_relation : List Relation → Bool
  every_relation [] = true
  every_relation (r ∷ rs) = p r.span && every_relation rs

  unfoldable mutual
    unfolding every_relation

    pub every : Expr → Bool
    every (node k s) = p s && every_kind k

    pub every_kind : ExprKind → Bool
    every_kind (atom a) = true
    every_kind (path q) = p q.span
    every_kind (binary op a b) = every a && every b
    every_kind (morphism a b) = every a && every b
    every_kind (combo fs rs c) = every_field fs && every_relation rs
    every_kind (complement e) = every e
    every_kind (ternary a b c) = every a && (every b && every c)
    every_kind (unary op e) = every e
    every_kind (list es) = every_item es
    every_kind (tuple es) = every_item es
    every_kind (poset rs) = every_relation rs
    every_kind (anon_set e) = every e
    every_kind (interpolated ps) = every_part ps
    every_kind (range a b c) = every a && (every b && every_step c)
    every_kind context = true
    every_kind (spread e) = every e
    every_kind (structural e) = every e

    pub every_item : Exprs → Bool
    every_item no_exprs = true
    every_item (and_expr e es) = every e && every_item es

    pub every_step : RangeStep → Bool
    every_step no_step = true
    every_step (step e) = every e

    pub every_part : Parts → Bool
    every_part no_parts = true
    every_part (and_part q ps) = every_in_part q && every_part ps

    pub every_in_part : StringPart → Bool
    every_in_part (literal l) = true
    every_in_part (interpolation e) = every e

    pub every_field : Fields → Bool
    every_field no_fields = true
    every_field (and_field f fs) = every_in_field f && every_field fs

    pub every_in_field : Field → Bool
    every_in_field (field key value s) = p s && (every_in_key key && every value)

    pub every_in_key : FieldKey → Bool
    every_in_key (named q n) = true
    every_in_key (quoted t) = true
    every_in_key (pattern_key e) = every e
    every_in_key (path_key q) = p q.span

  module _ (s : Span) (h : p s ≡ true) where
    every_relation-set : (rs : List Relation) → every_relation (set_relations s rs) ≡ true
    unfolding every_relation set_relations
    every_relation-set [] = refl
    every_relation-set (r ∷ rs) = rw (h, every_relation-set rs)

    mutual
      unfolding every set_spans set_path

      spans_set : (e : Expr) → every (set_spans s e) ≡ true
      spans_set (node k _) = rw (h, kind_set k)

      kind_set : (k : ExprKind) → every_kind (set_kind s k) ≡ true
      kind_set (atom a) = refl
      kind_set (path q) = h
      kind_set (binary op a b) = rw (spans_set a, spans_set b)
      kind_set (morphism a b) = rw (spans_set a, spans_set b)
      kind_set (combo fs rs c) = rw (fields_set fs, every_relation-set rs)
      kind_set (complement e) = spans_set e
      kind_set (ternary a b c) = rw (spans_set a, spans_set b, spans_set c)
      kind_set (unary op e) = spans_set e
      kind_set (list es) = items_set es
      kind_set (tuple es) = items_set es
      kind_set (poset rs) = every_relation-set rs
      kind_set (anon_set e) = spans_set e
      kind_set (interpolated ps) = parts_set ps
      kind_set (range a b c) = rw (spans_set a, spans_set b, step_set c)
      kind_set context = refl
      kind_set (spread e) = spans_set e
      kind_set (structural e) = spans_set e

      items_set : (es : Exprs) → every_item (set_items s es) ≡ true
      items_set no_exprs = refl
      items_set (and_expr e es) = rw (spans_set e, items_set es)

      step_set : (c : RangeStep) → every_step (set_step s c) ≡ true
      step_set no_step = refl
      step_set (step e) = spans_set e

      parts_set : (ps : Parts) → every_part (set_parts s ps) ≡ true
      parts_set no_parts = refl
      parts_set (and_part q ps) = rw (part_set q, parts_set ps)

      part_set : (q : StringPart) → every_in_part (set_part s q) ≡ true
      part_set (literal l) = refl
      part_set (interpolation e) = spans_set e

      fields_set : (fs : Fields) → every_field (set_fields s fs) ≡ true
      fields_set no_fields = refl
      fields_set (and_field f fs) = rw (field_set f, fields_set fs)

      field_set : (f : Field) → every_in_field (set_field s f) ≡ true
      field_set (field key value _) = rw (h, key_set key, spans_set value)

      key_set : (key : FieldKey) → every_in_key (set_key s key) ≡ true
      key_set (named q n) = refl
      key_set (quoted t) = refl
      key_set (pattern_key e) = spans_set e
      key_set (path_key q) = h

    pub every-set_spans : (e : Expr) → every (set_spans s e) ≡ true
    every-set_spans e = spans_set e

-- After the marking pass every span of the tree is the sentinel that storage leaves out: those
-- of expressions, fields, paths, path keys and relations alike.
pub every-mark_spans_unknown : (e : Expr) → every is_unknown (mark_spans_unknown e) ≡ true
unfolding mark_spans_unknown is_unknown
every-mark_spans_unknown e = every-set_spans is_unknown unknown refl e
