-- ===== src/Parser/Tier/Positions.antt =====
-- A tier does not depend on where the text stood.
use nlang_tools.Prelude.{
  String, ◌≡◌, refl, Bool, true, false, Option, none, some, inl, inr, arith, Bool-cases,
}
use nlang_tools.Parser.Ast.{
  Span, BinaryOp, Expr, ExprKind, Exprs, RangeStep, Parts, StringPart, Fields, Field, FieldKey,
  node, atom, path, binary, morphism, combo, complement, ternary, unary, list, tuple, poset,
  anon_set, interpolated, range, context, spread, structural, no_exprs, and_expr, no_step, step,
  no_parts, and_part, literal, interpolation, no_fields, and_field, field, named, quoted,
  pattern_key, path_key,
}
use nlang_tools.Parser.Spans.{
  set_spans, set_kind, set_items, set_step, set_parts, set_part, set_fields, set_field, set_key,
  mark_spans_unknown, strip_spans,
}
use nlang_tools.Parser.Tier.{
  has_free_dollar_inner, has_free_kind, has_free_parts, has_free_part, has_free_items,
  has_free_step, has_free_fields, has_free_dollar_field, has_free_key, has_free_dollar, Offence,
  binary_offence, offence_or, or_else, first_non_whitelist, first_in_kind, first_in_items,
  first_in_fields, first_non_whitelist_field, first_in_key, demotion, classify_tier,
}

module _ (s : Span) where
  mutual
    unfolding has_free_dollar_inner set_spans

    free_expr :
        (e : Expr) (f : Bool) → has_free_dollar_inner (set_spans s e) f ≡ has_free_dollar_inner e f
    free_expr (node k _) f = free_kind k f

    free_kind : (k : ExprKind) (f : Bool) → has_free_kind (set_kind s k) f ≡ has_free_kind k f
    free_kind context f = refl
    free_kind (binary BinaryOp.pipe a b) f = free_expr a f
    free_kind (binary _ a b) f = rw (free_expr a f, free_expr b f)
    free_kind (morphism param body) f = free_expr param f
    free_kind (interpolated parts) f = free_parts parts
    free_kind (combo fields rs c) f = free_fields fields f
    free_kind (ternary a b c) f = rw (free_expr a f, free_expr b f, free_expr c f)
    free_kind (unary op e) f = free_expr e f
    free_kind (anon_set e) f = free_expr e f
    free_kind (spread e) f = free_expr e f
    free_kind (structural e) f = free_expr e f
    free_kind (complement e) f = free_expr e f
    free_kind (list items) f = free_items items f
    free_kind (tuple items) f = free_items items f
    free_kind (range a b c) f = rw (free_expr a f, free_expr b f, free_step c f)
    free_kind (path p) f = refl
    free_kind (atom a) f = refl
    free_kind (poset rs) f = refl

    free_parts : (ps : Parts) → has_free_parts (set_parts s ps) ≡ has_free_parts ps
    free_parts no_parts = refl
    free_parts (and_part p ps) = rw (free_part p, free_parts ps)

    free_part : (p : StringPart) → has_free_part (set_part s p) ≡ has_free_part p
    free_part (literal l) = refl
    free_part (interpolation e) = free_expr e true

    free_items : (es : Exprs) (f : Bool) → has_free_items (set_items s es) f ≡ has_free_items es f
    free_items no_exprs f = refl
    free_items (and_expr e es) f = rw (free_expr e f, free_items es f)

    free_step : (c : RangeStep) (f : Bool) → has_free_step (set_step s c) f ≡ has_free_step c f
    free_step no_step f = refl
    free_step (step e) f = free_expr e f

    free_fields :
        (fs : Fields) (f : Bool) → has_free_fields (set_fields s fs) f ≡ has_free_fields fs f
    free_fields no_fields f = refl
    free_fields (and_field x xs) f = rw (free_field x f, free_fields xs f)

    free_field :
        (x : Field) (f : Bool) → has_free_dollar_field (set_field s x) f ≡ has_free_dollar_field x f
    free_field (field key value _) f = rw (free_key key f, free_expr value f)

    free_key : (key : FieldKey) (f : Bool) → has_free_key (set_key s key) f ≡ has_free_key key f
    free_key (pattern_key e) f = free_expr e f
    free_key (named p n) f = refl
    free_key (quoted t) f = refl
    free_key (path_key p) f = refl

  abbrev found : Option Offence → Bool
  found none = false
  found (some _) = true

  found-or_else :
      (x y x' y' : Option Offence)
      → found x ≡ found x'
      → found y ≡ found y'
      → found (or_else x y) ≡ found (or_else x' y')
  found-or_else x y x' y' p q = ground arith

  found-offence_or :
      (o : Option String) (t : Span) (x x' : Option Offence)
      → found x ≡ found x'
      → found (offence_or o s x) ≡ found (offence_or o t x')
  found-offence_or o t x x' p = ground arith

  mutual
    unfolding first_non_whitelist set_spans

    found_expr :
        (e : Expr) → found (first_non_whitelist (set_spans s e)) ≡ found (first_non_whitelist e)
    found_expr (node k t) = found_kind k t

    found_kind :
        (k : ExprKind) (t : Span)
        → found (first_in_kind (set_kind s k) s) ≡ found (first_in_kind k t)
    found_kind context t = refl
    found_kind (path _) t = refl
    found_kind (atom _) t = refl
    found_kind (combo fields _ _) t = found_fields fields
    found_kind (list items) t = found_items items
    found_kind (tuple items) t = found_items items
    found_kind (spread e) t = found_expr e
    found_kind (binary op a b) t =
        found-offence_or (binary_offence op) t _ _
          (found-or_else _ _ _ _ (found_expr a) (found_expr b))
    found_kind (morphism _ _) t = refl
    found_kind (ternary _ _ _) t = refl
    found_kind (complement _) t = refl
    found_kind (unary op _) t = refl
    found_kind (interpolated _) t = refl
    found_kind (anon_set _) t = refl
    found_kind (range _ _ _) t = refl
    found_kind (structural _) t = refl
    found_kind (poset _) t = refl

    found_items : (es : Exprs) → found (first_in_items (set_items s es)) ≡ found (first_in_items es)
    found_items no_exprs = refl
    found_items (and_expr e es) = found-or_else _ _ _ _ (found_expr e) (found_items es)

    found_fields :
        (fs : Fields) → found (first_in_fields (set_fields s fs)) ≡ found (first_in_fields fs)
    found_fields no_fields = refl
    found_fields (and_field f fs) = found-or_else _ _ _ _ (found_field f) (found_fields fs)

    found_field :
        (f : Field)
        → found (first_non_whitelist_field (set_field s f)) ≡ found (first_non_whitelist_field f)
    found_field (field key value _) = found-or_else _ _ _ _ (found_key key) (found_expr value)

    found_key : (key : FieldKey) → found (first_in_key (set_key s key)) ≡ found (first_in_key key)
    found_key (pattern_key e) = found_expr e
    found_key (named _ _) = refl
    found_key (quoted _) = refl
    found_key (path_key _) = refl

  tier-demotion : (x y : Option Offence) → found x ≡ found y → (demotion x).0 ≡ (demotion y).0
  tier-demotion none none p = refl
  tier-demotion none (some y) p = cc
  tier-demotion (some x) none p = cc
  tier-demotion (some x) (some y) p = refl

  pub tier-set_spans : (e : Expr) → (classify_tier (set_spans s e)).0 ≡ (classify_tier e).0
  unfolding classify_tier has_free_dollar
  tier-set_spans e = elim (Bool-cases (has_free_dollar_inner e false)) [
    | inl h ↦ rw (free_expr e false, h) (tier-demotion _ _ (found_expr e))
    | inr h ↦ rw (free_expr e false, h)
  ]

-- An expression keeps its tier when its positions are stripped, and when they are marked absent
-- for storage: what was stored and loaded is memoised as what was parsed.
pub tier-strip_mark :
    (e : Expr)
    → ((classify_tier (strip_spans e)).0 ≡ (classify_tier e).0)
      × ((classify_tier (mark_spans_unknown e)).0 ≡ (classify_tier e).0)
unfolding strip_spans mark_spans_unknown
tier-strip_mark e = (tier-set_spans _ e, tier-set_spans _ e)
