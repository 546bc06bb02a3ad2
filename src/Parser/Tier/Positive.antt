-- ===== src/Parser/Tier/Positive.antt =====
-- crates/parser/src/tier.rs: the tier, by the constructs that stand anywhere in an expression.
use nlang_tools.Prelude.{
  String, ◌≡◌, ◌⊎◌, refl, sym, ap, ap₂, ◌∙◌, Option, none, some, Bool, true, false, List, [], ◌∷◌,
  ◌++◌, if◌then◌else◌, All, inl, inr, arith, Bool-cases, format, decimal,
}
use nlang_tools.Parser.Ast.{
  Span, BinaryOp, UnaryOp, Expr, ExprKind, Exprs, RangeStep, Parts, StringPart, Fields, Field,
  FieldKey, node, atom, path, binary, morphism, combo, complement, ternary, unary, list, tuple,
  poset, anon_set, interpolated, range, context, spread, structural, no_exprs, and_expr, no_step,
  step, no_parts, and_part, literal, interpolation, no_fields, and_field, field, named, quoted,
  pattern_key, path_key, kind, span_of,
}
use nlang_tools.Parser.Tier.Form.{Tier, in_c, in_m, in_q}
use nlang_tools.Parser.Tier.{
  has_free_dollar, Offence, at_span, binary_offence, unary_offence, offence_or, or_else,
  first_non_whitelist, first_in_kind, first_in_items, first_in_fields, first_non_whitelist_field,
  first_in_key, classify_tier,
}
use nlang_tools.Parser.Tier.Scope.{IsFree, has_free_dollar-IsFree}

-- All expressions that stand in an expression, itself included, in the order of the source.
unfoldable mutual
  pub within : Expr → List Expr
  within (node k s) = node k s ∷ within_kind k

  pub within_kind : ExprKind → List Expr
  within_kind (binary op a b) = within a ++ within b
  within_kind (morphism param body) = within param ++ within body
  within_kind (combo fields rs closed) = within_fields fields
  within_kind (complement e) = within e
  within_kind (ternary a b c) = within a ++ (within b ++ within c)
  within_kind (unary op e) = within e
  within_kind (list items) = within_items items
  within_kind (tuple items) = within_items items
  within_kind (anon_set e) = within e
  within_kind (interpolated parts) = within_parts parts
  within_kind (range a b c) = within a ++ (within b ++ within_step c)
  within_kind (spread e) = within e
  within_kind (structural e) = within e
  within_kind context = []
  within_kind (atom a) = []
  within_kind (path p) = []
  within_kind (poset rs) = []

  pub within_items : Exprs → List Expr
  within_items no_exprs = []
  within_items (and_expr e es) = within e ++ within_items es

  pub within_step : RangeStep → List Expr
  within_step no_step = []
  within_step (step e) = within e

  pub within_parts : Parts → List Expr
  within_parts no_parts = []
  within_parts (and_part p ps) = within_part p ++ within_parts ps

  pub within_part : StringPart → List Expr
  within_part (literal l) = []
  within_part (interpolation e) = within e

  pub within_fields : Fields → List Expr
  within_fields no_fields = []
  within_fields (and_field f fs) = within_field f ++ within_fields fs

  pub within_field : Field → List Expr
  within_field (field key value s) = within_key key ++ within value

  pub within_key : FieldKey → List Expr
  within_key (pattern_key e) = within e
  within_key (named p n) = []
  within_key (quoted t) = []
  within_key (path_key p) = []

-- the positive fragment: `$`, paths, lenses, meets, joins, atoms, containers and spreads
abbrev pub is_positive : ExprKind → Bool
is_positive context = true
is_positive (path p) = true
is_positive (atom a) = true
is_positive (combo _ _ _) = true
is_positive (list items) = true
is_positive (tuple items) = true
is_positive (spread e) = true
is_positive (binary BinaryOp.meet a b) = true
is_positive (binary BinaryOp.join a b) = true
is_positive (binary BinaryOp.lens a b) = true
is_positive _ = false

abbrev operator_name : BinaryOp → String
operator_name BinaryOp.apply = "Apply (morphism application)"
operator_name BinaryOp.diff = "Diff `\\` (not in M whitelist: only & and |)"
operator_name BinaryOp.add = "Add `+` (arithmetic)"
operator_name BinaryOp.sub = "Sub `-` (arithmetic)"
operator_name BinaryOp.mul = "Mul `*` (arithmetic)"
operator_name BinaryOp.div = "Div `/` (arithmetic)"
operator_name BinaryOp.rem = "Rem `%` (arithmetic)"
operator_name BinaryOp.eq = "Eq `==` (booleanizing comparison)"
operator_name BinaryOp.ne = "Ne `!=` (booleanizing comparison)"
operator_name BinaryOp.lt = "Lt `<` (booleanizing comparison)"
operator_name BinaryOp.gt = "Gt `>` (booleanizing comparison)"
operator_name BinaryOp.lte = "Lte `<=` (booleanizing comparison)"
operator_name BinaryOp.gte = "Gte `>=` (booleanizing comparison)"
operator_name BinaryOp.lattice_eq = "LatticeEq `=` (lattice-family boolean track)"
operator_name BinaryOp.probe = "Probe `<=>` (direction probe)"
operator_name BinaryOp.type_annotation = "TypeAnnotation `@`"
operator_name BinaryOp.pipe = "Pipe `|>` (nested)"
operator_name _ = ""

abbrev unary_name : UnaryOp → String
unary_name UnaryOp.negation = "Unary `!`"
unary_name UnaryOp.neg = "Unary `-` (arithmetic)"

-- what a construct outside the fragment is called
abbrev pub name_of : ExprKind → String
name_of (binary op a b) = operator_name op
name_of (unary op e) = unary_name op
name_of (morphism param body) = "Morphism literal `->`"
name_of (ternary a b c) = "Ternary `? :`"
name_of (complement e) = "Complement `!` (anti-monotone)"
name_of (interpolated parts) = "Interpolated string (string building — non-monotone)"
name_of (anon_set e) = "AnonSet `@{}`"
name_of (range a b c) = "Range `..`"
name_of (structural e) = "Structural `<<>>`"
name_of (poset rs) = "Poset literal `#{}`"
name_of _ = ""

-- the reason that an expression outside the fragment gives
abbrev pub reason : Expr → String
reason (node k s) = format (name_of k ∷ " at span " ∷ decimal s.start ∷ ".." ∷ decimal s.end ∷ [])

-- the first expression of a list outside the fragment
abbrev pub Outside : List Expr → Expr → Type 0
Outside es d =
    (before after : List Expr) × (es ≡ before ++ (d ∷ after))
    × All (λ e. is_positive (kind e) ≡ true) before
    × (is_positive (kind d) ≡ false)

-- the tier of an expression with its reason
pub data Tiered (e : Expr) : Tier × Option String → Type 0 where
  closed_tier : ¬ IsFree e → Tiered e (in_c, none)
  positive_tier :
      IsFree e → All (λ d. is_positive (kind d) ≡ true) (within e) → Tiered e (in_m, none)
  full_tier : (d : Expr) → IsFree e → Outside (within e) d → Tiered e (in_q, some (reason d))

unfoldable first_outside : List Expr → Option Offence
first_outside [] = none
first_outside (node k s ∷ es) = if is_positive k then first_outside es else at_span (name_of k) s

first_outside-append :
    (xs ys : List Expr) → first_outside (xs ++ ys) ≡ or_else (first_outside xs) (first_outside ys)
unfolding first_outside
first_outside-append [] ys = refl
first_outside-append (node k s ∷ xs) ys = elim (Bool-cases (is_positive k)) [
  | inl positive ↦ rw positive (first_outside-append xs ys)
  | inr outside ↦ rw outside refl
]

both :
    (x y : Option Offence) (xs ys : List Expr)
    → x ≡ first_outside xs
    → y ≡ first_outside ys
    → or_else x y ≡ first_outside (xs ++ ys)
both x y xs ys p q = ap₂ or_else p q ∙ sym (first_outside-append xs ys)

first_binary :
    (op : BinaryOp) (a b : Expr) (s : Span) (x : Option Offence)
    → x ≡ first_outside (within a ++ within b)
    → offence_or (binary_offence op) s x ≡ first_outside (within (node (binary op a b) s))
unfolding binary_offence first_outside within
first_binary BinaryOp.meet a b s x p = p
first_binary BinaryOp.join a b s x p = p
first_binary BinaryOp.lens a b s x p = p
first_binary _ a b s x p = refl

mutual
  unfolding first_non_whitelist first_outside within unary_offence

  first_expr : (e : Expr) → first_non_whitelist e ≡ first_outside (within e)
  first_expr (node k s) = first_kind k s

  first_kind : (k : ExprKind) (s : Span) → first_in_kind k s ≡ first_outside (within (node k s))
  first_kind context s = refl
  first_kind (path _) s = refl
  first_kind (atom _) s = refl
  first_kind (combo fields _ _) s = first_fields fields
  first_kind (list items) s = first_items items
  first_kind (tuple items) s = first_items items
  first_kind (spread e) s = first_expr e
  first_kind (binary op a b) s =
      first_binary op a b s _ (both _ _ (within a) (within b) (first_expr a) (first_expr b))
  first_kind (morphism _ _) s = refl
  first_kind (ternary _ _ _) s = refl
  first_kind (complement _) s = refl
  first_kind (unary UnaryOp.negation _) s = refl
  first_kind (unary UnaryOp.neg _) s = refl
  first_kind (interpolated _) s = refl
  first_kind (anon_set _) s = refl
  first_kind (range _ _ _) s = refl
  first_kind (structural _) s = refl
  first_kind (poset _) s = refl

  first_items : (es : Exprs) → first_in_items es ≡ first_outside (within_items es)
  first_items no_exprs = refl
  first_items (and_expr e es) =
      both _ _ (within e) (within_items es) (first_expr e) (first_items es)

  first_fields : (fs : Fields) → first_in_fields fs ≡ first_outside (within_fields fs)
  first_fields no_fields = refl
  first_fields (and_field f fs) =
      both _ _ (within_field f) (within_fields fs) (first_field f) (first_fields fs)

  first_field : (f : Field) → first_non_whitelist_field f ≡ first_outside (within_field f)
  first_field (field key value _) =
      both _ _ (within_key key) (within value) (first_key key) (first_expr value)

  first_key : (key : FieldKey) → first_in_key key ≡ first_outside (within_key key)
  first_key (pattern_key e) = first_expr e
  first_key (named _ _) = refl
  first_key (quoted _) = refl
  first_key (path_key _) = refl

-- what the search for the first one leads to
abbrev Searched : List Expr → Type 0
Searched es =
    ((first_outside es ≡ none) × All (λ d. is_positive (kind d) ≡ true) es)
    ⊎ ((d : Expr) × (first_outside es ≡ at_span (name_of (kind d)) (span_of d)) × Outside es d)

first_outside-Searched : (es : List Expr) → Searched es
unfolding first_outside
first_outside-Searched [] = inl (refl, tt)
first_outside-Searched (node k s ∷ es) = elim (Bool-cases (is_positive k)) [
  | inr outside ↦ inr (node k s, rw outside refl, ([], es, refl, tt, outside))
  | inl positive ↦ elim (first_outside-Searched es) [
    | inl (gone, all) ↦ inl (rw positive gone, (positive, all))
    | inr (d, found, (before, after, parts, all, outside)) ↦ inr (
      d,
      rw positive found,
      (node k s ∷ before, after, ap (λ xs. node k s ∷ xs) parts, (positive, all), outside),
    )
  ]
]

-- The tier is C exactly without a free `$`, and then there is no reason. With one it is M if every
-- expression that stands in it is in the positive fragment, without a reason either, and else it is
-- Q, and the reason names the first one outside the fragment, in the order of the source, and its
-- place.
pub classify_tier-Tiered : (e : Expr) → Tiered e (classify_tier e)
unfolding classify_tier
classify_tier-Tiered e = elim (Bool-cases (has_free_dollar e)) [
  | inr closed ↦
      rw closed
        (closed_tier (λ free. absurd (ground (arith, closed, (has_free_dollar-IsFree e).1 free))))
  | inl open_dollar ↦
      let free = (has_free_dollar-IsFree e).0 open_dollar in
      elim (first_outside-Searched (within e)) [
        | inl (gone, all) ↦ rw open_dollar rw (first_expr e ∙ gone) (positive_tier free all)
        | inr (node k s, found, outside) ↦
            rw open_dollar rw (first_expr e ∙ found) (full_tier (node k s) free outside)
      ]
]
