-- ===== src/Parser/Tier/Scope.antt =====
-- crates/parser/src/tier.rs: which `$` are free, by the parts of an expression that keep the
-- binding of `$`: all but a nested pipe's right side and the body of a morphism.
use nlang_tools.Prelude.{
  ◌≡◌, ◌↔◌, inl, inr, refl, sym, ◌∙◌, Bool, true, false, ◌||◌, List, [], ◌∷◌, ◌++◌, arith,
  Bool-cases, In, first, later, All,
}
use nlang_tools.Parser.Ast.{
  Span, BinaryOp, Expr, ExprKind, Exprs, RangeStep, Parts, Fields, FieldKey, node, atom, path,
  binary, morphism, combo, complement, ternary, unary, list, tuple, poset, anon_set, interpolated,
  range, context, spread, structural, no_exprs, and_expr, no_step, step, no_parts, and_part,
  literal, interpolation, no_fields, and_field, field, named, quoted, pattern_key, path_key,
}
use nlang_tools.Parser.Tier.{
  has_free_dollar_inner, has_free_kind, has_free_parts, has_free_items, has_free_fields,
  has_free_dollar,
}
use nlang_tools.Parser.Tier.Dollar.{has_free_dollar_inner-flag}

-- the expressions in a list, in a text, in the fields of a container
abbrev pub exprs_in : Exprs → List Expr
exprs_in no_exprs = []
exprs_in (and_expr e es) = e ∷ exprs_in es

abbrev pub texts_in : Parts → List Expr
texts_in no_parts = []
texts_in (and_part (literal l) ps) = texts_in ps
texts_in (and_part (interpolation e) ps) = e ∷ texts_in ps

abbrev pub step_in : RangeStep → List Expr
step_in no_step = []
step_in (step e) = e ∷ []

abbrev pub key_in : FieldKey → List Expr
key_in (pattern_key e) = e ∷ []
key_in (named p n) = []
key_in (quoted t) = []
key_in (path_key p) = []

abbrev pub fields_in : Fields → List Expr
fields_in no_fields = []
fields_in (and_field (field key value s) fs) = key_in key ++ (value ∷ fields_in fs)

-- the expressions that an expression is made of
abbrev pub children : ExprKind → List Expr
children (binary op a b) = a ∷ b ∷ []
children (morphism param body) = param ∷ body ∷ []
children (combo fields rs closed) = fields_in fields
children (complement e) = e ∷ []
children (ternary a b c) = a ∷ b ∷ c ∷ []
children (unary op e) = e ∷ []
children (list es) = exprs_in es
children (tuple es) = exprs_in es
children (anon_set e) = e ∷ []
children (interpolated parts) = texts_in parts
children (range a b c) = a ∷ b ∷ step_in c
children (spread e) = e ∷ []
children (structural e) = e ∷ []
children context = []
children (atom a) = []
children (path p) = []
children (poset rs) = []

-- those in which `$` is what it is outside
abbrev pub in_scope : ExprKind → List Expr
in_scope (binary BinaryOp.pipe lhs rhs) = lhs ∷ []
in_scope (morphism param body) = param ∷ []
in_scope k = children k

-- `$` stands in the expression, not behind a boundary where it is bound anew
pub data IsFree : Expr → Type 0 where
  dollar : {s : Span} → IsFree (node context s)
  inside : {k : ExprKind} {s : Span} {e : Expr} → In e (in_scope k) → IsFree e → IsFree (node k s)

abbrev is_dollar : ExprKind → Bool
is_dollar context = true
is_dollar _ = false

unfoldable any_free : List Expr → Bool
any_free [] = false
any_free (e ∷ es) = has_free_dollar_inner e false || any_free es

any_free-append : (xs ys : List Expr) → any_free (xs ++ ys) ≡ (any_free xs || any_free ys)
unfolding any_free
any_free-append [] ys = refl
any_free-append (x ∷ xs) ys = ground (arith, any_free-append xs ys)

any_free-exprs : (es : Exprs) → has_free_items es false ≡ any_free (exprs_in es)
unfolding has_free_dollar_inner any_free
any_free-exprs no_exprs = refl
any_free-exprs (and_expr e es) = ground (arith, any_free-exprs es)

any_free-texts : (ps : Parts) → has_free_parts ps ≡ any_free (texts_in ps)
unfolding has_free_dollar_inner any_free
any_free-texts no_parts = refl
any_free-texts (and_part (literal l) ps) = any_free-texts ps
any_free-texts (and_part (interpolation e) ps) =
    ground (arith, any_free-texts ps, has_free_dollar_inner-flag e true false)

any_free-fields : (fs : Fields) → has_free_fields fs false ≡ any_free (fields_in fs)
unfolding has_free_dollar_inner any_free
any_free-fields no_fields = refl
any_free-fields (and_field (field (pattern_key e) value s) fs) = ground (arith, any_free-fields fs)
any_free-fields (and_field (field (named p n) value s) fs) = ground (arith, any_free-fields fs)
any_free-fields (and_field (field (quoted t) value s) fs) = ground (arith, any_free-fields fs)
any_free-fields (and_field (field (path_key p) value s) fs) = ground (arith, any_free-fields fs)

scope_kind : (k : ExprKind) → has_free_kind k false ≡ (is_dollar k || any_free (in_scope k))
unfolding has_free_dollar_inner any_free
scope_kind context = refl
scope_kind (binary BinaryOp.pipe a b) = ground arith
scope_kind (binary _ a b) = ground arith
scope_kind (morphism param body) = ground arith
scope_kind (interpolated parts) = any_free-texts parts
scope_kind (combo fields rs c) = any_free-fields fields
scope_kind (ternary a b c) = ground arith
scope_kind (unary op e) = ground arith
scope_kind (anon_set e) = ground arith
scope_kind (spread e) = ground arith
scope_kind (structural e) = ground arith
scope_kind (complement e) = ground arith
scope_kind (list items) = any_free-exprs items
scope_kind (tuple items) = any_free-exprs items
scope_kind (range a b no_step) = ground arith
scope_kind (range a b (step c)) = ground arith
scope_kind (path p) = refl
scope_kind (atom a) = refl
scope_kind (poset rs) = refl

any_free-In :
    (es : List Expr) (e : Expr)
    → In e es
    → has_free_dollar_inner e false ≡ true
    → any_free es ≡ true
unfolding any_free
any_free-In [] e there found = elim there [ ]
any_free-In (e ∷ es) d first found = ground (arith, found)
any_free-In (x ∷ es) e (later there) found = ground (arith, any_free-In es e there found)

IsFree-found : (e : Expr) → IsFree e → has_free_dollar_inner e false ≡ true
unfolding has_free_dollar_inner
IsFree-found (node context s) dollar = refl
IsFree-found (node k s) (inside {e = e} there free) =
    ground (arith, scope_kind k, any_free-In (in_scope k) e there (IsFree-found e free))

abbrev Claim : Expr → Type 0
Claim e = has_free_dollar_inner e false ≡ true → IsFree e

any_free-found :
    (es : List Expr) → All Claim es → any_free es ≡ true → (e : Expr) × In e es × IsFree e
unfolding any_free
any_free-found [] claims found = absurd (ground (arith, found))
any_free-found (e ∷ es) claims found = elim (Bool-cases (has_free_dollar_inner e false)) [
  | inl here ↦ (e, first, claims.0 here)
  | inr not_here ↦
      let (d, there, free) = any_free-found es claims.1 (ground (arith, found, not_here)) in
      (d, later there, free)
]

is_dollar-IsFree : (k : ExprKind) (s : Span) → is_dollar k ≡ true → IsFree (node k s)
is_dollar-IsFree context s h = dollar
is_dollar-IsFree _ s h = absurd (ground (arith, h))

only_dollar :
    (k : ExprKind) (s : Span)
    → (is_dollar k || any_free (in_scope k)) ≡ true
    → any_free (in_scope k) ≡ false
    → IsFree (node k s)
only_dollar k s found none_below = is_dollar-IsFree k s (ground (arith, found, none_below))

case_node : (k : ExprKind) (s : Span) → All Claim (in_scope k) → Claim (node k s)
unfolding has_free_dollar_inner
case_node k s claims found = elim (Bool-cases (any_free (in_scope k))) [
  | inl below ↦ let (e, there, free) = any_free-found (in_scope k) claims below in inside there free
  | inr none_below ↦ only_dollar k s (sym (scope_kind k) ∙ found) none_below
]

mutual
  case_expr : (e : Expr) → Claim e
  case_expr (node k s) found = case_node k s (claims_kind k) found

  claims_kind : (k : ExprKind) → All Claim (in_scope k)
  claims_kind context = tt
  claims_kind (binary BinaryOp.pipe a b) = (case_expr a, tt)
  claims_kind (binary _ a b) = (case_expr a, (case_expr b, tt))
  claims_kind (morphism param body) = (case_expr param, tt)
  claims_kind (interpolated parts) = claims_texts parts
  claims_kind (combo fields rs c) = claims_fields fields
  claims_kind (ternary a b c) = (case_expr a, (case_expr b, (case_expr c, tt)))
  claims_kind (unary op e) = (case_expr e, tt)
  claims_kind (anon_set e) = (case_expr e, tt)
  claims_kind (spread e) = (case_expr e, tt)
  claims_kind (structural e) = (case_expr e, tt)
  claims_kind (complement e) = (case_expr e, tt)
  claims_kind (list items) = claims_exprs items
  claims_kind (tuple items) = claims_exprs items
  claims_kind (range a b no_step) = (case_expr a, (case_expr b, tt))
  claims_kind (range a b (step c)) = (case_expr a, (case_expr b, (case_expr c, tt)))
  claims_kind (path p) = tt
  claims_kind (atom a) = tt
  claims_kind (poset rs) = tt

  claims_exprs : (es : Exprs) → All Claim (exprs_in es)
  claims_exprs no_exprs = tt
  claims_exprs (and_expr e es) = (case_expr e, claims_exprs es)

  claims_texts : (ps : Parts) → All Claim (texts_in ps)
  claims_texts no_parts = tt
  claims_texts (and_part (literal l) ps) = claims_texts ps
  claims_texts (and_part (interpolation e) ps) = (case_expr e, claims_texts ps)

  claims_fields : (fs : Fields) → All Claim (fields_in fs)
  claims_fields no_fields = tt
  claims_fields (and_field (field (pattern_key e) value s) fs) =
      (case_expr e, (case_expr value, claims_fields fs))
  claims_fields (and_field (field (named p n) value s) fs) = (case_expr value, claims_fields fs)
  claims_fields (and_field (field (quoted t) value s) fs) = (case_expr value, claims_fields fs)
  claims_fields (and_field (field (path_key p) value s) fs) = (case_expr value, claims_fields fs)

-- The scan finds a `$` exactly if the expression is one, or if one of its parts has a `$` that is
-- free there, where the right side of a pipe and the body of a morphism do not count as parts.
pub has_free_dollar-IsFree : (e : Expr) → (has_free_dollar e ≡ true) ↔ IsFree e
unfolding has_free_dollar
has_free_dollar-IsFree e = (case_expr e, IsFree-found e)
