-- ===== src/Nlint/Repeated/Walk/Everywhere.antt =====
-- crates/oo/src/nlint.rs: the rule R6 is asked of every container literal, and of nothing else.
use nlang_tools.Prelude.{String, Bool, List, [], ◌∷◌, ◌++◌, ◌≡◌, refl, ◌↔◌, ◌⊎◌, inl, inr, subst}
use nlang_tools.Parser.Ast.{
  AstPath, Expr, ExprKind, Exprs, RangeStep, Parts, StringPart, Fields, Field, FieldKey, Program,
  node, atom, path, binary, morphism, combo, complement, ternary, unary, list, tuple, poset,
  anon_set, interpolated, range, context, spread, structural, no_exprs, and_expr, no_step, step,
  no_parts, and_part, literal, interpolation, no_fields, and_field, field, named, quoted,
  pattern_key, path_key,
}
use nlang_tools.Nlint.Repeated.{Diagnostic, check_r6_combo_fields}
use nlang_tools.Nlint.Repeated.Walk.{
  walk_r6_expr, walk_r6_kind, walk_r6_items, walk_r6_step, walk_r6_parts, walk_r6_part,
  walk_r6_fields, walk_r6_field, walk_r6_key, walk_r6_collision,
}
use nlang_tools.Nlint.Repeated.Walk.Containers.{
  Holds, HoldsKind, HoldsItems, HoldsStep, HoldsParts, HoldsPart, HoldsFields, HoldsField, HoldsKey,
}

-- the report is one of the list
pub data Reported (d : Diagnostic) : List Diagnostic → Type 0 where
  first : (ds : List Diagnostic) → Reported d (d ∷ ds)
  later : (x : Diagnostic) (ds : List Diagnostic) → Reported d ds → Reported d (x ∷ ds)

Reported-append :
    (d : Diagnostic) (xs ys : List Diagnostic)
    → Reported d (xs ++ ys)
    → Reported d xs ⊎ Reported d ys
Reported-append d [] ys r = inr r
Reported-append d (x ∷ xs) ys (first _) = inl (first xs)
Reported-append d (x ∷ xs) ys (later _ _ r) = elim (Reported-append d xs ys r) [
  | inl l ↦ inl (later x xs l)
  | inr r' ↦ inr r'
]

Reported-front : (d : Diagnostic) (xs ys : List Diagnostic) → Reported d xs → Reported d (xs ++ ys)
Reported-front d [] ys r = elim r [ ]
Reported-front d (x ∷ xs) ys (first _) = first (xs ++ ys)
Reported-front d (x ∷ xs) ys (later _ _ r) = later x (xs ++ ys) (Reported-front d xs ys r)

Reported-back : (d : Diagnostic) (xs ys : List Diagnostic) → Reported d ys → Reported d (xs ++ ys)
Reported-back d [] ys r = r
Reported-back d (x ∷ xs) ys r = later x (xs ++ ys) (Reported-back d xs ys r)

module _ (canonical : FieldKey → String) (to_key : AstPath → String) (merges : String → Bool)
    (file : String) (d : Diagnostic) where
  -- the report is that of one of the containers
  abbrev pub ComesFrom : (Fields → Type 0) → Type 0
  ComesFrom P =
      (c : Fields) × P c × Reported d (check_r6_combo_fields canonical to_key merges file c)

  -- what is reported comes from one of the containers
  abbrev Exact : List Diagnostic → (Fields → Type 0) → Type 0
  Exact ds P = Reported d ds ↔ ComesFrom P

  Exact-append :
      (xs ys : List Diagnostic) (P Q : Fields → Type 0)
      → Exact xs P
      → Exact ys Q
      → Exact (xs ++ ys) (λ c. P c ⊎ Q c)
  Exact-append xs ys P Q ex ey = (
    λ r. elim (Reported-append d xs ys r) [
      | inl l ↦ let (c, holds, at) = ex.0 l in (c, inl holds, at)
      | inr l ↦ let (c, holds, at) = ey.0 l in (c, inr holds, at)
    ],
    λ (c, either, at). elim either [
      | inl holds ↦ Reported-front d xs ys (ex.1 (c, holds, at))
      | inr holds ↦ Reported-back d xs ys (ey.1 (c, holds, at))
    ],
  )

  Exact-nothing : Exact [] (λ c. ⊥)
  Exact-nothing = (λ r. elim r [ ], λ (c, none, at). absurd none)

  Exact-itself :
      (fields : Fields)
      → Exact (check_r6_combo_fields canonical to_key merges file fields) (λ c. c ≡ fields)
  Exact-itself fields = (
    λ r. (fields, refl, r),
    λ (c, same, at).
        subst (λ c'. Reported d (check_r6_combo_fields canonical to_key merges file c')) same at,
  )

  mutual
    unfolding walk_r6_expr Holds

    pub expr_exact :
        (e : Expr) → Exact (walk_r6_expr canonical to_key merges file e) (λ c. Holds c e)
    expr_exact (node k s) = kind_exact k

    kind_exact :
        (k : ExprKind) → Exact (walk_r6_kind canonical to_key merges file k) (λ c. HoldsKind c k)
    kind_exact (combo fields rs closed) =
        Exact-append (check_r6_combo_fields canonical to_key merges file fields)
          (walk_r6_fields canonical to_key merges file fields) (λ c. c ≡ fields)
          (λ c. HoldsFields c fields) (Exact-itself fields) (fields_exact fields)
    kind_exact (morphism a b) =
        Exact-append (walk_r6_expr canonical to_key merges file a)
          (walk_r6_expr canonical to_key merges file b) (λ c. Holds c a) (λ c. Holds c b)
          (expr_exact a) (expr_exact b)
    kind_exact (binary op a b) =
        Exact-append (walk_r6_expr canonical to_key merges file a)
          (walk_r6_expr canonical to_key merges file b) (λ c. Holds c a) (λ c. Holds c b)
          (expr_exact a) (expr_exact b)
    kind_exact (ternary a b e) =
        Exact-append (walk_r6_expr canonical to_key merges file a)
          (walk_r6_expr canonical to_key merges file b
            ++ walk_r6_expr canonical to_key merges file e)
          (λ x. Holds x a) (λ x. Holds x b ⊎ Holds x e) (expr_exact a)
          (Exact-append (walk_r6_expr canonical to_key merges file b)
            (walk_r6_expr canonical to_key merges file e) (λ c. Holds c b) (λ c. Holds c e)
            (expr_exact b) (expr_exact e))
    kind_exact (list es) = items_exact es
    kind_exact (tuple es) = items_exact es
    kind_exact (unary op e) = expr_exact e
    kind_exact (complement e) = expr_exact e
    kind_exact (spread e) = expr_exact e
    kind_exact (structural e) = expr_exact e
    kind_exact (anon_set e) = expr_exact e
    kind_exact (range a b e) =
        Exact-append (walk_r6_expr canonical to_key merges file a)
          (walk_r6_expr canonical to_key merges file b
            ++ walk_r6_step canonical to_key merges file e)
          (λ x. Holds x a) (λ x. Holds x b ⊎ HoldsStep x e) (expr_exact a)
          (Exact-append (walk_r6_expr canonical to_key merges file b)
            (walk_r6_step canonical to_key merges file e) (λ c. Holds c b) (λ c. HoldsStep c e)
            (expr_exact b) (step_exact e))
    kind_exact (interpolated ps) = parts_exact ps
    kind_exact (atom a) = Exact-nothing
    kind_exact (path p) = Exact-nothing
    kind_exact (poset rs) = Exact-nothing
    kind_exact context = Exact-nothing

    items_exact :
        (es : Exprs) → Exact (walk_r6_items canonical to_key merges file es) (λ c. HoldsItems c es)
    items_exact no_exprs = Exact-nothing
    items_exact (and_expr e es) =
        Exact-append (walk_r6_expr canonical to_key merges file e)
          (walk_r6_items canonical to_key merges file es) (λ c. Holds c e) (λ c. HoldsItems c es)
          (expr_exact e) (items_exact es)

    step_exact :
        (e : RangeStep) → Exact (walk_r6_step canonical to_key merges file e) (λ c. HoldsStep c e)
    step_exact no_step = Exact-nothing
    step_exact (step e) = expr_exact e

    parts_exact :
        (ps : Parts) → Exact (walk_r6_parts canonical to_key merges file ps) (λ c. HoldsParts c ps)
    parts_exact no_parts = Exact-nothing
    parts_exact (and_part q ps) =
        Exact-append (walk_r6_part canonical to_key merges file q)
          (walk_r6_parts canonical to_key merges file ps) (λ c. HoldsPart c q)
          (λ c. HoldsParts c ps) (part_exact q) (parts_exact ps)

    part_exact :
        (q : StringPart) → Exact (walk_r6_part canonical to_key merges file q) (λ c. HoldsPart c q)
    part_exact (literal l) = Exact-nothing
    part_exact (interpolation e) = expr_exact e

    fields_exact :
        (fs : Fields)
        → Exact (walk_r6_fields canonical to_key merges file fs) (λ c. HoldsFields c fs)
    fields_exact no_fields = Exact-nothing
    fields_exact (and_field f fs) =
        Exact-append (walk_r6_field canonical to_key merges file f)
          (walk_r6_fields canonical to_key merges file fs) (λ c. HoldsField c f)
          (λ c. HoldsFields c fs) (field_exact f) (fields_exact fs)

    field_exact :
        (f : Field) → Exact (walk_r6_field canonical to_key merges file f) (λ c. HoldsField c f)
    field_exact (field key value s) =
        Exact-append (walk_r6_expr canonical to_key merges file value)
          (walk_r6_key canonical to_key merges file key) (λ c. Holds c value) (λ c. HoldsKey c key)
          (expr_exact value) (key_exact key)

    key_exact :
        (k : FieldKey) → Exact (walk_r6_key canonical to_key merges file k) (λ c. HoldsKey c k)
    key_exact (pattern_key e) = expr_exact e
    key_exact (named p name) = Exact-nothing
    key_exact (quoted s) = Exact-nothing
    key_exact (path_key p) = Exact-nothing

  -- A report of the rule over a program is one that it makes of the fields of a container literal
  -- that stands in a field of the program, at any depth, and all of these reports are made.
  pub walk_r6_collision-ComesFrom :
      (program : Program)
      → Reported d (walk_r6_collision canonical to_key merges file program)
        ↔ ComesFrom (λ c. HoldsFields c program.fields)
  unfolding walk_r6_collision
  walk_r6_collision-ComesFrom program = fields_exact program.fields
