-- ===== src/Parser/Depth/Weight.antt =====
-- What a round of each loop does to the worklist: the sizes that wait, and the deepest level
-- that waits.
use nlang_tools.Prelude.{ℕ, ◌+◌, ◌≤◌, ◌≡◌, refl, [], ◌∷◌, ◌⊎◌, inl, inr, arith, max}
use nlang_tools.Parser.Ast.{
  ExprKind, Exprs, Parts, Fields, FieldKey, atom, path, binary, morphism, combo, ternary, list,
  tuple, poset, interpolated, range, context, no_exprs, and_expr, no_step, step, no_parts, and_part,
  literal, interpolation, no_fields, and_field, field, named, quoted, pattern_key, path_key,
}
use nlang_tools.Parser.Depth.Size.{
  size, size_kind, size_items, size_parts, size_fields, size_key, depth, depth_kind, depth_items,
  depth_parts, depth_fields, depth_key,
}
use nlang_tools.Parser.Depth.{
  Pending, push_items, push_parts, push_key, push_fields, push_children, Owned, own_items,
  own_parts, own_key, own_fields, own_children,
}

abbrev pub weight : Pending → ℕ
weight [] = 0
weight ((e, _) ∷ pending) = size e + weight pending

abbrev pub weight_owned : Owned → ℕ
weight_owned [] = 0
weight_owned (e ∷ pending) = size e + weight_owned pending

-- the deepest level of the trees that wait, each under the levels above it
abbrev pub deepest : Pending → ℕ
deepest [] = 0
deepest ((e, d) ∷ pending) = max (d + depth e) (deepest pending)

weight-push_items :
    (es : Exprs) (d : ℕ) (p : Pending) → weight (push_items es d p) ≡ size_items es + weight p
unfolding push_items size
weight-push_items no_exprs d p = omega arith
weight-push_items (and_expr e es) d p = omega (arith, weight-push_items es d ((e, d) ∷ p))

weight-push_parts :
    (ps : Parts) (d : ℕ) (p : Pending) → weight (push_parts ps d p) ≡ size_parts ps + weight p
unfolding push_parts size
weight-push_parts no_parts d p = omega arith
weight-push_parts (and_part (literal _) ps) d p = omega (arith, weight-push_parts ps d p)
weight-push_parts (and_part (interpolation e) ps) d p =
    omega (arith, weight-push_parts ps d ((e, d) ∷ p))

weight-push_key :
    (k : FieldKey) (d : ℕ) (p : Pending) → weight (push_key k d p) ≡ size_key k + weight p
unfolding push_key size
weight-push_key (pattern_key e) d p = omega arith
weight-push_key (named _ _) d p = omega arith
weight-push_key (quoted _) d p = omega arith
weight-push_key (path_key _) d p = omega arith

weight-push_fields :
    (fs : Fields) (d : ℕ) (p : Pending) → weight (push_fields fs d p) ≡ size_fields fs + weight p
unfolding push_fields size
weight-push_fields no_fields d p = omega arith
weight-push_fields (and_field (field key value _) fs) d p =
    let p' : Pending = (value, d) ∷ p in
    omega (arith, weight-push_fields fs d (push_key key d p'), weight-push_key key d p')

pub weight-push_children :
    (k : ExprKind) (d : ℕ) (p : Pending) → weight (push_children k d p) ≡ size_kind k + weight p
unfolding push_children size
weight-push_children (binary _ a b) d p = omega arith
weight-push_children (morphism param body) d p = omega arith
weight-push_children (combo fields _ _) d p = weight-push_fields fields d p
weight-push_children (ternary a b c) d p = omega arith
weight-push_children (list items) d p = weight-push_items items d p
weight-push_children (tuple items) d p = weight-push_items items d p
weight-push_children (interpolated parts) d p = weight-push_parts parts d p
weight-push_children (range a b no_step) d p = omega arith
weight-push_children (range a b (step c)) d p = omega arith
weight-push_children _ d p = omega arith

-- Pushing what has `n` levels at the depth `d` brings the deepest level to `d + n`, if `n` is not
-- zero and nothing deeper waited.
abbrev pub Deepens : ℕ → ℕ → ℕ → ℕ → Type 0
Deepens n d before after =
    (before ≤ after) × (after ≤ max (d + n) before) × ((n ≡ 0) ⊎ (d + n ≤ after))

Deepens-push_items :
    (es : Exprs) (d : ℕ) (p : Pending)
    → Deepens (depth_items es) d (deepest p) (deepest (push_items es d p))
unfolding push_items depth
Deepens-push_items no_exprs d p = (omega arith, omega arith, inl refl)
Deepens-push_items (and_expr e es) d p =
    let ih = Deepens-push_items es d ((e, d) ∷ p) in (omega arith, omega arith, inr (omega arith))

Deepens-push_parts :
    (ps : Parts) (d : ℕ) (p : Pending)
    → Deepens (depth_parts ps) d (deepest p) (deepest (push_parts ps d p))
unfolding push_parts depth
Deepens-push_parts no_parts d p = (omega arith, omega arith, inl refl)
Deepens-push_parts (and_part (literal _) ps) d p =
    let ih = Deepens-push_parts ps d p in (omega arith, omega arith, omega arith)
Deepens-push_parts (and_part (interpolation e) ps) d p =
    let ih = Deepens-push_parts ps d ((e, d) ∷ p) in (omega arith, omega arith, inr (omega arith))

Deepens-push_key :
    (k : FieldKey) (d : ℕ) (p : Pending)
    → Deepens (depth_key k) d (deepest p) (deepest (push_key k d p))
unfolding push_key depth
Deepens-push_key (pattern_key e) d p = (omega arith, omega arith, inr (omega arith))
Deepens-push_key (named _ _) d p = (omega arith, omega arith, inl refl)
Deepens-push_key (quoted _) d p = (omega arith, omega arith, inl refl)
Deepens-push_key (path_key _) d p = (omega arith, omega arith, inl refl)

Deepens-push_fields :
    (fs : Fields) (d : ℕ) (p : Pending)
    → Deepens (depth_fields fs) d (deepest p) (deepest (push_fields fs d p))
unfolding push_fields depth
Deepens-push_fields no_fields d p = (omega arith, omega arith, inl refl)
Deepens-push_fields (and_field (field key value _) fs) d p =
    let p' : Pending = (value, d) ∷ p in
    let at_key = Deepens-push_key key d p' in
    let ih = Deepens-push_fields fs d (push_key key d p') in
    (omega arith, omega arith, inr (omega arith))

pub Deepens-push_children :
    (k : ExprKind) (d : ℕ) (p : Pending)
    → Deepens (depth_kind k) d (deepest p) (deepest (push_children k d p))
unfolding push_children depth
Deepens-push_children (binary _ a b) d p = (omega arith, omega arith, inr (omega arith))
Deepens-push_children (morphism a b) d p = (omega arith, omega arith, inr (omega arith))
Deepens-push_children (combo fields _ _) d p = Deepens-push_fields fields d p
Deepens-push_children (ternary a b c) d p = (omega arith, omega arith, inr (omega arith))
Deepens-push_children (list items) d p = Deepens-push_items items d p
Deepens-push_children (tuple items) d p = Deepens-push_items items d p
Deepens-push_children (interpolated parts) d p = Deepens-push_parts parts d p
Deepens-push_children (range a b no_step) d p = (omega arith, omega arith, inr (omega arith))
Deepens-push_children (range a b (step c)) d p = (omega arith, omega arith, inr (omega arith))
Deepens-push_children (atom _) d p = (omega arith, omega arith, inl refl)
Deepens-push_children (path _) d p = (omega arith, omega arith, inl refl)
Deepens-push_children (poset _) d p = (omega arith, omega arith, inl refl)
Deepens-push_children context d p = (omega arith, omega arith, inl refl)
Deepens-push_children _ d p = (omega arith, omega arith, inr (omega arith))

weight-own_items :
    (es : Exprs) (p : Owned) → weight_owned (own_items es p) ≡ size_items es + weight_owned p
unfolding own_items size
weight-own_items no_exprs p = omega arith
weight-own_items (and_expr e es) p = omega (arith, weight-own_items es (e ∷ p))

weight-own_parts :
    (ps : Parts) (p : Owned) → weight_owned (own_parts ps p) ≡ size_parts ps + weight_owned p
unfolding own_parts size
weight-own_parts no_parts p = omega arith
weight-own_parts (and_part (literal _) ps) p = omega (arith, weight-own_parts ps p)
weight-own_parts (and_part (interpolation e) ps) p = omega (arith, weight-own_parts ps (e ∷ p))

weight-own_key :
    (k : FieldKey) (p : Owned) → weight_owned (own_key k p) ≡ size_key k + weight_owned p
unfolding own_key size
weight-own_key (pattern_key e) p = omega arith
weight-own_key (named _ _) p = omega arith
weight-own_key (quoted _) p = omega arith
weight-own_key (path_key _) p = omega arith

pub weight-own_fields :
    (fs : Fields) (p : Owned) → weight_owned (own_fields fs p) ≡ size_fields fs + weight_owned p
unfolding own_fields size
weight-own_fields no_fields p = omega arith
weight-own_fields (and_field (field key value _) fs) p =
    omega (arith, weight-own_fields fs (value ∷ own_key key p), weight-own_key key p)

pub weight-own_children :
    (k : ExprKind) (p : Owned) → weight_owned (own_children k p) ≡ size_kind k + weight_owned p
unfolding own_children size
weight-own_children (binary _ a b) p = omega arith
weight-own_children (morphism a b) p = omega arith
weight-own_children (combo fields _ _) p = weight-own_fields fields p
weight-own_children (ternary a b c) p = omega arith
weight-own_children (list items) p = weight-own_items items p
weight-own_children (tuple items) p = weight-own_items items p
weight-own_children (interpolated parts) p = weight-own_parts parts p
weight-own_children (range a b no_step) p = omega arith
weight-own_children (range a b (step c)) p = omega arith
weight-own_children _ p = omega arith
