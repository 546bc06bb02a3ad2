-- ===== src/Nlint/Context/Shared.antt =====
-- crates/oo/src/nlint.rs: the edges of the context graph are the shared coordinates.
use text.Mathlib.Text.{◌==◌ as str_eq}
use text.Mathlib.TextEquality.{eq_iff}
use nlang_tools.Prelude.{
  ℕ, suc, ◌==◌, ==_iff, String, Bool, true, false, ◌||◌, ◌↔◌, List, [], ◌∷◌, ◌≡◌, refl, sym, ◌∙◌,
  arith, Bool-cases, Option-cases, inl, inr, subst,
}
use nlang_tools.Nlint.Cliques.{mem, neighbors}
use nlang_tools.Nlint.Context.{ContextNode, coord_index, context_graph}
use nlang_tools.Nlint.Context.Owners.{is_at, holds, own_of, mem-incidence_of}
use nlang_tools.Nlint.Context.Edges.{
  any_together-index, index-any_together, context_graph-together, owners,
}
use nlang_tools.Nlint.Cliques.Sound.{IsSymmetric}
use nlang_tools.Nlint.Cliques.Complete.{IsIrreflexive}

abbrev pub contains : String → List String → Bool
contains c [] = false
contains c (d ∷ cs) = str_eq d c || contains c cs

-- A name that both contexts own, and that is a coordinate.
abbrev pub Shares : List String → List ContextNode → ℕ → ℕ → Type 0
Shares coords contexts a b =
    (c : String) × (contains c coords ≡ true)
    × (contains c (own_of contexts a) ≡ true)
    × (contains c (own_of contexts b) ≡ true)

-- the index of a name that is not the first
index_earlier :
    (d : String) (coords : List String) (c : String) (k : ℕ)
    → str_eq d c ≡ false
    → is_at k (coord_index (d ∷ coords) c) ≡ true
    → (j : ℕ) × (k ≡ suc j) × (is_at j (coord_index coords c) ≡ true)
unfolding coord_index
index_earlier d coords c k other found = elim (Option-cases (coord_index coords c)) [
  | inl gone ↦ absurd (ground (arith, found, other, gone))
  | inr (j, hit) ↦ (j, ground (arith, found, other, hit), ground (arith, hit))
]

index_later :
    (d : String) (coords : List String) (c : String) (k : ℕ)
    → str_eq d c ≡ false
    → is_at k (coord_index coords c) ≡ true
    → is_at (suc k) (coord_index (d ∷ coords) c) ≡ true
unfolding coord_index
index_later d coords c k other found = elim (Option-cases (coord_index coords c)) [
  | inl gone ↦ absurd (ground (arith, found, gone))
  | inr (j, hit) ↦ ground (arith, found, other, hit)
]

index_first :
    (d : String) (coords : List String) (c : String) (k : ℕ)
    → str_eq d c ≡ true
    → is_at k (coord_index (d ∷ coords) c) ≡ true
    → k ≡ 0
unfolding coord_index
index_first d coords c k same found = ground (arith, same, found)

coord_index-contains :
    (coords : List String) (c : String) (k : ℕ)
    → is_at k (coord_index coords c) ≡ true
    → contains c coords ≡ true
unfolding coord_index
coord_index-contains [] c k found = absurd (ground (arith, found))
coord_index-contains (d ∷ coords) c k found = elim (Bool-cases (str_eq d c)) [
  | inl same ↦ ground (arith, same)
  | inr other ↦
      let (j, next, later) = index_earlier d coords c k other found in
      ground (arith, coord_index-contains coords c j later)
]

contains-coord_index :
    (coords : List String) (c : String)
    → contains c coords ≡ true
    → (k : ℕ) × (is_at k (coord_index coords c) ≡ true)
unfolding coord_index
contains-coord_index [] c there = absurd (ground (arith, there))
contains-coord_index (d ∷ coords) c there = elim (Bool-cases (str_eq d c)) [
  | inl same ↦ (0, ground (arith, same))
  | inr other ↦
      let (k, found) = contains-coord_index coords c (ground (arith, there, other)) in
      (suc k, index_later d coords c k other found)
]

-- two names with one index are the same name
coord_index-injective :
    (coords : List String) (c d : String) (k : ℕ)
    → is_at k (coord_index coords c) ≡ true
    → is_at k (coord_index coords d) ≡ true
    → c ≡ d
unfolding coord_index
coord_index-injective [] c d k at_c at_d = absurd (ground (arith, at_c))
coord_index-injective (x ∷ coords) c d k at_c at_d = elim (Bool-cases (str_eq x c)) [
  | inl same ↦ elim (Bool-cases (str_eq x d)) [
    | inl same' ↦ sym ((eq_iff x c).0 same) ∙ (eq_iff x d).0 same'
    | inr other' ↦
        let (j, next, later) = index_earlier x coords d k other' at_d in
        absurd (omega (arith, next, index_first x coords c k same at_c))
  ]
  | inr other ↦
      let (i, above, deeper) = index_earlier x coords c k other at_c in
      elim (Bool-cases (str_eq x d)) [
        | inl same' ↦ absurd (omega (arith, above, index_first x coords d k same' at_d))
        | inr other' ↦
            let (j, next, later) = index_earlier x coords d k other' at_d in
            let level : j ≡ i = omega (arith, next, above) in
            coord_index-injective coords c d i deeper
              (subst (λ n. is_at n (coord_index coords d) ≡ true) level later)
      ]
]

holds-name :
    (coords : List String) (k : ℕ) (cs : List String)
    → holds coords k cs ≡ true
    → (c : String) × (is_at k (coord_index coords c) ≡ true) × (contains c cs ≡ true)
holds-name coords k [] h = absurd (ground (arith, h))
holds-name coords k (c ∷ cs) h = elim (Bool-cases (is_at k (coord_index coords c))) [
  | inl first ↦ (c, first, ground (arith, (eq_iff c c).1 refl))
  | inr other ↦
      let (d, at_d, there) = holds-name coords k cs (ground (arith, h, other)) in
      (d, at_d, ground (arith, there))
]

name-holds :
    (coords : List String) (k : ℕ) (cs : List String) (c : String)
    → is_at k (coord_index coords c) ≡ true
    → contains c cs ≡ true
    → holds coords k cs ≡ true
name-holds coords k [] c at_c there = absurd (ground (arith, there))
name-holds coords k (d ∷ cs) c at_c there = elim (Bool-cases (str_eq d c)) [
  | inl same ↦
      let at_d : is_at k (coord_index coords d) ≡ true =
        subst (λ e. is_at k (coord_index coords e) ≡ true) (sym ((eq_iff d c).0 same)) at_c in
      ground (arith, at_d)
  | inr other ↦ ground (arith, name-holds coords k cs c at_c (ground (arith, there, other)))
]

module _ (coords : List String) (contexts : List ContextNode) where
  joined-Shares :
      (a b : ℕ)
      → mem b (neighbors (context_graph coords contexts).0 a) ≡ true
      → ((a == b) ≡ false) × Shares coords contexts a b
  joined-Shares a b edge =
      let (k, both) =
        any_together-index a b (owners coords contexts)
          (sym (context_graph-together coords contexts a b) ∙ edge) in
      let (c, at_c, in_a) =
        holds-name coords k (own_of contexts a)
          (sym (mem-incidence_of coords contexts k a) ∙ ground (arith, both)) in
      let (d, at_d, in_b) =
        holds-name coords k (own_of contexts b)
          (sym (mem-incidence_of coords contexts k b) ∙ ground (arith, both)) in
      let same = coord_index-injective coords d c k at_d at_c in
      (
        ground (arith, both),
        (
          c,
          coord_index-contains coords c k at_c,
          in_a,
          subst (λ e. contains e (own_of contexts b) ≡ true) same in_b,
        ),
      )

  Shares-joined :
      (a b : ℕ)
      → (a == b) ≡ false
      → Shares coords contexts a b
      → mem b (neighbors (context_graph coords contexts).0 a) ≡ true
  Shares-joined a b differ (c, known, in_a, in_b) =
      let (k, at_c) = contains-coord_index coords c known in
      let a_owns = mem-incidence_of coords contexts k a ∙ name-holds coords k _ c at_c in_a in
      let b_owns = mem-incidence_of coords contexts k b ∙ name-holds coords k _ c at_c in_b in
      context_graph-together coords contexts a b
      ∙ index-any_together a b (owners coords contexts) k (ground (arith, differ, a_owns, b_owns))

  -- Two contexts are joined in the context graph exactly if they are different and both own a name
  -- that is a coordinate.
  pub context_graph-Shares :
      (a b : ℕ)
      → (mem b (neighbors (context_graph coords contexts).0 a) ≡ true)
        ↔ (((a == b) ≡ false) × Shares coords contexts a b)
  context_graph-Shares a b =
      (joined-Shares a b, λ (differ, shares). Shares-joined a b differ shares)

  pub context_graph-IsSymmetric : IsSymmetric (context_graph coords contexts).0
  context_graph-IsSymmetric a b edge =
      let (differ, (c, known, in_a, in_b)) = joined-Shares a b edge in
      Shares-joined b a (ground (arith, differ)) (c, known, in_b, in_a)

  pub context_graph-IsIrreflexive : IsIrreflexive (context_graph coords contexts).0
  context_graph-IsIrreflexive a =
      elim (Bool-cases (mem a (neighbors (context_graph coords contexts).0 a))) [
        | inl edge ↦ absurd (ground (arith, (joined-Shares a a edge).0, (==_iff a a).1 refl))
        | inr no_edge ↦ no_edge
      ]
