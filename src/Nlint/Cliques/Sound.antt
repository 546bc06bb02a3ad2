-- ===== src/Nlint/Cliques/Sound.antt =====
-- crates/oo/src/nlint.rs: what the clique search yields is a maximal clique.
use nlang_tools.Prelude.{
  ℕ, zero, suc, ◌<◌, ◌==◌, ==_iff, true, false, not, ◌||◌, List, [], ◌∷◌, length, All, All-append,
  ◌≡◌, refl, sym, ◌∙◌, arith, Bool-cases, inl, inr, subst,
}
use nlang_tools.Nlint.Cliques.{
  mem, insert_index, intersection, difference, remove_index, neighbors, Inner, branch, from_pivot,
  bron_kerbosch_inner, indices, bron_kerbosch,
}
use nlang_tools.Nlint.Cliques.Sets.{
  mem-differs, mem-narrowed, mem-moved, mem-insert_index, mem-keep, mem-indices,
}

-- the edges have no direction
abbrev pub IsSymmetric : List (List ℕ) → Type 0
IsSymmetric adj = (a b : ℕ) → mem b (neighbors adj a) ≡ true → mem a (neighbors adj b) ≡ true

module _ (adj : List (List ℕ)) where
  abbrev pub IsClique : List ℕ → Type 0
  IsClique r =
      (a b : ℕ)
      → mem a r ≡ true
      → mem b r ≡ true
      → (a == b) ≡ false
      → mem b (neighbors adj a) ≡ true

  -- `e` is a neighbour of each member
  abbrev pub Extends : ℕ → List ℕ → Type 0
  Extends e r = (b : ℕ) → mem b r ≡ true → mem b (neighbors adj e) ≡ true

  -- a clique that no node extends
  pub record IsMaximal (r : List ℕ) : Type 0 where
    pub clique : IsClique r
    pub maximal : (e : ℕ) → e < length adj → ¬ Extends e r

  record Inv (r p x : List ℕ) : Type 0 where
    pairs : IsClique r
    joined : (e : ℕ) → (mem e p || mem e x) ≡ true → Extends e r
    covered : (e : ℕ) → e < length adj → Extends e r → (mem e p || mem e x) ≡ true

  module _ (symmetric : IsSymmetric adj) where
    Extends-insert_index :
        (v : ℕ) (r : List ℕ) (e : ℕ)
        → mem v (neighbors adj e) ≡ true
        → Extends e r
        → Extends e (insert_index v r)
    Extends-insert_index v r e edge old b there = elim (Bool-cases (v == b)) [
      | inl same ↦ subst (λ c. mem c (neighbors adj e) ≡ true) ((==_iff v b).0 same) edge
      | inr other ↦ old b (mem-differs v r b there other)
    ]

    pub IsClique-insert_index :
        (v : ℕ) (r : List ℕ) → IsClique r → Extends v r → IsClique (insert_index v r)
    IsClique-insert_index v r pairs joined a b in_a in_b differ = elim (Bool-cases (v == a)) [
      | inl same ↦
          subst (λ c. mem b (neighbors adj c) ≡ true) ((==_iff v a).0 same)
            (joined b (mem-differs v r b in_b (ground (arith, same, differ))))
      | inr other ↦ elim (Bool-cases (v == b)) [
        | inl same ↦
            subst (λ c. mem c (neighbors adj a) ≡ true) ((==_iff v b).0 same)
              (symmetric v a (joined a (mem-differs v r a in_a other)))
        | inr apart ↦ pairs a b (mem-differs v r a in_a other) (mem-differs v r b in_b apart) differ
      ]
    ]

    Inv-inner :
        (v : ℕ) (r p x : List ℕ)
        → (mem v p || mem v x) ≡ true
        → Inv r p x
        → Inv
            (insert_index v r)
            (intersection p (neighbors adj v))
            (intersection x (neighbors adj v))
    Inv-inner v r p x there inv = record {
      pairs = IsClique-insert_index v r inv.pairs (inv.joined v there);
      joined = λ e h.
          Extends-insert_index v r e
            (symmetric v e (ground (arith, h, mem-narrowed (neighbors adj v) p x e)))
            (inv.joined e (ground (arith, h, mem-narrowed (neighbors adj v) p x e)));
      covered = λ e below extends. ground (
        arith,
        mem-narrowed (neighbors adj v) p x e,
        symmetric e v (extends v (ground (arith, mem-insert_index v r v, (==_iff v v).1 refl))),
        inv.covered e below (λ b h. extends b (ground (arith, h, mem-insert_index v r b))),
      );
    }

    Inv-move :
        (v : ℕ) (r p x : List ℕ)
        → (mem v p || mem v x) ≡ true
        → Inv r p x
        → Inv r (remove_index v p) (insert_index v x)
    Inv-move v r p x there inv = record {
      pairs = inv.pairs;
      joined = λ e h. inv.joined e (sym (mem-moved v e p x there) ∙ h);
      covered = λ e below extends. mem-moved v e p x there ∙ inv.covered e below extends;
    }

    -- what is asked of the recursive call
    abbrev Yields : Inner → Type 0
    Yields inner = (r p x : List ℕ) → Inv r p x → All IsMaximal (inner r p x)

    branch-IsMaximal :
        (inner : Inner) (r candidates p x : List ℕ)
        → Yields inner
        → ((v : ℕ) → mem v candidates ≡ true → (mem v p || mem v x) ≡ true)
        → Inv r p x
        → All IsMaximal (branch adj inner r candidates p x)
    unfolding branch
    branch-IsMaximal inner r [] p x yields within inv = tt
    branch-IsMaximal inner r (v ∷ candidates) p x yields within inv =
        let there : (mem v p || mem v x) ≡ true = within v (ground (arith, (==_iff v v).1 refl)) in
        All-append IsMaximal _ _ (yields _ _ _ (Inv-inner v r p x there inv)) (
          branch-IsMaximal inner r candidates (remove_index v p) (insert_index v x) yields
            (λ e h. mem-moved v e p x there ∙ within e (ground (arith, h)))
            (Inv-move v r p x there inv))

    pub Within-difference :
        (u : ℕ) (p x : List ℕ) (v : ℕ)
        → mem v (difference p (neighbors adj u)) ≡ true
        → (mem v p || mem v x) ≡ true
    Within-difference u p x v h =
        ground (arith, h, mem-keep (λ c. not (mem c (neighbors adj u))) p v)

    from_pivot-IsMaximal :
        (inner : Inner) (r p x : List ℕ)
        → Yields inner
        → Inv r p x
        → All IsMaximal (from_pivot adj inner r p x)
    from_pivot-IsMaximal inner r [] [] yields inv = (
      record {
        clique = inv.pairs;
        maximal = λ e below extends. absurd (ground (arith, inv.covered e below extends));
      },
      tt,
    )
    from_pivot-IsMaximal inner r [] (u ∷ x) yields inv =
        branch-IsMaximal inner r _ [] (u ∷ x) yields (Within-difference u [] (u ∷ x)) inv
    from_pivot-IsMaximal inner r (u ∷ p) x yields inv =
        branch-IsMaximal inner r _ (u ∷ p) x yields (Within-difference u (u ∷ p) x) inv

    inner-IsMaximal : (fuel : ℕ) → Yields (bron_kerbosch_inner fuel adj)
    unfolding bron_kerbosch_inner
    inner-IsMaximal zero r p x inv = tt
    inner-IsMaximal (suc fuel) r p x inv =
        from_pivot-IsMaximal (bron_kerbosch_inner fuel adj) r p x (inner-IsMaximal fuel) inv

    Inv-start : Inv [] (indices 0 (length adj)) []
    Inv-start = record {
      pairs = λ a b in_a in_b differ. absurd (ground (arith, in_a));
      joined = λ e h b there. absurd (ground (arith, there));
      covered = λ e below extends. ground (arith, below, mem-indices 0 (length adj) e);
    }

    -- Where the edges have no direction, every set that the clique search yields is a clique, and
    -- no node is a neighbour of all its members.
    pub bron_kerbosch-IsMaximal : All IsMaximal (bron_kerbosch adj)
    unfolding bron_kerbosch
    bron_kerbosch-IsMaximal =
        inner-IsMaximal (suc (length adj)) [] (indices 0 (length adj)) [] Inv-start
