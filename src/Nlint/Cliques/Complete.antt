-- ===== src/Nlint/Cliques/Complete.antt =====
-- crates/oo/src/nlint.rs: the clique search misses no maximal clique.
use nlang_tools.Prelude.{
  ℕ, zero, suc, ◌<◌, ◌==◌, ==_iff, Bool, true, false, not, ◌||◌, ◌&&◌, List, [], ◌∷◌, ◌++◌, length,
  ◌≡◌, refl, ap, sym, ◌∙◌, arith, Bool-cases, inl, inr, subst,
}
use nlang_tools.Nlint.Cliques.{
  mem, insert_index, intersection, difference, remove_index, neighbors, Inner, branch, from_pivot,
  bron_kerbosch_inner, indices, bron_kerbosch,
}
use nlang_tools.Nlint.Cliques.Sets.{
  mem-insert_index, mem-keep, mem-narrowed, mem-moved, mem-indices, length-keep, length-keep_less,
  length-indices,
}
use nlang_tools.Nlint.Cliques.Sound.{IsSymmetric, Within-difference}

-- one of the lists has the members of `s` and those of `r`
pub data Found (r : List ℕ) (s : ℕ → Bool) : List (List ℕ) → Type 0 where
  here :
      (c : List ℕ) (cs : List (List ℕ))
      → ((e : ℕ) → mem e c ≡ (mem e r || s e))
      → Found r s (c ∷ cs)
  further : (c : List ℕ) (cs : List (List ℕ)) → Found r s cs → Found r s (c ∷ cs)

Found-front :
    {r : List ℕ} {s : ℕ → Bool} (xs ys : List (List ℕ)) → Found r s xs → Found r s (xs ++ ys)
Found-front xs ys (here c cs same) = here c (cs ++ ys) same
Found-front xs ys (further c cs found) = further c (cs ++ ys) (Found-front cs ys found)

Found-back :
    {r : List ℕ} {s : ℕ → Bool} (xs ys : List (List ℕ)) → Found r s ys → Found r s (xs ++ ys)
Found-back [] ys found = found
Found-back (x ∷ xs) ys found = further x (xs ++ ys) (Found-back xs ys found)

-- what has the same members beside other lists
Found-same :
    {r r' : List ℕ} {s s' : ℕ → Bool}
    → ((e : ℕ) → (mem e r || s e) ≡ (mem e r' || s' e))
    → (xs : List (List ℕ)) → Found r s xs
    → Found r' s' xs
Found-same same xs (here c cs h) = here c cs (λ e. h e ∙ same e)
Found-same same xs (further c cs found) = further c cs (Found-same same cs found)

abbrev without : ℕ → (ℕ → Bool) → ℕ → Bool
without v s e = s e && not (e == v)

-- no node is its own neighbour
abbrev pub IsIrreflexive : List (List ℕ) → Type 0
IsIrreflexive adj = (a : ℕ) → mem a (neighbors adj a) ≡ false

module _ (adj : List (List ℕ)) where
  -- a node of `s` that is no neighbour of `e`
  abbrev pub Apart : (ℕ → Bool) → ℕ → Type 0
  Apart s e = (b : ℕ) × (s b ≡ true) × (mem b (neighbors adj e) ≡ false)

  -- the rest `s` of a maximal clique, seen from a call
  record Inv (p x : List ℕ) (s : ℕ → Bool) : Type 0 where
    inside : (e : ℕ) → s e ≡ true → mem e p ≡ true
    clique : (a b : ℕ) → s a ≡ true → s b ≡ true → (a == b) ≡ false → mem b (neighbors adj a) ≡ true
    maximal : (e : ℕ) → (mem e p || mem e x) ≡ true → s e ≡ false → Apart s e

  module _ (symmetric : IsSymmetric adj) (irreflexive : IsIrreflexive adj) where
    -- the node found apart from `e` is not the neighbour `v` of `e`
    Apart-without :
        (v e : ℕ) (s : ℕ → Bool)
        → mem v (neighbors adj e) ≡ true
        → Apart s e
        → Apart (without v s) e
    Apart-without v e s edge (b, chosen, apart) = elim (Bool-cases (b == v)) [
      | inl same ↦
          let edge' : mem b (neighbors adj e) ≡ true =
            subst (λ c. mem c (neighbors adj e) ≡ true) (sym ((==_iff b v).0 same)) edge in
          absurd (ground (arith, edge', apart))
      | inr other ↦ (b, ground (arith, chosen, other), apart)
    ]

    -- a neighbour of `v` is not `v`
    neighbor-differs : (v e : ℕ) → mem e (neighbors adj v) ≡ true → (e == v) ≡ false
    neighbor-differs v e edge = elim (Bool-cases (e == v)) [
      | inl same ↦
          let edge' : mem v (neighbors adj v) ≡ true =
            subst (λ c. mem c (neighbors adj v) ≡ true) ((==_iff e v).0 same) edge in
          absurd (ground (arith, edge', irreflexive v))
      | inr other ↦ other
    ]

    Inv-inner :
        (v : ℕ) (p x : List ℕ) (s : ℕ → Bool)
        → s v ≡ true
        → Inv p x s
        → Inv (intersection p (neighbors adj v)) (intersection x (neighbors adj v)) (without v s)
    Inv-inner v p x s chosen inv = record {
      inside = λ e there. ground (
        arith,
        mem-keep (λ c. mem c (neighbors adj v)) p e,
        inv.inside e (ground (arith, there)),
        inv.clique v e chosen (ground (arith, there)) (ground (arith, there)),
      );
      clique = λ a b in_a in_b differ.
          inv.clique a b (ground (arith, in_a)) (ground (arith, in_b)) differ;
      maximal = λ e there outside.
          let edge : mem e (neighbors adj v) ≡ true =
            ground (arith, there, mem-narrowed (neighbors adj v) p x e) in
          let known : (mem e p || mem e x) ≡ true =
            ground (arith, there, mem-narrowed (neighbors adj v) p x e) in
          Apart-without v e s (symmetric v e edge)
            (inv.maximal e known (ground (arith, outside, neighbor-differs v e edge)));
    }

    Inv-move :
        (v : ℕ) (p x : List ℕ) (s : ℕ → Bool)
        → (mem v p || mem v x) ≡ true
        → s v ≡ false
        → Inv p x s
        → Inv (remove_index v p) (insert_index v x) s
    Inv-move v p x s there left inv = record {
      inside = λ e chosen. elim (Bool-cases (e == v)) [
        | inl same ↦
            let left' : s e ≡ false = ap s ((==_iff e v).0 same) ∙ left in
            absurd (ground (arith, chosen, left'))
        | inr other ↦ ground (arith, other, inv.inside e chosen, mem-keep (λ c. not (c == v)) p e)
      ];
      clique = inv.clique;
      maximal = λ e h outside. inv.maximal e (sym (mem-moved v e p x there) ∙ h) outside;
    }

    -- what is asked of the recursive call, for lists of less than `fuel` candidates
    abbrev Finds : ℕ → Inner → Type 0
    Finds fuel inner =
        (r p x : List ℕ) (s : ℕ → Bool) → length p < fuel → Inv p x s → Found r s (inner r p x)

    Found-chosen :
        (v : ℕ) (r : List ℕ) (s : ℕ → Bool) (xs : List (List ℕ))
        → s v ≡ true
        → Found (insert_index v r) (without v s) xs
        → Found r s xs
    Found-chosen v r s xs chosen =
        Found-same
          (λ e. elim (Bool-cases (e == v)) [
            | inl same ↦
                let chosen' : s e ≡ true = ap s ((==_iff e v).0 same) ∙ chosen in
                ground (arith, chosen', same, mem-insert_index v r e)
            | inr other ↦ ground (arith, other, mem-insert_index v r e)
          ])
          xs

    later :
        (v w : ℕ) (candidates : List ℕ) (s : ℕ → Bool)
        → mem w (v ∷ candidates) ≡ true
        → s w ≡ true
        → s v ≡ false
        → mem w candidates ≡ true
    later v w candidates s listed chosen left = elim (Bool-cases (v == w)) [
      | inl same ↦
          let left' : s w ≡ false = ap s (sym ((==_iff v w).0 same)) ∙ left in
          absurd (ground (arith, chosen, left'))
      | inr other ↦ ground (arith, other, listed)
    ]

    branch-Found :
        (fuel : ℕ) (inner : Inner) (r candidates p x : List ℕ) (s : ℕ → Bool) (w : ℕ)
        → Finds fuel inner
        → length p < suc fuel
        → ((v : ℕ) → mem v candidates ≡ true → (mem v p || mem v x) ≡ true)
        → mem w candidates ≡ true
        → s w ≡ true
        → Inv p x s
        → Found r s (branch adj inner r candidates p x)
    unfolding branch
    branch-Found fuel inner r [] p x s w finds short within listed chosen inv =
        absurd (ground (arith, listed))
    branch-Found fuel inner r (v ∷ candidates) p x s w finds short within listed chosen inv =
        let there : (mem v p || mem v x) ≡ true = within v (ground (arith, (==_iff v v).1 refl)) in
        elim (Bool-cases (s v)) [
          | inl taken ↦ Found-front _ _ (
              Found-chosen v r s _ taken (
                finds _ _ _ (without v s)
                  (ground (
                    arith,
                    short,
                    length-keep_less (λ c. mem c (neighbors adj v)) p v (inv.inside v taken)
                        (irreflexive v),
                  ))
                  (Inv-inner v p x s taken inv)))
          | inr left ↦ Found-back _ _ (
              branch-Found fuel inner r candidates (remove_index v p) (insert_index v x) s w finds
                (ground (arith, short, length-keep (λ c. not (c == v)) p))
                (λ e h. mem-moved v e p x there ∙ within e (ground (arith, h)))
                (later v w candidates s listed chosen left) chosen
                (Inv-move v p x s there left inv))
        ]

    -- a node of `s` that the pivot `u` leaves among the candidates
    pivot_candidate :
        (u : ℕ) (p x : List ℕ) (s : ℕ → Bool)
        → (mem u p || mem u x) ≡ true
        → Inv p x s
        → (w : ℕ) × (s w ≡ true) × (mem w (difference p (neighbors adj u)) ≡ true)
    pivot_candidate u p x s known inv = elim (Bool-cases (s u)) [
      | inl chosen ↦ (
        u,
        chosen,
        ground (
          arith,
          inv.inside u chosen,
          irreflexive u,
          mem-keep (λ c. not (mem c (neighbors adj u))) p u,
        ),
      )
      | inr left ↦
          let (b, chosen, apart) = inv.maximal u known left in
          (
            b,
            chosen,
            ground (
              arith,
              inv.inside b chosen,
              apart,
              mem-keep (λ c. not (mem c (neighbors adj u))) p b,
            ),
          )
    ]

    pivot-Found :
        (fuel : ℕ) (inner : Inner) (r p x : List ℕ) (s : ℕ → Bool) (u : ℕ)
        → Finds fuel inner
        → length p < suc fuel
        → (mem u p || mem u x) ≡ true
        → Inv p x s
        → Found r s (branch adj inner r (difference p (neighbors adj u)) p x)
    pivot-Found fuel inner r p x s u finds short known inv =
        let (w, chosen, listed) = pivot_candidate u p x s known inv in
        branch-Found fuel inner r _ p x s w finds short (Within-difference adj symmetric u p x)
          listed chosen inv

    from_pivot-Found :
        (fuel : ℕ) (inner : Inner) → Finds fuel inner → Finds (suc fuel) (from_pivot adj inner)
    from_pivot-Found fuel inner finds r [] [] s short inv = here r [] (λ e.
        elim (Bool-cases (s e)) [
          | inl chosen ↦ absurd (ground (arith, inv.inside e chosen))
          | inr left ↦ ground (arith, left)
        ])
    from_pivot-Found fuel inner finds r [] (u ∷ x) s short inv =
        pivot-Found fuel inner r [] (u ∷ x) s u finds short (ground (arith, (==_iff u u).1 refl))
          inv
    from_pivot-Found fuel inner finds r (u ∷ p) x s short inv =
        pivot-Found fuel inner r (u ∷ p) x s u finds short (ground (arith, (==_iff u u).1 refl)) inv

    inner-Found : (fuel : ℕ) → Finds fuel (bron_kerbosch_inner fuel adj)
    unfolding bron_kerbosch_inner
    inner-Found zero r p x s short inv = absurd (omega (arith, short))
    inner-Found (suc fuel) r p x s short inv =
        from_pivot-Found fuel (bron_kerbosch_inner fuel adj) (inner-Found fuel) r p x s short inv

    -- Where the edges have no direction and join different nodes, the clique search yields every
    -- maximal clique: a set of nodes that are pairwise joined, and that leaves out no node without
    -- a member that is not joined to it, has the members of one of the lists it returns.
    pub bron_kerbosch-Found :
        (s : ℕ → Bool)
        → ((e : ℕ) → s e ≡ true → e < length adj)
        → ((a b : ℕ) → s a ≡ true → s b ≡ true → (a == b) ≡ false → mem b (neighbors adj a) ≡ true)
        → ((e : ℕ) → e < length adj → s e ≡ false → Apart s e)
        → Found [] s (bron_kerbosch adj)
    unfolding bron_kerbosch
    bron_kerbosch-Found s nodes clique maximal =
        inner-Found (suc (length adj)) [] (indices 0 (length adj)) [] s
          (omega (arith, length-indices 0 (length adj)))
          (record {
            inside = λ e chosen. ground (arith, nodes e chosen, mem-indices 0 (length adj) e);
            clique = clique;
            maximal = λ e known. maximal e (ground (arith, known, mem-indices 0 (length adj) e));
          })
