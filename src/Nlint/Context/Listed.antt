-- ===== src/Nlint/Context/Listed.antt =====
-- crates/oo/src/nlint.rs: the members of what the clique search returns are nodes, in their order.
use nlang_tools.Prelude.{
  ℕ, zero, suc, ◌<◌, ◌==◌, ==_iff, true, not, List, [], ◌∷◌, length, All, All-append, ◌≡◌, refl,
  arith, Bool-cases, inl, inr, subst,
}
use nlang_tools.Nlint.Cliques.{
  mem, insert_index, difference, remove_index, neighbors, Inner, branch, from_pivot,
  bron_kerbosch_inner, indices, bron_kerbosch,
}
use nlang_tools.Nlint.Cliques.Sets.{mem-keep, mem-differs, mem-indices}
use nlang_tools.Nlint.Context.Sorted.{IsSorted, insert_index-IsSorted}

abbrev pub Nodes : ℕ → List ℕ → Type 0
Nodes n c = (e : ℕ) → mem e c ≡ true → e < n

abbrev pub IsSetOf : ℕ → List ℕ → Type 0
IsSetOf n c = IsSorted c × Nodes n c

Nodes-insert_index : (n v : ℕ) (c : List ℕ) → v < n → Nodes n c → Nodes n (insert_index v c)
Nodes-insert_index n v c below nodes e listed = elim (Bool-cases (v == e)) [
  | inl same ↦ subst (λ b. b < n) ((==_iff v e).0 same) below
  | inr other ↦ nodes e (mem-differs v c e listed other)
]

module _ (adj : List (List ℕ)) (n : ℕ) where
  -- what is asked of the recursive call
  abbrev YieldsSets : Inner → Type 0
  YieldsSets inner = (r p x : List ℕ) → IsSetOf n r → Nodes n p → All (IsSetOf n) (inner r p x)

  branch-sets :
      (inner : Inner) (r candidates p x : List ℕ)
      → YieldsSets inner
      → IsSetOf n r
      → Nodes n candidates
      → Nodes n p
      → All (IsSetOf n) (branch adj inner r candidates p x)
  unfolding branch
  branch-sets inner r [] p x yields set listed nodes = tt
  branch-sets inner r (v ∷ candidates) p x yields set listed nodes =
      let v_in : v < n = listed v (ground (arith, (==_iff v v).1 refl)) in
      All-append (IsSetOf n) _ _
        (yields _ _ _ (insert_index-IsSorted v r set.0, Nodes-insert_index n v r v_in set.1)
          (λ e h. nodes e (ground (arith, h, mem-keep (λ c. mem c (neighbors adj v)) p e))))
        (branch-sets inner r candidates (remove_index v p) (insert_index v x) yields set
          (λ e h. listed e (ground (arith, h)))
          (λ e h. nodes e (ground (arith, h, mem-keep (λ c. not (c == v)) p e))))

  Nodes-difference : (p ns : List ℕ) → Nodes n p → Nodes n (difference p ns)
  Nodes-difference p ns nodes e h = nodes e (ground (arith, h, mem-keep (λ c. not (mem c ns)) p e))

  from_pivot-sets : (inner : Inner) → YieldsSets inner → YieldsSets (from_pivot adj inner)
  from_pivot-sets inner yields r [] [] set nodes = (set, tt)
  from_pivot-sets inner yields r [] (u ∷ x) set nodes =
      branch-sets inner r _ [] (u ∷ x) yields set (Nodes-difference [] (neighbors adj u) nodes)
        nodes
  from_pivot-sets inner yields r (u ∷ p) x set nodes =
      branch-sets inner r _ (u ∷ p) x yields set (Nodes-difference (u ∷ p) (neighbors adj u) nodes)
        nodes

  inner-sets : (fuel : ℕ) → YieldsSets (bron_kerbosch_inner fuel adj)
  unfolding bron_kerbosch_inner
  inner-sets zero r p x set nodes = tt
  inner-sets (suc fuel) r p x set nodes =
      from_pivot-sets (bron_kerbosch_inner fuel adj) (inner-sets fuel) r p x set nodes

pub bron_kerbosch-sets : (adj : List (List ℕ)) → All (IsSetOf (length adj)) (bron_kerbosch adj)
unfolding bron_kerbosch
bron_kerbosch-sets adj =
    inner-sets adj (length adj) (suc (length adj)) [] (indices 0 (length adj)) []
      (tt, λ e h. absurd (ground (arith, h)))
      (λ e h. ground (arith, h, mem-indices 0 (length adj) e))
