-- ===== src/Nlint/Context/Grown.antt =====
-- crates/oo/src/nlint.rs: every clique of the graph is part of one that the search returns.
use nlang_tools.Prelude.{
  ℕ, ◌≤◌, ◌<◌, ◌==◌, ==_iff, Bool, true, false, not, ◌||◌, ◌&&◌, List, [], ◌∷◌, length, ◌≡◌, refl,
  arith, Bool-cases, inl, inr, subst, ◌⊎◌,
}
use nlang_tools.Nlint.Cliques.{mem, insert_index, remove_index, neighbors, indices, bron_kerbosch}
use nlang_tools.Nlint.Cliques.Sets.{mem-insert_index, mem-keep, mem-indices, length-keep_less}
use nlang_tools.Nlint.Cliques.Sound.{IsSymmetric, IsClique, IsClique-insert_index}
use nlang_tools.Nlint.Cliques.Complete.{IsIrreflexive, Apart, Found, bron_kerbosch-Found}
use nlang_tools.Nlint.Context.Sorted.{IsSorted}

-- each member of the list is a neighbour
abbrev pub all_joined : List ℕ → List ℕ → Bool
all_joined ns [] = true
all_joined ns (b ∷ bs) = mem b ns && all_joined ns bs

all_joined-mem :
    (ns bs : List ℕ) (b : ℕ) → all_joined ns bs ≡ true → mem b bs ≡ true → mem b ns ≡ true
all_joined-mem ns [] b h there = absurd (ground (arith, there))
all_joined-mem ns (c ∷ bs) b h there = elim (Bool-cases (c == b)) [
  | inl same ↦ subst (λ e. mem e ns ≡ true) ((==_iff c b).0 same) (ground (arith, h))
  | inr other ↦ all_joined-mem ns bs b (ground (arith, h)) (ground (arith, there, other))
]

all_joined-Apart :
    (ns bs : List ℕ) → all_joined ns bs ≡ false → (b : ℕ) × (mem b bs ≡ true) × (mem b ns ≡ false)
all_joined-Apart ns [] h = absurd (ground (arith, h))
all_joined-Apart ns (b ∷ bs) h = elim (Bool-cases (mem b ns)) [
  | inl joined ↦
      let (c, there, apart) = all_joined-Apart ns bs (ground (arith, h, joined)) in
      (c, ground (arith, there), apart)
  | inr apart ↦ (b, ground (arith, (==_iff b b).1 refl), apart)
]

-- a list without repetition whose members another one has is no longer
pub length-within :
    (c d : List ℕ) → IsSorted c → ((e : ℕ) → mem e c ≡ true → mem e d ≡ true) → length c ≤ length d
length-within [] d sorted within = omega arith
length-within (x ∷ c) d sorted within =
    let x_in = within x (ground (arith, (==_iff x x).1 refl)) in
    omega (
      arith,
      length-keep_less (λ e. not (e == x)) d x x_in (ground (arith, (==_iff x x).1 refl)),
      length-within c (remove_index x d) sorted.1 (λ e listed. ground (
        arith,
        within e (ground (arith, listed)),
        sorted.0 e listed,
        mem-keep (λ b. not (b == x)) d e,
      )),
    )

module _ (adj : List (List ℕ)) where
  -- the clique `s` with `e`, if it can take it
  abbrev extended : ℕ → List ℕ → Bool → List ℕ
  extended e s true = insert_index e s
  extended e s false = s

  abbrev grow : List ℕ → List ℕ → List ℕ
  grow [] s = s
  grow (e ∷ es) s = grow es (extended e s (all_joined (neighbors adj e) s))

  extended-keeps :
      (e : ℕ) (s : List ℕ) (t : Bool) (b : ℕ) → mem b s ≡ true → mem b (extended e s t) ≡ true
  extended-keeps e s true b there = ground (arith, there, mem-insert_index e s b)
  extended-keeps e s false b there = there

  extended-from :
      (e : ℕ) (s : List ℕ) (t : Bool) (b : ℕ)
      → mem b (extended e s t) ≡ true
      → (mem b s || e == b) ≡ true
  extended-from e s true b there = ground (arith, there, mem-insert_index e s b)
  extended-from e s false b there = ground (arith, there)

  -- a node that is not taken has a member that is not joined to it
  extended-Apart :
      (e : ℕ) (s : List ℕ) (t : Bool)
      → all_joined (neighbors adj e) s ≡ t
      → (mem e (extended e s t) ≡ true) ⊎ Apart adj (λ b. mem b (extended e s t)) e
  extended-Apart e s true is = inl (ground (arith, (==_iff e e).1 refl, mem-insert_index e s e))
  extended-Apart e s false is = inr (all_joined-Apart (neighbors adj e) s is)

  grow-keeps : (es s : List ℕ) (b : ℕ) → mem b s ≡ true → mem b (grow es s) ≡ true
  grow-keeps [] s b there = there
  grow-keeps (e ∷ es) s b there =
      grow-keeps es _ b (extended-keeps e s (all_joined (neighbors adj e) s) b there)

  grow-from : (es s : List ℕ) (b : ℕ) → mem b (grow es s) ≡ true → (mem b s || mem b es) ≡ true
  grow-from [] s b there = ground (arith, there)
  grow-from (e ∷ es) s b there = elim (Bool-cases (mem b es)) [
    | inl node ↦ ground (arith, node)
    | inr other ↦
        let early = grow-from es _ b there in
        ground (
          arith,
          extended-from e s (all_joined (neighbors adj e) s) b (ground (arith, early, other)),
        )
  ]

  grow-Apart :
      (es s : List ℕ) (e : ℕ)
      → mem e es ≡ true
      → (mem e (grow es s) ≡ true) ⊎ Apart adj (λ b. mem b (grow es s)) e
  grow-Apart [] s e listed = absurd (ground (arith, listed))
  grow-Apart (c ∷ es) s e listed = elim (Bool-cases (mem e es)) [
    | inl later ↦ grow-Apart es _ e later
    | inr once ↦
        let same : c ≡ e = (==_iff c e).0 (ground (arith, listed, once)) in
        subst (λ n. (mem n (grow (c ∷ es) s) ≡ true) ⊎ Apart adj (λ b. mem b (grow (c ∷ es) s)) n)
          same
          (elim (extended-Apart c s (all_joined (neighbors adj c) s) refl) [
            | inl in_s ↦ inl (grow-keeps es _ c in_s)
            | inr (b, in_s, apart) ↦ inr (b, grow-keeps es _ b in_s, apart)
          ])
  ]

  module _ (symmetric : IsSymmetric adj) where
    extended-IsClique :
        (e : ℕ) (s : List ℕ) (t : Bool)
        → all_joined (neighbors adj e) s ≡ t
        → IsClique adj s
        → IsClique adj (extended e s t)
    extended-IsClique e s true is clique =
        IsClique-insert_index adj symmetric e s clique
          (λ b there. all_joined-mem (neighbors adj e) s b is there)
    extended-IsClique e s false is clique = clique

    grow-IsClique : (es s : List ℕ) → IsClique adj s → IsClique adj (grow es s)
    grow-IsClique [] s clique = clique
    grow-IsClique (e ∷ es) s clique =
        grow-IsClique es _ (extended-IsClique e s (all_joined (neighbors adj e) s) refl clique)

    -- a clique of nodes is part of one that the search returns
    pub bron_kerbosch-covers :
        (c : List ℕ)
        → IsIrreflexive adj
        → IsClique adj c
        → ((e : ℕ) → mem e c ≡ true → e < length adj)
        → (s : ℕ → Bool) × ((e : ℕ) → mem e c ≡ true → s e ≡ true) × Found [] s (bron_kerbosch adj)
    bron_kerbosch-covers c irreflexive clique nodes =
        let all = indices 0 (length adj) in
        (
          (λ e. mem e (grow all c)),
          grow-keeps all c,
          bron_kerbosch-Found adj symmetric irreflexive (λ e. mem e (grow all c))
              (λ e there. elim (Bool-cases (mem e c)) [
                | inl old ↦ nodes e old
                | inr new ↦
                    ground (arith, grow-from all c e there, new, mem-indices 0 (length adj) e)
              ])
              (grow-IsClique all c clique)
              (λ e below outside.
                elim (grow-Apart all c e (ground (arith, below, mem-indices 0 (length adj) e))) [
                  | inl there ↦ absurd (ground (arith, there, outside))
                  | inr apart ↦ apart
                ]),
        )
