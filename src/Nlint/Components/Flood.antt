-- ===== src/Nlint/Components/Flood.antt =====
-- crates/oo/src/nlint.rs: a flood marks what is reached from its stack.
use mathlib.Core.Option.{some-injective}
use nlang_tools.Prelude.{
  ℕ, zero, suc, ◌==◌, ==_iff, if◌then◌else◌, true, false, List, [], ◌∷◌, some, ◌≡◌, ◌⊎◌, refl, sym,
  ap, ◌∙◌, inl, inr, arith, Bool-cases, subst,
}
use nlang_tools.Nlint.Cliques.{mem, neighbors}
use nlang_tools.Nlint.Components.{push_unvisited, flood}

pub mem_first : (u x : ℕ) (xs : List ℕ) → mem x (u ∷ xs) ≡ true → (u ≡ x) ⊎ (mem x xs ≡ true)
mem_first u x xs h = elim (Bool-cases (u == x)) [
  | inl same ↦ inl ((==_iff u x).0 same)
  | inr other ↦ inr (ground (arith, h, other))
]

pub mem_self : (u : ℕ) (xs : List ℕ) → mem u (u ∷ xs) ≡ true
mem_self u xs = ground (arith, (==_iff u u).1 refl)

pub mem_tail : (u x : ℕ) (xs : List ℕ) → mem x xs ≡ true → mem x (u ∷ xs) ≡ true
mem_tail u x xs h = ground (arith, h)

-- what is pushed was a neighbour, and a neighbour that is not marked is pushed
pushed-mem :
    (visited ns stack : List ℕ) (x : ℕ)
    → mem x (push_unvisited visited ns stack) ≡ true
    → (mem x ns ≡ true) ⊎ (mem x stack ≡ true)
unfolding push_unvisited
pushed-mem visited [] stack x h = inr h
pushed-mem visited (v ∷ ns) stack x h =
    elim (pushed-mem visited ns (if mem v visited then stack else v ∷ stack) x h) [
      | inl there ↦ inl (mem_tail v x ns there)
      | inr below ↦ elim (Bool-cases (mem v visited)) [
        | inl old ↦ inr (ground (arith, below, old))
        | inr new ↦ elim (mem_first v x stack (ground (arith, below, new))) [
          | inl same ↦ inl (ground (arith, (==_iff v x).1 same))
          | inr under ↦ inr under
        ]
      ]
    ]

mem-pushed :
    (visited ns stack : List ℕ) (x : ℕ)
    → (mem x stack ≡ true) ⊎ ((mem x ns ≡ true) × (mem x visited ≡ false))
    → mem x (push_unvisited visited ns stack) ≡ true
unfolding push_unvisited
mem-pushed visited [] stack x h = ground (arith, h)
mem-pushed visited (v ∷ ns) stack x h =
    mem-pushed visited ns (if mem v visited then stack else v ∷ stack) x (elim h [
      | inl below ↦ inl (ground (arith, below))
      | inr (there, unmarked) ↦ elim (Bool-cases (v == x)) [
        | inl same ↦
            let fresh : mem v visited ≡ false =
              ap (λ e. mem e visited) ((==_iff v x).0 same) ∙ unmarked in
            inl (ground (arith, same, fresh))
        | inr other ↦ inr (ground (arith, there, other), unmarked)
      ]
    ])

module _ (adj : List (List ℕ)) where
  pub data Reaches : ℕ → ℕ → Type 0 where
    here : {a : ℕ} → Reaches a a
    edge : {a b c : ℕ} → mem b (neighbors adj a) ≡ true → Reaches b c → Reaches a c

  -- the neighbours of what is marked are marked or on the stack
  abbrev pub Frontier : List ℕ → List ℕ → Type 0
  Frontier visited stack =
      (x y : ℕ)
      → mem x visited ≡ true
      → mem y (neighbors adj x) ≡ true
      → (mem y visited ≡ true) ⊎ (mem y stack ≡ true)

  abbrev next : ℕ → List ℕ → List ℕ → List ℕ
  next u visited stack = push_unvisited (u ∷ visited) (neighbors adj u) stack

  skipped :
      (fuel : ℕ) (visited stack marked : List ℕ) (u : ℕ)
      → mem u visited ≡ true
      → flood (suc fuel) adj visited (u ∷ stack) ≡ some marked
      → flood fuel adj visited stack ≡ some marked
  unfolding flood
  skipped fuel visited stack marked u old done = ground (arith, old, done)

  spread :
      (fuel : ℕ) (visited stack marked : List ℕ) (u : ℕ)
      → mem u visited ≡ false
      → flood (suc fuel) adj visited (u ∷ stack) ≡ some marked
      → flood fuel adj (u ∷ visited) (next u visited stack) ≡ some marked
  unfolding flood
  spread fuel visited stack marked u new done = ground (arith, new, done)

  Frontier-next :
      (u : ℕ) (visited stack : List ℕ)
      → Frontier visited (u ∷ stack)
      → Frontier (u ∷ visited) (next u visited stack)
  Frontier-next u visited stack edges x y there joined = elim (Bool-cases (mem y (u ∷ visited))) [
    | inl marked ↦ inl marked
    | inr unmarked ↦ elim (mem_first u x visited there) [
      | inl same ↦
          let near : mem y (neighbors adj u) ≡ true =
            subst (λ e. mem y (neighbors adj e) ≡ true) (sym same) joined in
          inr (mem-pushed (u ∷ visited) (neighbors adj u) stack y (inr (near, unmarked)))
      | inr earlier ↦ elim (edges x y earlier joined) [
        | inl before ↦ inl (mem_tail u y visited before)
        | inr listed ↦ elim (mem_first u y stack listed) [
          | inl same ↦ inl (subst (λ e. mem e (u ∷ visited) ≡ true) same (mem_self u visited))
          | inr below ↦ inr (mem-pushed (u ∷ visited) (neighbors adj u) stack y (inl below))
        ]
      ]
    ]
  ]

  pub flood-keeps :
      (fuel : ℕ) (visited stack marked : List ℕ) (x : ℕ)
      → flood fuel adj visited stack ≡ some marked
      → (mem x visited ≡ true) ⊎ (mem x stack ≡ true)
      → mem x marked ≡ true
  unfolding flood
  flood-keeps fuel visited [] marked x done there = ground (arith, done, there)
  flood-keeps zero visited (u ∷ stack) marked x done there = absurd (ground (arith, done))
  flood-keeps (suc fuel) visited (u ∷ stack) marked x done there =
      elim (Bool-cases (mem u visited)) [
        | inl old ↦
            flood-keeps fuel visited stack marked x (skipped fuel visited stack marked u old done)
              (elim there [
                | inl before ↦ inl before
                | inr listed ↦ elim (mem_first u x stack listed) [
                  | inl same ↦ inl (subst (λ e. mem e visited ≡ true) same old)
                  | inr below ↦ inr below
                ]
              ])
        | inr new ↦
            flood-keeps fuel (u ∷ visited) (next u visited stack) marked x
              (spread fuel visited stack marked u new done)
              (elim there [
                | inl before ↦ inl (mem_tail u x visited before)
                | inr listed ↦ elim (mem_first u x stack listed) [
                  | inl same ↦
                      inl (subst (λ e. mem e (u ∷ visited) ≡ true) same (mem_self u visited))
                  | inr below ↦ inr (mem-pushed (u ∷ visited) (neighbors adj u) stack x (inl below))
                ]
              ])
      ]

  pub flood-Reaches :
      (fuel : ℕ) (visited stack marked : List ℕ) (x : ℕ)
      → flood fuel adj visited stack ≡ some marked
      → mem x marked ≡ true
      → (mem x visited ≡ true) ⊎ ((u : ℕ) × (mem u stack ≡ true) × Reaches u x)
  unfolding flood
  flood-Reaches fuel visited [] marked x done there = inl (ground (arith, done, there))
  flood-Reaches zero visited (u ∷ stack) marked x done there = absurd (ground (arith, done))
  flood-Reaches (suc fuel) visited (u ∷ stack) marked x done there =
      elim (Bool-cases (mem u visited)) [
        | inl old ↦
            elim (flood-Reaches fuel visited stack marked x
              (skipped fuel visited stack marked u old done) there) [
                | inl before ↦ inl before
                | inr (v, below, way) ↦ inr (v, mem_tail u v stack below, way)
              ]
        | inr new ↦
            elim (flood-Reaches fuel (u ∷ visited) (next u visited stack) marked x
              (spread fuel visited stack marked u new done) there) [
                | inl before ↦ elim (mem_first u x visited before) [
                  | inl same ↦ inr (u, mem_self u stack, subst (λ e. Reaches u e) same here)
                  | inr earlier ↦ inl earlier
                ]
                | inr (v, listed, way) ↦
                    elim (pushed-mem (u ∷ visited) (neighbors adj u) stack v listed) [
                      | inl joined ↦ inr (u, mem_self u stack, edge joined way)
                      | inr below ↦ inr (v, mem_tail u v stack below, way)
                    ]
              ]
      ]

  pub flood-Frontier :
      (fuel : ℕ) (visited stack marked : List ℕ)
      → flood fuel adj visited stack ≡ some marked
      → Frontier visited stack
      → Frontier marked []
  unfolding flood
  flood-Frontier fuel visited [] marked done edges =
      subst (λ m. Frontier m []) (some-injective visited marked done) edges
  flood-Frontier zero visited (u ∷ stack) marked done edges = absurd (ground (arith, done))
  flood-Frontier (suc fuel) visited (u ∷ stack) marked done edges =
      elim (Bool-cases (mem u visited)) [
        | inl old ↦
            flood-Frontier fuel visited stack marked (skipped fuel visited stack marked u old done)
              (λ x y there joined. elim (edges x y there joined) [
                | inl before ↦ inl before
                | inr listed ↦ elim (mem_first u y stack listed) [
                  | inl same ↦ inl (subst (λ e. mem e visited ≡ true) same old)
                  | inr below ↦ inr below
                ]
              ])
        | inr new ↦
            flood-Frontier fuel (u ∷ visited) (next u visited stack) marked
              (spread fuel visited stack marked u new done) (Frontier-next u visited stack edges)
      ]
