-- ===== src/Nlint/Components/Groups.antt =====
-- crates/oo/src/nlint.rs: the components are counted once each.
use nlang_tools.Prelude.{
  ℕ, suc, ◌<◌, true, false, List, [], ◌∷◌, length, some, ◌≡◌, ◌⊎◌, refl, sym, ◌∙◌, inl, inr, arith,
  Bool-cases, subst,
}
use nlang_tools.Nlint.Cliques.{mem, indices}
use nlang_tools.Nlint.Cliques.Sets.{mem-indices}
use nlang_tools.Nlint.Components.{flood, count_loop, degree_sum, count_components}
use nlang_tools.Nlint.Components.Flood.{
  Reaches, here, edge, Frontier, flood-keeps, flood-Reaches, flood-Frontier, mem_first, mem_self,
  mem_tail,
}
use nlang_tools.Nlint.Components.Ends.{flood-ends_count}

-- none of the list is linked with a later one
abbrev pub Apart : (ℕ → ℕ → Type 0) → List ℕ → Type 0
Apart linked [] = Unit
Apart linked (s ∷ reps) = ((r : ℕ) → mem r reps ≡ true → ¬ linked r s) × Apart linked reps

module _ (adj : List (List ℕ)) where
  -- what is marked is what the representatives reach
  abbrev Marks : List ℕ → List ℕ → Type 0
  Marks reps visited =
      (Frontier adj visited [])
      × ((x : ℕ) → mem x visited ≡ true → (r : ℕ) × (mem r reps ≡ true) × Reaches adj r x)
      × ((r : ℕ) → mem r reps ≡ true → mem r visited ≡ true)

  closed-Reaches :
      (visited : List ℕ) (a b : ℕ)
      → Frontier adj visited []
      → mem a visited ≡ true
      → Reaches adj a b
      → mem b visited ≡ true
  closed-Reaches visited a b closed marked here = marked
  closed-Reaches visited a b closed marked (edge {b = c} joined way) =
      closed-Reaches visited c b closed
        (elim (closed a c marked joined) [
          | inl next ↦ next
          | inr none_left ↦ absurd (ground (arith, none_left))
        ])
        way

  -- the count from a state on, and what it ends with
  Counted : List ℕ → List ℕ → List ℕ → Type 0
  Counted nodes visited reps =
      (all : List ℕ) × (count_loop (suc (degree_sum adj)) adj nodes visited (length reps)
        ≡ some (length all))
      × Apart (Reaches adj) all
      × ((r : ℕ) → mem r all ≡ true → (mem r reps ≡ true) ⊎ (mem r nodes ≡ true))
      × ((x : ℕ)
          → (mem x visited ≡ true) ⊎ (mem x nodes ≡ true)
          → (r : ℕ) × (mem r all ≡ true) × Reaches adj r x)

  Marks-flood :
      (reps visited marked : List ℕ) (s : ℕ)
      → flood (suc (degree_sum adj)) adj visited (s ∷ []) ≡ some marked
      → Marks reps visited
      → Marks (s ∷ reps) marked
  Marks-flood reps visited marked s done (closed, reached, kept) =
      let fuel = suc (degree_sum adj) in
      (
        flood-Frontier adj fuel visited (s ∷ []) marked done (λ x y there joined.
            elim (closed x y there joined) [
              | inl next ↦ inl next
              | inr none_left ↦ absurd (ground (arith, none_left))
            ]),
        λ x there. elim (flood-Reaches adj fuel visited (s ∷ []) marked x done there) [
          | inl before ↦
              let (r, listed, way) = reached x before in (r, mem_tail s r reps listed, way)
          | inr (u, started, way) ↦ elim (mem_first s u [] started) [
            | inl same ↦ (s, mem_self s reps, subst (λ e. Reaches adj e x) (sym same) way)
            | inr none_left ↦ absurd (ground (arith, none_left))
          ]
        ],
        λ r listed. elim (mem_first s r reps listed) [
          | inl same ↦
              subst (λ e. mem e marked ≡ true) same
                (flood-keeps adj fuel visited (s ∷ []) marked s done (inr (mem_self s [])))
          | inr old ↦ flood-keeps adj fuel visited (s ∷ []) marked r done (inl (kept r old))
        ],
      )

  count_loop-flood :
      (fuel s : ℕ) (nodes visited marked : List ℕ) (comps : ℕ)
      → mem s visited ≡ false
      → flood fuel adj visited (s ∷ []) ≡ some marked
      → count_loop fuel adj (s ∷ nodes) visited comps ≡ count_loop fuel adj nodes marked (suc comps)
  unfolding count_loop
  count_loop-flood fuel s nodes visited marked comps new done = rw new rw done refl

  count_loop-Counted :
      (nodes visited reps : List ℕ)
      → Marks reps visited
      → Apart (Reaches adj) reps
      → Counted nodes visited reps
  unfolding count_loop Counted
  count_loop-Counted [] visited reps marks apart = (
    reps,
    refl,
    apart,
    λ r listed. inl listed,
    λ x there. elim there [
      | inl marked ↦ marks.1 x marked
      | inr none_left ↦ absurd (ground (arith, none_left))
    ],
  )
  count_loop-Counted (s ∷ nodes) visited reps marks apart = elim (Bool-cases (mem s visited)) [
    | inl old ↦
        let (all, count, apart_all, among, covered) =
          count_loop-Counted nodes visited reps marks apart in
        (
          all,
          rw old count,
          apart_all,
          λ r listed. elim (among r listed) [
            | inl earlier ↦ inl earlier
            | inr later ↦ inr (mem_tail s r nodes later)
          ],
          λ x there. covered x (elim there [
            | inl marked ↦ inl marked
            | inr listed ↦ elim (mem_first s x nodes listed) [
              | inl same ↦ inl (subst (λ e. mem e visited ≡ true) same old)
              | inr later ↦ inr later
            ]
          ]),
        )
    | inr new ↦
        let (marked, done) = flood-ends_count adj visited s in
        let marks' = Marks-flood reps visited marked s done marks in
        let alone : (r : ℕ) → mem r reps ≡ true → ¬ Reaches adj r s = λ r listed way.
          absurd (ground (arith, new, closed-Reaches visited r s marks.0 (marks.2 r listed) way)) in
        let (all, count, apart_all, among, covered) =
          count_loop-Counted nodes marked (s ∷ reps) marks' (alone, apart) in
        (
          all,
          count_loop-flood (suc (degree_sum adj)) s nodes visited marked (length reps) new done
              ∙ count,
          apart_all,
          λ r listed. elim (among r listed) [
            | inl earlier ↦ elim (mem_first s r reps earlier) [
              | inl same ↦ inr (subst (λ e. mem e (s ∷ nodes) ≡ true) same (mem_self s nodes))
              | inr before ↦ inl before
            ]
            | inr later ↦ inr (mem_tail s r nodes later)
          ],
          λ x there. covered x (elim there [
            | inl before ↦
                inl (
                  flood-keeps adj (suc (degree_sum adj)) visited (s ∷ []) marked x done
                    (inl before))
            | inr listed ↦ elim (mem_first s x nodes listed) [
              | inl same ↦
                  inl (subst (λ e. mem e marked ≡ true) same (marks'.2 s (mem_self s reps)))
              | inr later ↦ inr later
            ]
          ]),
        )
  ]

  -- The count ends with the length of a list of nodes, none of which reaches a later one, and each
  -- node is reached by one of them.
  pub count_components-Reaches :
      (reps : List ℕ) × (count_components adj ≡ some (length reps))
      × Apart (Reaches adj) reps
      × ((r : ℕ) → mem r reps ≡ true → r < length adj)
      × ((x : ℕ) → x < length adj → (r : ℕ) × (mem r reps ≡ true) × Reaches adj r x)
  unfolding count_components Counted
  count_components-Reaches =
      let (reps, count, apart, among, covered) =
        count_loop-Counted (indices 0 (length adj)) [] []
          (
            λ x y there joined. absurd (ground (arith, there)),
            λ x there. absurd (ground (arith, there)),
            λ r listed. listed,
          )
          tt in
      (
        reps,
        count,
        apart,
        λ r listed. elim (among r listed) [
          | inl none_left ↦ absurd (ground (arith, none_left))
          | inr node ↦ ground (arith, node, mem-indices 0 (length adj) r)
        ],
        λ x inside. covered x (inr (ground (arith, inside, mem-indices 0 (length adj) x))),
      )
