-- ===== src/Poset/Ranked.antt =====
-- crates/interpreter/src/eval.rs: the ranks that `compute_ranks` gives, and runs of it without an end.
use mathlib.Core.Option.{some-injective}
use nlang_tools.Prelude.{
  ℕ, suc, ◌≤◌, String, Option, none, some, List, [], ◌∷◌, map, length, ◌≡◌, refl, sym, ap, ◌∙◌,
  subst, inl, inr, arith, Bool-cases, Option-cases, In, first, later, All,
}
use nlang_tools.Poset.{
  ValRelation, successors, listed, Ranks, Queue, rank_all, start_names, start_rank, equalities,
  share_ranks, share_loop, then_share, compute_ranks,
}
use nlang_tools.Poset.Walks.{Walk, start, Sound, Carried}
use nlang_tools.Poset.Order.{Falls, Falls-Below, successors-Below, equalities-Falls}
use nlang_tools.Poset.Starts.{Climb, Walk-Climb, Climb-Walk}
use nlang_tools.Poset.Members.{listed-In, In-listed}
use nlang_tools.Poset.Loop.{Left, rank_loop-Left, Walk-AtLeast}
use nlang_tools.Poset.Ends.{queue_rounds, rank_loop-ends}
use nlang_tools.Poset.Endless.{rank_loop-endless}

abbrev pub start_queue : ℕ → List String → Queue
start_queue c names = map (λ n. (n, c)) names

In-start_queue :
    (c : ℕ) (names : List String) (n : String) → In n names → In (n, c) (start_queue c names)
In-start_queue c [] n there = elim there [ ]
In-start_queue c (m ∷ names) n first = first
In-start_queue c (m ∷ names) n (later there) = later (In-start_queue c names n there)

start_queue-In :
    (c : ℕ) (names : List String) (n : String) (r : ℕ)
    → In (n, r) (start_queue c names)
    → In n names × (c ≡ r)
start_queue-In c [] n r there = elim there [ ]
start_queue-In c (m ∷ names) n r first = (first, refl)
start_queue-In c (m ∷ names) n r (later there) =
    let (below, same) = start_queue-In c names n r there in (later below, same)

rank_all-known :
    (c : ℕ) (names : List String) (n : String) (r : ℕ)
    → rank_all c names n ≡ some r
    → In n names × (c ≡ r)
unfolding rank_all
rank_all-known c names n r known = elim (Bool-cases (listed n names)) [
  | inl there ↦ (listed-In names n there, some-injective c r (ground (arith, known, there)))
  | inr gone ↦ absurd (ground (arith, known, gone))
]

rank_all-In : (c : ℕ) (names : List String) (n : String) → In n names → rank_all c names n ≡ some c
unfolding rank_all
rank_all-In c names n there = rw (In-listed names n there) refl

-- the rank of a member is the greatest number to which a way climbs, and there is none for a name to
-- which no way leads
abbrev pub IsRank : List ValRelation → String → Option ℕ → Type 0
IsRank relations v none = (k : ℕ) → ¬ Climb relations v k
IsRank relations v (some r) = Climb relations v r × ((k : ℕ) → Climb relations v k → k ≤ r)

-- without equations there is nothing to share
then_share-nothing :
    (eqs : List (String × String)) (ranks : Ranks)
    → eqs ≡ []
    → then_share eqs (some ranks) ≡ some ranks
unfolding then_share share_loop share_ranks
then_share-nothing [] ranks none_left = refl
then_share-nothing (e ∷ eqs) ranks none_left = absurd (ground (arith, none_left))

module _ (relations : List ValRelation) where
  abbrev pub IsWalk : String → ℕ → Type 0
  IsWalk = Walk relations (start_names relations) (start_rank relations)

  abbrev start_ranks : Ranks
  start_ranks = rank_all (start_rank relations) (start_names relations)

  abbrev first_queue : Queue
  first_queue = start_queue (start_rank relations) (start_names relations)

  -- rounds that are enough where the edges fall in height
  abbrev pub enough_rounds : (String → ℕ) → ℕ
  enough_rounds height =
      queue_rounds (suc (length relations)) height
        (start_queue (start_rank relations) (start_names relations))

  starts-Sound :
      Sound relations (start_names relations) (start_rank relations) start_ranks first_queue
  starts-Sound = (
    λ v r known.
        let (there, same) =
          rank_all-known (start_rank relations) (start_names relations) v r known in
        subst (IsWalk v) same (start there),
    λ v r waits.
        let (there, same) =
          start_queue-In (start_rank relations) (start_names relations) v r waits in
        subst (IsWalk v) same (start there),
  )

  starts-Carried :
      Carried relations (start_names relations) (start_rank relations) [] 0 start_ranks first_queue
  starts-Carried v r known =
      let (there, same) = rank_all-known (start_rank relations) (start_names relations) v r known in
      inl (
        subst (λ e. In (v, e) first_queue) same
          (In-start_queue (start_rank relations) (start_names relations) v there))

  known-IsRank :
      (found : Ranks)
      → Left relations (start_names relations) (start_rank relations) start_ranks found
      → (v : String) → IsRank relations v (found v)
  known-IsRank found (sound, closed, kept) v =
      let reach =
        Walk-AtLeast relations (start_names relations) (start_rank relations) found closed
          (λ s there. kept s (start_rank relations) (
            start_rank relations,
            rank_all-In (start_rank relations) (start_names relations) s there,
            omega arith,
          )) in
      elim (Option-cases (found v)) [
        | inl blank ↦ subst (IsRank relations v) (sym blank) (λ k climb.
            let (r, known, more) = reach v k (Climb-Walk relations v k climb) in
            absurd (ground (arith, blank, known)))
        | inr (r, known) ↦ subst (IsRank relations v) (sym known) (
          Walk-Climb relations v r (sound v r known),
          λ k climb.
              let (top, at_top, more) = reach v k (Climb-Walk relations v k climb) in
              omega (arith, more, some-injective r top (sym known ∙ at_top)),
        )
      ]

  -- Where the relations are `<`, `<=`, `>` and `>=`, and a height of the members falls from the lower
  -- member of each to the higher one, the derivation of ranks ends, with fuel for the rounds that
  -- this height bounds. The rank of a name is then the greatest number to which a way climbs that
  -- goes from lower to higher members, by 1 for each relation: from `#_|_` with 0 if that is a
  -- member, and else from the members with nothing below them with 1. A name to which no way leads
  -- has no rank.
  pub compute_ranks-IsRank :
      (height : String → ℕ) (fuel : ℕ)
      → All (Falls height) relations
      → enough_rounds height ≤ fuel
      → (ranks : Ranks) × (compute_ranks fuel relations ≡ some ranks)
        × ((v : String) → IsRank relations v (ranks v))
  unfolding compute_ranks
  compute_ranks-IsRank height fuel down enough =
      let names = start_names relations in
      let c = start_rank relations in
      let (found, done) =
        rank_loop-ends relations height fuel start_ranks first_queue
          (λ u v joined.
            Falls-Below height relations u v down ((successors-Below relations u v).0 joined))
          enough in
      (
        found,
        ap (then_share (equalities relations)) done
            ∙ then_share-nothing (equalities relations) found
                (equalities-Falls height relations down),
        known-IsRank found (
            rank_loop-Left relations names c fuel 0 start_ranks found first_queue done starts-Sound
              starts-Carried),
      )

  -- Where a walk that starts at one of the members that are ranked first goes on for ever, as it does
  -- on a cycle, the derivation of ranks does not end with any fuel.
  pub compute_ranks-endless :
      (way : ℕ → String) (fuel : ℕ)
      → In (way 0) (start_names relations)
      → ((k : ℕ) → In (way (suc k)) (successors relations (way k)))
      → compute_ranks fuel relations ≡ none
  unfolding compute_ranks then_share
  compute_ranks-endless way fuel started on = ap (then_share (equalities relations)) (
      rank_loop-endless relations way fuel start_ranks first_queue on (
        start_rank relations,
        In-start_queue (start_rank relations) (start_names relations) (way 0) started,
      ))
