-- ===== src/Poset/Loop.antt =====
-- crates/interpreter/src/eval.rs: what the loop over the queue leaves.
use nlang_tools.Prelude.{
  ℕ, zero, suc, ◌≤◌, String, some, List, [], ◌∷◌, ◌≡◌, ◌⊎◌, inl, inr, arith, subst,
}
use mathlib.Core.Option.{some-injective}
use nlang_tools.Poset.{ValRelation, successors, Ranks, Queue, visit_each, rank_loop}
use nlang_tools.Poset.Walks.{
  AtLeast, AtLeast-visit, Walk, start, step, Sound, visit_each-Sound, Carried, visit_each-Carried,
}
use nlang_tools.Prelude.{In, first, later}

module _ (relations : List ValRelation) (starts : List String) (c : ℕ) where
  -- the head of the queue is still to be carried on to its successors
  Carried-popped :
      (n : ℕ) (ranks : Ranks) (u : String) (r : ℕ) (queue : Queue)
      → Carried relations starts c [] n ranks ((u, r) ∷ queue)
      → Carried relations starts c (successors relations u) (suc r) ranks queue
  Carried-popped n ranks u r queue carried v k known = popped v k (carried v k known)
    where
      popped :
          (v : String) (k : ℕ)
          → In (v, k) ((u, r) ∷ queue)
            ⊎ ((w : String)
                → In w (successors relations v)
                → (In w [] × (suc k ≤ n)) ⊎ AtLeast ranks w (suc k))
          → In (v, k) queue
            ⊎ ((w : String)
                → In w (successors relations v)
                → (In w (successors relations u) × (suc k ≤ suc r)) ⊎ AtLeast ranks w (suc k))
      popped v k (inl first) = inr (λ w joined. inl (joined, omega arith))
      popped v k (inl (later below)) = inl below
      popped v k (inr on) = inr (λ w joined. elim (on w joined) [
        | inl (there, less) ↦ elim there [ ]
        | inr enough ↦ inr enough
      ])

  -- what a loop that ends leaves
  abbrev pub Left : Ranks → Ranks → Type 0
  Left ranks out =
      ((v : String) (r : ℕ) → out v ≡ some r → Walk relations starts c v r)
      × ((v : String) (r : ℕ)
          → out v ≡ some r
          → (w : String) → In w (successors relations v)
          → AtLeast out w (suc r))
      × ((w : String) (k : ℕ) → AtLeast ranks w k → AtLeast out w k)

  pub rank_loop-Left :
      (fuel n : ℕ) (ranks out : Ranks) (queue : Queue)
      → rank_loop fuel relations ranks queue ≡ some out
      → Sound relations starts c ranks queue
      → Carried relations starts c [] n ranks queue
      → Left ranks out
  unfolding rank_loop
  rank_loop-Left fuel n ranks out [] done sound carried =
      subst (Left ranks) (some-injective ranks out done) (
        sound.0,
        λ v r known w joined. elim (carried v r known) [
          | inl there ↦ elim there [ ]
          | inr on ↦ elim (on w joined) [ inl (there, less) ↦ elim there [ ] | inr enough ↦ enough ]
        ],
        λ w k enough. enough,
      )
  rank_loop-Left zero n ranks out ((u, r) ∷ queue) done sound carried =
      absurd (ground (arith, done))
  rank_loop-Left (suc fuel) n ranks out ((u, r) ∷ queue) done sound carried =
      let vs = successors relations u in
      let left =
        rank_loop-Left fuel (suc r) (visit_each vs (suc r) ranks queue).0 out
          (visit_each vs (suc r) ranks queue).1 done
          (visit_each-Sound relations starts c vs (suc r) ranks queue
            (λ v joined. step (sound.1 u r first) joined)
            (sound.0, λ v k there. sound.1 v k (later there)))
          (visit_each-Carried relations starts c vs (suc r) ranks queue
            (Carried-popped n ranks u r queue carried)) in
      (left.0, left.1, λ w k enough. left.2 w k (AtLeast-visit vs (suc r) ranks queue w k enough))

  -- a walk ends at a rank that is great enough
  pub Walk-AtLeast :
      (out : Ranks)
      → ((v : String) (r : ℕ)
          → out v ≡ some r
          → (w : String) → In w (successors relations v)
          → AtLeast out w (suc r))
      → ((s : String) → In s starts → AtLeast out s c)
      → (v : String) (k : ℕ) → Walk relations starts c v k
      → AtLeast out v k
  Walk-AtLeast out closed started v k (start there) = started v there
  Walk-AtLeast out closed started v k (step {u = u} {r = r} walk joined) =
      let (r', known, enough) = Walk-AtLeast out closed started u r walk in
      let (top, at_top, more) = closed u r' known v joined in
      (top, at_top, omega (arith, enough, more))
