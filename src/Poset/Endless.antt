-- ===== src/Poset/Endless.antt =====
-- crates/interpreter/src/eval.rs: the loop over the queue does not end on a cycle that it reaches.
use nlang_tools.Prelude.{ℕ, zero, suc, String, none, List, [], ◌∷◌, ◌++◌, ◌≡◌, ◌⊎◌, refl, inl, inr}
use nlang_tools.Poset.{
  ValRelation, successors, Ranks, Queue, set_rank, raised, visit_each, rank_loop,
}
use nlang_tools.Prelude.{In, first, later, append-left, append-last}

-- the name is on the queue, with some rank
abbrev pub Waits : String → Queue → Type 0
Waits u queue = (r : ℕ) × In (u, r) queue

Waits-visit :
    (vs : List String) (n : ℕ) (ranks : Ranks) (queue : Queue) (u : String)
    → Waits u queue ⊎ In u vs
    → Waits u (visit_each vs n ranks queue).1
unfolding visit_each
Waits-visit [] n ranks queue u (inl waits) = waits
Waits-visit [] n ranks queue u (inr there) = elim there [ ]
Waits-visit (v ∷ vs) n ranks queue u (inl (r, there)) =
    let x = raised (ranks v) n in
    Waits-visit vs n (set_rank v x ranks) (queue ++ ((v, x) ∷ [])) u
      (inl (r, append-left (u, r) queue ((v, x) ∷ []) there))
Waits-visit (v ∷ vs) n ranks queue u (inr first) =
    let x = raised (ranks v) n in
    Waits-visit vs n (set_rank v x ranks) (queue ++ ((v, x) ∷ [])) v
      (inl (x, append-last (v, x) queue))
Waits-visit (v ∷ vs) n ranks queue u (inr (later there)) =
    let x = raised (ranks v) n in
    Waits-visit vs n (set_rank v x ranks) (queue ++ ((v, x) ∷ [])) u (inr there)

-- Where a name on the queue has a walk that goes on for ever, as one has that reaches a cycle, no
-- fuel is enough.
pub rank_loop-endless :
    (relations : List ValRelation) (way : ℕ → String) (fuel : ℕ) (ranks : Ranks) (queue : Queue)
    → ((k : ℕ) → In (way (suc k)) (successors relations (way k)))
    → Waits (way 0) queue
    → rank_loop fuel relations ranks queue ≡ none
unfolding rank_loop
rank_loop-endless relations way fuel ranks [] on (r, there) = elim there [ ]
rank_loop-endless relations way zero ranks (q ∷ queue) on waits = refl
rank_loop-endless relations way (suc fuel) ranks ((u, r) ∷ queue) on (k, first) =
    rank_loop-endless relations (λ i. way (suc i)) fuel
      (visit_each (successors relations u) (suc r) ranks queue).0
      (visit_each (successors relations u) (suc r) ranks queue).1 (λ i. on (suc i))
      (Waits-visit (successors relations u) (suc r) ranks queue (way 1) (inr (on 0)))
rank_loop-endless relations way (suc fuel) ranks ((u, r) ∷ queue) on (k, later there) =
    rank_loop-endless relations way fuel (visit_each (successors relations u) (suc r) ranks queue).0
      (visit_each (successors relations u) (suc r) ranks queue).1 on
      (Waits-visit (successors relations u) (suc r) ranks queue (way 0) (inl (k, there)))
