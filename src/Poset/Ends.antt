-- ===== src/Poset/Ends.antt =====
-- crates/interpreter/src/eval.rs: without cycles the loop over the queue ends.
use native.Mathlib.Nat.{mul-le-mul_left, mul-le-mul_right}
use nlang_tools.Prelude.{
  ℕ, zero, suc, ◌+◌, ◌*◌, ◌≤◌, ◌<◌, String, Option, none, some, List, [], ◌∷◌, ◌++◌, length, ◌≡◌,
  refl, arith,
}
use nlang_tools.Poset.{
  ValRelation, edge_of, push_edge, successors, Ranks, Queue, set_rank, raised, visit_each,
  rank_loop,
}
use nlang_tools.Prelude.{In, first, later}

-- the rounds for a name of this height, where names have at most `d` successors
unfoldable pub rounds : ℕ → ℕ → ℕ
rounds d zero = 1
rounds d (suc k) = 1 + d * rounds d k

unfoldable pub queue_rounds : ℕ → (String → ℕ) → Queue → ℕ
unfolding rounds
queue_rounds d height [] = 0
queue_rounds d height ((v, r) ∷ queue) = rounds d (height v) + queue_rounds d height queue

-- a name is lower than those that it succeeds
abbrev pub Descends : List ValRelation → (String → ℕ) → Type 0
Descends relations height = (u v : String) → In v (successors relations u) → height v < height u

length-push_edge :
    (o : Option (String × String)) (u : String) (rest : List String)
    → length (push_edge o u rest) ≤ suc (length rest)
length-push_edge none u rest = omega arith
length-push_edge (some (a, b)) u rest = ground arith

length-successors :
    (relations : List ValRelation) (u : String) → length (successors relations u) ≤ length relations
unfolding successors
length-successors [] u = omega arith
length-successors (r ∷ relations) u =
    omega (
      arith,
      length-successors relations u,
      length-push_edge (edge_of r) u (successors relations u),
    )

rounds-positive : (d k : ℕ) → 1 ≤ rounds d k
unfolding rounds
rounds-positive d zero = omega arith
rounds-positive d (suc k) = ground arith

rounds_mono : (d j k : ℕ) → 1 ≤ d → j ≤ k → rounds d j ≤ rounds d k
unfolding rounds
rounds_mono d zero k some_edge less = rounds-positive d k
rounds_mono d (suc j) zero some_edge less = absurd (omega (arith, less))
rounds_mono d (suc j) (suc k) some_edge less =
    omega (arith, mul-le-mul_left d (rounds_mono d j k some_edge (omega (arith, less))))

queue_rounds-last :
    (d : ℕ) (height : String → ℕ) (v : String) (r : ℕ) (queue : Queue)
    → queue_rounds d height (queue ++ ((v, r) ∷ []))
      ≡ rounds d (height v) + queue_rounds d height queue
unfolding queue_rounds
queue_rounds-last d height v r [] = refl
queue_rounds-last d height v r ((w, s) ∷ queue) =
    omega (arith, queue_rounds-last d height v r queue)

queue_rounds-visit :
    (d : ℕ) (height : String → ℕ) (vs : List String) (n bound : ℕ) (ranks : Ranks) (queue : Queue)
    → ((v : String) → In v vs → rounds d (height v) ≤ bound)
    → queue_rounds d height (visit_each vs n ranks queue).1
      ≤ length vs * bound + queue_rounds d height queue
unfolding visit_each queue_rounds
queue_rounds-visit d height [] n bound ranks queue low = ground arith
queue_rounds-visit d height (v ∷ vs) n bound ranks queue low =
    let x = raised (ranks v) n in
    let rest =
      queue_rounds-visit d height vs n bound (set_rank v x ranks) (queue ++ ((v, x) ∷ []))
        (λ w there. low w (later there)) in
    omega (arith, rest, queue_rounds-last d height v x queue, low v first)

-- a name that is taken from the queue stands for more rounds than what it puts there
popped :
    (relations : List ValRelation) (height : String → ℕ) (ranks : Ranks) (u : String) (r h : ℕ)
    (queue : Queue)
    → Descends relations height
    → height u ≡ h
    → queue_rounds
        (suc (length relations))
        height
        (visit_each (successors relations u) (suc r) ranks queue).1
      < rounds (suc (length relations)) h + queue_rounds (suc (length relations)) height queue
unfolding rounds
popped relations height ranks u r zero queue down at_h =
    let spent =
      queue_rounds-visit (suc (length relations)) height (successors relations u) (suc r) 0 ranks
        queue (λ v joined. absurd (omega (arith, at_h, down u v joined))) in
    ground (arith, spent)
popped relations height ranks u r (suc h) queue down at_h =
    let d = suc (length relations) in
    let bound = rounds d h in
    let spent =
      queue_rounds-visit d height (successors relations u) (suc r) bound ranks queue (λ v joined.
        rounds_mono d (height v) h (omega arith) (omega (arith, at_h, down u v joined))) in
    let fewer : length (successors relations u) * bound ≤ d * bound =
      mul-le-mul_right bound (omega (arith, length-successors relations u)) in
    omega (arith, spent, fewer)

pub rank_loop-ends :
    (relations : List ValRelation) (height : String → ℕ) (fuel : ℕ) (ranks : Ranks) (queue : Queue)
    → Descends relations height
    → queue_rounds (suc (length relations)) height queue ≤ fuel
    → (out : Ranks) × (rank_loop fuel relations ranks queue ≡ some out)
unfolding rank_loop queue_rounds
rank_loop-ends relations height fuel ranks [] down enough = (ranks, ground arith)
rank_loop-ends relations height zero ranks ((u, r) ∷ queue) down enough =
    absurd (omega (arith, enough, rounds-positive (suc (length relations)) (height u)))
rank_loop-ends relations height (suc fuel) ranks ((u, r) ∷ queue) down enough =
    rank_loop-ends relations height fuel (visit_each (successors relations u) (suc r) ranks queue).0
      (visit_each (successors relations u) (suc r) ranks queue).1 down
      (omega (arith, enough, popped relations height ranks u r (height u) queue down refl))
