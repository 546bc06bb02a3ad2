-- ===== src/Poset.antt =====
-- crates/interpreter/src/eval.rs: the ranks of the members of an order literal, `compute_ranks`. A
-- map is the function of its lookups, a set of names the list of its members in the order of their
-- insertion, and a rank a natural number.
pub mod Walks
pub mod Order
pub mod Members
pub mod Starts
pub mod Loop
pub mod Endless
pub mod Ends
pub mod Ranked
mod Tests
use text.Mathlib.Text.{◌==◌ as str_eq}
use nlang_tools.Prelude.{
  ℕ, zero, suc, ◌+◌, ltb, String, Bool, true, false, not, ◌||◌, if◌then◌else◌, Option, none, some,
  List, [], ◌∷◌, ◌++◌, map, length,
}

pub data ValRelOp : Type 0 where
  lt gt lte gte eq : ValRelOp

pub record ValRelation : Type 0 where
  pub left : String
  pub op : ValRelOp
  pub right : String

-- the edge of a relation, from the lower member to the higher one
abbrev pub edge_of : ValRelation → Option (String × String)
edge_of r = elim r.op [
  | lt ↦ some (r.left, r.right)
  | lte ↦ some (r.left, r.right)
  | gt ↦ some (r.right, r.left)
  | gte ↦ some (r.right, r.left)
  | eq ↦ none
]

abbrev pub listed : String → List String → Bool
listed n [] = false
listed n (m ∷ names) = str_eq m n || listed n names

abbrev pub insert_name : String → List String → List String
insert_name n names = if listed n names then names else names ++ (n ∷ [])

unfoldable pub nodes_from : List ValRelation → List String → List String
nodes_from [] nodes = nodes
nodes_from (r ∷ relations) nodes =
    nodes_from relations (insert_name r.right (insert_name r.left nodes))

-- `adj[a].push(b)`, as the lookup of `u` sees it
abbrev pub push_edge : Option (String × String) → String → List String → List String
push_edge none u rest = rest
push_edge (some (a, b)) u rest = if str_eq a u then b ∷ rest else rest

-- `adj[u]`
unfoldable pub successors : List ValRelation → String → List String
successors [] u = []
successors (r ∷ relations) u = push_edge (edge_of r) u (successors relations u)

unfoldable pub has_incoming : List ValRelation → String → Bool
has_incoming [] n = false
has_incoming (r ∷ relations) n =
    let rest = has_incoming relations n in
    elim (edge_of r) [ none ↦ rest | some (a, b) ↦ str_eq b n || rest ]

unfoldable pub equalities : List ValRelation → List (String × String)
equalities [] = []
equalities (r ∷ relations) =
    let rest = equalities relations in
    elim (edge_of r) [ none ↦ (r.left, r.right) ∷ rest | some e ↦ rest ]

abbrev pub Ranks : Type 0
Ranks = String → Option ℕ

unfoldable pub set_rank : String → ℕ → Ranks → Ranks
set_rank n rank ranks m = if str_eq n m then some rank else ranks m

-- `or_insert`, and the greater one
abbrev pub raised : Option ℕ → ℕ → ℕ
raised none new_r = new_r
raised (some cur_r) new_r = if ltb cur_r new_r then new_r else cur_r

abbrev pub Queue : Type 0
Queue = List (String × ℕ)

-- the loop over the neighbours
unfoldable pub visit_each : List String → ℕ → Ranks → Queue → Ranks × Queue
unfolding set_rank
visit_each [] new_r ranks queue = (ranks, queue)
visit_each (v ∷ vs) new_r ranks queue =
    let cur_r = raised (ranks v) new_r in
    visit_each vs new_r (set_rank v cur_r ranks) (queue ++ ((v, cur_r) ∷ []))

-- the loop over the queue; `none`: the fuel ran out
unfoldable pub rank_loop : ℕ → List ValRelation → Ranks → Queue → Option Ranks
unfolding visit_each successors
rank_loop fuel relations ranks [] = some ranks
rank_loop zero relations ranks ((u, r) ∷ queue) = none
rank_loop (suc fuel) relations ranks ((u, r) ∷ queue) =
    let visited = visit_each (successors relations u) (suc r) ranks queue in
    rank_loop fuel relations visited.0 visited.1

abbrev pub bottom_tag : String
bottom_tag = "#_|_"

unfoldable pub sources : List ValRelation → List String → List String
unfolding has_incoming
sources relations [] = []
sources relations (n ∷ nodes) =
    let rest = sources relations nodes in if has_incoming relations n then rest else n ∷ rest

-- the names that the queue starts with
unfoldable pub start_names : List ValRelation → List String
unfolding nodes_from sources
start_names relations =
    if listed bottom_tag (nodes_from relations [])
    then bottom_tag ∷ []
    else sources relations (nodes_from relations [])

-- the rank that they start with
unfoldable pub start_rank : List ValRelation → ℕ
unfolding nodes_from
start_rank relations = if listed bottom_tag (nodes_from relations []) then 0 else 1

unfoldable pub rank_all : ℕ → List String → Ranks
rank_all rank names n = if listed n names then some rank else none

-- the loop over the equations, with whether it has changed the ranks
unfoldable pub share_ranks : List (String × String) → Ranks → Bool → Ranks × Bool
unfolding set_rank
share_ranks [] ranks changed = (ranks, changed)
share_ranks ((a, b) ∷ eqs) ranks changed = elim (ranks a) [
  | some ra ↦ elim (ranks b) [
    | some rb ↦ share_ranks eqs ranks changed
    | none ↦ share_ranks eqs (set_rank b ra ranks) true
  ]
  | none ↦ elim (ranks b) [
    | some rb ↦ share_ranks eqs (set_rank a rb ranks) true
    | none ↦ share_ranks eqs ranks changed
  ]
]

unfoldable pub share_loop : ℕ → List (String × String) → Ranks → Option Ranks
unfolding share_ranks
share_loop zero eqs ranks = none
share_loop (suc fuel) eqs ranks =
    let shared = share_ranks eqs ranks false in
    let again = share_loop fuel eqs shared.0 in if shared.1 then again else some shared.0

-- the loop over the equations, whose fuel counts the names in them
unfoldable pub then_share : List (String × String) → Option Ranks → Option Ranks
unfolding share_loop
then_share eqs none = none
then_share eqs (some ranks) = share_loop (suc (length eqs + length eqs)) eqs ranks

unfoldable pub compute_ranks : ℕ → List ValRelation → Option Ranks
unfolding rank_loop start_names start_rank rank_all equalities then_share
compute_ranks fuel relations = then_share (equalities relations) (
    rank_loop fuel relations (rank_all (start_rank relations) (start_names relations))
      (map (λ n. (n, start_rank relations)) (start_names relations)))
