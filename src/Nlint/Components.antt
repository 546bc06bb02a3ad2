-- ===== src/Nlint/Components.antt =====
-- crates/oo/src/nlint.rs: the number of components of the context graph. `visited` is the list of
-- the nodes that are marked, the last one first, and the head of a stack is the end of the `Vec`.
pub mod Flood
pub mod Ends
pub mod Groups
pub mod Linked
use nlang_tools.Prelude.{
  ℕ, zero, suc, ◌+◌, Bool, if◌then◌else◌, List, [], ◌∷◌, length, Option, none, some,
}
use nlang_tools.Nlint.Cliques.{mem, neighbors, indices}

-- the loop over the neighbours
unfoldable pub push_unvisited : List ℕ → List ℕ → List ℕ → List ℕ
push_unvisited visited [] stack = stack
push_unvisited visited (v ∷ ns) stack =
    push_unvisited visited ns (if mem v visited then stack else v ∷ stack)

-- the loop over the stack; `none`: the fuel ran out
unfoldable pub flood : ℕ → List (List ℕ) → List ℕ → List ℕ → Option (List ℕ)
unfolding push_unvisited
flood fuel adj visited [] = some visited
flood zero adj visited (u ∷ stack) = none
flood (suc fuel) adj visited (u ∷ stack) =
    let skipped = flood fuel adj visited stack in
    let spread =
      flood fuel adj (u ∷ visited) (push_unvisited (u ∷ visited) (neighbors adj u) stack) in
    if mem u visited then skipped else spread

-- the loop over the nodes
unfoldable pub count_loop : ℕ → List (List ℕ) → List ℕ → List ℕ → ℕ → Option ℕ
unfolding flood
count_loop fuel adj [] visited comps = some comps
count_loop fuel adj (s ∷ nodes) visited comps =
    let old = count_loop fuel adj nodes visited comps in
    let new : Option ℕ = elim (flood fuel adj visited (s ∷ [])) [
      | none ↦ none
      | some marked ↦ count_loop fuel adj nodes marked (suc comps)
    ] in
    if mem s visited then old else new

unfoldable pub degree_sum : List (List ℕ) → ℕ
degree_sum [] = 0
degree_sum (ns ∷ adj) = length ns + degree_sum adj

-- A node is pushed at most once for each of its edges, and once as a start.
unfoldable pub count_components : List (List ℕ) → Option ℕ
unfolding count_loop degree_sum indices
count_components adj = count_loop (suc (degree_sum adj)) adj (indices 0 (length adj)) [] 0
