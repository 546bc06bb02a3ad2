-- ===== src/Nlint/Components/Ends.antt =====
-- crates/oo/src/nlint.rs: a flood ends, by the edges of the nodes that are not marked.
use nlang_tools.Prelude.{
  ℕ, zero, suc, ◌+◌, ◌≤◌, ==_iff, false, if◌then◌else◌, List, [], ◌∷◌, length, some, ◌≡◌, sym, ap,
  ◌∙◌, inl, inr, arith, Bool-cases,
}
use nlang_tools.Nlint.Cliques.{mem, neighbors}
use nlang_tools.Nlint.Components.{push_unvisited, flood, degree_sum}

-- the edges of the nodes that are not marked, from node `i` on
unfoldable pub open_edges : ℕ → List (List ℕ) → List ℕ → ℕ
open_edges i [] visited = 0
open_edges i (ns ∷ adj) visited =
    (if mem i visited then 0 else length ns) + open_edges (suc i) adj visited

pub open_edges-degree_sum :
    (i : ℕ) (adj : List (List ℕ)) (visited : List ℕ) → open_edges i adj visited ≤ degree_sum adj
unfolding open_edges degree_sum
open_edges-degree_sum i [] visited = omega arith
open_edges-degree_sum i (ns ∷ adj) visited =
    ground (arith, open_edges-degree_sum (suc i) adj visited)

open_edges_drops :
    (i : ℕ) (adj : List (List ℕ)) (visited : List ℕ) (u : ℕ)
    → open_edges i adj (u ∷ visited) ≤ open_edges i adj visited
unfolding open_edges
open_edges_drops i [] visited u = omega arith
open_edges_drops i (ns ∷ adj) visited u = ground (arith, open_edges_drops (suc i) adj visited u)

open_edges-mark :
    (i : ℕ) (adj : List (List ℕ)) (visited : List ℕ) (k u : ℕ)
    → i + k ≡ u
    → mem u visited ≡ false
    → length (neighbors adj k) + open_edges i adj (u ∷ visited) ≤ open_edges i adj visited
unfolding open_edges
open_edges-mark i [] visited k u at new = omega arith
open_edges-mark i (ns ∷ adj) visited zero u at new =
    let first : i ≡ u = omega (arith, at) in
    ground (
      arith,
      (==_iff u i).1 (sym first),
      ap (λ e. mem e visited) first ∙ new,
      open_edges_drops (suc i) adj visited u,
    )
open_edges-mark i (ns ∷ adj) visited (suc k) u at new =
    ground (arith, at, open_edges-mark (suc i) adj visited k u (omega (arith, at)) new)

length-push_unvisited :
    (visited ns stack : List ℕ)
    → length (push_unvisited visited ns stack) ≤ length ns + length stack
unfolding push_unvisited
length-push_unvisited visited [] stack = omega arith
length-push_unvisited visited (v ∷ ns) stack =
    ground
      (arith, length-push_unvisited visited ns stack, length-push_unvisited visited ns (v ∷ stack))

pub flood-ends :
    (fuel : ℕ) (adj : List (List ℕ)) (visited stack : List ℕ)
    → length stack + open_edges 0 adj visited ≤ fuel
    → (marked : List ℕ) × (flood fuel adj visited stack ≡ some marked)
unfolding flood
flood-ends fuel adj visited [] enough = (visited, ground arith)
flood-ends zero adj visited (u ∷ stack) enough = absurd (omega (arith, enough))
flood-ends (suc fuel) adj visited (u ∷ stack) enough = elim (Bool-cases (mem u visited)) [
  | inl old ↦ rw old (flood-ends fuel adj visited stack (omega (arith, enough)))
  | inr new ↦ rw new (
      flood-ends fuel adj (u ∷ visited) (push_unvisited (u ∷ visited) (neighbors adj u) stack) (
        omega (
          arith,
          enough,
          length-push_unvisited (u ∷ visited) (neighbors adj u) stack,
          open_edges-mark 0 adj visited u u (omega arith) new,
        )))
]

-- the fuel of a count is enough for each of its floods
pub flood-ends_count :
    (adj : List (List ℕ)) (visited : List ℕ) (s : ℕ)
    → (marked : List ℕ) × (flood (suc (degree_sum adj)) adj visited (s ∷ []) ≡ some marked)
flood-ends_count adj visited s =
    flood-ends (suc (degree_sum adj)) adj visited (s ∷ [])
      (omega (arith, open_edges-degree_sum 0 adj visited))
