-- ===== src/Nlint/Combinations.antt =====
-- crates/oo/src/nlint.rs: the sets of `k` members of a clique, `combinations`. A `BTreeSet` of
-- indices is the list of its members in their order. The places in `idx` are all in range.
pub mod Counting
pub mod Sublists
use nlang_tools.Prelude.{
  ℕ, zero, suc, ◌-◌, ◌^◌, ltb, if◌then◌else◌, List, [], ◌∷◌, length, map, Option, none, some,
}
use nlang_tools.Nlint.Cliques.{insert_index, indices}

unfoldable pub item_at : List ℕ → ℕ → ℕ
item_at [] i = 0
item_at (x ∷ items) zero = x
item_at (x ∷ items) (suc i) = item_at items i

-- `collect` into a set
unfoldable pub collect : List ℕ → List ℕ
unfolding insert_index
collect [] = []
collect (x ∷ xs) = insert_index x (collect xs)

-- The search for a place to count up goes from the end of `idx` to its start: `n - k + ii` is `n`
-- less the number of places from `ii` on.
unfoldable pub increment : ℕ → List ℕ → Option (List ℕ)
unfolding indices
increment n [] = none
increment n (i ∷ idx) = elim (increment n idx) [
  | some later ↦ some (i ∷ later)
  | none ↦ if ltb i (n - suc (length idx)) then some (indices (suc i) (suc (length idx))) else none
]

abbrev pub add_first : List ℕ → Option (List (List ℕ)) → Option (List (List ℕ))
add_first set none = none
add_first set (some rest) = some (set ∷ rest)

-- `out.push(set)`, and the loop goes on unless nothing could be counted up
abbrev pub push_set :
    List ℕ → (List ℕ → Option (List (List ℕ))) → Option (List ℕ) → Option (List (List ℕ))
push_set set go_on none = some (set ∷ [])
push_set set go_on (some idx) = add_first set (go_on idx)

-- `none`: the fuel ran out
unfoldable pub combinations_loop : ℕ → List ℕ → List ℕ → Option (List (List ℕ))
unfolding increment collect item_at
combinations_loop zero items idx = none
combinations_loop (suc fuel) items idx =
    push_set (collect (map (item_at items) idx)) (combinations_loop fuel items)
      (increment (length items) idx)

-- There are no more sets than all sets of the items.
unfoldable pub combinations : List ℕ → ℕ → Option (List (List ℕ))
unfolding combinations_loop
combinations items k =
    if ltb (length items) k
    then some []
    else combinations_loop (2 ^ length items) items (indices 0 k)
