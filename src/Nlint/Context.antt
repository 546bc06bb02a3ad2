-- ===== src/Nlint/Context.antt =====
-- crates/oo/src/nlint.rs: the context graph, from the coordinates that each context owns. A
-- `BTreeSet` of indices is the list of its members in their order, `coord_set` the list of its
-- strings in theirs, and a `Vec` a list.
pub mod Owners
pub mod Sorted
pub mod Edges
pub mod Shared
pub mod Grown
pub mod Listed
pub mod Omega
use text.Mathlib.Text.{◌==◌ as str_eq}
use nlang_tools.Prelude.{
  ℕ, zero, suc, ◌+◌, max, String, Bool, true, false, if◌then◌else◌, List, [], ◌∷◌, length, Option,
  none, some, map, replicate,
}
use nlang_tools.Nlint.Cliques.{mem, insert_index, neighbors, bron_kerbosch}

pub record ContextNode : Type 0 where
  pub coord_path : String
  pub approx_local_key : Bool
  pub file : String
  pub span : ℕ × ℕ
  pub own_coords : List String

-- the index of a coordinate
unfoldable pub coord_index : List String → String → Option ℕ
coord_index [] c = none
coord_index (d ∷ coords) c =
    let rest = coord_index coords c in
    if str_eq d c then some 0 else elim rest [ none ↦ none | some k ↦ some (suc k) ]

-- `sets[k].insert(v)`
unfoldable pub insert_into : List (List ℕ) → ℕ → ℕ → List (List ℕ)
unfolding insert_index
insert_into [] k v = []
insert_into (s ∷ sets) zero v = insert_index v s ∷ sets
insert_into (s ∷ sets) (suc k) v = s ∷ insert_into sets k v

-- the coordinates of each context, and the contexts of each coordinate
pub record Incidence : Type 0 where
  pub incidence : List (List ℕ)
  pub coord_to_contexts : List (List ℕ)

abbrev pub own : ℕ → ℕ → Incidence → Incidence
own ci k m = record {
  incidence = insert_into m.incidence ci k;
  coord_to_contexts = insert_into m.coord_to_contexts k ci;
}

-- a name that is no coordinate is passed over
abbrev pub own_at : ℕ → Option ℕ → Incidence → Incidence
own_at ci none m = m
own_at ci (some k) m = own ci k m

-- the inner loop, over the coordinates of context `ci`
unfoldable pub own_loop : List String → ℕ → List String → Incidence → Incidence
unfolding coord_index insert_into
own_loop coords ci [] m = m
own_loop coords ci (c ∷ cs) m = own_loop coords ci cs (own_at ci (coord_index coords c) m)

unfoldable pub incidence_loop : List String → ℕ → List ContextNode → Incidence → Incidence
unfolding own_loop
incidence_loop coords ci [] m = m
incidence_loop coords ci (ctx ∷ contexts) m =
    incidence_loop coords (suc ci) contexts (own_loop coords ci ctx.own_coords m)

unfoldable pub incidence_of : List String → List ContextNode → Incidence
unfolding incidence_loop
incidence_of coords contexts = incidence_loop coords 0 contexts (record {
  incidence = replicate (length contexts) [];
  coord_to_contexts = replicate (length coords) [];
})

-- `edges` counts the insertions into `adj[a]` that are new
abbrev pub Graph : Type 0
Graph = List (List ℕ) × ℕ

unfoldable pub join_pair : ℕ → ℕ → Graph → Graph
unfolding insert_into
join_pair a b (adj, edges) =
    (insert_into (insert_into adj a b) b a, if mem b (neighbors adj a) then edges else suc edges)

-- the loop over `j`
unfoldable pub join_each : ℕ → List ℕ → Graph → Graph
unfolding join_pair
join_each a [] g = g
join_each a (b ∷ bs) g = join_each a bs (join_pair a b g)

-- the loop over `i`
unfoldable pub join_all : List ℕ → Graph → Graph
unfolding join_each
join_all [] g = g
join_all (a ∷ cs) g = join_all cs (join_each a cs g)

-- the loop over the coordinates
unfoldable pub join_owners : List (List ℕ) → Graph → Graph
unfolding join_all
join_owners [] g = g
join_owners (cs ∷ owners) g = join_owners owners (join_all cs g)

unfoldable pub context_graph : List String → List ContextNode → Graph
unfolding join_owners incidence_of
context_graph coords contexts =
    join_owners (incidence_of coords contexts).coord_to_contexts (replicate (length contexts) [], 0)

-- the greatest length, 0 where there is none
unfoldable pub max_len : List (List ℕ) → ℕ
max_len [] = 0
max_len (c ∷ cs) = max (length c) (max_len cs)

unfoldable pub omega_of : List (List ℕ) → ℕ
unfolding bron_kerbosch max_len
omega_of adj = max_len (bron_kerbosch adj)
