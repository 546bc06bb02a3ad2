-- ===== src/Nlint/Tests.antt =====
-- crates/oo/src/nlint.rs: runs of the graph part.
use nlang_tools.Prelude.{
  ℕ, zero, suc, ◌<◌, ◌==◌, Bool, true, false, ◌||◌, List, [], ◌∷◌, All, ◌≡◌, refl, arith,
}
use nlang_tools.Nlint.Cliques.{
  mem, neighbors, insert_index, keep, branch, bron_kerbosch_inner, indices, bron_kerbosch,
}
use nlang_tools.Nlint.Cliques.Sound.{IsSymmetric, IsMaximal, bron_kerbosch-IsMaximal}
use nlang_tools.Nlint.Cliques.Complete.{IsIrreflexive, Apart, Found, bron_kerbosch-Found}
use nlang_tools.Prelude.{String, ◌↔◌, ◌≤◌, length}
use nlang_tools.Nlint.Context.{
  ContextNode, coord_index, insert_into, own_loop, incidence_loop, incidence_of, join_pair,
  join_each, join_all, join_owners, context_graph, omega_of,
}
use nlang_tools.Nlint.Context.Shared.{Shares, context_graph-Shares}
use nlang_tools.Nlint.Context.Omega.{IsContextClique, omega_of-greatest}
use text.Mathlib.Text.{◌==◌ as str_eq}
use nlang_tools.Prelude.{◌+◌, none, some, ◌⊎◌, map}
use nlang_tools.Nlint.Components.{push_unvisited, flood, count_loop, degree_sum, count_components}
use nlang_tools.Nlint.Combinations.{item_at, collect, increment, combinations_loop, combinations}
use nlang_tools.Nlint.Combinations.Counting.{sublists}
use nlang_tools.Nlint.Combinations.Sublists.{combinations-sublists}
use nlang_tools.Nlint.Components.Groups.{Apart as PairwiseApart}
use nlang_tools.Nlint.Components.Linked.{Linked, count_components-Linked}
use nlang_tools.Parser.Ast.{
  Expr, node, context as current, Fields, no_fields, and_field, Field, field, FieldKey, named,
}
use nlang_tools.Nlint.Repeated.{
  r6_emit, check_r6_combo_fields, collect_occurrences, emit_all, contributions, literal_keys,
  r6_key_spelling, push_all, push_occurrence,
}
use nlang_tools.Parser.Ast.{Program, combo}
use nlang_tools.Nlint.Repeated.Walk.{walk_r6_collision}
use nlang_tools.Nlint.Repeated.Walk.Containers.{HoldsFields}
use nlang_tools.Nlint.Repeated.Walk.Everywhere.{Reported, ComesFrom, walk_r6_collision-ComesFrom}
use nlang_tools.Prelude.{decimal}
use nlang_tools.Parser.Ast.{tuple, no_exprs, and_expr, quoted, kind}
use nlang_tools.Nlint.Sealed.{positions, gather, extra_keys, check_r3}
use nlang_tools.Nlint.Sealed.Missing.{is_reported, is_uncertain, names_key}
use nlang_tools.Nlint.Sealed.Lacks.{is_sealed, HasKey, check_r3-lacks}
use nlang_tools.Parser.Tier.{classify_rhs, classify_kind}

-- two nodes with an edge, and one beside them
abbrev pair_and_one : List (List ℕ)
pair_and_one = (1 ∷ []) ∷ (0 ∷ []) ∷ [] ∷ []

bron_kerbosch_pair : bron_kerbosch pair_and_one ≡ (0 ∷ 1 ∷ []) ∷ (2 ∷ []) ∷ []
unfolding insert_index keep branch bron_kerbosch_inner indices bron_kerbosch
bron_kerbosch_pair = refl

pair-IsSymmetric : IsSymmetric pair_and_one
pair-IsSymmetric zero zero edge = absurd (ground (arith, edge))
pair-IsSymmetric zero (suc zero) edge = refl
pair-IsSymmetric zero (suc (suc b)) edge = absurd (ground (arith, edge))
pair-IsSymmetric (suc zero) zero edge = refl
pair-IsSymmetric (suc zero) (suc b) edge = absurd (ground (arith, edge))
pair-IsSymmetric (suc (suc zero)) b edge = absurd (ground (arith, edge))
pair-IsSymmetric (suc (suc (suc a))) b edge = absurd (ground (arith, edge))

pair-IsIrreflexive : IsIrreflexive pair_and_one
pair-IsIrreflexive zero = refl
pair-IsIrreflexive (suc zero) = refl
pair-IsIrreflexive (suc (suc zero)) = refl
pair-IsIrreflexive (suc (suc (suc a))) = refl

bron_kerbosch-IsMaximal_example : All (IsMaximal pair_and_one) (bron_kerbosch pair_and_one)
bron_kerbosch-IsMaximal_example = bron_kerbosch-IsMaximal pair_and_one pair-IsSymmetric

abbrev pair : ℕ → Bool
pair e = e == 0 || e == 1

pair_clique :
    (a b : ℕ)
    → pair a ≡ true
    → pair b ≡ true
    → (a == b) ≡ false
    → mem b (neighbors pair_and_one a) ≡ true
pair_clique zero zero in_a in_b differ = absurd (ground (arith, differ))
pair_clique zero (suc zero) in_a in_b differ = refl
pair_clique zero (suc (suc b)) in_a in_b differ = absurd (ground (arith, in_b))
pair_clique (suc zero) zero in_a in_b differ = refl
pair_clique (suc zero) (suc zero) in_a in_b differ = absurd (ground (arith, differ))
pair_clique (suc zero) (suc (suc b)) in_a in_b differ = absurd (ground (arith, in_b))
pair_clique (suc (suc a)) b in_a in_b differ = absurd (ground (arith, in_a))

pair_maximal : (e : ℕ) → e < 3 → pair e ≡ false → Apart pair_and_one pair e
pair_maximal zero below outside = absurd (ground (arith, outside))
pair_maximal (suc zero) below outside = absurd (ground (arith, outside))
pair_maximal (suc (suc zero)) below outside = (0, refl, refl)
pair_maximal (suc (suc (suc e))) below outside = absurd (omega (arith, below))

bron_kerbosch-Found_example : Found [] pair (bron_kerbosch pair_and_one)
bron_kerbosch-Found_example =
    bron_kerbosch-Found pair_and_one pair-IsSymmetric pair-IsIrreflexive pair
      (λ e chosen. ground (arith, chosen)) pair_clique pair_maximal

abbrev context : List String → ContextNode
context own = record {
  coord_path = "$";
  approx_local_key = false;
  file = "a.n";
  span = (0, 0);
  own_coords = own;
}

-- the first two contexts share `x`, the last two `y`
abbrev three_contexts : List ContextNode
three_contexts = context ("x" ∷ []) ∷ context ("x" ∷ "y" ∷ []) ∷ context ("y" ∷ []) ∷ []

abbrev names : List String
names = "x" ∷ "y" ∷ []

three_graph : context_graph names three_contexts ≡ ((1 ∷ []) ∷ (0 ∷ 2 ∷ []) ∷ (1 ∷ []) ∷ [], 2)
unfolding context_graph incidence_of incidence_loop own_loop coord_index insert_into insert_index
    join_owners join_all join_each join_pair
three_graph = refl

context_graph-Shares_example :
    (mem 2 (neighbors (context_graph names three_contexts).0 0) ≡ true)
    ↔ (((0 == 2) ≡ false) × Shares names three_contexts 0 2)
context_graph-Shares_example = context_graph-Shares names three_contexts 0 2

omega_of-greatest_example :
    ((c : List ℕ) × IsContextClique names three_contexts c
      × (length c ≡ omega_of (context_graph names three_contexts).0))
    × ((c : List ℕ)
        → IsContextClique names three_contexts c
        → length c ≤ omega_of (context_graph names three_contexts).0)
omega_of-greatest_example = omega_of-greatest names three_contexts

abbrev key_text : FieldKey → String
key_text (named p name) = name
key_text _ = "?"

abbrev is_merge : String → Bool
is_merge name = str_eq name "_"

abbrev value : Expr
value = node current (record { start = 0; end = 0 })

abbrev named_field : String → ℕ → Field
named_field name at = field (named none name) value (record { start = at; end = at + 1 })

-- `{ x: $, y: $, x: $ }`
abbrev x_twice : Fields
x_twice =
    and_field (named_field "x" 1)
      (and_field (named_field "y" 5) (and_field (named_field "x" 9) no_fields))

x_reported :
    check_r6_combo_fields key_text (λ p. "") is_merge "a.n" x_twice ≡ r6_emit "a.n" (9, 10) "x" ∷ []
unfolding check_r6_combo_fields collect_occurrences emit_all contributions r6_key_spelling push_all
    push_occurrence
x_reported = refl

-- `{ x: $, ...{ y: $, x: $, x: $ } }`
abbrev x_spread : Fields
x_spread = and_field (named_field "x" 1) (
    and_field
      (field (quoted "...")
        (node
          (combo
            (and_field (named_field "y" 9)
              (and_field (named_field "x" 12) (and_field (named_field "x" 15) no_fields)))
            [] false)
          (record { start = 7; end = 18 }))
        (record { start = 4; end = 18 }))
      no_fields)

x_spread_reported :
    check_r6_combo_fields key_text (λ p. "") is_merge "a.n" x_spread
    ≡ r6_emit "a.n" (12, 13) "x" ∷ []
unfolding check_r6_combo_fields collect_occurrences emit_all contributions r6_key_spelling
    literal_keys push_all push_occurrence
x_spread_reported = refl

-- `a: { x: $, y: $, x: $ }`
abbrev x_twice_program : Program
x_twice_program = record {
  fields =
      and_field
        (field (named none "a") (node (combo x_twice [] false) (record { start = 3; end = 12 }))
          (record { start = 0; end = 12 }))
        no_fields;
}

walk_r6_collision-ComesFrom_example :
    Reported
      (r6_emit "a.n" (9, 10) "x")
      (walk_r6_collision key_text (λ p. "") is_merge "a.n" x_twice_program)
    ↔ ComesFrom key_text
        (λ p. "")
        is_merge
        "a.n"
        (r6_emit "a.n" (9, 10) "x")
        (λ c. HoldsFields c x_twice_program.fields)
walk_r6_collision-ComesFrom_example =
    walk_r6_collision-ComesFrom key_text (λ p. "") is_merge "a.n" (r6_emit "a.n" (9, 10) "x")
      x_twice_program

-- `($, $)`
abbrev two_places : Expr
two_places = node (tuple (and_expr value (and_expr value no_exprs))) (record { start = 0; end = 6 })

-- `{ x: $, 1: $ }`
abbrev x_and_place : Fields
x_and_place = and_field (named_field "x" 10) (and_field (named_field "1" 14) no_fields)

two_places_lack :
    is_reported (
      check_r3
        (λ p. "")
        (λ e. "")
        two_places
        (node (combo x_and_place [] false) (record { start = 9; end = 20 })))
    ≡ true
unfolding check_r3 classify_rhs classify_kind positions gather extra_keys decimal
two_places_lack = refl

check_r3-lacks_example :
    (is_reported (
        check_r3
          (λ p. "")
          (λ e. "")
          two_places
          (node (combo x_and_place [] false) (record { start = 9; end = 20 })))
      ≡ true)
    ↔ ((is_sealed (kind two_places) ≡ true)
        × (is_uncertain (λ p. "") (λ e. "") x_and_place ≡ false)
        × ((k : String) × (names_key (λ p. "") (λ e. "") x_and_place k ≡ true)
            × (¬ HasKey (λ p. "") (λ e. "") (kind two_places) k)))
check_r3-lacks_example =
    check_r3-lacks (λ p. "") (λ e. "") two_places x_and_place [] false
      (record { start = 9; end = 20 }) refl

-- a context that shares nothing, beside the three
abbrev two_groups : List ContextNode
two_groups =
    context ("x" ∷ []) ∷ context ("z" ∷ []) ∷ context ("x" ∷ "y" ∷ []) ∷ context ("y" ∷ []) ∷ []

two_components : count_components (context_graph names two_groups).0 ≡ some 2
unfolding count_components count_loop flood push_unvisited degree_sum context_graph join_owners
    join_all join_each join_pair incidence_of incidence_loop own_loop insert_into coord_index
    insert_index indices
two_components = refl

count_components-Linked_example :
    (reps : List ℕ) × (count_components (context_graph names two_groups).0 ≡ some (length reps))
    × PairwiseApart (λ a b. Linked names two_groups a b ⊎ Linked names two_groups b a) reps
    × ((r : ℕ) → mem r reps ≡ true → r < length two_groups)
    × ((x : ℕ)
        → x < length two_groups
        → (r : ℕ) × (mem r reps ≡ true) × Linked names two_groups r x)
count_components-Linked_example = count_components-Linked names two_groups

pairs_of_three :
    combinations (3 ∷ 5 ∷ 8 ∷ []) 2 ≡ some ((3 ∷ 5 ∷ []) ∷ (3 ∷ 8 ∷ []) ∷ (5 ∷ 8 ∷ []) ∷ [])
unfolding combinations combinations_loop increment collect item_at indices insert_index
pairs_of_three = refl

combinations-sublists_example :
    combinations (3 ∷ 5 ∷ 8 ∷ []) 2 ≡ some (map collect (sublists 2 (3 ∷ 5 ∷ 8 ∷ [])))
combinations-sublists_example = combinations-sublists (3 ∷ 5 ∷ 8 ∷ []) 2
