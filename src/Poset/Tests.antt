-- ===== src/Poset/Tests.antt =====
-- Ranks of concrete relations.
use text.Mathlib.Text.{◌==◌ as str_eq}
use nlang_tools.Prelude.{
  ℕ, zero, suc, String, ◌||◌, if◌then◌else◌, Option, none, some, List, [], ◌∷◌, ◌≡◌, refl, arith,
}
use nlang_tools.Poset.{
  ValRelOp, lt, gt, lte, gte, eq, ValRelation, Ranks, successors, nodes_from, sources, start_names,
  start_rank, has_incoming, equalities, set_rank, visit_each, rank_loop, rank_all, share_ranks,
  share_loop, then_share, compute_ranks,
}
use nlang_tools.Prelude.{In, first}
use nlang_tools.Poset.Ends.{rounds, queue_rounds}
use nlang_tools.Poset.Ranked.{IsRank, compute_ranks-IsRank, compute_ranks-endless}

abbrev relation : String → ValRelOp → String → ValRelation
relation a o b = record { left = a; op = o; right = b }

-- `#{ a < b, b < c, c > a, d = c }`
abbrev order : List ValRelation
order = relation "a" lt "b" ∷ relation "b" lt "c" ∷ relation "c" gt "a" ∷ relation "d" eq "c" ∷ []

abbrev rank_in : Option Ranks → String → Option ℕ
rank_in none n = none
rank_in (some ranks) n = ranks n

-- `d` is a source, so it does not take the rank of `c`
order_ranks :
    (rank_in (compute_ranks 9 order) "c" ≡ some 3) × (rank_in (compute_ranks 9 order) "d" ≡ some 1)
unfolding compute_ranks then_share start_names start_rank nodes_from sources has_incoming rank_all
    rank_loop visit_each successors set_rank share_loop share_ranks equalities
order_ranks = (refl, refl)

-- `#{ a < b, b <= c, c >= a, e > d }`
abbrev ranked_order : List ValRelation
ranked_order =
    relation "a" lt "b" ∷ relation "b" lte "c" ∷ relation "c" gte "a" ∷ relation "e" gt "d" ∷ []

ranked_order_ranks :
    (rank_in (compute_ranks 9 ranked_order) "c" ≡ some 3)
    × (rank_in (compute_ranks 9 ranked_order) "d" ≡ some 1)
    × (rank_in (compute_ranks 9 ranked_order) "e" ≡ some 2)
unfolding compute_ranks then_share start_names start_rank nodes_from sources has_incoming rank_all
    rank_loop visit_each successors set_rank share_loop share_ranks equalities
ranked_order_ranks = (refl, refl, refl)

abbrev height : String → ℕ
height n = if str_eq n "a" then 2 else if str_eq n "b" || str_eq n "d" then 1 else 0

compute_ranks-IsRank_example :
    (ranks : Ranks) × (compute_ranks 100 ranked_order ≡ some ranks)
    × ((v : String) → IsRank ranked_order v (ranks v))
unfolding queue_rounds rounds start_names start_rank nodes_from sources has_incoming
compute_ranks-IsRank_example =
    compute_ranks-IsRank ranked_order height 100
      (omega arith, (omega arith, (omega arith, (omega arith, tt)))) (omega arith)

-- `#{ s < a, a < b, b < a }`
abbrev circle : List ValRelation
circle = relation "s" lt "a" ∷ relation "a" lt "b" ∷ relation "b" lt "a" ∷ []

abbrev around : ℕ → String
around zero = "s"
around (suc zero) = "a"
around (suc (suc zero)) = "b"
around (suc (suc (suc k))) = around (suc k)

around-In : (k : ℕ) → In (around (suc k)) (successors circle (around k))
unfolding successors
around-In zero = first
around-In (suc zero) = first
around-In (suc (suc zero)) = first
around-In (suc (suc (suc k))) = around-In (suc k)

compute_ranks-endless_example : compute_ranks 1000000 circle ≡ none
unfolding start_names nodes_from sources has_incoming
compute_ranks-endless_example = compute_ranks-endless circle around 1000000 first around-In
