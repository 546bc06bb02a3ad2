-- ===== src/Nlint/Cliques.antt =====
-- crates/oo/src/nlint.rs: the maximal cliques of the context graph. A `BTreeSet` of indices is the
-- list of its members in their order, and `out` what is appended to it.
pub mod Sets
pub mod Sound
pub mod Complete
use Prim.Native.Nat.{compare, Ordering}
use nlang_tools.Prelude.{
  ℕ, zero, suc, ◌==◌, Bool, true, false, not, ◌||◌, if◌then◌else◌, List, [], ◌∷◌, ◌++◌, length,
}

abbrev pub mem : ℕ → List ℕ → Bool
mem e [] = false
mem e (x ∷ xs) = x == e || mem e xs

unfoldable pub insert_index : ℕ → List ℕ → List ℕ
insert_index v [] = v ∷ []
insert_index v (x ∷ xs) =
    let rest = insert_index v xs in
    elim (compare v x) [ Ordering.lt ↦ v ∷ x ∷ xs | Ordering.eq ↦ x ∷ xs | Ordering.gt ↦ x ∷ rest ]

unfoldable pub keep : (ℕ → Bool) → List ℕ → List ℕ
keep f [] = []
keep f (x ∷ xs) = if f x then x ∷ keep f xs else keep f xs

abbrev pub intersection : List ℕ → List ℕ → List ℕ
intersection xs ys = keep (λ x. mem x ys) xs

abbrev pub difference : List ℕ → List ℕ → List ℕ
difference xs ys = keep (λ x. not (mem x ys)) xs

abbrev pub remove_index : ℕ → List ℕ → List ℕ
remove_index v = keep (λ x. not (x == v))

abbrev pub neighbors : List (List ℕ) → ℕ → List ℕ
neighbors [] v = []
neighbors (ns ∷ adj) zero = ns
neighbors (ns ∷ adj) (suc v) = neighbors adj v

abbrev pub Inner : Type 0
Inner = List ℕ → List ℕ → List ℕ → List (List ℕ)

-- the loop over the candidates, with `inner` for the recursive call
unfoldable pub branch : List (List ℕ) → Inner → List ℕ → List ℕ → List ℕ → List ℕ → List (List ℕ)
branch adj inner r [] p x = []
branch adj inner r (v ∷ candidates) p x =
    inner (insert_index v r) (intersection p (neighbors adj v)) (intersection x (neighbors adj v))
    ++ branch adj inner r candidates (remove_index v p) (insert_index v x)

-- the pivot is the first of `p`, or else of `x`
abbrev pub from_pivot : List (List ℕ) → Inner → List ℕ → List ℕ → List ℕ → List (List ℕ)
from_pivot adj inner r [] [] = r ∷ []
from_pivot adj inner r [] (u ∷ x) = branch adj inner r (difference [] (neighbors adj u)) [] (u ∷ x)
from_pivot adj inner r (u ∷ p) x =
    branch adj inner r (difference (u ∷ p) (neighbors adj u)) (u ∷ p) x

unfoldable pub bron_kerbosch_inner : ℕ → List (List ℕ) → List ℕ → List ℕ → List ℕ → List (List ℕ)
unfolding branch insert_index keep
bron_kerbosch_inner zero adj r p x = []
bron_kerbosch_inner (suc fuel) adj r p x = from_pivot adj (bron_kerbosch_inner fuel adj) r p x

-- the indices from `i` on
unfoldable pub indices : ℕ → ℕ → List ℕ
indices i zero = []
indices i (suc n) = i ∷ indices (suc i) n

-- a call has fewer candidates than its caller, so a level for each node and one more is enough
unfoldable pub bron_kerbosch : List (List ℕ) → List (List ℕ)
unfolding bron_kerbosch_inner indices
bron_kerbosch adj = bron_kerbosch_inner (suc (length adj)) adj [] (indices 0 (length adj)) []
