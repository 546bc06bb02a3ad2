-- ===== src/Nlint/Context/Sorted.antt =====
-- crates/oo/src/nlint.rs: the members of each set stand in their order, and once.
use Prim.Native.Nat.{compare, Ordering}
use nlang_tools.Prelude.{
  ℕ, zero, suc, ◌<◌, ◌==◌, ==_iff, String, true, false, List, [], ◌∷◌, length, Option, none, some,
  ◌≡◌, refl, sym, arith, Bool-cases, inl, inr, subst,
}
use nlang_tools.Nlint.Cliques.{mem, insert_index, neighbors}
use nlang_tools.Nlint.Cliques.Sets.{mem-insert_index}
use nlang_tools.Nlint.Context.{
  ContextNode, coord_index, insert_into, Incidence, own_at, own_loop, incidence_loop, incidence_of,
}
use nlang_tools.Nlint.Context.Owners.{neighbors-replicate}

abbrev pub IsSorted : List ℕ → Type 0
IsSorted [] = Unit
IsSorted (x ∷ xs) = ((e : ℕ) → mem e xs ≡ true → x < e) × IsSorted xs

pub head_once : (x : ℕ) (xs : List ℕ) → IsSorted (x ∷ xs) → mem x xs ≡ false
head_once x xs sorted = elim (Bool-cases (mem x xs)) [
  | inl again ↦ absurd (omega (arith, sorted.0 x again))
  | inr once ↦ once
]

below_later :
    (v x : ℕ) (xs : List ℕ) → v < x → IsSorted (x ∷ xs) → (e : ℕ) → mem e (x ∷ xs) ≡ true → v < e
below_later v x xs below sorted e listed = elim (Bool-cases (x == e)) [
  | inl same ↦ omega (arith, below, (==_iff x e).0 same)
  | inr other ↦ omega (arith, below, sorted.0 e (ground (arith, listed, other)))
]

below_inserted :
    (v x : ℕ) (xs : List ℕ)
    → x < v
    → IsSorted (x ∷ xs)
    → (e : ℕ) → mem e (insert_index v xs) ≡ true
    → x < e
below_inserted v x xs below sorted e listed = elim (Bool-cases (v == e)) [
  | inl same ↦ omega (arith, below, (==_iff v e).0 same)
  | inr other ↦ sorted.0 e (ground (arith, listed, other, mem-insert_index v xs e))
]

-- a node put before, at or after the head
abbrev placed : ℕ → ℕ → List ℕ → List ℕ → Ordering → List ℕ
placed v x xs rest Ordering.lt = v ∷ x ∷ xs
placed v x xs rest Ordering.eq = x ∷ xs
placed v x xs rest Ordering.gt = x ∷ rest

placed-IsSorted :
    (v x : ℕ) (xs : List ℕ) (o : Ordering)
    → compare v x ≡ o
    → IsSorted (x ∷ xs)
    → IsSorted (insert_index v xs)
    → IsSorted (placed v x xs (insert_index v xs) o)
placed-IsSorted v x xs Ordering.lt is sorted rest =
    (below_later v x xs (ground (arith, is)) sorted, sorted)
placed-IsSorted v x xs Ordering.eq is sorted rest = sorted
placed-IsSorted v x xs Ordering.gt is sorted rest =
    (below_inserted v x xs (ground (arith, is)) sorted, rest)

pub insert_index-IsSorted : (v : ℕ) (xs : List ℕ) → IsSorted xs → IsSorted (insert_index v xs)
unfolding insert_index
insert_index-IsSorted v [] sorted = (λ e listed. absurd (ground (arith, listed)), tt)
insert_index-IsSorted v (x ∷ xs) sorted =
    placed-IsSorted v x xs (compare v x) refl sorted (insert_index-IsSorted v xs sorted.1)

abbrev pub AllSorted : List (List ℕ) → Type 0
AllSorted sets = (j : ℕ) → IsSorted (neighbors sets j)

pub insert_into-AllSorted :
    (sets : List (List ℕ)) (k v : ℕ) → AllSorted sets → AllSorted (insert_into sets k v)
unfolding insert_into
insert_into-AllSorted [] k v sorted j = tt
insert_into-AllSorted (s ∷ sets) zero v sorted zero = insert_index-IsSorted v s (sorted 0)
insert_into-AllSorted (s ∷ sets) zero v sorted (suc j) = sorted (suc j)
insert_into-AllSorted (s ∷ sets) (suc k) v sorted zero = sorted 0
insert_into-AllSorted (s ∷ sets) (suc k) v sorted (suc j) =
    insert_into-AllSorted sets k v (λ i. sorted (suc i)) j

own_at-AllSorted :
    (ci : ℕ) (o : Option ℕ) (m : Incidence)
    → AllSorted m.coord_to_contexts
    → AllSorted (own_at ci o m).coord_to_contexts
own_at-AllSorted ci none m sorted = sorted
own_at-AllSorted ci (some k) m sorted = insert_into-AllSorted m.coord_to_contexts k ci sorted

own_loop-AllSorted :
    (coords : List String) (ci : ℕ) (cs : List String) (m : Incidence)
    → AllSorted m.coord_to_contexts
    → AllSorted (own_loop coords ci cs m).coord_to_contexts
unfolding own_loop
own_loop-AllSorted coords ci [] m sorted = sorted
own_loop-AllSorted coords ci (c ∷ cs) m sorted =
    own_loop-AllSorted coords ci cs (own_at ci (coord_index coords c) m)
      (own_at-AllSorted ci (coord_index coords c) m sorted)

incidence_loop-AllSorted :
    (coords : List String) (ci : ℕ) (contexts : List ContextNode) (m : Incidence)
    → AllSorted m.coord_to_contexts
    → AllSorted (incidence_loop coords ci contexts m).coord_to_contexts
unfolding incidence_loop
incidence_loop-AllSorted coords ci [] m sorted = sorted
incidence_loop-AllSorted coords ci (ctx ∷ contexts) m sorted =
    incidence_loop-AllSorted coords (suc ci) contexts (own_loop coords ci ctx.own_coords m)
      (own_loop-AllSorted coords ci ctx.own_coords m sorted)

pub incidence_of-AllSorted :
    (coords : List String) (contexts : List ContextNode)
    → AllSorted (incidence_of coords contexts).coord_to_contexts
unfolding incidence_of
incidence_of-AllSorted coords contexts =
    incidence_loop-AllSorted coords 0 contexts _
      (λ j. subst IsSorted (sym (neighbors-replicate (length coords) j)) tt)
