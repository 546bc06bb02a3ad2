-- ===== src/Nlint/Combinations/Sublists.antt =====
-- crates/oo/src/nlint.rs: the combinations are the choices of members.
use nlang_tools.Prelude.{
  ℕ, zero, suc, ◌+◌, ◌^◌, ◌≤◌, ltb, List, [], ◌∷◌, ◌++◌, length, map, some, ltb→lt, ltb_false→le,
  ◌≡◌, refl, sym, ap, ap₂, ◌∙◌, inl, inr, arith, Bool-cases, subst,
}
use nlang_tools.Nlint.Cliques.{indices}
use nlang_tools.Nlint.Combinations.{
  item_at, collect, add_first, push_set, combinations_loop, combinations,
}
use nlang_tools.Nlint.Combinations.Counting.{
  sublists, sublists-none, CountsUp, sublists-CountsUp, length-sublists,
}

loop-CountsUp :
    (fuel : ℕ) (items x : List ℕ) (xs : List (List ℕ))
    → CountsUp (length items) (x ∷ xs)
    → length (x ∷ xs) ≤ fuel
    → combinations_loop fuel items x
      ≡ some (map (λ idx. collect (map (item_at items) idx)) (x ∷ xs))
unfolding combinations_loop CountsUp
loop-CountsUp zero items x xs counts enough = absurd (omega (arith, enough))
loop-CountsUp (suc fuel) items x [] counts enough =
    ap (push_set (collect (map (item_at items) x)) (combinations_loop fuel items)) counts
loop-CountsUp (suc fuel) items x (y ∷ xs) counts enough =
    ap (push_set (collect (map (item_at items) x)) (combinations_loop fuel items)) counts.0
    ∙ ap (add_first (collect (map (item_at items) x)))
        (loop-CountsUp fuel items y xs counts.1 (omega (arith, enough)))

map-append : {A B : Type 0} (f : A → B) (xs ys : List A) → map f (xs ++ ys) ≡ map f xs ++ map f ys
map-append f [] ys = refl
map-append f (x ∷ xs) ys = ap (λ z. f x ∷ z) (map-append f xs ys)

map-map :
    {A B C : Type 0} (f : B → C) (g : A → B) (xs : List A)
    → map (λ x. f (g x)) xs ≡ map f (map g xs)
map-map f g [] = refl
map-map f g (x ∷ xs) = ap (λ z. f (g x) ∷ z) (map-map f g xs)

map-first :
    (f : ℕ → ℕ) (i x : ℕ) (xs : List (List ℕ))
    → f i ≡ x
    → map (map f) (map (λ s. i ∷ s) xs) ≡ map (λ s. x ∷ s) (map (map f) xs)
map-first f i x [] same = refl
map-first f i x (s ∷ xs) same = ap₂ (λ a b. (a ∷ map f s) ∷ b) same (map-first f i x xs same)

-- the places of a list, looked up
places-sublists :
    (items xs : List ℕ) (k lo : ℕ)
    → ((j : ℕ) → item_at items (lo + j) ≡ item_at xs j)
    → map (map (item_at items)) (sublists k (indices lo (length xs))) ≡ sublists k xs
unfolding sublists indices item_at
places-sublists items xs zero lo same = refl
places-sublists items [] (suc k) lo same = refl
places-sublists items (x ∷ xs) (suc k) lo same =
    let next : (j : ℕ) → item_at items (suc lo + j) ≡ item_at xs j =
      λ j. ap (item_at items) (omega arith) ∙ same (suc j) in
    let at_lo : item_at items lo ≡ x = ap (item_at items) (omega arith) ∙ same 0 in
    map-append (map (item_at items)) (map (λ s. lo ∷ s) (sublists k (indices (suc lo) (length xs))))
      (sublists (suc k) (indices (suc lo) (length xs)))
    ∙ ap₂ (λ a b. a ++ b)
        (map-first (item_at items) lo x (sublists k (indices (suc lo) (length xs))) at_lo
          ∙ ap (map (λ s. x ∷ s)) (places-sublists items xs k (suc lo) next))
        (places-sublists items xs (suc k) (suc lo) next)

-- The loop ends, for any list and any number, and it gives the set of each choice of that many
-- members in their order, and these sets in the order of the choices.
pub combinations-sublists :
    (items : List ℕ) (k : ℕ) → combinations items k ≡ some (map collect (sublists k items))
unfolding combinations
combinations-sublists items k =
    let n = length items in
    let places = places-sublists items items k 0 (λ j. ap (item_at items) (omega arith)) in
    elim (Bool-cases (ltb n k)) [
      | inl few ↦
          let gone : sublists k items ≡ [] =
            sym places ∙ ap (map (map (item_at items))) (sublists-none k 0 n (ltb→lt n k few)) in
          rw few (ap (λ z. some (map collect z)) (sym gone))
      | inr enough ↦
          let (xs, head, counts) =
            sublists-CountsUp k 0 n n (omega arith) (ltb_false→le n k enough) in
          let bound : length (indices 0 k ∷ xs) ≤ 2 ^ n =
            subst (λ z. length z ≤ 2 ^ n) head (length-sublists k 0 n) in
          rw enough (
            loop-CountsUp (2 ^ n) items (indices 0 k) xs (subst (CountsUp n) head counts) bound
            ∙ ap (λ z. some (map (λ idx. collect (map (item_at items) idx)) z)) (sym head)
            ∙ ap (λ z. some z)
                (map-map collect (map (item_at items)) (sublists k (indices 0 n))
                  ∙ ap (map collect) places))
    ]
