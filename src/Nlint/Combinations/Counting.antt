-- ===== src/Nlint/Combinations/Counting.antt =====
-- crates/oo/src/nlint.rs: counting up goes through all the lists of places.
use native.Mathlib.Nat as Nat
use nlang_tools.Prelude.{
  ℕ, zero, suc, ◌+◌, ◌-◌, ◌^◌, ◌≤◌, ◌<◌, ltb, List, [], ◌∷◌, ◌++◌, length, length-append, map, none,
  some, All, All-append, ltb→lt, lt→ltb, ltb_false→le, le→ltb_false, ◌≡◌, refl, sym, ap, ◌∙◌, inl,
  inr, arith, true, false, Bool-cases, subst,
}
use nlang_tools.Nlint.Cliques.{indices}
use nlang_tools.Nlint.Combinations.{increment}

-- the lists of `k` members in their order
unfoldable pub sublists : {A : Type 0} → ℕ → List A → List (List A)
sublists zero xs = [] ∷ []
sublists (suc k) [] = []
sublists (suc k) (x ∷ xs) = map (λ s. x ∷ s) (sublists k xs) ++ sublists (suc k) xs

pub sublists-none : (k lo m : ℕ) → m < k → sublists k (indices lo m) ≡ []
unfolding sublists indices
sublists-none zero lo m less = absurd (omega (arith, less))
sublists-none (suc k) lo zero less = refl
sublists-none (suc k) lo (suc m) less =
    rw (sublists-none k (suc lo) m (omega (arith, less)), sublists) rw
      (sublists-none (suc k) (suc lo) m (omega (arith, less)), sublists) refl

-- each is counted up to the next one, and the last one to none
unfoldable pub CountsUp : ℕ → List (List ℕ) → Type 0
CountsUp n [] = Unit
CountsUp n (x ∷ []) = increment n x ≡ none
CountsUp n (x ∷ (y ∷ xs)) = (increment n x ≡ some y) × CountsUp n (y ∷ xs)

-- what counting up gives after the last list that starts with `i`
abbrev After : ℕ → ℕ → ℕ → List (List ℕ) → Type 0
After n i k [] = ltb i (n - suc k) ≡ false
After n i k (y ∷ ys) = (ltb i (n - suc k) ≡ true) × (y ≡ indices (suc i) (suc k))

increment-inner :
    (n i : ℕ) (x y : List ℕ) → increment n x ≡ some y → increment n (i ∷ x) ≡ some (i ∷ y)
unfolding increment
increment-inner n i x y h = rw h refl

increment-last :
    (n i k : ℕ) (x : List ℕ)
    → increment n x ≡ none
    → length x ≡ k
    → ltb i (n - suc k) ≡ true
    → increment n (i ∷ x) ≡ some (indices (suc i) (suc k))
unfolding increment
increment-last n i k x stop size room = rw stop rw size rw room refl

CountsUp-map :
    (n i k : ℕ) (xs ys : List (List ℕ))
    → All (λ x. length x ≡ k) xs
    → CountsUp n xs
    → After n i k ys
    → CountsUp n ys
    → CountsUp n (map (λ s. i ∷ s) xs ++ ys)
unfolding CountsUp increment
CountsUp-map n i k [] ys sized counts after counts' = counts'
CountsUp-map n i k (x ∷ []) [] sized counts after counts' = rw counts rw (sized.0) rw after refl
CountsUp-map n i k (x ∷ []) (y ∷ ys) sized counts after counts' =
    (increment-last n i k x counts sized.0 after.0 ∙ ap (λ z. some z) (sym after.1), counts')
CountsUp-map n i k (x ∷ (y ∷ xs)) ys sized counts after counts' = (
  increment-inner n i x y counts.0,
  CountsUp-map n i k (y ∷ xs) ys sized.1 counts.1 after counts',
)

longer :
    (k i : ℕ) (xs : List (List ℕ))
    → All (λ x. length x ≡ k) xs
    → All (λ x. length x ≡ suc k) (map (λ s. i ∷ s) xs)
longer k i [] sized = tt
longer k i (x ∷ xs) sized = (ap suc sized.0, longer k i xs sized.1)

sublists-sized : (k lo m : ℕ) → All (λ x. length x ≡ k) (sublists k (indices lo m))
unfolding sublists indices
sublists-sized zero lo m = (refl, tt)
sublists-sized (suc k) lo zero = tt
sublists-sized (suc k) lo (suc m) =
    All-append (λ x. length x ≡ suc k) (map (λ s. lo ∷ s) (sublists k (indices (suc lo) m)))
      (sublists (suc k) (indices (suc lo) m))
      (longer k lo (sublists k (indices (suc lo) m)) (sublists-sized k (suc lo) m))
      (sublists-sized (suc k) (suc lo) m)

-- the first list, and how the lists follow one another
pub sublists-CountsUp :
    (k lo m n : ℕ)
    → n ≡ lo + m
    → k ≤ m
    → (xs : List (List ℕ)) × (sublists k (indices lo m) ≡ indices lo k ∷ xs)
      × CountsUp n (sublists k (indices lo m))
unfolding sublists indices CountsUp increment
sublists-CountsUp zero lo m n size less = ([], refl, refl)
sublists-CountsUp (suc k) lo zero n size less = absurd (omega (arith, less))
sublists-CountsUp (suc k) lo (suc m) n size less =
    let (xs, head, counts) =
      sublists-CountsUp k (suc lo) m n (omega (arith, size)) (omega (arith, less)) in
    let ys = sublists (suc k) (indices (suc lo) m) in
    let starts = ap (λ z. map (λ s. lo ∷ s) z ++ ys) head in
    let sized = sublists-sized k (suc lo) m in
    elim (Bool-cases (ltb k m)) [
      | inl room ↦
          let (ys', head', counts') =
            sublists-CountsUp (suc k) (suc lo) m n (omega (arith, size)) (ltb→lt k m room) in
          let after : After n lo k ys =
            subst (After n lo k) (sym head')
              (lt→ltb lo (n - suc k) (omega (arith, size, ltb→lt k m room)), refl) in
          (map (λ s. lo ∷ s) xs ++ ys, starts, CountsUp-map n lo k _ ys sized counts after counts')
      | inr full ↦
          let gone : ys ≡ [] =
            sublists-none (suc k) (suc lo) m (omega (arith, ltb_false→le k m full)) in
          let after : After n lo k ys =
            subst (After n lo k) (sym gone)
              (le→ltb_false lo (n - suc k) (omega (arith, size, less, ltb_false→le k m full))) in
          (
            map (λ s. lo ∷ s) xs ++ ys,
            starts,
            CountsUp-map n lo k _ ys sized counts after (subst (CountsUp n) (sym gone) tt),
          )
    ]

length-map : {A B : Type 0} (f : A → B) (xs : List A) → length (map f xs) ≡ length xs
length-map f [] = refl
length-map f (x ∷ xs) = ap suc (length-map f xs)

one_power : (m : ℕ) → 1 ≤ 2 ^ m
one_power m = Nat.pow-le-pow_right {n = 2} (omega arith) {i = 0} {j = m} (omega arith)

pow_double : (m : ℕ) → 2 ^ suc m ≡ 2 ^ m + 2 ^ m
pow_double m = omega (arith, Nat.pow-succ' 2 m)

pub length-sublists : (k lo m : ℕ) → length (sublists k (indices lo m)) ≤ 2 ^ m
unfolding sublists indices
length-sublists zero lo m = one_power m
length-sublists (suc k) lo zero = omega arith
length-sublists (suc k) lo (suc m) = omega (
  arith,
  length-append (map (λ s. lo ∷ s) (sublists k (indices (suc lo) m)))
      (sublists (suc k) (indices (suc lo) m)),
  length-map (λ s. lo ∷ s) (sublists k (indices (suc lo) m)),
  length-sublists k (suc lo) m,
  length-sublists (suc k) (suc lo) m,
  pow_double m,
)
