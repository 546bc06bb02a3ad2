-- ===== src/Builtins/Math/Products.antt =====
-- crates/interpreter/src/builtins/math.rs: factorials and binomial coefficients.
use native.Mathlib.Nat
use native.Mathlib.Numerals.{unary_clauses}
use nlang_tools.Prelude.{
  ℕ, zero, suc, ◌+◌, ◌-◌, ◌*◌, ◌/◌, ◌≤◌, ◌<◌, ltb, leb, some, ◌≡◌, refl, ap, ap₂, sym, ◌∙◌, arith,
  Bool-cases, inl, inr,
}
use nlang_tools.Parser.Ast.{ℤ, pos, negsuc}
use nlang_tools.Builtins.Math.{
  factorial_loop, bigint_factorial, choose_loop, choose_up_to, bigint_choose,
}

abbrev pub factorial : ℕ → ℕ
factorial zero = 1
factorial (suc n) = suc n * factorial n

factorial_loop-end :
    (fuel n i : ℕ)
    → suc n < fuel + i
    → 0 < i
    → i ≤ suc n
    → (r : ℕ) → suc r ≡ i
    → factorial_loop fuel n (factorial r) i ≡ some (factorial n)
unfolding factorial_loop
factorial_loop-end zero n i enough positive upto r below = absurd (omega (arith, enough, upto))
factorial_loop-end (suc fuel) n i enough positive upto r below = elim (Bool-cases (leb i n)) [
  | inl more ↦
      let next : factorial r * i ≡ factorial (suc r) =
        Nat.mul_comm (factorial r) i ∙ ap (λ k. k * factorial r) (sym below) in
      rw (more) (
        ap (λ v. factorial_loop fuel n v (i + 1)) next
        ∙ factorial_loop-end fuel n (i + 1) (omega (arith, enough)) (omega arith)
            (ground (arith, more)) (suc r) (omega (arith, below)))
  | inr done ↦
      let whole : r ≡ n = ground (arith, done, below, upto) in
      rw (done) (ap (λ k. some (factorial k)) whole)
]

-- The loop of `math.factorial` ends with the product of the numbers up to its argument.
pub bigint_factorial-factorial : (n : ℕ) → bigint_factorial n ≡ some (factorial n)
unfolding bigint_factorial factorial_loop
bigint_factorial-factorial zero = refl
bigint_factorial-factorial (suc n) =
    factorial_loop-end (suc (suc n)) (suc n) 2 (omega arith) (omega arith) (omega arith) 1 refl

-- the number of ways to choose, by Pascal's rule
abbrev pub pascal : ℕ → ℕ → ℕ
pascal n zero = 1
pascal zero (suc k) = 0
pascal (suc n) (suc k) = pascal n k + pascal n (suc k)

pascal_row : (n k : ℕ) → suc k * pascal n (suc k) + k * pascal n k ≡ n * pascal n k
pascal_row zero zero = simp unary_clauses
pascal_row zero (suc k) = simp unary_clauses
pascal_row (suc n) zero = omega (arith, pascal_row n zero)
pascal_row (suc n) (suc k) = omega (
  arith,
  pascal_row n k,
  pascal_row n (suc k),
  Nat.mul-add (suc (suc k)) (pascal n (suc k)) (pascal n (suc (suc k))),
  Nat.mul-add (suc k) (pascal n k) (pascal n (suc k)),
  Nat.mul-add (suc n) (pascal n k) (pascal n (suc k)),
  Nat.suc-mul (suc k) (pascal n (suc k)),
  Nat.suc-mul k (pascal n k),
  Nat.suc-mul n (pascal n k),
  Nat.suc-mul n (pascal n (suc k)),
)

pascal_beyond : (n k : ℕ) → n < k → pascal n k ≡ 0
pascal_beyond n zero beyond = absurd (omega (arith, beyond))
pascal_beyond zero (suc k) beyond = refl
pascal_beyond (suc n) (suc k) beyond = omega (
  arith,
  pascal_beyond n k (omega (arith, beyond)),
  pascal_beyond n (suc k) (omega (arith, beyond)),
)

pascal_none : (n : ℕ) → pascal n 0 ≡ 1
pascal_none zero = refl
pascal_none (suc n) = refl

pascal_all : (n : ℕ) → pascal n n ≡ 1
pascal_all zero = refl
pascal_all (suc n) = omega (arith, pascal_all n, pascal_beyond n (suc n) (omega arith))

-- as many ways to choose as to leave out
pascal_mirror : (n a b : ℕ) → n ≡ a + b → pascal n a ≡ pascal n b
pascal_mirror n zero b sum =
    pascal_none n ∙ sym (ap (λ k. pascal n k) (sym (sum ∙ Nat.zero-add b)) ∙ pascal_all n)
pascal_mirror n (suc a) zero sum =
    let whole : suc a ≡ n = omega (arith, sum) in
    ap (λ k. pascal n k) whole ∙ (pascal_all n ∙ sym (pascal_none n))
pascal_mirror zero (suc a) (suc b) sum = refl
pascal_mirror (suc n) (suc a) (suc b) sum = omega (
  arith,
  pascal_mirror n a (suc b) (omega (arith, sum)),
  pascal_mirror n (suc a) b (omega (arith, sum)),
)

pascal_step : (n i : ℕ) → i < n → pascal n i * (n - i) / (i + 1) ≡ pascal n (suc i)
pascal_step n i below =
    let parts : i + (n - i) ≡ n = omega (arith, below) in
    let split : n * pascal n i ≡ i * pascal n i + (n - i) * pascal n i =
      ap (λ k. k * pascal n i) (sym parts) ∙ Nat.add-mul i (n - i) (pascal n i) in
    let up : (i + 1) * pascal n (suc i) ≡ suc i * pascal n (suc i) =
      ap (λ k. k * pascal n (suc i)) (omega arith) in
    Nat.div-eq_of_eq-mul_left (omega arith) (
      omega (
        arith,
        pascal_row n i,
        split,
        up,
        Nat.mul_comm (pascal n i) (n - i),
        Nat.mul_comm (pascal n (suc i)) (i + 1),
      ))

choose_loop-end :
    (fuel n k i : ℕ)
    → k < fuel + i
    → i ≤ k
    → k ≤ n
    → choose_loop fuel n k (pascal n i) i ≡ some (pascal n k)
unfolding choose_loop
choose_loop-end zero n k i enough upto inside = absurd (omega (arith, enough, upto))
choose_loop-end (suc fuel) n k i enough upto inside = elim (Bool-cases (ltb i k)) [
  | inl more ↦
      let below : i < n = ground (arith, more, inside) in
      let next : i + 1 ≡ suc i = omega arith in
      rw (more) (
        ap₂ (λ v j. choose_loop fuel n k v j) (pascal_step n i below) next
        ∙ choose_loop-end fuel n k (suc i) (omega (arith, enough)) (ground (arith, more)) inside)
  | inr done ↦
      let end : i ≡ k = ground (arith, done, upto) in rw (done) (ap (λ j. some (pascal n j)) end)
]

from_none : (n k : ℕ) → k ≤ n → choose_loop (suc k) n k 1 0 ≡ some (pascal n k)
from_none n k inside =
    ap (λ v. choose_loop (suc k) n k v 0) (sym (pascal_none n))
    ∙ choose_loop-end (suc k) n k 0 (omega arith) (omega arith) inside

choose_up_to-pascal : (n k : ℕ) → choose_up_to n k ≡ some (pascal n k)
choose_up_to-pascal n k = elim (Bool-cases (ltb n k)) [
  | inl beyond ↦ rw (beyond) (ap some (sym (pascal_beyond n k (ground (arith, beyond)))))
  | inr inside ↦ elim (Bool-cases (ltb (n - k) k)) [
    | inl fewer ↦
        rw (inside, fewer)
          (from_none n (n - k) (omega arith)
            ∙ ap some (pascal_mirror n (n - k) k (ground (arith, inside))))
    | inr more ↦ rw (inside, more) (from_none n k (ground (arith, inside)))
  ]
]

-- The ways to choose a number of things, none where the number is negative.
abbrev pub ways : ℕ → ℤ → ℕ
ways n (pos k) = pascal n k
ways n (negsuc k) = 0

-- The loop of `math.choose` ends with the binomial coefficient of Pascal's triangle, whatever the
-- second number is, although it divides at each step and chooses the smaller of the two sides.
pub bigint_choose-ways : (n : ℕ) (k : ℤ) → bigint_choose n k ≡ some (ways n k)
unfolding bigint_choose
bigint_choose-ways n (pos k) = choose_up_to-pascal n k
bigint_choose-ways n (negsuc k) = refl
