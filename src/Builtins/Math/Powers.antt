-- ===== src/Builtins/Math/Powers.antt =====
-- crates/interpreter/src/builtins/math.rs: powers to a modulus, by repeated squares.
use native.Mathlib.Nat
use native.Mathlib.Numerals.{unary_clauses}
use nlang_tools.Prelude.{
  ℕ, zero, suc, ◌+◌, ◌*◌, ◌/◌, ◌%◌, ◌^◌, ◌<◌, true, false, ◌||◌, ◌==◌, ==_iff, if◌then◌else◌, some,
  ◌≡◌, refl, ap, sym, ◌∙◌, arith, Bool-cases, inl, inr,
}
use nlang_tools.Parser.Ast.{ℤ}
use nlang_tools.Builtins.Math.{
  abs, modpow_loop, bigint_modpow, is_negative, answer, conflict, answered, pow_mod,
}

mod-mul : (a b m : ℕ) → a % m * b % m ≡ a * b % m
mod-mul a b m =
    let parts : a % m * b + m * (a / m * b) ≡ a * b =
      ap (λ n. a % m * b + n) (sym (Nat.mul_assoc m (a / m) b))
      ∙ (sym (Nat.add-mul (a % m) (m * (a / m)) b) ∙ ap (λ n. n * b) (Nat.mod-add-div a m)) in
    sym (Nat.add-mul-mod_self_left (a % m * b) m (a / m * b)) ∙ ap (λ n. n % m) parts

mul-mod : (a b m : ℕ) → a * (b % m) % m ≡ a * b % m
mul-mod a b m =
    ap (λ n. n % m) (Nat.mul_comm a (b % m)) ∙ (mod-mul b a m ∙ ap (λ n. n % m) (Nat.mul_comm b a))

power_none : (b : ℕ) → b ^ 0 ≡ 1
power_none b = simp unary_clauses

pow-mod : (b m k : ℕ) → (b % m) ^ k % m ≡ b ^ k % m
pow-mod b m zero = ap (λ n. n % m) (power_none (b % m) ∙ sym (power_none b))
pow-mod b m (suc k) =
    ap (λ n. n % m) (Nat.pow-succ' (b % m) k)
    ∙ (mod-mul b ((b % m) ^ k) m
        ∙ (sym (mul-mod b ((b % m) ^ k) m)
            ∙ (ap (λ n. b * n % m) (pow-mod b m k)
                ∙ (mul-mod b (b ^ k) m ∙ ap (λ n. n % m) (sym (Nat.pow-succ' b k))))))

pow-square : (b k : ℕ) → (b * b) ^ k ≡ b ^ (k + k)
pow-square b zero = power_none (b * b) ∙ sym (power_none b)
pow-square b (suc k) =
    let twice : suc k + suc k ≡ suc (suc (k + k)) = omega arith in
    Nat.pow-succ' (b * b) k
    ∙ (ap (λ n. b * b * n) (pow-square b k)
        ∙ (Nat.mul_assoc b b (b ^ (k + k))
            ∙ (ap (λ n. b * n) (sym (Nat.pow-succ' b (k + k)))
                ∙ (sym (Nat.pow-succ' b (suc (k + k))) ∙ ap (λ n. b ^ n) (sym twice)))))

square-even : (b e : ℕ) → (e % 2 == 1) ≡ false → (b * b) ^ (e / 2) ≡ b ^ e
square-even b e even =
    let parts : e / 2 + e / 2 ≡ e = ground (arith, even) in
    pow-square b (e / 2) ∙ ap (λ n. b ^ n) parts

square-odd : (b e : ℕ) → (e % 2 == 1) ≡ true → b * (b * b) ^ (e / 2) ≡ b ^ e
square-odd b e odd =
    let parts : suc (e / 2 + e / 2) ≡ e = ground (arith, odd) in
    ap (λ n. b * n) (pow-square b (e / 2))
    ∙ (sym (Nat.pow-succ' b (e / 2 + e / 2)) ∙ ap (λ n. b ^ n) parts)

modpow_loop-power :
    (fuel m r b e : ℕ) → e < fuel → r < m → modpow_loop fuel m r b e ≡ some (r * b ^ e % m)
unfolding modpow_loop
modpow_loop-power zero m r b e enough small = absurd (omega (arith, enough))
modpow_loop-power (suc fuel) m r b e enough small = elim (Bool-cases (e == 0)) [
  | inl done ↦
      let value : r ≡ r * b ^ e % m =
        sym (Nat.mod-eq_of_lt small)
        ∙ (ap (λ n. n % m) (sym (Nat.mul-one r) ∙ ap (λ n. r * n) (sym (power_none b)))
            ∙ ap (λ n. r * b ^ n % m) (sym ((==_iff e 0).0 done))) in
      rw (done) (ap some value)
  | inr more ↦
      let less : e / 2 < fuel = ground (arith, more, enough) in
      let squares : (n : ℕ) → n * (b * b % m) ^ (e / 2) % m ≡ n * (b * b) ^ (e / 2) % m = λ n.
        sym (mul-mod n ((b * b % m) ^ (e / 2)) m)
        ∙ (ap (λ k. n * k % m) (pow-mod (b * b) m (e / 2)) ∙ mul-mod n ((b * b) ^ (e / 2)) m) in
      elim (Bool-cases (e % 2 == 1)) [
        | inl odd ↦
            rw (more, odd)
              (modpow_loop-power fuel m (r * b % m) (b * b % m) (e / 2) less
                  (Nat.mod-lt (r * b) (omega (arith, small)))
                ∙ ap some (
                    squares (r * b % m)
                    ∙ (mod-mul (r * b) ((b * b) ^ (e / 2)) m
                        ∙ (ap (λ n. n % m) (Nat.mul_assoc r b ((b * b) ^ (e / 2)))
                            ∙ ap (λ n. r * n % m) (square-odd b e odd)))))
        | inr even ↦
            rw (more, even)
              (modpow_loop-power fuel m r (b * b % m) (e / 2) less small
                ∙ ap some (squares r ∙ ap (λ n. r * n % m) (square-even b e even)))
      ]
]

bigint_modpow-power : (b e m : ℕ) → 0 < m → bigint_modpow b e m ≡ some (b ^ e % m)
unfolding bigint_modpow
bigint_modpow-power b e m positive = elim (Bool-cases (m == 1)) [
  | inl one ↦
      let value : 0 ≡ b ^ e % m =
        sym (Nat.mod-one (b ^ e)) ∙ ap (λ n. b ^ e % n) (sym ((==_iff m 1).0 one)) in
      rw (one) (ap some value)
  | inr other ↦ rw (other) (
      modpow_loop-power (suc e) m 1 (b % m) e (omega arith) (ground (arith, other, positive))
      ∙ ap some (ap (λ n. n % m) (Nat.one-mul ((b % m) ^ e)) ∙ pow-mod b m e))
]

-- The answer of `math.pow_mod` is the power to the modulus, for all integers, unless one of them is
-- negative or the modulus is 0: then it is a conflict.
pub pow_mod-power :
    (b e m : ℤ)
    → pow_mod b e m ≡ (
        if is_negative b || (is_negative e || (is_negative m || abs m == 0))
        then conflict
        else answer (abs b ^ abs e % abs m))
unfolding pow_mod
pow_mod-power b e m =
    elim (Bool-cases (is_negative b || (is_negative e || (is_negative m || abs m == 0)))) [
      | inl refused ↦ rw (refused) refl
      | inr fine ↦
          let positive : 0 < abs m = ground (arith, fine) in
          rw (fine) (ap answered (bigint_modpow-power (abs b) (abs e) (abs m) positive))
    ]
