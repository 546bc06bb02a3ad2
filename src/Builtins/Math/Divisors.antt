-- ===== src/Builtins/Math/Divisors.antt =====
-- crates/interpreter/src/builtins/math.rs: the greatest common divisor and the least common
-- multiple.
use Prim.Native.Nat.{◌∣◌}
use native.Mathlib.Nat
use nlang_tools.Prelude.{
  ℕ, zero, suc, ◌+◌, ◌*◌, ◌/◌, ◌%◌, ◌<◌, true, false, ◌==◌, ==_iff, some, ◌≡◌, refl, ap, sym, ◌∙◌,
  subst, arith, Bool-cases, inl, inr,
}
use nlang_tools.Parser.Ast.{ℤ}
use nlang_tools.Builtins.Math.{abs, gcd_loop, bigint_gcd, lcm_by, lcm}

-- A common divisor that, times any number, is divided by what divides both numbers times it.
pub record IsGcd (a b g : ℕ) : Type 0 where
  pub left : g ∣ a
  pub right : g ∣ b
  pub greatest : (k c : ℕ) → k ∣ a * c → k ∣ b * c → k ∣ g * c

mod-mul_split : (a b c : ℕ) → a % b * c + b * c * (a / b) ≡ a * c
mod-mul_split a b c =
    let swap : b * c * (a / b) ≡ b * (a / b) * c = Nat.mul_right_comm b c (a / b) in
    ap (λ n. a % b * c + n) swap
    ∙ (sym (Nat.add-mul (a % b) (b * (a / b)) c) ∙ ap (λ n. n * c) (Nat.mod-add-div a b))

dvd-mod-mul : (a b c k : ℕ) → k ∣ a * c → k ∣ b * c → k ∣ a % b * c
dvd-mod-mul a b c k ka kb =
    (Nat.dvd-add_iff_left k (Nat.dvd-mul_right_of_dvd k kb (a / b))).1
      (subst (λ n. k ∣ n) (sym (mod-mul_split a b c)) ka)

IsGcd-step : (a b g : ℕ) → IsGcd b (a % b) g → IsGcd a b g
IsGcd-step a b g is = record {
  left = (Nat.dvd-mod_iff g is.left).0 is.right;
  right = is.left;
  greatest = λ k c ka kb. is.greatest k c kb (dvd-mod-mul a b c k ka kb);
}

gcd_loop-IsGcd : (fuel a b : ℕ) → b < fuel → (g : ℕ) × (gcd_loop fuel a b ≡ some g) × IsGcd a b g
unfolding gcd_loop
gcd_loop-IsGcd zero a b enough = absurd (omega (arith, enough))
gcd_loop-IsGcd (suc fuel) a b enough = elim (Bool-cases (b == 0)) [
  | inl done ↦
      let gone : b ≡ 0 = (==_iff b 0).0 done in
      (
        a,
        rw (done) refl,
        record {
          left = Nat.dvd_refl a;
          right = subst (λ n. a ∣ n) (sym gone) (Nat.dvd-zero a);
          greatest = λ k c ka kb. ka;
        },
      )
  | inr more ↦
      let less : a % b < fuel = ground (arith, more, enough) in
      let (g, result, is) = gcd_loop-IsGcd fuel b (a % b) less in
      (g, rw (more) result, IsGcd-step a b g is)
]

bigint_gcd-IsGcd : (a b : ℤ) → (g : ℕ) × (bigint_gcd a b ≡ some g) × IsGcd (abs a) (abs b) g
unfolding bigint_gcd
bigint_gcd-IsGcd a b = gcd_loop-IsGcd (suc (abs b)) (abs a) (abs b) (omega arith)

greatest-one : (a b g k : ℕ) → IsGcd a b g → k ∣ a → k ∣ b → k ∣ g
greatest-one a b g k is ka kb =
    subst (λ n. k ∣ n) (Nat.mul-one g)
      (is.greatest k 1 (subst (λ n. k ∣ n) (sym (Nat.mul-one a)) ka)
        (subst (λ n. k ∣ n) (sym (Nat.mul-one b)) kb))

-- The loop for the greatest common divisor ends, for all integers, with a common divisor of their
-- magnitudes that every common divisor divides.
pub bigint_gcd-greatest :
    (a b : ℤ)
    → (g : ℕ) × (bigint_gcd a b ≡ some g)
      × (g ∣ abs a)
      × (g ∣ abs b)
      × ((k : ℕ) → k ∣ abs a → k ∣ abs b → k ∣ g)
bigint_gcd-greatest a b =
    let (g, result, is) = bigint_gcd-IsGcd a b in
    (g, result, is.left, is.right, λ k ka kb. greatest-one (abs a) (abs b) g k is ka kb)

-- a common multiple that divides every common multiple
pub record IsLcm (a b l : ℕ) : Type 0 where
  pub left : a ∣ l
  pub right : b ∣ l
  pub least : (k : ℕ) → a ∣ k → b ∣ k → l ∣ k

IsLcm-zero : (a b g : ℕ) → IsGcd a b g → (g == 0) ≡ true → IsLcm a b 0
IsLcm-zero a b g is no_g =
    let gone : a ≡ 0 = Nat.eq-zero_of_zero-dvd (subst (λ n. n ∣ a) ((==_iff g 0).0 no_g) is.left) in
    record {
      left = Nat.dvd-zero a;
      right = Nat.dvd-zero b;
      least = λ k ka kb. subst (λ n. n ∣ k) gone ka;
    }

IsLcm-product : (a b g : ℕ) → IsGcd a b g → (g == 0) ≡ false → IsLcm a b (a / g * b)
IsLcm-product a b g is some_g =
    let positive : 0 < g = ground (arith, some_g) in
    let a_parts : a / g * g ≡ a = Nat.div-mul_cancel g is.left in
    let b_parts : g * (b / g) ≡ b = Nat.mul-div_cancel' g is.right in
    let as_left : a * (b / g) ≡ a / g * b =
      ap (λ n. n * (b / g)) (sym a_parts)
      ∙ (Nat.mul_assoc (a / g) g (b / g) ∙ ap (λ n. a / g * n) b_parts) in
    let scaled : b * a ≡ a / g * b * g =
      Nat.mul_comm b a ∙ (ap (λ n. n * b) (sym a_parts) ∙ Nat.mul_right_comm (a / g) g b) in
    record {
      left = subst (λ n. a ∣ n) as_left (Nat.dvd-mul_right a (b / g));
      right = Nat.dvd-mul_left b (a / g);
      least = λ k ka kb. Nat.dvd_of_mul-dvd-mul_right (a / g * b) positive (
          subst (λ n. n ∣ k * g) scaled
            (subst (λ n. b * a ∣ n) (Nat.mul_comm g k)
              (is.greatest (b * a) k
                (subst (λ n. n ∣ a * k) (Nat.mul_comm a b) (Nat.mul-dvd-mul_left b a kb))
                (Nat.mul-dvd-mul_left a b ka))));
    }

-- The answer of `math.lcm` to any two integers is a common multiple of their magnitudes that
-- divides every common multiple.
pub lcm-IsLcm : (a b : ℤ) → (l : ℕ) × (lcm a b ≡ some l) × IsLcm (abs a) (abs b) l
unfolding lcm
lcm-IsLcm a b =
    let (g, result, is) = bigint_gcd-IsGcd a b in
    elim (Bool-cases (g == 0)) [
      | inl zero_g ↦ (
        0,
        ap (lcm_by (abs a) (abs b)) result ∙ rw (zero_g) refl,
        IsLcm-zero (abs a) (abs b) g is zero_g,
      )
      | inr some_g ↦ (
        abs a / g * abs b,
        ap (lcm_by (abs a) (abs b)) result ∙ rw (some_g) refl,
        IsLcm-product (abs a) (abs b) g is some_g,
      )
    ]
