-- ===== src/Builtins/Math.antt =====
-- crates/interpreter/src/builtins/math.rs: integers of any size. The loops run on fuel, and an
-- integer that their callers have found not to be negative is a natural number.
pub mod Divisors
pub mod Powers
pub mod Products
use nlang_tools.Prelude.{
  ℕ, zero, suc, ◌+◌, ◌-◌, ◌*◌, ◌/◌, ◌%◌, Bool, true, false, ◌||◌, ◌==◌, ltb, leb, if◌then◌else◌,
  Option, none, some,
}
use nlang_tools.Parser.Ast.{ℤ, pos, negsuc}

abbrev pub abs : ℤ → ℕ
abs (pos n) = n
abs (negsuc n) = suc n

unfoldable pub gcd_loop : ℕ → ℕ → ℕ → Option ℕ
gcd_loop zero a b = none
gcd_loop (suc fuel) a b = let rest = gcd_loop fuel b (a % b) in if b == 0 then some a else rest

-- The second number falls in each round, so a round for each of its values is enough.
unfoldable pub bigint_gcd : ℤ → ℤ → Option ℕ
unfolding gcd_loop
bigint_gcd a b = gcd_loop (suc (abs b)) (abs a) (abs b)

-- the multiple from the greatest common divisor
abbrev pub lcm_by : ℕ → ℕ → Option ℕ → Option ℕ
lcm_by a b none = none
lcm_by a b (some g) = if g == 0 then some 0 else some (a / g * b)

-- `math.lcm` of two integers
unfoldable pub lcm : ℤ → ℤ → Option ℕ
unfolding bigint_gcd
lcm a b = lcm_by (abs a) (abs b) (bigint_gcd a b)

unfoldable pub modpow_loop : ℕ → ℕ → ℕ → ℕ → ℕ → Option ℕ
modpow_loop zero modulus result base exp = none
modpow_loop (suc fuel) modulus result base exp =
    let taken = if exp % 2 == 1 then result * base % modulus else result in
    let rest = modpow_loop fuel modulus taken (base * base % modulus) (exp / 2) in
    if exp == 0 then some result else rest

-- The exponent falls in each round.
unfoldable pub bigint_modpow : ℕ → ℕ → ℕ → Option ℕ
unfolding modpow_loop
bigint_modpow base exp modulus =
    if modulus == 1 then some 0 else modpow_loop (suc exp) modulus 1 (base % modulus) exp

abbrev pub is_negative : ℤ → Bool
is_negative (pos n) = false
is_negative (negsuc n) = true

-- an answer, or the bottom of a conflict
pub data Answer : Type 0 where
  answer : ℕ → Answer
  conflict unfinished : Answer

abbrev pub answered : Option ℕ → Answer
answered none = unfinished
answered (some n) = answer n

-- `math.pow_mod` of three integers
unfoldable pub pow_mod : ℤ → ℤ → ℤ → Answer
unfolding bigint_modpow
pow_mod base exp modulus =
    if is_negative base || (is_negative exp || (is_negative modulus || abs modulus == 0))
    then conflict
    else answered (bigint_modpow (abs base) (abs exp) (abs modulus))

unfoldable pub factorial_loop : ℕ → ℕ → ℕ → ℕ → Option ℕ
factorial_loop zero n result i = none
factorial_loop (suc fuel) n result i =
    let rest = factorial_loop fuel n (result * i) (i + 1) in if leb i n then rest else some result

unfoldable pub bigint_factorial : ℕ → Option ℕ
unfolding factorial_loop
bigint_factorial n = factorial_loop (suc n) n 1 2

unfoldable pub choose_loop : ℕ → ℕ → ℕ → ℕ → ℕ → Option ℕ
choose_loop zero n k result i = none
choose_loop (suc fuel) n k result i =
    let rest = choose_loop fuel n k (result * (n - i) / (i + 1)) (i + 1) in
    if ltb i k then rest else some result

abbrev choose_up_to : ℕ → ℕ → Option ℕ
choose_up_to n k =
    if ltb n k
    then some 0
    else if ltb (n - k) k
    then choose_loop (suc (n - k)) n (n - k) 1 0
    else choose_loop (suc k) n k 1 0

unfoldable pub bigint_choose : ℕ → ℤ → Option ℕ
unfolding choose_loop
bigint_choose n (negsuc k) = some 0
bigint_choose n (pos k) = choose_up_to n k
