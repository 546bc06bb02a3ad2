-- ===== src/Lattice/Numbers.antt =====
-- crates/interpreter/src/value.rs: the exact comparison of integers and floats. A finite float is
-- the integer below it and its distance from there, in units of 2 ^ -1074; both zeros are one.
pub mod Exact
use Prim.Native.Nat.{compare, Ordering}
use nlang_tools.Prelude.{ℕ, zero, suc, ◌+◌, Bool, true, false, Option, none, some}
use nlang_tools.Parser.Ast.{ℤ, pos, negsuc}

abbrev pub pos_part : ℤ → ℕ
pos_part (pos n) = n
pos_part (negsuc n) = 0

abbrev pub neg_part : ℤ → ℕ
neg_part (pos n) = 0
neg_part (negsuc n) = suc n

abbrev pub cmp_int : ℤ → ℤ → Ordering
cmp_int a b = compare (pos_part a + neg_part b) (pos_part b + neg_part a)

abbrev pub suc_int : ℤ → ℤ
suc_int (pos n) = pos (suc n)
suc_int (negsuc zero) = pos 0
suc_int (negsuc (suc n)) = negsuc n

pub data Double : Type 0 where
  nan : Double
  infinite : Bool → Double
  finite : ℤ → ℕ → Double

pub data Number : Type 0 where
  int : ℤ → Number
  float : Double → Number

abbrev pub reverse : Ordering → Ordering
reverse Ordering.lt = Ordering.gt
reverse Ordering.eq = Ordering.eq
reverse Ordering.gt = Ordering.lt

-- two finite floats, or a float and an integer with the fraction 0
abbrev pub then_cmp : Ordering → Ordering → Ordering
then_cmp Ordering.eq second = second
then_cmp Ordering.lt second = Ordering.lt
then_cmp Ordering.gt second = Ordering.gt

abbrev pub cmp_parts : ℤ → ℕ → ℤ → ℕ → Ordering
cmp_parts a f b g = then_cmp (cmp_int a b) (compare f g)

-- `trunc`, which goes towards zero
abbrev pub trunc : ℤ → ℕ → ℤ
trunc (pos n) frac = pos n
trunc (negsuc n) zero = negsuc n
trunc (negsuc n) (suc frac) = suc_int (negsuc n)

unfoldable pub partial_cmp : Double → Double → Option Ordering
partial_cmp nan y = none
partial_cmp (infinite b) nan = none
partial_cmp (finite a f) nan = none
partial_cmp (infinite true) (infinite true) = some Ordering.eq
partial_cmp (infinite false) (infinite false) = some Ordering.eq
partial_cmp (infinite true) (infinite false) = some Ordering.gt
partial_cmp (infinite false) (infinite true) = some Ordering.lt
partial_cmp (infinite true) (finite a f) = some Ordering.gt
partial_cmp (infinite false) (finite a f) = some Ordering.lt
partial_cmp (finite a f) (infinite true) = some Ordering.lt
partial_cmp (finite a f) (infinite false) = some Ordering.gt
partial_cmp (finite a f) (finite b g) = some (cmp_parts a f b g)

-- an integer that equals the truncated float, against what was cut off
abbrev pub past_trunc : Ordering → Ordering → Ordering
past_trunc Ordering.eq cut = reverse cut
past_trunc Ordering.lt cut = Ordering.lt
past_trunc Ordering.gt cut = Ordering.gt

-- `infinite true` is the positive infinity
unfoldable pub int_float_cmp : ℤ → Double → Option Ordering
int_float_cmp i nan = none
int_float_cmp i (infinite true) = some Ordering.lt
int_float_cmp i (infinite false) = some Ordering.gt
int_float_cmp i (finite a f) =
    some (past_trunc (cmp_int i (trunc a f)) (cmp_parts a f (trunc a f) 0))

abbrev pub map_reverse : Option Ordering → Option Ordering
map_reverse none = none
map_reverse (some o) = some (reverse o)

unfoldable pub num_cmp : Number → Number → Option Ordering
unfolding partial_cmp int_float_cmp
num_cmp (int x) (int y) = some (cmp_int x y)
num_cmp (float x) (float y) = partial_cmp x y
num_cmp (int x) (float y) = int_float_cmp x y
num_cmp (float x) (int y) = map_reverse (int_float_cmp y x)
