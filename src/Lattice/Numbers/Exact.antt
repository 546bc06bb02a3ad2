-- ===== src/Lattice/Numbers/Exact.antt =====
-- crates/interpreter/src/value.rs: the comparison by truncation is the order of the numbers.
use Prim.Native.Nat.{compare, Ordering}
use nlang_tools.Prelude.{
  ℕ, zero, suc, Bool, true, false, Option, none, some, ◌≡◌, refl, ap, ◌∙◌, arith,
}
use nlang_tools.Parser.Ast.{ℤ, pos, negsuc}
use nlang_tools.Lattice.Numbers.{
  cmp_int, nan, infinite, finite, Number, int, float, reverse, then_cmp, cmp_parts, trunc,
  partial_cmp, past_trunc, int_float_cmp, num_cmp,
}

-- where a number stands: the infinities at the levels 1 and 3, the finite numbers at level 2
pub data Place : Type 0 where
  place : ℕ → ℤ → ℕ → Place

abbrev pub cmp_place : Place → Place → Ordering
cmp_place (place l a f) (place m b g) = then_cmp (compare l m) (cmp_parts a f b g)

abbrev pub place_of : Number → Option Place
place_of (int i) = some (place 2 i 0)
place_of (float nan) = none
place_of (float (infinite true)) = some (place 3 (pos 0) 0)
place_of (float (infinite false)) = some (place 1 (pos 0) 0)
place_of (float (finite a f)) = some (place 2 a f)

int_float-exact :
    (i a : ℤ) (f : ℕ)
    → past_trunc (cmp_int i (trunc a f)) (cmp_parts a f (trunc a f) 0) ≡ cmp_parts i 0 a f
int_float-exact (pos i) (pos a) f = ground arith
int_float-exact (negsuc i) (pos a) f = ground arith
int_float-exact (pos i) (negsuc a) zero = ground arith
int_float-exact (negsuc i) (negsuc a) zero = ground arith
int_float-exact (pos i) (negsuc zero) (suc f) = ground arith
int_float-exact (negsuc i) (negsuc zero) (suc f) = ground arith
int_float-exact (pos i) (negsuc (suc a)) (suc f) = ground arith
int_float-exact (negsuc i) (negsuc (suc a)) (suc f) = ground arith

reverse_parts : (a b : ℤ) (f g : ℕ) → reverse (cmp_parts a f b g) ≡ cmp_parts b g a f
reverse_parts a b f g = ground arith

abbrev pub cmp_places : Option Place → Option Place → Option Ordering
cmp_places none q = none
cmp_places (some p) none = none
cmp_places (some p) (some q) = some (cmp_place p q)

-- The comparison of two numbers, of integers with floats as well, which truncates the float, is
-- the exact order of the numbers with both infinities, and it is undefined exactly for a NaN.
pub num_cmp-exact : (a b : Number) → num_cmp a b ≡ cmp_places (place_of a) (place_of b)
unfolding num_cmp int_float_cmp partial_cmp
num_cmp-exact (int x) (int y) = ground arith
num_cmp-exact (int x) (float nan) = refl
num_cmp-exact (int x) (float (infinite true)) = refl
num_cmp-exact (int x) (float (infinite false)) = refl
num_cmp-exact (int x) (float (finite a f)) = ap some (int_float-exact x a f)
num_cmp-exact (float nan) (int y) = refl
num_cmp-exact (float (infinite true)) (int y) = refl
num_cmp-exact (float (infinite false)) (int y) = refl
num_cmp-exact (float (finite a f)) (int y) =
    ap (λ o. some (reverse o)) (int_float-exact y a f) ∙ ap some (reverse_parts y a 0 f)
num_cmp-exact (float nan) (float y) = refl
num_cmp-exact (float (infinite true)) (float nan) = refl
num_cmp-exact (float (infinite false)) (float nan) = refl
num_cmp-exact (float (finite a f)) (float nan) = refl
num_cmp-exact (float (infinite true)) (float (infinite true)) = refl
num_cmp-exact (float (infinite true)) (float (infinite false)) = refl
num_cmp-exact (float (infinite true)) (float (finite b g)) = refl
num_cmp-exact (float (infinite false)) (float (infinite true)) = refl
num_cmp-exact (float (infinite false)) (float (infinite false)) = refl
num_cmp-exact (float (infinite false)) (float (finite b g)) = refl
num_cmp-exact (float (finite a f)) (float (infinite true)) = refl
num_cmp-exact (float (finite a f)) (float (infinite false)) = refl
num_cmp-exact (float (finite a f)) (float (finite b g)) = refl

-- laws of the order of places
abbrev pub leb_place : Place → Place → Bool
leb_place p q = elim (cmp_place p q) [ Ordering.gt ↦ false | _ ↦ true ]

pub leb_place_trans :
    (p q r : Place) → leb_place p q ≡ true → leb_place q r ≡ true → leb_place p r ≡ true
leb_place_trans (place l a f) (place m b g) (place n c h) pq qr = ground arith

pub reverse_place : (p q : Place) → cmp_place q p ≡ reverse (cmp_place p q)
reverse_place (place l a f) (place m b g) = ground arith

pub cmp_place_self : (p : Place) → cmp_place p p ≡ Ordering.eq
cmp_place_self (place l a f) = ground arith
