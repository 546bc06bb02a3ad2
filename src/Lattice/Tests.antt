-- ===== src/Lattice/Tests.antt =====
-- crates/interpreter/src/unify.rs and value.rs: numbers compared, and ranges met.
use Prim.Native.Nat.{Ordering}
use nlang_tools.Prelude.{◌^◌, Bool, true, ◌&&◌, none, some, ◌≡◌, refl}
use nlang_tools.Parser.Ast.{pos, negsuc}
use nlang_tools.Effects.Tag.{pure}
use nlang_tools.Lattice.Numbers.{Number, int, float, finite, num_cmp, int_float_cmp}
use nlang_tools.Lattice.Numbers.Exact.{cmp_places, place_of, place, num_cmp-exact}
use nlang_tools.Lattice.Range.{
  number, Value, atom, range, stepped, conflict, range_intersect, range_membership, range_unify,
  bound_cmp, on_step,
}
use nlang_tools.Lattice.Range.Meet.{accepts, accepts-range_intersect}

-- -2.5 and 5.5
abbrev low : Number
low = float (finite (negsuc 2) (2 ^ 1073))

abbrev high : Number
high = float (finite (pos 5) (2 ^ 1073))

abbrev bound : Number → Value Unit
bound n = atom (number n) pure none

abbrev dense : Number → Number → Number → Bool
dense x start step = true

below_fraction : num_cmp (int (negsuc 2)) low ≡ some Ordering.lt
unfolding num_cmp int_float_cmp
below_fraction = refl

odd_members :
    (range_unify dense
        (bound (int (pos 3)))
        (stepped (bound (int (pos 1))) (bound high) (bound (int (pos 2))))
      ≡ some (bound (int (pos 3))))
    × (range_unify dense
          (bound (int (pos 4)))
          (stepped (bound (int (pos 1))) (bound high) (bound (int (pos 2))))
        ≡ some conflict)
unfolding range_unify range_membership on_step bound_cmp num_cmp int_float_cmp
odd_members = (refl, refl)

num_cmp-exact_example :
    num_cmp low (int (negsuc 1)) ≡ cmp_places (place_of low) (place_of (int (negsuc 1)))
num_cmp-exact_example = num_cmp-exact low (int (negsuc 1))

accepts-range_intersect_example :
    accepts dense (int (pos 3)) (
      range_intersect
        (range (bound low) (bound high))
        (range (bound (int (pos 1))) (bound (int (pos 9)))))
    ≡ (accepts dense (int (pos 3)) (range (bound low) (bound high))
        && accepts dense (int (pos 3)) (range (bound (int (pos 1))) (bound (int (pos 9)))))
accepts-range_intersect_example =
    accepts-range_intersect dense (int (pos 3)) (place 2 (pos 3) 0) (place 2 (negsuc 2) (2 ^ 1073))
      (place 2 (pos 5) (2 ^ 1073)) (place 2 (pos 1) 0) (place 2 (pos 9) 0) (bound low) (bound high)
      (bound (int (pos 1))) (bound (int (pos 9))) refl refl refl refl refl
