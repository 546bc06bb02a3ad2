-- ===== src/Prelude/Range.antt =====
-- A test at every number below a bound, by evaluation.
use Prim.Native.Nat.{ℕ, zero, suc, ◌<◌}
use mathlib.Core.Path.{◌≡◌}
use mathlib.Core.Bool.{Bool, true, ◌&&◌}
use native.Mathlib.Omega.{arith}

unfoldable pub test_under : ℕ → (ℕ → Bool) → Bool
test_under zero test = true
test_under (suc top) test = test_under top test && test top

pub under_elim :
    (bound : ℕ) (test : ℕ → Bool) (i : ℕ) → test_under bound test ≡ true → i < bound → test i ≡ true
unfolding test_under
under_elim zero test i passed i<bound = absurd (omega arith)
under_elim (suc top) test i passed i<bound = ground (arith, under_elim top test i)

pub under_elim₂ :
    (bound width : ℕ) (test : ℕ → ℕ → Bool) (i j : ℕ)
    → test_under bound (λ k. test_under width (test k)) ≡ true
    → i < bound
    → j < width
    → test i j ≡ true
under_elim₂ bound width test i j passed i<bound j<width =
    under_elim width (test i) j (under_elim bound (λ k. test_under width (test k)) i passed i<bound)
      j<width
