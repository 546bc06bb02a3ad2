-- ===== src/Horizon/Meter/Steps.antt =====
-- crates/interpreter/src/lib.rs and eval.rs: evaluations by what they charge. `eval` and
-- `force_recursive_metered` go one level deeper for a check and what depends on it; the other calls
-- of `check_resources` charge at the level where they are. The fuel that `force_recursive` gives a
-- cell of its own, and the reference that `force_recursive_metered` returns without leaving its
-- level, are left out.
use nlang_tools.Prelude.{ℕ, ◌+◌, ◌-◌, ◌%◌, Option, none, some, List, [], ◌∷◌, ◌++◌}
use nlang_tools.Horizon.Observation.{EvalContext, ResourceExhausted}
use nlang_tools.Horizon.Meter.{check_resources, u32_values}

-- a cost, the time of the check, what is done if it is passed, and what comes after
pub data Steps : Type 0 where
  done : Steps
  charge : ℕ → ℕ → Steps → Steps → Steps
  deeper : ℕ → ℕ → Steps → Steps → Steps

abbrev pub at_depth : ℕ → EvalContext → EvalContext
at_depth depth ctx = record ctx { depth = depth }

-- the refusals, in their order
abbrev pub Ran : Type 0
Ran = List ResourceExhausted × EvalContext

-- what a check leads to, with what is done if it is passed
abbrev pub if_passed : (EvalContext → Ran) → Option ResourceExhausted × EvalContext → Ran
if_passed body (some e, ctx) = (e ∷ [], ctx)
if_passed body (none, ctx) = body ctx

abbrev pub then_run : Ran → (EvalContext → Ran) → Ran
then_run (refusals, ctx) rest = (refusals ++ (rest ctx).0, (rest ctx).1)

-- `depth -= 1`
abbrev pub leave : Ran → Ran
leave (refusals, ctx) = (refusals, at_depth (ctx.depth - 1) ctx)

unfoldable pub run : Steps → EvalContext → Ran
unfolding check_resources
run done ctx = ([], ctx)
run (charge cost now body rest) ctx =
    then_run (if_passed (run body) (check_resources ctx now cost)) (run rest)
run (deeper cost now body rest) ctx =
    then_run
      (leave (
        if_passed (run body)
          (check_resources (at_depth ((ctx.depth + 1) % u32_values) ctx) now cost)))
      (run rest)
