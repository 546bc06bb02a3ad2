-- ===== src/Horizon/Meter.antt =====
-- crates/interpreter/src/lib.rs: the meter of an evaluation, and the configuration that sets it.
-- `now` is what the clock reads, in milliseconds. A field of the configuration is of one of the
-- forms that are looked for, or of another; an integer is of any type `B`, and `to_u64` is its
-- conversion.
pub mod Steps
pub mod Fits
pub mod Configured
pub mod Stops
use text.Mathlib.Text.{◌==◌ as str_eq}
use nlang_tools.Prelude.{
  ℕ, ◌+◌, ◌-◌, ◌%◌, ltb, String, Bool, true, false, if◌then◌else◌, Option, none, some,
}
use nlang_tools.Parser.Spans.{usize_max}
use nlang_tools.Canon.Atoms.{trim_hashes}
use nlang_tools.Horizon.Blur.{ObservationStrategy, blur_strategy, strict, approximate}
use nlang_tools.Horizon.Observation.{
  EvalContext, ResourceExhausted, fuel_exhausted, timeout, stack_overflow, depth_exceeded,
}

abbrev pub hard_recursion_limit : ℕ
hard_recursion_limit = 400

-- the bounds of the machine's integers
abbrev pub u32_values : ℕ
u32_values = 4294967296

abbrev pub u64_values : ℕ
u64_values = 18446744073709551616

-- `fuel -= cost`
abbrev pub spend : ℕ → EvalContext → EvalContext
spend cost ctx = record ctx { fuel = ctx.fuel - cost }

abbrev pub past : Option ℕ → ℕ → Bool
past none now = false
past (some deadline) now = ltb deadline now

-- `none` is `Ok(())`
unfoldable pub check_resources : EvalContext → ℕ → ℕ → Option ResourceExhausted × EvalContext
check_resources ctx now cost =
    if ltb (ctx.max_unification_depth % u32_values) ctx.depth
    then (some depth_exceeded, ctx)
    else if ltb hard_recursion_limit ctx.depth
    then (some stack_overflow, ctx)
    else if past ctx.timeout_deadline now
    then (some timeout, ctx)
    else if ltb ctx.fuel cost
    then (some fuel_exhausted, ctx)
    else (none, spend cost ctx)

pub data ConfigValue (B : Type 0) : Type 0 where
  tag_end : ConfigValue B
  int : B → ConfigValue B
  tag : String → ConfigValue B
  other : ConfigValue B

unfoldable pub strategy_of : String → ObservationStrategy
strategy_of s =
    if str_eq s "strict"
    then strict
    else if str_eq s "approximate"
    then approximate
    else blur_strategy

module _ {B : Type 0} (to_u64 : B → Option ℕ) where
  abbrev pub u64_or : ℕ → Option ℕ → ℕ
  u64_or old none = old
  u64_or old (some n) = n

  -- a field that is read if it is an integer
  abbrev pub number_or : ℕ → Option (ConfigValue B) → ℕ
  number_or old (some (int n)) = u64_or old (to_u64 n)
  number_or old _ = old

  -- a field that may be unbounded, too
  abbrev pub limit_or : ℕ → Option (ConfigValue B) → ℕ
  limit_or old (some tag_end) = usize_max
  limit_or old (some (int n)) = u64_or old (to_u64 n)
  limit_or old _ = old

  abbrev pub strategy_or : ObservationStrategy → Option (ConfigValue B) → ObservationStrategy
  strategy_or old (some (tag s)) = strategy_of (trim_hashes s)
  strategy_or old _ = old

  abbrev pub armed : Option ℕ → ℕ → Option ℕ → Option ℕ
  armed old now none = old
  armed old now (some ms) = some ((now + ms) % u64_values)

  abbrev pub deadline_or : Option ℕ → ℕ → Option (ConfigValue B) → Option ℕ
  deadline_or old now (some tag_end) = none
  deadline_or old now (some (int n)) = armed old now (to_u64 n)
  deadline_or old now _ = old

  unfoldable pub apply_horizon_config :
      (String → Option (ConfigValue B)) → Bool → Bool → ℕ → EvalContext → EvalContext
  unfolding strategy_of
  apply_horizon_config get_field include_fuel_strategy apply_timeout now ctx = record {
    fuel = if include_fuel_strategy then number_or ctx.fuel (get_field "fuel") else ctx.fuel;
    fuel_budget =
        if include_fuel_strategy
        then number_or ctx.fuel_budget (get_field "fuel")
        else ctx.fuel_budget;
    timeout_deadline =
        if apply_timeout
        then deadline_or ctx.timeout_deadline now (get_field "timeout")
        else ctx.timeout_deadline;
    depth = ctx.depth;
    strategy =
        if include_fuel_strategy
        then strategy_or ctx.strategy (get_field "strategy")
        else ctx.strategy;
    max_branches = limit_or ctx.max_branches (get_field "max_branches");
    max_unification_depth = number_or ctx.max_unification_depth (get_field "max_unification_depth");
    max_lifting_depth = number_or ctx.max_lifting_depth (get_field "max_lifting_depth");
    max_pattern_nodes = limit_or ctx.max_pattern_nodes (get_field "max_pattern_nodes");
  }
