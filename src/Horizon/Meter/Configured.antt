-- ===== src/Horizon/Meter/Configured.antt =====
-- crates/interpreter/src/lib.rs: what an evaluation may do under a configuration.
use nlang_tools.Prelude.{
  ℕ, ◌+◌, ◌%◌, ◌≤◌, ◌<◌, min, String, true, Option, none, some, [], ◌≡◌, ◌↔◌, refl, ap, sym, ◌∙◌,
  arith,
}
use nlang_tools.Horizon.Blur.{blur_strategy}
use nlang_tools.Horizon.Observation.{EvalContext}
use nlang_tools.Horizon.Meter.{
  apply_horizon_config, ConfigValue, int, u32_values, u64_values, hard_recursion_limit,
}
use nlang_tools.Horizon.Meter.Steps.{Steps, run}
use nlang_tools.Horizon.Meter.Fits.{total_cost, deepest, on_time, run-Fits, run-spends}

-- `EvalContext::new`
abbrev pub new_context : EvalContext
new_context = record {
  fuel = 10000;
  fuel_budget = 10000;
  timeout_deadline = none;
  depth = 0;
  strategy = blur_strategy;
  max_branches = 64;
  max_unification_depth = 256;
  max_lifting_depth = 32;
  max_pattern_nodes = 1024;
}

module _ {B : Type 0} (to_u64 : B → Option ℕ) (get_field : String → Option (ConfigValue B)) where
  -- Under a configuration that sets the fuel, the greatest depth and the timeout to integers in
  -- the range of 64 bits, the deadline in that range too, an evaluation in a new context is refused
  -- nothing exactly if its costs come to no more than the fuel, its levels to no more than 400 and
  -- the greatest depth less its multiples of 2 ^ 32, and no check is made after the deadline.
  pub run-apply_horizon_config :
      (fuel depth ms : B) (f d t now : ℕ) (steps : Steps)
      → get_field "fuel" ≡ some (int fuel)
      → to_u64 fuel ≡ some f
      → get_field "max_unification_depth" ≡ some (int depth)
      → to_u64 depth ≡ some d
      → get_field "timeout" ≡ some (int ms)
      → to_u64 ms ≡ some t
      → now + t < u64_values
      → ((run steps (apply_horizon_config to_u64 get_field true true now new_context)).0 ≡ []) ↔ (
          (total_cost steps ≤ f)
          × (deepest steps ≤ min (d % u32_values) hard_recursion_limit)
          × (on_time (some (now + t)) steps ≡ true))
  unfolding apply_horizon_config
  run-apply_horizon_config fuel depth ms f d t now steps e_fuel is_f e_depth is_d e_ms is_t
        in_range =
      let ctx : EvalContext = apply_horizon_config to_u64 get_field true true now new_context in
      let fuel_set : ctx.fuel ≡ f = rw e_fuel rw is_f refl in
      let depth_set : ctx.max_unification_depth ≡ d = rw e_depth rw is_d refl in
      let deadline_set : ctx.timeout_deadline ≡ some (now + t) =
        rw e_ms rw is_t (ap (λ n. some n) (omega (arith, in_range))) in
      (
        λ nothing.
            let fits = run-Fits steps ctx (omega arith) nothing in
            (
              omega (arith, fits.0, fuel_set),
              omega (arith, fits.1, depth_set),
              sym (ap (λ o. on_time o steps) deadline_set) ∙ fits.2,
            ),
        λ fits.
            ap (λ r. r.0)
              (run-spends steps ctx (omega arith) (
                omega (arith, fits.0, fuel_set),
                omega (arith, fits.1, depth_set),
                ap (λ o. on_time o steps) deadline_set ∙ fits.2,
              )),
      )
