-- ===== src/Horizon/Tests.antt =====
-- Suspended answers and nested answers at concrete values.
use text.Mathlib.Text.{◌==◌ as str_eq}
use nlang_tools.Prelude.{
  ℕ, ◌+◌, ◌%◌, ◌≤◌, min, ltb, ◌==◌, Bool, if◌then◌else◌, String, Option, List, [], ◌∷◌, true, false,
  some, none, ◌≡◌, ◌↔◌, refl, arith,
}
use nlang_tools.Effects.Tag.{pure, union}
use nlang_tools.Horizon.Blur.{
  blur_strategy, BlurCause, fuel_exhausted, stack_overflow, timeout, cause_str, HorizonParams,
  HorizonRecord, BlurDetail, primary_record,
}
use nlang_tools.Horizon.RecordSet.{
  insert_record, sort_records, dedup_after, dedup_records, record_set, blur_caid, key_leb,
  remove_primary, merge_set,
}
use nlang_tools.Horizon.RecordSet.Merge.{blur_caid-merge_set}
use nlang_tools.Horizon.Trace.{Thread, new_trace}
use nlang_tools.Horizon.Trace.Scopes.{
  Acts, Left, answer, done, then_next, note_thunk, note_suspension, run_acts, reduces, suspends,
  run_acts-Left,
}
use nlang_tools.Horizon.Observation.{EvalContext, ResourceExhausted, depth_exceeded}
use nlang_tools.Horizon.Meter.{
  ConfigValue, int, apply_horizon_config, check_resources, u32_values, u64_values,
  hard_recursion_limit,
}
use nlang_tools.Horizon.Meter.Steps.{Steps, done as no_steps, charge, deeper, run}
use nlang_tools.Horizon.Meter.Fits.{total_cost, deepest, on_time}
use nlang_tools.Horizon.Meter.Configured.{new_context, run-apply_horizon_config}
use nlang_tools.Horizon.Meter.Stops.{Step, chain, Moves, chain-stops}

abbrev ctx : EvalContext
ctx = record {
  fuel = 0;
  fuel_budget = 100;
  timeout_deadline = none;
  depth = 0;
  strategy = blur_strategy;
  max_branches = 8;
  max_unification_depth = 64;
  max_lifting_depth = 8;
  max_pattern_nodes = 1000;
}

-- a thread in the answer of trace 1
abbrev thread : Thread
thread = record { traces = λ i. new_trace; active_answer = some 1 }

-- an answer with a trace of its own, suspended, in an answer that then reduces a thunk
abbrev nested_acts : Acts
nested_acts = then_next (answer 2 (then_next note_suspension done)) (then_next note_thunk done)

touched_inside :
    ((run_acts nested_acts thread).traces 2
      ≡ record { reduced_thunk = false; touched_horizon = true })
    × ((run_acts nested_acts thread).traces 1
        ≡ record { reduced_thunk = true; touched_horizon = false })
unfolding run_acts
touched_inside = (refl, refl)

run_acts-Left_example :
    Left 1
      (reduces 1 (some 1) nested_acts)
      (suspends 1 (some 1) nested_acts)
      thread
      (run_acts nested_acts thread)
run_acts-Left_example = run_acts-Left 1 nested_acts thread

abbrev params : ℕ → HorizonParams
params n = record {
  fuel = n;
  fuel_remaining = 0;
  strategy = blur_strategy;
  max_branches = 8;
  max_unification_depth = 64;
  max_lifting_depth = 8;
  max_pattern_nodes = 1000;
}

abbrev record_at : BlurCause → ℕ → HorizonRecord Unit Unit
record_at cause n = record {
  cause = cause;
  horizon = params n;
  partial_hash = none;
  partial_body = none;
}

abbrev blur_at : BlurCause → ℕ → List (HorizonRecord Unit Unit) → BlurDetail Unit Unit
blur_at cause n recs = record {
  cause = cause;
  horizon = params n;
  partial_hash = none;
  partial_body = none;
  effect = pure;
  co_horizons = recs;
}

-- the fuel of a record's horizon stands for its digest
abbrev digest : HorizonRecord Unit Unit → ℕ
digest r = (r.horizon).fuel

abbrev by_fuel : BlurDetail Unit Unit
by_fuel = blur_at fuel_exhausted 3 []

abbrev by_stack : BlurDetail Unit Unit
by_stack = blur_at stack_overflow 5 []

abbrev by_time : BlurDetail Unit Unit
by_time = blur_at timeout 4 []

abbrev fuel_and_stack : BlurDetail Unit Unit
fuel_and_stack = blur_at stack_overflow 5 (record_at fuel_exhausted 3 ∷ [])

abbrev stack_and_time : BlurDetail Unit Unit
stack_and_time = blur_at stack_overflow 5 (record_at timeout 4 ∷ [])

abbrev all_three : BlurDetail Unit Unit
all_three = blur_at stack_overflow 5 (record_at fuel_exhausted 3 ∷ record_at timeout 4 ∷ [])

blur_caid-merge_set_example :
    (blur_caid digest (λ ds. ds) fuel_and_stack ≡ blur_caid digest (λ ds. ds) fuel_and_stack)
    × (blur_caid digest (λ ds. ds) all_three ≡ blur_caid digest (λ ds. ds) all_three)
    × (blur_caid digest (λ ds. ds) by_fuel ≡ blur_caid digest (λ ds. ds) by_fuel)
unfolding merge_set record_set dedup_records dedup_after sort_records insert_record remove_primary
    key_leb cause_str primary_record union
blur_caid-merge_set_example =
    blur_caid-merge_set digest (λ ds. ds) by_fuel by_stack by_time fuel_and_stack fuel_and_stack
      stack_and_time all_three all_three by_fuel refl refl refl refl refl refl

-- integers that are naturals in 64 bits
abbrev in_u64 : ℕ → Option ℕ
in_u64 n = if ltb n u64_values then some n else none

abbrev config : String → Option (ConfigValue ℕ)
config name =
    if str_eq name "fuel"
    then some (int 20)
    else if str_eq name "max_unification_depth"
    then some (int 2)
    else if str_eq name "timeout"
    then some (int 50)
    else none

-- two levels with an application in the inner one, then a merge
abbrev two_levels : Steps
two_levels =
    deeper 1 1010 (deeper 0 1020 (charge 10 1030 no_steps no_steps) no_steps)
      (charge 5 1040 no_steps no_steps)

run-apply_horizon_config_example :
    ((run two_levels (apply_horizon_config in_u64 config true true 1000 new_context)).0 ≡ []) ↔ (
      (total_cost two_levels ≤ 20)
      × (deepest two_levels ≤ min (2 % u32_values) hard_recursion_limit)
      × (on_time (some (1000 + 50)) two_levels ≡ true))
run-apply_horizon_config_example =
    run-apply_horizon_config in_u64 config 20 2 50 20 2 50 1000 two_levels refl refl refl refl refl
      refl (omega arith)

-- a depth of 2 ^ 32 is a depth of 0
abbrev wide_config : String → Option (ConfigValue ℕ)
wide_config name = if str_eq name "max_unification_depth" then some (int u32_values) else none

wide_depth :
    (run
      (deeper 0 0 no_steps no_steps)
      (apply_horizon_config in_u64 wide_config true true 1000 new_context)).0
    ≡ depth_exceeded ∷ []
unfolding run apply_horizon_config check_resources
wide_depth = refl

paid-Moves : (b : Bool) → Moves (b, 1, 0)
paid-Moves true = tt
paid-Moves false = omega arith

abbrev alternating : ℕ → Step
alternating k = (k % 2 == 0, 1, 0)

alternating-Moves : (k : ℕ) → Moves (alternating k)
alternating-Moves k = paid-Moves (k % 2 == 0)

abbrev shallow_context : EvalContext
shallow_context = record new_context { fuel = 3; depth = 398 }

chain-stops_example :
    (e : ResourceExhausted) × ((run (chain alternating 6) shallow_context).0 ≡ e ∷ [])
chain-stops_example =
    chain-stops alternating 6 shallow_context alternating-Moves (omega arith) (omega arith)
