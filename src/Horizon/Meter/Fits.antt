-- ===== src/Horizon/Meter/Fits.antt =====
-- crates/interpreter/src/lib.rs: an evaluation is refused nothing exactly if it fits its context.
use nlang_tools.Prelude.{
  ℕ, suc, ◌+◌, ◌%◌, ◌≤◌, max, min, Bool, true, false, not, ◌&&◌, Option, none, some, List, [], ◌∷◌,
  ◌++◌, ◌≡◌, ◌⊎◌, refl, ap, sym, ◌∙◌, arith, inl, inr, Bool-cases, ltb, ltb_false→le,
}
use nlang_tools.Horizon.Observation.{
  EvalContext, ResourceExhausted, fuel_exhausted, timeout, stack_overflow, depth_exceeded,
}
use nlang_tools.Horizon.Meter.{check_resources, past, u32_values, hard_recursion_limit, spend}
use nlang_tools.Horizon.Meter.Steps.{
  Steps, done, charge, deeper, at_depth, if_passed, then_run, leave, run,
}

-- the greatest depth that is let through
abbrev pub ceiling : EvalContext → ℕ
ceiling ctx = min (ctx.max_unification_depth % u32_values) hard_recursion_limit

-- what all checks cost
unfoldable pub total_cost : Steps → ℕ
total_cost done = 0
total_cost (charge cost now body rest) = cost + (total_cost body + total_cost rest)
total_cost (deeper cost now body rest) = cost + (total_cost body + total_cost rest)

-- the levels below the first
unfoldable pub deepest : Steps → ℕ
deepest done = 0
deepest (charge cost now body rest) = max (deepest body) (deepest rest)
deepest (deeper cost now body rest) = max (suc (deepest body)) (deepest rest)

-- all checks are made before the deadline has passed
unfoldable pub on_time : Option ℕ → Steps → Bool
on_time deadline done = true
on_time deadline (charge cost now body rest) =
    not (past deadline now) && (on_time deadline body && on_time deadline rest)
on_time deadline (deeper cost now body rest) =
    not (past deadline now) && (on_time deadline body && on_time deadline rest)

abbrev pub Fits : Steps → EvalContext → Type 0
Fits steps ctx =
    (total_cost steps ≤ ctx.fuel)
    × (ctx.depth + deepest steps ≤ ceiling ctx)
    × (on_time ctx.timeout_deadline steps ≡ true)

abbrev pub Passes : EvalContext → ℕ → ℕ → Type 0
Passes ctx now cost =
    (ctx.depth ≤ ceiling ctx) × (past ctx.timeout_deadline now ≡ false) × (cost ≤ ctx.fuel)

pub check-Passes :
    (ctx : EvalContext) (now cost : ℕ)
    → Passes ctx now cost
    → check_resources ctx now cost ≡ (none, spend cost ctx)
unfolding check_resources
check-Passes ctx now cost (shallow, early, paid) = ground (arith, shallow, early, paid)

pub check-cases :
    (ctx : EvalContext) (now cost : ℕ)
    → Passes ctx now cost
      ⊎ ((e : ResourceExhausted) × (check_resources ctx now cost ≡ (some e, ctx)))
unfolding check_resources
check-cases ctx now cost =
    elim (Bool-cases (ltb (ctx.max_unification_depth % u32_values) ctx.depth)) [
      | inl deep ↦ inr (depth_exceeded, rw deep refl)
      | inr in_policy ↦ elim (Bool-cases (ltb hard_recursion_limit ctx.depth)) [
        | inl deep ↦ inr (stack_overflow, rw in_policy rw deep refl)
        | inr in_stack ↦ elim (Bool-cases (past ctx.timeout_deadline now)) [
          | inl late ↦ inr (timeout, rw in_policy rw in_stack rw late refl)
          | inr early ↦ elim (Bool-cases (ltb ctx.fuel cost)) [
            | inl dear ↦ inr (fuel_exhausted, rw in_policy rw in_stack rw early rw dear refl)
            | inr paid ↦
                inl (ground (arith, in_policy, in_stack), early, ltb_false→le ctx.fuel cost paid)
          ]
        ]
      ]
    ]

spend-spend :
    (a b c : ℕ) (ctx : EvalContext) → spend c (spend b (spend a ctx)) ≡ spend (a + (b + c)) ctx
spend-spend a b c ctx = ap (λ f. record ctx { fuel = f }) (omega arith)

-- two lists that are empty together
pub append_nil : {A : Type 0} (xs ys : List A) → xs ++ ys ≡ [] → (xs ≡ []) × (ys ≡ [])
append_nil [] ys h = (refl, h)
append_nil (x ∷ xs) ys h = absurd (ground (arith, h))

-- what is left of the level below: the fuel it has spent
left_level :
    (a b : ℕ) (ctx : EvalContext)
    → ctx.depth ≤ ceiling ctx
    → (leave ([], spend b (spend a (at_depth ((ctx.depth + 1) % u32_values) ctx)))).1
      ≡ spend b (spend a ctx)
left_level a b ctx shallow =
    let level : (ctx.depth + 1) % u32_values ≡ suc ctx.depth = omega (arith, shallow) in
    ap (λ d. record (spend b (spend a ctx)) { depth = d }) (omega (arith, level))

pub run-spends :
    (steps : Steps) (ctx : EvalContext)
    → ctx.depth ≤ ceiling ctx
    → Fits steps ctx
    → run steps ctx ≡ ([], spend (total_cost steps) ctx)
unfolding run total_cost deepest on_time
run-spends done ctx shallow fits = ap (λ f. ([], record ctx { fuel = f })) (omega arith)
run-spends (charge cost now body rest) ctx shallow fits =
    let passed =
      check-Passes ctx now cost (shallow, ground (arith, fits.2), omega (arith, fits.0)) in
    let inside =
      run-spends body (spend cost ctx) shallow
        (omega (arith, fits.0), omega (arith, fits.1), ground (arith, fits.2)) in
    let after =
      run-spends rest (spend (total_cost body) (spend cost ctx)) shallow
        (omega (arith, fits.0), omega (arith, fits.1), ground (arith, fits.2)) in
    rw passed rw inside rw after
      (ap (λ c. ([], c)) (spend-spend cost (total_cost body) (total_cost rest) ctx))
run-spends (deeper cost now body rest) ctx shallow fits =
    let deep : EvalContext = at_depth ((ctx.depth + 1) % u32_values) ctx in
    let level : (ctx.depth + 1) % u32_values ≡ suc ctx.depth = omega (arith, fits.1) in
    let passed =
      check-Passes deep now cost
        (omega (arith, level, fits.1), ground (arith, fits.2), omega (arith, fits.0)) in
    let inside =
      run-spends body (spend cost deep) (omega (arith, level, fits.1))
        (omega (arith, fits.0), omega (arith, level, fits.1), ground (arith, fits.2)) in
    let back = left_level cost (total_cost body) ctx shallow in
    let after =
      run-spends rest (spend (total_cost body) (spend cost ctx)) shallow
        (omega (arith, fits.0), omega (arith, fits.1), ground (arith, fits.2)) in
    rw passed rw inside (
      ap (λ c. then_run ([], c) (run rest)) back
      ∙ ap (λ r. then_run ([], spend (total_cost body) (spend cost ctx)) (λ c. r)) after
      ∙ ap (λ c. ([], c)) (spend-spend cost (total_cost body) (total_cost rest) ctx))

pub run-Fits :
    (steps : Steps) (ctx : EvalContext)
    → ctx.depth ≤ ceiling ctx
    → (run steps ctx).0 ≡ []
    → Fits steps ctx
unfolding run total_cost deepest on_time
run-Fits done ctx shallow nothing = (omega arith, omega (arith, shallow), refl)
run-Fits (charge cost now body rest) ctx shallow nothing = elim (check-cases ctx now cost) [
  | inr (e, refused) ↦ absurd (
      ground
        (arith, sym (ap (λ c. (then_run (if_passed (run body) c) (run rest)).0) refused) ∙ nothing))
  | inl passes ↦
      let parts =
        append_nil (run body (spend cost ctx)).0 (run rest (run body (spend cost ctx)).1).0 (
          sym (
            ap (λ c. (then_run (if_passed (run body) c) (run rest)).0)
              (check-Passes ctx now cost passes))
          ∙ nothing) in
      let inside = run-Fits body (spend cost ctx) passes.0 parts.0 in
      let spent = run-spends body (spend cost ctx) passes.0 inside in
      let after =
        run-Fits rest (spend (total_cost body) (spend cost ctx)) passes.0
          (sym (ap (λ r. (run rest r.1).0) spent) ∙ parts.1) in
      (
        omega (arith, passes.2, inside.0, after.0),
        omega (arith, inside.1, after.1),
        ground (arith, passes.1, inside.2, after.2),
      )
]
run-Fits (deeper cost now body rest) ctx shallow nothing =
    let deep : EvalContext = at_depth ((ctx.depth + 1) % u32_values) ctx in
    elim (check-cases deep now cost) [
      | inr (e, refused) ↦ absurd (
          ground (
            arith,
            sym (ap (λ c. (then_run (leave (if_passed (run body) c)) (run rest)).0) refused)
                ∙ nothing,
          ))
      | inl passes ↦
          let level : (ctx.depth + 1) % u32_values ≡ suc ctx.depth = omega (arith, shallow) in
          let parts =
            append_nil (run body (spend cost deep)).0
              (run rest (leave (run body (spend cost deep))).1).0
              (sym (
                  ap (λ c. (then_run (leave (if_passed (run body) c)) (run rest)).0)
                    (check-Passes deep now cost passes))
                ∙ nothing) in
          let inside = run-Fits body (spend cost deep) passes.0 parts.0 in
          let spent = run-spends body (spend cost deep) passes.0 inside in
          let back = left_level cost (total_cost body) ctx shallow in
          let after = run-Fits rest (spend (total_cost body) (spend cost ctx)) shallow (
            ap (λ c. (run rest c).0) (sym back)
            ∙ (sym (ap (λ r. (run rest (leave r).1).0) spent) ∙ parts.1)) in
          (
            omega (arith, passes.2, inside.0, after.0),
            omega (arith, level, inside.1, after.1),
            ground (arith, passes.1, inside.2, after.2),
          )
    ]
