-- ===== src/Horizon/Meter/Stops.antt =====
-- crates/interpreter/src/lib.rs: chains of checks, each made inside the one before.
use nlang_tools.Prelude.{
  ℕ, zero, suc, ◌+◌, ◌-◌, ◌%◌, ◌≤◌, ◌<◌, Bool, true, false, [], ◌∷◌, ◌++◌, ◌≡◌, refl, ap, arith,
  inl, inr,
}
use nlang_tools.Horizon.Observation.{EvalContext, ResourceExhausted}
use nlang_tools.Horizon.Meter.{u32_values, spend, hard_recursion_limit}
use nlang_tools.Horizon.Meter.Steps.{Steps, done, charge, deeper, at_depth, run}
use nlang_tools.Horizon.Meter.Fits.{check-cases, check-Passes}

-- whether it goes deeper, the cost, and the time of the check
abbrev pub Step : Type 0
Step = Bool × ℕ × ℕ

abbrev pub link : Step → Steps → Steps
link (true, cost, now) body = deeper cost now body done
link (false, cost, now) body = charge cost now body done

-- the first steps of a sequence, each made inside the one before once that has passed
unfoldable pub chain : (ℕ → Step) → ℕ → Steps
chain f zero = done
chain f (suc n) = link (f 0) (chain (λ k. f (suc k)) n)

-- it goes deeper or it is not free
abbrev pub Moves : Step → Type 0
Moves (true, cost, now) = Unit
Moves (false, cost, now) = 1 ≤ cost

abbrev Stopped : Steps → EvalContext → Type 0
Stopped steps ctx = (e : ResourceExhausted) × ((run steps ctx).0 ≡ e ∷ [])

-- the steps that are left in the worst case
abbrev pub room : EvalContext → ℕ
room ctx = ctx.fuel + (hard_recursion_limit - ctx.depth)

link-stops :
    (step : Step) (body : Steps) (ctx : EvalContext)
    → Moves step
    → ctx.depth ≤ hard_recursion_limit
    → ((c : EvalContext) → c.depth ≤ hard_recursion_limit → room c < room ctx → Stopped body c)
    → Stopped (link step body) ctx
unfolding run
link-stops (true, cost, now) body ctx moves shallow go_on =
    let deep : EvalContext = at_depth ((ctx.depth + 1) % u32_values) ctx in
    elim (check-cases deep now cost) [
      | inr (e, refused) ↦ (e, rw refused refl)
      | inl passes ↦
          let (e, stopped) =
            go_on (spend cost deep) (omega (arith, passes.0)) (omega (arith, passes.0, shallow)) in
          (e, rw (check-Passes deep now cost passes) (ap (λ r. r ++ []) stopped))
    ]
link-stops (false, cost, now) body ctx moves shallow go_on = elim (check-cases ctx now cost) [
  | inr (e, refused) ↦ (e, rw refused refl)
  | inl passes ↦
      let (e, stopped) = go_on (spend cost ctx) shallow (omega (arith, passes.2, moves)) in
      (e, rw (check-Passes ctx now cost passes) (ap (λ r. r ++ []) stopped))
]

-- In a context no deeper than 400, a chain of more steps than there are units of fuel and levels up
-- to 400, in which each step is made inside the one before and only once that has passed, and each
-- goes a level deeper or costs at least a unit, is stopped by exactly one refusal.
pub chain-stops :
    (f : ℕ → Step) (n : ℕ) (ctx : EvalContext)
    → ((k : ℕ) → Moves (f k))
    → ctx.depth ≤ hard_recursion_limit
    → room ctx < n
    → (e : ResourceExhausted) × ((run (chain f n) ctx).0 ≡ e ∷ [])
unfolding chain
chain-stops f zero ctx moves shallow more = absurd (omega (arith, more))
chain-stops f (suc n) ctx moves shallow more =
    link-stops (f 0) (chain (λ k. f (suc k)) n) ctx (moves 0) shallow (λ c level less.
      chain-stops (λ k. f (suc k)) n c (λ k. moves (suc k)) level (omega (arith, less, more)))
