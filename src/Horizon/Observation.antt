-- ===== src/Horizon/Observation.antt =====
-- crates/interpreter/src/observation.rs: the state of an observation, and what an evaluation
-- answers when a resource is exhausted. A `Value` is of any type `V`; of its forms, those that are
-- built here are `Horizon`.
pub mod Mint
use nlang_tools.Prelude.{ℕ, String, Bool, true, false, not, ◌&&◌, Option, none, some, List, []}
use nlang_tools.Effects.Tag.{EffectTag}
use nlang_tools.Horizon.Bottom
use nlang_tools.Horizon.Bottom.{BottomCause}
use nlang_tools.Horizon.Blur
use nlang_tools.Horizon.Blur.{
  ObservationStrategy, blur_strategy, strict, approximate, HorizonParams, BlurDetail, from_single,
}
use nlang_tools.Horizon.Trace.{Thread, note_horizon}

pub data ObservationState (H : Type 0) : Type 0 where
  lazy : ObservationState H
  incomplete : ObservationState H
  converged : ObservationState H
  conflict : ObservationState H
  blurred : H → ObservationState H

module _ {H : Type 0} where
  unfoldable pub has_caid : ObservationState H → Bool
  has_caid lazy = false
  has_caid incomplete = false
  has_caid converged = true
  has_caid conflict = true
  has_caid (blurred h) = true

  unfoldable pub is_terminal : ObservationState H → Bool
  is_terminal converged = true
  is_terminal conflict = true
  is_terminal _ = false

  unfoldable pub is_transient : ObservationState H → Bool
  is_transient incomplete = true
  is_transient _ = false

  unfoldable pub to_tag : ObservationState H → String
  to_tag lazy = "lazy"
  to_tag incomplete = "incomplete"
  to_tag converged = "converged"
  to_tag conflict = "conflict"
  to_tag (blurred h) = "blur"

pub data ResourceExhausted : Type 0 where
  fuel_exhausted : ResourceExhausted
  timeout : ResourceExhausted
  stack_overflow : ResourceExhausted
  depth_exceeded : ResourceExhausted

-- `EvalContext`, the fields that `horizon_params` and `check_resources` read
pub record EvalContext : Type 0 where
  pub fuel : ℕ
  pub fuel_budget : ℕ
  pub timeout_deadline : Option ℕ
  pub depth : ℕ
  pub strategy : ObservationStrategy
  pub max_branches : ℕ
  pub max_unification_depth : ℕ
  pub max_lifting_depth : ℕ
  pub max_pattern_nodes : ℕ

unfoldable pub horizon_params : EvalContext → HorizonParams
horizon_params ctx = record {
  fuel = ctx.fuel_budget;
  fuel_remaining = ctx.fuel;
  strategy = ctx.strategy;
  max_branches = ctx.max_branches;
  max_unification_depth = ctx.max_unification_depth;
  max_lifting_depth = ctx.max_lifting_depth;
  max_pattern_nodes = ctx.max_pattern_nodes;
}

-- a phase is the 64 bits of a float
pub data Holonomy : Type 0 where
  phase : ℕ → Holonomy
  neg_i : Holonomy

pub record BottomDetail (V H : Type 0) : Type 0 where
  pub cause : BottomCause
  pub path : Option String
  pub message : Option String
  pub expected : Option V
  pub found : Option V
  pub involved : List H
  pub obstruction_degree : Option ℕ
  pub holonomy : Option Holonomy

pub data Horizon (V H : Type 0) : Type 0 where
  bottom : BottomDetail V H → Horizon V H
  blur : BlurDetail V H → Horizon V H
  tag : String → EffectTag → Horizon V H

unfoldable pub is_overflow : ResourceExhausted → Bool
is_overflow stack_overflow = true
is_overflow _ = false

unfoldable pub is_blur_strategy : ObservationStrategy → Bool
is_blur_strategy blur_strategy = true
is_blur_strategy _ = false

unfoldable pub needs_partial_body : ResourceExhausted → ObservationStrategy → Bool
unfolding is_overflow is_blur_strategy
needs_partial_body cause strategy = not (is_overflow cause) && is_blur_strategy strategy

unfoldable pub bottom_cause : ResourceExhausted → BottomCause
bottom_cause fuel_exhausted = Bottom.fuel_exhausted
bottom_cause timeout = Bottom.timeout
bottom_cause stack_overflow = Bottom.stack_overflow
bottom_cause depth_exceeded = Bottom.max_depth_exceeded

unfoldable pub blur_cause : ResourceExhausted → Blur.BlurCause
blur_cause fuel_exhausted = Blur.fuel_exhausted
blur_cause timeout = Blur.timeout
blur_cause stack_overflow = Blur.stack_overflow
blur_cause depth_exceeded = Blur.max_depth_exceeded

module _ {V H : Type 0} where
  unfoldable pub bottom_of : BottomCause → String → Horizon V H
  bottom_of cause message = bottom (record {
    cause = cause;
    path = none;
    message = some message;
    expected = none;
    found = none;
    involved = [];
    obstruction_degree = none;
    holonomy = none;
  })

  -- the match on the strategy
  unfoldable pub mint :
      (V → H)
      → ResourceExhausted
      → ObservationStrategy
      → EvalContext
      → Option V
      → EffectTag
      → Horizon V H
  unfolding bottom_of bottom_cause blur_cause horizon_params
  mint content_hash cause strict ctx part effect =
      bottom_of (bottom_cause cause) "Resource exhausted in strict mode"
  mint content_hash cause blur_strategy ctx part effect =
      blur (from_single content_hash (blur_cause cause) (horizon_params ctx) part effect)
  mint content_hash cause approximate ctx part effect = tag "approximate" effect

  -- The thread's state is passed along for the note.
  unfoldable pub handle_resource_exhausted :
      (V → H)
      → ResourceExhausted
      → ObservationStrategy
      → EvalContext
      → Option V
      → EffectTag
      → Thread
      → Horizon V H × Thread
  unfolding mint bottom_of is_overflow
  handle_resource_exhausted content_hash cause strategy ctx part effect t =
      let minted = mint content_hash cause strategy ctx part effect in
      (
        elim (is_overflow cause) [
          | true ↦
              bottom_of Bottom.stack_overflow
                "Implementation recursion limit exceeded (native stack ceiling)"
          | false ↦ minted
        ],
        note_horizon t,
      )
