-- ===== src/Horizon/Blur.antt =====
-- crates/interpreter/src/value.rs: a blur, the answer of a suspended evaluation, and its details.
-- A `Value` is of any type `V` here, and its `content_hash` an argument.
use nlang_tools.Prelude.{ℕ, String, Option, none, some, List, []}
use nlang_tools.Effects.Tag.{EffectTag}

pub data ObservationStrategy : Type 0 where
  blur_strategy : ObservationStrategy
  strict : ObservationStrategy
  approximate : ObservationStrategy

pub data BlurCause : Type 0 where
  fuel_exhausted : BlurCause
  timeout : BlurCause
  stack_overflow : BlurCause
  math_singularity : String → BlurCause
  max_depth_exceeded : BlurCause

-- `BlurCause::as_str`
unfoldable pub cause_str : BlurCause → String
cause_str fuel_exhausted = "fuel_exhausted"
cause_str timeout = "timeout"
cause_str stack_overflow = "stack_overflow"
cause_str (math_singularity s) = s
cause_str max_depth_exceeded = "max_depth_exceeded"

pub record HorizonParams : Type 0 where
  pub fuel : ℕ
  pub fuel_remaining : ℕ
  pub strategy : ObservationStrategy
  pub max_branches : ℕ
  pub max_unification_depth : ℕ
  pub max_lifting_depth : ℕ
  pub max_pattern_nodes : ℕ

unfoldable pub strategy_byte : ObservationStrategy → ℕ
strategy_byte blur_strategy = 0
strategy_byte strict = 1
strategy_byte approximate = 2

-- `V` is the type of values and `H` that of their content hashes.
pub record HorizonRecord (V H : Type 0) : Type 0 where
  pub cause : BlurCause
  pub horizon : HorizonParams
  pub partial_hash : Option H
  pub partial_body : Option V

pub record BlurDetail (V H : Type 0) : Type 0 where
  pub cause : BlurCause
  pub horizon : HorizonParams
  pub partial_hash : Option H
  pub partial_body : Option V
  pub effect : EffectTag
  pub co_horizons : List (HorizonRecord V H)

module _ {V H : Type 0} where
  unfoldable pub hashed_partial : (V → H) → Option V → Option H
  hashed_partial content_hash none = none
  hashed_partial content_hash (some v) = some (content_hash v)

  unfoldable pub from_single :
      (V → H) → BlurCause → HorizonParams → Option V → EffectTag → BlurDetail V H
  unfolding hashed_partial
  from_single content_hash cause horizon part effect = record {
    cause = cause;
    horizon = horizon;
    partial_hash = hashed_partial content_hash part;
    partial_body = part;
    effect = effect;
    co_horizons = [];
  }

  unfoldable pub primary_record : BlurDetail V H → HorizonRecord V H
  primary_record b = record {
    cause = b.cause;
    horizon = b.horizon;
    partial_hash = b.partial_hash;
    partial_body = b.partial_body;
  }
