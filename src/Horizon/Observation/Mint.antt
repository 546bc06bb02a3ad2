-- ===== src/Horizon/Observation/Mint.antt =====
-- crates/interpreter/src/observation.rs: what an exhausted resource becomes.
use nlang_tools.Prelude.{Bool, true, false, Option, none, ◌≡◌, refl, if◌then◌else◌}
use nlang_tools.Effects.Tag.{EffectTag}
use nlang_tools.Horizon.Blur.{
  ObservationStrategy, blur_strategy, strict, approximate, from_single, hashed_partial,
}
use nlang_tools.Horizon.Trace.{Thread}
use nlang_tools.Horizon.Observation.{
  ResourceExhausted, fuel_exhausted, timeout, stack_overflow, depth_exceeded, EvalContext, Horizon,
  bottom, blur, tag, needs_partial_body, handle_resource_exhausted,
}

module _ {V H : Type 0} where
  -- the hash of the partial value that a blur records, and nothing for other answers
  abbrev pub recorded : Horizon V H → Option H
  recorded (blur d) = d.partial_hash
  recorded (bottom d) = none
  recorded (tag name effect) = none

  abbrev pub is_blur : Horizon V H → Bool
  is_blur (blur d) = true
  is_blur (bottom d) = false
  is_blur (tag name effect) = false

-- The answer is a blur exactly if a partial value is needed, and then it records the hash of the
-- partial value that was given.
pub handle-needs_partial_body :
    {V H : Type 0} (content_hash : V → H) (cause : ResourceExhausted)
    (strategy : ObservationStrategy) (ctx : EvalContext) (part : Option V) (effect : EffectTag)
    (t : Thread)
    → (is_blur (handle_resource_exhausted content_hash cause strategy ctx part effect t).0
        ≡ needs_partial_body cause strategy)
      × (recorded (handle_resource_exhausted content_hash cause strategy ctx part effect t).0
          ≡ (if needs_partial_body cause strategy then hashed_partial content_hash part else none))
unfolding handle_resource_exhausted needs_partial_body hashed_partial from_single
handle-needs_partial_body content_hash fuel_exhausted blur_strategy ctx part effect t = (refl, refl)
handle-needs_partial_body content_hash fuel_exhausted strict ctx part effect t = (refl, refl)
handle-needs_partial_body content_hash fuel_exhausted approximate ctx part effect t = (refl, refl)
handle-needs_partial_body content_hash timeout blur_strategy ctx part effect t = (refl, refl)
handle-needs_partial_body content_hash timeout strict ctx part effect t = (refl, refl)
handle-needs_partial_body content_hash timeout approximate ctx part effect t = (refl, refl)
handle-needs_partial_body content_hash stack_overflow blur_strategy ctx part effect t = (refl, refl)
handle-needs_partial_body content_hash stack_overflow strict ctx part effect t = (refl, refl)
handle-needs_partial_body content_hash stack_overflow approximate ctx part effect t = (refl, refl)
handle-needs_partial_body content_hash depth_exceeded blur_strategy ctx part effect t = (refl, refl)
handle-needs_partial_body content_hash depth_exceeded strict ctx part effect t = (refl, refl)
handle-needs_partial_body content_hash depth_exceeded approximate ctx part effect t = (refl, refl)
