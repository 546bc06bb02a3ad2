-- ===== src/Effects/Privilege.antt =====
-- crates/interpreter/src/value.rs: `Privilege`, what a run was granted.
pub mod Discharge
use nlang_tools.Prelude.{Bool, true, false, ◌||◌, Option, none, some}
use nlang_tools.Effects.Tag
use nlang_tools.Effects.Tag.{EffectTag, all_active, contains_all, active_part}

pub record Privilege : Type 0 where
  pub effect_override : Option EffectTag
  pub pin : Bool
  pub commit : Bool
  pub rollback : Bool
  pub squash : Bool
  pub gc : Bool
  pub connect : Bool
  pub migrate : Bool

-- `Privilege::NONE`
unfoldable pub no_privilege : Privilege
no_privilege = record {
  effect_override = none;
  pin = false;
  commit = false;
  rollback = false;
  squash = false;
  gc = false;
  connect = false;
  migrate = false;
}

unfoldable pub all : Privilege
unfolding all_active
all = record {
  effect_override = some all_active;
  pin = true;
  commit = false;
  rollback = true;
  squash = true;
  gc = true;
  connect = true;
  migrate = true;
}

unfoldable pub union_override : Option EffectTag → Option EffectTag → Option EffectTag
union_override none none = none
union_override (some a) none = some a
union_override none (some b) = some b
union_override (some a) (some b) = some (Tag.union a b)

unfoldable pub union : Privilege → Privilege → Privilege
unfolding union_override
union p q = record {
  effect_override = union_override p.effect_override q.effect_override;
  pin = p.pin || q.pin;
  commit = p.commit || q.commit;
  rollback = p.rollback || q.rollback;
  squash = p.squash || q.squash;
  gc = p.gc || q.gc;
  connect = p.connect || q.connect;
  migrate = p.migrate || q.migrate;
}

unfoldable pub covers : Option EffectTag → EffectTag → Bool
covers none e = false
covers (some c) e = contains_all c (active_part e)

unfoldable pub may_discharge : Privilege → EffectTag → Bool
unfolding covers
may_discharge p e = covers p.effect_override e
