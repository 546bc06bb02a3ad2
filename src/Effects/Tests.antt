-- ===== src/Effects/Tests.antt =====
-- Effect labels and grants at concrete values.
use nlang_tools.Prelude.{◌≡◌, refl, false, some}
use nlang_tools.Effects.Tag.{EffectTag, io, display}
use nlang_tools.Effects.Privilege.{Privilege}

abbrev io_state : EffectTag
io_state = record { bits = 0b0101 }

display-io_state : display io_state ≡ "#io | #state"
unfolding display
display-io_state = refl

-- `--grant effect_override:io` and `--grant effect_override:state`
abbrev grant_io : Privilege
grant_io = record {
  effect_override = some io;
  pin = false;
  commit = false;
  rollback = false;
  squash = false;
  gc = false;
  connect = false;
  migrate = false;
}
