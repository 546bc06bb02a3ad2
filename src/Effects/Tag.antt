-- ===== src/Effects/Tag.antt =====
-- crates/interpreter/src/value.rs: `EffectTag`, a set of effect labels in a byte.
pub mod Laws
use Prim.Native.Nat.{bit_and, bit_or}
use nlang_tools.Prelude.{
  ℕ, String, Bool, true, false, not, ◌&&◌, ◌||◌, ◌==◌, if◌then◌else◌, List, [], ◌∷◌, ◌++◌, format,
  join,
}

pub record EffectTag : Type 0 where
  pub bits : ℕ

abbrev pub pure : EffectTag
pure = record { bits = 0 }

abbrev pub io : EffectTag
io = record { bits = 0b0001 }

abbrev pub nondet : EffectTag
nondet = record { bits = 0b0010 }

abbrev pub state : EffectTag
state = record { bits = 0b0100 }

abbrev pub cached : EffectTag
cached = record { bits = 0b1000 }

unfoldable pub union : EffectTag → EffectTag → EffectTag
union a b = record { bits = bit_or a.bits b.bits }

unfoldable pub contains : EffectTag → EffectTag → Bool
contains a o = not (o.bits == 0) && bit_and a.bits o.bits == o.bits

unfoldable pub contains_all : EffectTag → EffectTag → Bool
contains_all a o = bit_and a.bits o.bits == o.bits

unfoldable pub is_pure : EffectTag → Bool
is_pure e = e.bits == 0

unfoldable pub has_active : EffectTag → Bool
unfolding contains
has_active e = contains e io || (contains e nondet || contains e state)

-- `IO | NonDet | State`
abbrev active_bits : ℕ
active_bits = bit_or (bit_or 0b0001 0b0010) 0b0100

unfoldable pub active_part : EffectTag → EffectTag
active_part e = record { bits = bit_and e.bits active_bits }

unfoldable pub all_active : EffectTag
unfolding union
all_active = union (union io nondet) state

unfoldable pub to_bits : EffectTag → ℕ
to_bits e = e.bits

unfoldable pub from_bits : ℕ → EffectTag
from_bits bits = record { bits = bit_and bits active_bits }

unfoldable pub to_serial_byte : EffectTag → ℕ
to_serial_byte e =
    if e.bits == 0
    then 0
    else if e.bits == 0b0100
    then 1
    else if e.bits == 0b0001
    then 2
    else if e.bits == 0b0010
    then 3
    else bit_or 0x80 e.bits

abbrev name_if : EffectTag → EffectTag → String → List String
name_if e member name = if bit_and e.bits member.bits == 0 then [] else name ∷ []

unfoldable pub tag_names : EffectTag → List String
tag_names e =
    if e.bits == 0
    then "pure" ∷ []
    else name_if e io "io"
      ++ (name_if e nondet "nondet" ++ (name_if e state "state" ++ name_if e cached "cached"))

abbrev hashed : List String → List String
hashed [] = []
hashed (n ∷ ns) = format ("#" ∷ n ∷ []) ∷ hashed ns

-- `Display`: the names, each behind `#`, with ` | ` between them
unfoldable pub display : EffectTag → String
unfolding tag_names join
display e = join " | " (hashed (tag_names e))
