-- ===== src/Effects/Tag/Laws.antt =====
-- crates/interpreter/src/value.rs: laws of `EffectTag`. The tags that the engine makes are unions
-- of the four labels, which are the numbers below 16; a law is checked at each of them.
use nlang_tools.Prelude.{
  ℕ, ◌<◌, ◌≡◌, refl, ap, Bool, true, false, not, ◌&&◌, ◌==◌, ==_iff, implies, implies_elim, same,
  same→eq, not_elim, and_left, and_right, test_under, under_elim, under_elim₂,
}
use nlang_tools.Effects.Tag.{
  EffectTag, cached, contains, contains_all, is_pure, has_active, all_active, from_bits,
  to_serial_byte,
}

abbrev pub IsTag : EffectTag → Type 0
IsTag e = e.bits < 16

abbrev of_bits : ℕ → EffectTag
of_bits n = record { bits = n }

infix 40 ◌is◌
abbrev ◌is◌ : EffectTag → EffectTag → Bool
a is b = a.bits == b.bits

is→eq : (a b : EffectTag) → (a is b) ≡ true → a ≡ b
is→eq a b h = ap of_bits ((==_iff a.bits b.bits).0 h)

-- a law of two tags, checked at all of them
module _ (p : EffectTag → EffectTag → Bool) where
  abbrev at_all : Bool
  at_all = test_under 16 (λ x. test_under 16 (λ y. p (of_bits x) (of_bits y)))

  at_tags : at_all ≡ true → (a b : EffectTag) → IsTag a → IsTag b → p a b ≡ true
  at_tags h a b ha hb = under_elim₂ 16 16 (λ x y. p (of_bits x) (of_bits y)) a.bits b.bits h ha hb

abbrev same_byte : EffectTag → EffectTag → Bool
same_byte a b = implies (to_serial_byte a == to_serial_byte b) (a is b)

serial_table : at_all same_byte ≡ true
unfolding test_under to_serial_byte
serial_table = refl

-- Different sets of labels have different serial bytes, so the byte in a thunk's identity tells
-- its effects.
pub to_serial_byte-injective :
    (a b : EffectTag) → IsTag a → IsTag b → to_serial_byte a ≡ to_serial_byte b → a ≡ b
to_serial_byte-injective a b ha hb h = is→eq a b (
    implies_elim _ _ (at_tags same_byte serial_table a b ha hb)
      ((==_iff (to_serial_byte a) (to_serial_byte b)).1 h))

abbrev loaded_law : ℕ → Bool
loaded_law n =
    contains_all all_active (from_bits n)
    && (not (contains (from_bits n) cached)
        && same (has_active (of_bits n)) (not (is_pure (from_bits n))))

loaded_table : test_under 256 loaded_law ≡ true
unfolding test_under contains_all all_active from_bits contains has_active is_pure
loaded_table = refl

-- A set read back from a byte holds active labels only, never `cached`, and it is empty exactly
-- if the byte held no active label.
pub from_bits_active :
    (n : ℕ)
    → n < 256
    → (contains_all all_active (from_bits n) ≡ true)
      × (contains (from_bits n) cached ≡ false)
      × (has_active (record { bits = n }) ≡ not (is_pure (from_bits n)))
from_bits_active n h =
    let law = under_elim 256 loaded_law n loaded_table h in
    let rest = and_right _ _ law in
    (and_left _ _ law, not_elim _ (and_left _ _ rest), same→eq _ _ (and_right _ _ rest))
