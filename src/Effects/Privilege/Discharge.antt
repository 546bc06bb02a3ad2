-- ===== src/Effects/Privilege/Discharge.antt =====
-- What a grant may discharge: all of the active labels or nothing, and more grants discharge
-- more.
use nlang_tools.Prelude.{
  ℕ, ◌≡◌, refl, Bool, true, false, ◌&&◌, ◌||◌, Option, none, some, arith, implies, implies_elim,
  same, same→eq, test_under, under_elim, under_elim₂,
}
use nlang_tools.Effects.Tag
use nlang_tools.Effects.Tag.{EffectTag, all_active, contains_all, active_part}
use nlang_tools.Effects.Tag.Laws.{IsTag}
use nlang_tools.Effects.Privilege.{
  Privilege, no_privilege, all, union_override, union, covers, may_discharge,
}

abbrev of_bits : ℕ → EffectTag
of_bits n = record { bits = n }

-- a grant that discharges `e`, united with another, and a discharge of two tags together
abbrev grow_law : ℕ → ℕ → ℕ → Bool
grow_law c d n =
    implies
      (contains_all (of_bits c) (active_part (of_bits n))
        || contains_all (of_bits d) (active_part (of_bits n)))
      (contains_all (Tag.union (of_bits c) (of_bits d)) (active_part (of_bits n)))

grow_table : test_under 16 (λ c. test_under 16 (λ d. test_under 16 (grow_law c d))) ≡ true
unfolding test_under contains_all active_part Tag.union
grow_table = refl

grows :
    (c d e : EffectTag)
    → IsTag c
    → IsTag d
    → IsTag e
    → (contains_all c (active_part e) || contains_all d (active_part e)) ≡ true
    → contains_all (Tag.union c d) (active_part e) ≡ true
grows c d e hc hd he = implies_elim _ _ (
    under_elim 16 (grow_law c.bits d.bits) e.bits
      (under_elim₂ 16 16 (λ x y. test_under 16 (grow_law x y)) c.bits d.bits grow_table hc hd) he)

-- the labels that a grant names are tags of the engine
abbrev pub IsGrant : Option EffectTag → Type 0
IsGrant none = Unit
IsGrant (some c) = IsTag c

covers-union :
    (o r : Option EffectTag) (e : EffectTag)
    → IsGrant o
    → IsGrant r
    → IsTag e
    → (covers o e || covers r e) ≡ true
    → covers (union_override o r) e ≡ true
unfolding covers union_override
covers-union none none e ho hr he h = h
covers-union (some c) none e ho hr he h = ground arith
covers-union none (some d) e ho hr he h = h
covers-union (some c) (some d) e ho hr he h = grows c d e ho hr he h

-- Whatever one of two grants may discharge, their union may.
pub may_discharge-union :
    (p q : Privilege) (e : EffectTag)
    → IsGrant p.effect_override
    → IsGrant q.effect_override
    → IsTag e
    → (may_discharge p e || may_discharge q e) ≡ true
    → may_discharge (union p q) e ≡ true
unfolding may_discharge union
may_discharge-union p q e = covers-union p.effect_override q.effect_override e

abbrev whole_law : ℕ → Bool
whole_law n = contains_all all_active (active_part (of_bits n))

whole_table : test_under 16 whole_law ≡ true
unfolding test_under contains_all active_part all_active
whole_table = refl

abbrev both_law : ℕ → ℕ → ℕ → Bool
both_law c m n = same (contains_all (of_bits c) (active_part (Tag.union (of_bits m) (of_bits n)))) (
    contains_all (of_bits c) (active_part (of_bits m))
    && contains_all (of_bits c) (active_part (of_bits n)))

both_table : test_under 16 (λ c. test_under 16 (λ m. test_under 16 (both_law c m))) ≡ true
unfolding test_under contains_all active_part Tag.union
both_table = refl

covers-both :
    (o : Option EffectTag) (m n : EffectTag)
    → IsGrant o
    → IsTag m
    → IsTag n
    → covers o (Tag.union m n) ≡ (covers o m && covers o n)
unfolding covers
covers-both none m n ho hm hn = refl
covers-both (some c) m n ho hm hn = same→eq _ _ (
    under_elim 16 (both_law c.bits m.bits) n.bits
      (under_elim₂ 16 16 (λ x y. test_under 16 (both_law x y)) c.bits m.bits both_table ho hm) hn)

-- A grant is all or nothing: it discharges the effects of two parts together exactly if it
-- discharges those of each.
pub may_discharge_both :
    (p : Privilege) (m n : EffectTag)
    → IsGrant p.effect_override
    → IsTag m
    → IsTag n
    → may_discharge p (Tag.union m n) ≡ (may_discharge p m && may_discharge p n)
unfolding may_discharge
may_discharge_both p = covers-both p.effect_override

-- The full grant discharges every tag, and no privilege discharges none, not even the pure one.
pub may_discharge_extremes :
    (e : EffectTag)
    → IsTag e
    → (may_discharge all e ≡ true) × (may_discharge no_privilege e ≡ false)
unfolding may_discharge all no_privilege
may_discharge_extremes e h = (under_elim 16 whole_law e.bits whole_table h, refl)
