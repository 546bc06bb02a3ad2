-- ===== src/Lattice/Range/Meet.antt =====
-- crates/interpreter/src/unify.rs: which numbers a meet of ranges holds.
use Prim.Native.Nat.{Ordering}
use nlang_tools.Prelude.{
  Bool, true, false, ◌&&◌, Option, none, some, ◌≡◌, refl, ap, ◌∙◌, arith, inl, inr, Option-cases,
}
use nlang_tools.Effects.Tag.{pure}
use nlang_tools.Lattice.Numbers.{Number, num_cmp}
use nlang_tools.Lattice.Numbers.Exact.{
  Place, place, cmp_place, place_of, num_cmp-exact, leb_place, leb_place_trans, reverse_place,
}
use nlang_tools.Lattice.Range.{
  number, Value, atom, range, stepped, conflict, BoundKey, below, above, at, bound_cmp, bound_max,
  bound_min, prefer_int, bound_key, bound_to_value, range_membership, between, range_intersect,
}
use nlang_tools.Lattice.Range.Places.{
  key_place, bound_cmp-place, place_of-level, max_place, min_place, cmp_place-eq, leb_max, leb_min,
  bound_max-place, bound_min-place, prefer_int-place,
}

abbrev is_equal : Option Ordering → Bool
is_equal none = false
is_equal (some Ordering.lt) = false
is_equal (some Ordering.eq) = true
is_equal (some Ordering.gt) = false

module _ {O : Type 0} where
  -- the place of a bound: of a number that is not a NaN, or of an end of the order
  abbrev pub bound_place : Value O → Option Place
  bound_place v = elim (bound_key v) [ none ↦ none | some k ↦ key_place k ]

  abbrev is_kept : Value O → Bool
  is_kept conflict = false
  is_kept v = true

  module _ (on_grid : Number → Number → Number → Bool) where
    -- whether a value holds a number: a range that it is a member of, or the number itself
    unfoldable pub accepts : Number → Value O → Bool
    unfolding range_membership
    accepts x (range s e) = is_kept (range_membership on_grid (atom (number x) pure none) s e none)
    accepts x (stepped s e st) =
        is_kept (range_membership on_grid (atom (number x) pure none) s e (some st))
    accepts x (atom (number n) effect rank) = is_equal (num_cmp x n)
    accepts x v = false

    accepts-keys :
        (x : Number) (px ps pe : Place) (s e : Value O) (ks ke : BoundKey)
        → place_of x ≡ some px
        → bound_key s ≡ some ks
        → bound_key e ≡ some ke
        → key_place ks ≡ some ps
        → key_place ke ≡ some pe
        → accepts x (range s e) ≡ (leb_place ps px && leb_place px pe)
    unfolding accepts range_membership
    accepts-keys x px ps pe s e ks ke hx hs he hks hke = ground (
      arith,
      hs,
      he,
      bound_cmp-place ks (at x) ps px hks hx,
      bound_cmp-place (at x) ke px pe hx hke,
    )

-- the key that a bound has once it is a value again
abbrev key_again : BoundKey → BoundKey
key_again below = below
key_again above = above
key_again (at n) = at (prefer_int n)

place-key_again : (k : BoundKey) → key_place (key_again k) ≡ key_place k
place-key_again below = refl
place-key_again above = refl
place-key_again (at n) = prefer_int-place n

module _ (O : Type 0) (on_grid : Number → Number → Number → Bool) where
  accepts-value :
      (x : Number) (px p : Place) (k : BoundKey)
      → place_of x ≡ some px
      → key_place k ≡ some p
      → accepts {O = O} on_grid x (bound_to_value k) ≡ (leb_place p px && leb_place px p)
  unfolding accepts bound_to_value
  accepts-value x (place l a f) p below hx hk = ground (arith, place_of-level x l a f hx)
  accepts-value x (place l a f) p above hx hk = ground (arith, place_of-level x l a f hx)
  accepts-value x px p (at n) hx hk =
      ground (arith, num_cmp-exact x (prefer_int n), prefer_int-place n, hx, hk, reverse_place px p)

  key-bound_to_value : (k : BoundKey) → bound_key (bound_to_value {O = O} k) ≡ some (key_again k)
  unfolding bound_to_value
  key-bound_to_value below = refl
  key-bound_to_value above = refl
  key-bound_to_value (at n) = refl

  between_ordered :
      (x : Number) (px pl ph : Place) (lo hi : BoundKey) (o : Ordering)
      → place_of x ≡ some px
      → key_place lo ≡ some pl
      → key_place hi ≡ some ph
      → cmp_place pl ph ≡ o
      → bound_cmp lo hi ≡ some o
      → accepts {O = O} on_grid x (between lo hi) ≡ (leb_place pl px && leb_place px ph)
  unfolding accepts
  between_ordered x px pl ph lo hi Ordering.gt hx hlo hhi order cmp =
      let met : between {O = O} lo hi ≡ conflict = rw (cmp, between) refl in
      ap (accepts on_grid x) met ∙ ground (arith, order, leb_place_trans pl px ph)
  between_ordered x px pl ph lo hi Ordering.eq hx hlo hhi order cmp =
      ap (accepts on_grid x) (rw (cmp, between) refl)
      ∙ (accepts-value x px pl lo hx hlo
          ∙ ap (λ p. leb_place pl px && leb_place px p) (cmp_place-eq pl ph order))
  between_ordered x px pl ph lo hi Ordering.lt hx hlo hhi order cmp =
      let met : between {O = O} lo hi ≡ range (bound_to_value lo) (bound_to_value hi) =
        rw (cmp, between) refl in
      ap (accepts on_grid x) met
      ∙ accepts-keys on_grid x px pl ph (bound_to_value lo) (bound_to_value hi) (key_again lo)
          (key_again hi) hx (key-bound_to_value lo) (key-bound_to_value hi)
          (place-key_again lo ∙ hlo) (place-key_again hi ∙ hhi)

  accepts-between :
      (x : Number) (px pl ph : Place) (lo hi : BoundKey)
      → place_of x ≡ some px
      → key_place lo ≡ some pl
      → key_place hi ≡ some ph
      → accepts {O = O} on_grid x (between lo hi) ≡ (leb_place pl px && leb_place px ph)
  accepts-between x px pl ph lo hi hx hlo hhi =
      between_ordered x px pl ph lo hi (cmp_place pl ph) hx hlo hhi refl
        (bound_cmp-place lo hi pl ph hlo hhi)

-- a bound with a place has a key
bound_place-key :
    {O : Type 0} (v : Value O) (p : Place)
    → bound_place v ≡ some p
    → (k : BoundKey) × (bound_key v ≡ some k) × (key_place k ≡ some p)
bound_place-key v p h = elim (Option-cases (bound_key v)) [
  | inl none_there ↦ absurd (ground (arith, none_there))
  | inr found ↦ (found.0, found.1, ground (arith, h, found.1))
]

-- The meet of two ranges without steps holds exactly the numbers that both hold: where the bounds
-- are numbers other than NaN or ends of the order, for every number that is not a NaN.
pub accepts-range_intersect :
    {O : Type 0} (on_grid : Number → Number → Number → Bool) (x : Number) (px p₁ q₁ p₂ q₂ : Place)
    (s₁ e₁ s₂ e₂ : Value O)
    → place_of x ≡ some px
    → bound_place s₁ ≡ some p₁
    → bound_place e₁ ≡ some q₁
    → bound_place s₂ ≡ some p₂
    → bound_place e₂ ≡ some q₂
    → accepts on_grid x (range_intersect (range s₁ e₁) (range s₂ e₂))
      ≡ (accepts on_grid x (range s₁ e₁) && accepts on_grid x (range s₂ e₂))
unfolding range_intersect
accepts-range_intersect {O} on_grid x px p₁ q₁ p₂ q₂ s₁ e₁ s₂ e₂ hx h₁ k₁ h₂ k₂ =
    let (ls, sk₁, sp₁) = bound_place-key s₁ p₁ h₁ in
    let (le, ek₁, ep₁) = bound_place-key e₁ q₁ k₁ in
    let (rs, sk₂, sp₂) = bound_place-key s₂ p₂ h₂ in
    let (re, ek₂, ep₂) = bound_place-key e₂ q₂ k₂ in
    let met : accepts {O = O} on_grid x (between (bound_max ls rs) (bound_min le re))
        ≡ (leb_place (max_place p₁ p₂) px && leb_place px (min_place q₁ q₂)) =
      accepts-between O on_grid x px (max_place p₁ p₂) (min_place q₁ q₂) (bound_max ls rs)
        (bound_min le re) hx (bound_max-place ls rs p₁ p₂ sp₁ sp₂)
        (bound_min-place le re q₁ q₂ ep₁ ep₂) in
    ground (
      arith,
      met,
      sk₁,
      ek₁,
      sk₂,
      ek₂,
      leb_max p₁ p₂ px,
      leb_min q₁ q₂ px,
      accepts-keys on_grid x px p₁ q₁ s₁ e₁ ls le hx sk₁ ek₁ sp₁ ep₁,
      accepts-keys on_grid x px p₂ q₂ s₂ e₂ rs re hx sk₂ ek₂ sp₂ ep₂,
    )
