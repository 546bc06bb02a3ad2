-- ===== src/Lattice/Range.antt =====
-- crates/interpreter/src/unify.rs: ranges as sets of numbers, closed at both ends. The orders'
-- ends stand for the infinities. A range with a step and one without are two constructors.
-- `on_grid` is the step test of the floats, which their arithmetic rounds.
pub mod Places
pub mod Meet
use Prim.Native.Nat.{Ordering}
use nlang_tools.Prelude.{
  ℕ, zero, suc, ◌+◌, ◌-◌, ◌%◌, ◌^◌, ◌==◌, ltb, leb, Bool, true, false, not, ◌&&◌, if◌then◌else◌,
  Option, none, some, String,
}
use nlang_tools.Parser.Ast.{ℤ, pos, negsuc}
use nlang_tools.Effects.Tag.{EffectTag, pure}
use nlang_tools.Lattice.Numbers.{Double, finite, Number, int, float, num_cmp, pos_part, neg_part}

pub data Atom : Type 0 where
  number : Number → Atom
  tag_start : Atom
  tag_end : Atom
  other_atom : String → Atom

-- `O` is the type of the other values, and `conflict` the bottom with that cause
pub data Value (O : Type 0) : Type 0 where
  atom : Atom → EffectTag → Option ℤ → Value O
  range : Value O → Value O → Value O
  stepped : Value O → Value O → Value O → Value O
  conflict : Value O
  other : O → Value O

pub data BoundKey : Type 0 where
  below : BoundKey
  above : BoundKey
  at : Number → BoundKey

unfoldable pub bound_cmp : BoundKey → BoundKey → Option Ordering
bound_cmp below below = some Ordering.eq
bound_cmp above above = some Ordering.eq
bound_cmp below above = some Ordering.lt
bound_cmp below (at n) = some Ordering.lt
bound_cmp above below = some Ordering.gt
bound_cmp (at n) below = some Ordering.gt
bound_cmp above (at n) = some Ordering.gt
bound_cmp (at n) above = some Ordering.lt
bound_cmp (at a) (at b) = num_cmp a b

unfoldable pub bound_max : BoundKey → BoundKey → BoundKey
bound_max a b = elim (bound_cmp a b) [
  | none ↦ a
  | some Ordering.lt ↦ b
  | some Ordering.eq ↦ a
  | some Ordering.gt ↦ a
]

unfoldable pub bound_min : BoundKey → BoundKey → BoundKey
bound_min a b = elim (bound_cmp a b) [
  | none ↦ a
  | some Ordering.lt ↦ a
  | some Ordering.eq ↦ a
  | some Ordering.gt ↦ b
]

abbrev i64_bound : ℕ
i64_bound = 2 ^ 63

-- an integral float of less than 2 ^ 63 in magnitude becomes the integer
unfoldable pub prefer_int : Number → Number
prefer_int (float (finite w zero)) =
    if ltb (pos_part w) i64_bound && ltb (neg_part w) i64_bound
    then int w
    else float (finite w zero)
prefer_int n = n

-- whether the greater sign holds, or there is no order
abbrev pub fails : Option Ordering → Bool
fails none = true
fails (some Ordering.gt) = true
fails (some Ordering.eq) = false
fails (some Ordering.lt) = false

abbrev sub_nat : ℕ → ℕ → ℕ
sub_nat a b = if leb b a then a - b else b - a

-- the distance of two integers
abbrev distance : ℤ → ℤ → ℕ
distance a b = sub_nat (pos_part a + neg_part b) (pos_part b + neg_part a)

abbrev int_step : ℤ → ℤ → ℤ → Bool
int_step x start step =
    if pos_part step + neg_part step == 0
    then false
    else distance x start % (pos_part step + neg_part step) == 0

abbrev number_step : (Number → Number → Number → Bool) → Number → Number → Number → Bool
number_step on_grid (int x) (int start) (int step) = int_step x start step
number_step on_grid x start step = on_grid x start step

module _ {O : Type 0} where
  abbrev pub bound_key : Value O → Option BoundKey
  bound_key (atom tag_start effect rank) = some below
  bound_key (atom tag_end effect rank) = some above
  bound_key (atom (number n) effect rank) = some (at n)
  bound_key (atom (other_atom a) effect rank) = none
  bound_key (range s e) = none
  bound_key (stepped s e st) = none
  bound_key conflict = none
  bound_key (other o) = none

  -- the key of what `numeric_f64` reads as a number
  abbrev pub numeric_key : Value O → Option Number
  numeric_key (atom (number n) effect rank) = some n
  numeric_key v = none

  unfoldable pub bound_to_value : BoundKey → Value O
  unfolding prefer_int
  bound_to_value below = atom tag_start pure none
  bound_to_value above = atom tag_end pure none
  bound_to_value (at n) = atom (number (prefer_int n)) pure none

  abbrev is_anchor : Value O → Bool
  is_anchor (atom tag_start effect rank) = true
  is_anchor (atom tag_end effect rank) = true
  is_anchor v = false

  module _ (on_grid : Number → Number → Number → Bool) where
    unfoldable pub on_step : Number → Value O → Value O → Bool
    on_step x start step = elim (numeric_key start) [
      | none ↦ is_anchor start
      | some s ↦ elim (numeric_key step) [
        | none ↦ is_anchor start
        | some st ↦ number_step on_grid x s st
      ]
    ]

    abbrev step_holds : Number → Value O → Option (Value O) → Bool
    step_holds x start none = true
    step_holds x start (some st) = on_step x start st

    unfoldable pub range_membership : Value O → Value O → Value O → Option (Value O) → Value O
    unfolding bound_cmp on_step
    range_membership v start end step = elim (numeric_key v) [
      | none ↦ conflict
      | some x ↦ elim (bound_key start) [
        | none ↦ conflict
        | some lo ↦ elim (bound_key end) [
          | none ↦ conflict
          | some hi ↦
              if fails (bound_cmp lo (at x))
              then conflict
              else if fails (bound_cmp (at x) hi)
              then conflict
              else if step_holds x start step
              then v
              else conflict
        ]
      ]
    ]

  -- the meet from the greater start and the smaller end
  abbrev pub between : BoundKey → BoundKey → Value O
  between lo hi = elim (bound_cmp lo hi) [
    | none ↦ conflict
    | some Ordering.gt ↦ conflict
    | some Ordering.eq ↦ bound_to_value lo
    | some Ordering.lt ↦ range (bound_to_value lo) (bound_to_value hi)
  ]

  abbrev keys_intersect :
      Option BoundKey → Option BoundKey → Option BoundKey → Option BoundKey → Value O
  keys_intersect (some lo₁) (some hi₁) (some lo₂) (some hi₂) =
      between (bound_max lo₁ lo₂) (bound_min hi₁ hi₂)
  keys_intersect a b c d = conflict

  unfoldable pub range_intersect : Value O → Value O → Value O
  unfolding bound_cmp bound_max bound_min bound_to_value
  range_intersect (range s₁ e₁) (range s₂ e₂) =
      keys_intersect (bound_key s₁) (bound_key e₁) (bound_key s₂) (bound_key e₂)
  range_intersect a b = conflict

  -- `none`: the pair is left to the other meets
  unfoldable pub range_unify :
      (Number → Number → Number → Bool) → Value O → Value O → Option (Value O)
  unfolding range_membership range_intersect
  range_unify on_grid (range s e) (range s' e') = some (range_intersect (range s e) (range s' e'))
  range_unify on_grid (range s e) (stepped s' e' st) =
      some (range_intersect (range s e) (stepped s' e' st))
  range_unify on_grid (stepped s e st) (range s' e') =
      some (range_intersect (stepped s e st) (range s' e'))
  range_unify on_grid (stepped s e st) (stepped s' e' st') =
      some (range_intersect (stepped s e st) (stepped s' e' st'))
  range_unify on_grid (atom a effect rank) (range s e) =
      some (range_membership on_grid (atom a effect rank) s e none)
  range_unify on_grid (atom a effect rank) (stepped s e st) =
      some (range_membership on_grid (atom a effect rank) s e (some st))
  range_unify on_grid (range s e) (atom a effect rank) =
      some (range_membership on_grid (atom a effect rank) s e none)
  range_unify on_grid (stepped s e st) (atom a effect rank) =
      some (range_membership on_grid (atom a effect rank) s e (some st))
  range_unify on_grid a b = none
