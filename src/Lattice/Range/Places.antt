-- ===== src/Lattice/Range/Places.antt =====
-- crates/interpreter/src/unify.rs: bounds of ranges by their places in the order.
use Prim.Native.Nat.{Ordering}
use nlang_tools.Prelude.{
  ℕ, zero, suc, ◌≤◌, Bool-cases, true, false, ◌&&◌, if◌then◌else◌, Option, some, ◌≡◌, refl, arith,
  inl, inr,
}
use nlang_tools.Parser.Ast.{ℤ, pos}
use nlang_tools.Lattice.Numbers.{nan, infinite, finite, Number, int, float}
use nlang_tools.Lattice.Numbers.Exact.{
  Place, place, cmp_place, place_of, num_cmp-exact, leb_place, leb_place_trans, reverse_place,
}
use nlang_tools.Lattice.Range.{
  BoundKey, below, above, at, bound_cmp, bound_max, bound_min, prefer_int,
}

-- the ends of the order lie outside the infinities
abbrev pub key_place : BoundKey → Option Place
key_place below = some (place 0 (pos 0) 0)
key_place above = some (place 4 (pos 0) 0)
key_place (at n) = place_of n

pub place_of-level :
    (n : Number) (l : ℕ) (a : ℤ) (f : ℕ) → place_of n ≡ some (place l a f) → (1 ≤ l) × (l ≤ 3)
place_of-level (int i) l a f h = ground arith
place_of-level (float nan) l a f h = absurd (ground arith)
place_of-level (float (infinite true)) l a f h = ground arith
place_of-level (float (infinite false)) l a f h = ground arith
place_of-level (float (finite b g)) l a f h = ground arith

pub bound_cmp-place :
    (a b : BoundKey) (p q : Place)
    → key_place a ≡ some p
    → key_place b ≡ some q
    → bound_cmp a b ≡ some (cmp_place p q)
unfolding bound_cmp
bound_cmp-place (at m) (at n) p q ha hb = ground (arith, num_cmp-exact m n)
bound_cmp-place below below p q ha hb = ground arith
bound_cmp-place below above p q ha hb = ground arith
bound_cmp-place above below p q ha hb = ground arith
bound_cmp-place above above p q ha hb = ground arith
bound_cmp-place below (at n) p (place l a f) ha hb = ground (arith, place_of-level n l a f hb)
bound_cmp-place above (at n) p (place l a f) ha hb = ground (arith, place_of-level n l a f hb)
bound_cmp-place (at n) below (place l a f) q ha hb = ground (arith, place_of-level n l a f ha)
bound_cmp-place (at n) above (place l a f) q ha hb = ground (arith, place_of-level n l a f ha)

abbrev pub max_place : Place → Place → Place
max_place p q = if leb_place q p then p else q

abbrev pub min_place : Place → Place → Place
min_place p q = if leb_place p q then p else q

pub cmp_place-eq : (p q : Place) → cmp_place p q ≡ Ordering.eq → p ≡ q
cmp_place-eq (place l a f) (place m b g) h = ground arith

leb_place-total : (p q : Place) → leb_place p q ≡ false → leb_place q p ≡ true
leb_place-total (place l a f) (place m b g) h = ground arith

pub leb_max : (p q x : Place) → leb_place (max_place p q) x ≡ (leb_place p x && leb_place q x)
leb_max p q x = elim (Bool-cases (leb_place q p)) [
  | inl h ↦ rw h ground (arith, leb_place_trans q p x h)
  | inr h ↦ rw h ground (arith, leb_place_trans p q x (leb_place-total q p h))
]

pub leb_min : (p q x : Place) → leb_place x (min_place p q) ≡ (leb_place x p && leb_place x q)
leb_min p q x = elim (Bool-cases (leb_place p q)) [
  | inl h ↦ rw h ground (arith, leb_place_trans x p q)
  | inr h ↦ rw h ground (arith, leb_place_trans x q p, leb_place-total p q h)
]

pub bound_max-place :
    (a b : BoundKey) (p q : Place)
    → key_place a ≡ some p
    → key_place b ≡ some q
    → key_place (bound_max a b) ≡ some (max_place p q)
unfolding bound_max
bound_max-place a b p q ha hb =
    ground (arith, bound_cmp-place a b p q ha hb, ha, hb, reverse_place p q)

pub bound_min-place :
    (a b : BoundKey) (p q : Place)
    → key_place a ≡ some p
    → key_place b ≡ some q
    → key_place (bound_min a b) ≡ some (min_place p q)
unfolding bound_min
bound_min-place a b p q ha hb =
    ground (arith, bound_cmp-place a b p q ha hb, ha, hb, reverse_place p q)

pub prefer_int-place : (n : Number) → place_of (prefer_int n) ≡ place_of n
unfolding prefer_int
prefer_int-place (int i) = refl
prefer_int-place (float nan) = refl
prefer_int-place (float (infinite b)) = refl
prefer_int-place (float (finite w zero)) = ground arith
prefer_int-place (float (finite w (suc f))) = refl
