-- ===== src/Nlint/Context/Owners.antt =====
-- crates/oo/src/nlint.rs: which contexts own a coordinate, after the loops that fill the incidence.
use text.Mathlib.Text.{◌==◌ as str_eq}
use nlang_tools.Prelude.{
  ℕ, zero, suc, ◌-◌, ◌<◌, ◌≤◌, ◌==◌, leb, ==_iff, String, Bool, true, false, ◌||◌, ◌&&◌, List, [],
  ◌∷◌, length, replicate, length-replicate, Option, none, some, ◌≡◌, refl, ap, ◌∙◌, arith,
  Bool-cases, Option-cases, inl, inr,
}
use nlang_tools.Nlint.Cliques.{mem, neighbors}
use nlang_tools.Nlint.Cliques.Sets.{mem-insert_index}
use nlang_tools.Nlint.Context.{
  ContextNode, coord_index, insert_into, Incidence, own_at, own_loop, incidence_loop, incidence_of,
}

pub length-insert_into :
    (sets : List (List ℕ)) (k v : ℕ) → length (insert_into sets k v) ≡ length sets
unfolding insert_into
length-insert_into [] k v = refl
length-insert_into (s ∷ sets) zero v = refl
length-insert_into (s ∷ sets) (suc k) v = ap suc (length-insert_into sets k v)

pub mem-insert_into :
    (sets : List (List ℕ)) (k v j e : ℕ)
    → k < length sets
    → mem e (neighbors (insert_into sets k v) j) ≡ ((k == j && v == e) || mem e (neighbors sets j))
unfolding insert_into
mem-insert_into [] k v j e inside = absurd (omega (arith, inside))
mem-insert_into (s ∷ sets) zero v zero e inside = mem-insert_index v s e
mem-insert_into (s ∷ sets) zero v (suc j) e inside = ground arith
mem-insert_into (s ∷ sets) (suc k) v zero e inside = ground arith
mem-insert_into (s ∷ sets) (suc k) v (suc j) e inside =
    ground (arith, mem-insert_into sets k v j e (omega (arith, inside)))

pub neighbors-replicate : (n j : ℕ) → neighbors (replicate n []) j ≡ []
neighbors-replicate zero j = refl
neighbors-replicate (suc n) zero = refl
neighbors-replicate (suc n) (suc j) = neighbors-replicate n j

abbrev pub is_at : ℕ → Option ℕ → Bool
is_at k none = false
is_at k (some j) = j == k

coord_index-inside :
    (coords : List String) (c : String) (k : ℕ)
    → is_at k (coord_index coords c) ≡ true
    → k < length coords
unfolding coord_index
coord_index-inside [] c k found = absurd (ground (arith, found))
coord_index-inside (d ∷ coords) c k found = elim (Bool-cases (str_eq d c)) [
  | inl same ↦ ground (arith, found, same)
  | inr other ↦ elim (Option-cases (coord_index coords c)) [
    | inl gone ↦ absurd (ground (arith, found, other, gone))
    | inr (j, hit) ↦
        ground (arith, found, other, hit, coord_index-inside coords c j (ground (arith, hit)))
  ]
]

-- one of the names stands at index `k`
abbrev pub holds : List String → ℕ → List String → Bool
holds coords k [] = false
holds coords k (c ∷ cs) = is_at k (coord_index coords c) || holds coords k cs

abbrev pub own_of : List ContextNode → ℕ → List String
own_of [] ci = []
own_of (ctx ∷ contexts) zero = ctx.own_coords
own_of (ctx ∷ contexts) (suc ci) = own_of contexts ci

length-own_at :
    (ci : ℕ) (o : Option ℕ) (m : Incidence)
    → length (own_at ci o m).coord_to_contexts ≡ length m.coord_to_contexts
length-own_at ci none m = refl
length-own_at ci (some k) m = length-insert_into m.coord_to_contexts k ci

mem-own_at :
    (ci : ℕ) (o : Option ℕ) (m : Incidence) (k e : ℕ)
    → ((j : ℕ) → is_at j o ≡ true → j < length m.coord_to_contexts)
    → mem e (neighbors (own_at ci o m).coord_to_contexts k)
      ≡ ((ci == e && is_at k o) || mem e (neighbors m.coord_to_contexts k))
mem-own_at ci none m k e inside = ground arith
mem-own_at ci (some j) m k e inside =
    ground (arith, mem-insert_into m.coord_to_contexts j ci k e (inside j ((==_iff j j).1 refl)))

length-own_loop :
    (coords : List String) (ci : ℕ) (cs : List String) (m : Incidence)
    → length (own_loop coords ci cs m).coord_to_contexts ≡ length m.coord_to_contexts
unfolding own_loop
length-own_loop coords ci [] m = refl
length-own_loop coords ci (c ∷ cs) m =
    length-own_loop coords ci cs (own_at ci (coord_index coords c) m)
    ∙ length-own_at ci (coord_index coords c) m

mem-own_loop :
    (coords : List String) (ci : ℕ) (cs : List String) (m : Incidence) (k e : ℕ)
    → length m.coord_to_contexts ≡ length coords
    → mem e (neighbors (own_loop coords ci cs m).coord_to_contexts k)
      ≡ ((ci == e && holds coords k cs) || mem e (neighbors m.coord_to_contexts k))
unfolding own_loop
mem-own_loop coords ci [] m k e long = ground arith
mem-own_loop coords ci (c ∷ cs) m k e long = ground (
  arith,
  mem-own_loop coords ci cs (own_at ci (coord_index coords c) m) k e
      (length-own_at ci (coord_index coords c) m ∙ long),
  mem-own_at ci (coord_index coords c) m k e
      (λ j found. omega (arith, long, coord_index-inside coords c j found)),
)

own_of-later :
    (ctx : ContextNode) (contexts : List ContextNode) (ci e : ℕ)
    → suc ci ≤ e
    → own_of (ctx ∷ contexts) (e - ci) ≡ own_of contexts (e - suc ci)
own_of-later ctx contexts ci e after =
    let next : e - ci ≡ suc (e - suc ci) = omega (arith, after) in ap (own_of (ctx ∷ contexts)) next

own_of-here :
    (ctx : ContextNode) (contexts : List ContextNode) (ci e : ℕ)
    → ci ≡ e
    → own_of (ctx ∷ contexts) (e - ci) ≡ ctx.own_coords
own_of-here ctx contexts ci e same =
    let first : e - ci ≡ 0 = omega (arith, same) in ap (own_of (ctx ∷ contexts)) first

mem-incidence_loop :
    (coords : List String) (ci : ℕ) (contexts : List ContextNode) (m : Incidence) (k e : ℕ)
    → length m.coord_to_contexts ≡ length coords
    → mem e (neighbors (incidence_loop coords ci contexts m).coord_to_contexts k) ≡ (
        (leb ci e && holds coords k (own_of contexts (e - ci)))
        || mem e (neighbors m.coord_to_contexts k))
unfolding incidence_loop
mem-incidence_loop coords ci [] m k e long = ground arith
mem-incidence_loop coords ci (ctx ∷ contexts) m k e long =
    let rest =
      mem-incidence_loop coords (suc ci) contexts (own_loop coords ci ctx.own_coords m) k e
        (length-own_loop coords ci ctx.own_coords m ∙ long) in
    let first = mem-own_loop coords ci ctx.own_coords m k e long in
    elim (Bool-cases (leb (suc ci) e)) [
      | inl after ↦
          let shifted = own_of-later ctx contexts ci e (ground (arith, after)) in
          ground (arith, after, rest, first, ap (holds coords k) shifted)
      | inr upto ↦ elim (Bool-cases (ci == e)) [
        | inl same ↦
            let here = own_of-here ctx contexts ci e ((==_iff ci e).0 same) in
            ground (arith, upto, same, rest, first, ap (holds coords k) here)
        | inr other ↦ ground (arith, upto, other, rest, first)
      ]
    ]

-- Each coordinate is noted for exactly the contexts that own a name with its index.
pub mem-incidence_of :
    (coords : List String) (contexts : List ContextNode) (k e : ℕ)
    → mem e (neighbors (incidence_of coords contexts).coord_to_contexts k)
      ≡ holds coords k (own_of contexts e)
unfolding incidence_of
mem-incidence_of coords contexts k e =
    let none_yet : mem e (neighbors (replicate (length coords) []) k) ≡ false =
      ap (mem e) (neighbors-replicate (length coords) k) in
    ground (
      arith,
      none_yet,
      mem-incidence_loop coords 0 contexts
          (record {
            incidence = replicate (length contexts) [];
            coord_to_contexts = replicate (length coords) [];
          })
          k e (length-replicate (length coords) []),
    )
