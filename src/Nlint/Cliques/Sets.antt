-- ===== src/Nlint/Cliques/Sets.antt =====
-- crates/oo/src/nlint.rs: membership in the sets of the clique search.
use nlang_tools.Prelude.{
  ℕ, zero, suc, ◌+◌, ◌≤◌, ◌<◌, ◌==◌, leb, ltb, ==_iff, Bool, true, false, not, ◌||◌, ◌&&◌, List, [],
  ◌∷◌, length, ◌≡◌, refl, ap, sym, arith, Bool-cases, inl, inr, subst,
}
use nlang_tools.Nlint.Cliques.{mem, insert_index, keep, intersection, remove_index, indices}

pub mem-insert_index :
    (v : ℕ) (xs : List ℕ) (e : ℕ) → mem e (insert_index v xs) ≡ (v == e || mem e xs)
unfolding insert_index
mem-insert_index v [] e = refl
mem-insert_index v (x ∷ xs) e = ground (arith, mem-insert_index v xs e)

pub mem-keep : (f : ℕ → Bool) (xs : List ℕ) (e : ℕ) → mem e (keep f xs) ≡ (mem e xs && f e)
unfolding keep
mem-keep f [] e = refl
mem-keep f (x ∷ xs) e = elim (Bool-cases (x == e)) [
  | inl same ↦ ground (arith, same, mem-keep f xs e, ap f ((==_iff x e).0 same))
  | inr other ↦ ground (arith, other, mem-keep f xs e)
]

pub length-keep : (f : ℕ → Bool) (xs : List ℕ) → length (keep f xs) ≤ length xs
unfolding keep
length-keep f [] = omega arith
length-keep f (x ∷ xs) = ground (arith, length-keep f xs)

-- a member that fails the test makes the list shorter
pub length-keep_less :
    (f : ℕ → Bool) (xs : List ℕ) (v : ℕ)
    → mem v xs ≡ true
    → f v ≡ false
    → length (keep f xs) < length xs
unfolding keep
length-keep_less f [] v there fails = absurd (ground arith)
length-keep_less f (x ∷ xs) v there fails = elim (Bool-cases (x == v)) [
  | inl same ↦ ground (arith, length-keep f xs, ap f ((==_iff x v).0 same), fails)
  | inr other ↦
      ground (arith, length-keep f xs, length-keep_less f xs v (ground (arith, there, other)) fails)
]

pub mem-indices : (i n e : ℕ) → mem e (indices i n) ≡ (leb i e && ltb e (i + n))
unfolding indices
mem-indices i zero e = ground arith
mem-indices i (suc n) e = ground (arith, mem-indices (suc i) n e)

pub length-indices : (i n : ℕ) → length (indices i n) ≡ n
unfolding indices
length-indices i zero = refl
length-indices i (suc n) = ap suc (length-indices (suc i) n)

-- a member of a set and what is not in it differ
pub mem-differs :
    (v : ℕ) (xs : List ℕ) (e : ℕ)
    → mem e (insert_index v xs) ≡ true
    → (v == e) ≡ false
    → mem e xs ≡ true
mem-differs v xs e h other = ground (arith, h, other, mem-insert_index v xs e)

pub mem-narrowed :
    (ns p x : List ℕ) (e : ℕ)
    → (mem e (intersection p ns) || mem e (intersection x ns)) ≡ ((mem e p || mem e x) && mem e ns)
mem-narrowed ns p x e = ground (arith, mem-keep (λ c. mem c ns) p e, mem-keep (λ c. mem c ns) x e)

pub mem-moved :
    (v e : ℕ) (p x : List ℕ)
    → (mem v p || mem v x) ≡ true
    → (mem e (remove_index v p) || mem e (insert_index v x)) ≡ (mem e p || mem e x)
mem-moved v e p x there = elim (Bool-cases (e == v)) [
  | inl same ↦
      let eq : e ≡ v = (==_iff e v).0 same in
      subst (λ c. (mem c (remove_index v p) || mem c (insert_index v x)) ≡ (mem c p || mem c x))
        (sym eq) (ground (arith, there, mem-insert_index v x v, (==_iff v v).1 refl))
  | inr other ↦ ground (arith, other, mem-keep (λ c. not (c == v)) p e, mem-insert_index v x e)
]
