-- ===== src/Routing/Table/Slots.antt =====
-- crates/interpreter/src/routing.rs: the slots of the index, and a push to one of them.
use text.Mathlib.Text.{◌==◌ as str_eq}
use text.Mathlib.TextEquality.{eq_iff}
use nlang_tools.Prelude.{
  ℕ, zero, suc, ◌+◌, ◌≤◌, ◌<◌, if◌then◌else◌, String, false, List, [], ◌∷◌, ◌++◌, length,
  length-append, replicate, All, ◌≡◌, refl, ap, sym, ◌∙◌, inl, inr, Bool-cases, arith, append-nil,
  append_assoc, subst,
}
use nlang_tools.Routing.Table.{k, holds, any_holds, slot_at, push_at}

-- how often a name stands in a slot, and in all of them
unfoldable pub count : String → List String → ℕ
count m [] = 0
count m (id ∷ slot) = if str_eq id m then suc (count m slot) else count m slot

unfoldable pub count_all : String → List (List String) → ℕ
unfolding count
count_all m [] = 0
count_all m (slot ∷ slots) = count m slot + count_all m slots

-- each slot with names added at its end
pub data Extends : List (List String) → List (List String) → Type 0 where
  done : Extends [] []
  grown :
      {slot slot' : List String} (more : List String) {slots slots' : List (List String)}
      → slot' ≡ slot ++ more
      → Extends slots slots'
      → Extends (slot ∷ slots) (slot' ∷ slots')

count-append : (m : String) (xs ys : List String) → count m (xs ++ ys) ≡ count m xs + count m ys
unfolding count
count-append m [] ys = omega arith
count-append m (x ∷ xs) ys = ground (arith, count-append m xs ys)

count-absent : (m : String) (slot : List String) → holds m slot ≡ false → count m slot ≡ 0
unfolding count holds
count-absent m [] h = refl
count-absent m (id ∷ slot) h = ground (arith, count-absent m slot)

pub count_all-absent :
    (m : String) (slots : List (List String)) → any_holds m slots ≡ false → count_all m slots ≡ 0
unfolding count_all any_holds
count_all-absent m [] h = refl
count_all-absent m (slot ∷ slots) h = ground (arith, count-absent m slot, count_all-absent m slots)

pub count_all-push :
    (b : ℕ) (id m : String) (slots : List (List String))
    → count_all m (push_at b id slots) ≤ count_all m slots + count m (id ∷ [])
unfolding count_all push_at
count_all-push b id m [] = omega arith
count_all-push zero id m (slot ∷ slots) = omega (arith, count-append m slot (id ∷ []))
count_all-push (suc b) id m (slot ∷ slots) = omega (arith, count_all-push b id m slots)

count_one : (id m : String) → count m (id ∷ []) ≤ 1
unfolding count
count_one id m = ground arith

count-other : (id m : String) → str_eq id m ≡ false → count m (id ∷ []) ≡ 0
unfolding count
count-other id m h = ground arith

-- a name that is pushed where it was absent is there once
pub once-push :
    (b : ℕ) (id : String) (slots : List (List String))
    → any_holds id slots ≡ false
    → ((m : String) → count_all m slots ≤ 1)
    → (m : String) → count_all m (push_at b id slots) ≤ 1
once-push b id slots absent once m = elim (Bool-cases (str_eq id m)) [
  | inl same ↦ omega (
    arith,
    count_all-push b id m slots,
    count_one id m,
    count_all-absent m slots (subst (λ n. any_holds n slots ≡ false) ((eq_iff id m).0 same) absent),
  )
  | inr other ↦ ground (arith, count_all-push b id m slots, count-other id m other, once m)
]

pub length-push_at :
    (b : ℕ) (id : String) (slots : List (List String)) → length (push_at b id slots) ≡ length slots
unfolding push_at
length-push_at b id [] = refl
length-push_at zero id (slot ∷ slots) = refl
length-push_at (suc b) id (slot ∷ slots) = ap suc (length-push_at b id slots)

pub capacity-push :
    (b : ℕ) (id : String) (slots : List (List String))
    → length (slot_at b slots) < k
    → All (λ slot. length slot ≤ k) slots
    → All (λ slot. length slot ≤ k) (push_at b id slots)
unfolding push_at slot_at
capacity-push b id [] room h = h
capacity-push zero id (slot ∷ slots) room h = (omega (arith, length-append slot (id ∷ [])), h.1)
capacity-push (suc b) id (slot ∷ slots) room h = (h.0, capacity-push b id slots room h.1)

pub Extends-refl : (slots : List (List String)) → Extends slots slots
Extends-refl [] = done
Extends-refl (slot ∷ slots) = grown [] (sym (append-nil slot)) (Extends-refl slots)

pub Extends-trans : {s t u : List (List String)} → Extends s t → Extends t u → Extends s u
Extends-trans done done = done
Extends-trans (grown {slot} more p e) (grown more' q e') =
    grown (more ++ more') (q ∙ ap (λ x. x ++ more') p ∙ append_assoc slot more more')
      (Extends-trans e e')

pub Extends-push :
    (b : ℕ) (id : String) (slots : List (List String)) → Extends slots (push_at b id slots)
unfolding push_at
Extends-push b id [] = done
Extends-push zero id (slot ∷ slots) = grown (id ∷ []) refl (Extends-refl slots)
Extends-push (suc b) id (slot ∷ slots) = grown [] (sym (append-nil slot)) (Extends-push b id slots)

pub count_all-empty : (n : ℕ) (m : String) → count_all m (replicate n []) ≡ 0
unfolding count_all count
count_all-empty zero m = refl
count_all-empty (suc n) m = omega (arith, count_all-empty n m)

pub All-empty : (n : ℕ) → All (λ slot. length {A = String} slot ≤ k) (replicate n [])
All-empty zero = tt
All-empty (suc n) = (omega arith, All-empty n)
