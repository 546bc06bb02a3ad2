-- ===== src/Horizon/RecordSet/Ordered.antt =====
-- crates/interpreter/src/value.rs: the records of a blur, once each and in the order of digests.
use nlang_tools.Prelude.{
  ℕ, ◌≤◌, ◌<◌, Bool, true, false, not, ◌&&◌, ◌||◌, ◌==◌, List, [], ◌∷◌, ◌++◌, map, ◌≡◌, refl, sym,
  ap₂, ◌∙◌, inl, inr, arith, Bool-cases, leb,
}
use nlang_tools.Horizon.Blur.{HorizonRecord}
use nlang_tools.Horizon.RecordSet.{insert_record, sort_records, dedup_after, dedup_records}

module _ {V H : Type 0} (chs_digest : HorizonRecord V H → ℕ) where
  -- whether a record of the list has this digest
  abbrev pub has : List (HorizonRecord V H) → ℕ → Bool
  has [] e = false
  has (r ∷ recs) e = chs_digest r == e || has recs e

  pub has-append :
      (xs ys : List (HorizonRecord V H)) (e : ℕ) → has (xs ++ ys) e ≡ (has xs e || has ys e)
  has-append [] ys e = refl
  has-append (x ∷ xs) ys e = ground (arith, has-append xs ys e)

  abbrev IsSorted : List (HorizonRecord V H) → Type 0
  IsSorted [] = Unit
  IsSorted (r ∷ recs) = ((e : ℕ) → has recs e ≡ true → chs_digest r ≤ e) × IsSorted recs

  abbrev pub IsAscending : List (HorizonRecord V H) → Type 0
  IsAscending [] = Unit
  IsAscending (r ∷ recs) = ((e : ℕ) → has recs e ≡ true → chs_digest r < e) × IsAscending recs

  has-insert_record :
      (r : HorizonRecord V H) (recs : List (HorizonRecord V H)) (e : ℕ)
      → has (insert_record chs_digest r recs) e ≡ (chs_digest r == e || has recs e)
  unfolding insert_record
  has-insert_record r [] e = refl
  has-insert_record r (x ∷ recs) e = ground (arith, has-insert_record r recs e)

  insert_record-IsSorted :
      (r : HorizonRecord V H) (recs : List (HorizonRecord V H))
      → IsSorted recs
      → IsSorted (insert_record chs_digest r recs)
  unfolding insert_record
  insert_record-IsSorted r [] h = (λ e none_there. absurd (ground arith), tt)
  insert_record-IsSorted r (x ∷ recs) h = elim (Bool-cases (leb (chs_digest r) (chs_digest x))) [
    | inl before ↦ rw before (
      λ e there. elim (Bool-cases (has recs e)) [
        | inl later ↦ ground (arith, h.0 e later)
        | inr first ↦ ground arith
      ],
      h,
    )
    | inr after ↦ rw after (
      λ e there. elim (Bool-cases (has recs e)) [
        | inl later ↦ h.0 e later
        | inr new ↦ ground (arith, has-insert_record r recs e)
      ],
      insert_record-IsSorted r recs h.1,
    )
  ]

  has-sort_records :
      (recs : List (HorizonRecord V H)) (e : ℕ) → has (sort_records chs_digest recs) e ≡ has recs e
  unfolding sort_records
  has-sort_records [] e = refl
  has-sort_records (r ∷ recs) e =
      ground (arith, has-insert_record r (sort_records chs_digest recs) e, has-sort_records recs e)

  sort_records-IsSorted :
      (recs : List (HorizonRecord V H)) → IsSorted (sort_records chs_digest recs)
  unfolding sort_records
  sort_records-IsSorted [] = tt
  sort_records-IsSorted (r ∷ recs) =
      insert_record-IsSorted r (sort_records chs_digest recs) (sort_records-IsSorted recs)

  has-dedup_after :
      (r : HorizonRecord V H) (recs : List (HorizonRecord V H)) (e : ℕ)
      → IsSorted recs
      → ((d : ℕ) → has recs d ≡ true → chs_digest r ≤ d)
      → has (dedup_after chs_digest r recs) e ≡ (has recs e && not (chs_digest r == e))
  unfolding dedup_after
  has-dedup_after r [] e h low = refl
  has-dedup_after r (x ∷ recs) e h low = elim (Bool-cases (chs_digest x == chs_digest r)) [
    | inl same ↦
        ground (arith, has-dedup_after r recs e h.1 (λ d there. low d (ground arith)), same)
    | inr other ↦ elim (Bool-cases (has recs e)) [
      | inl later ↦ ground (
        arith,
        has-dedup_after x recs e h.1 h.0,
        other,
        h.0 e later,
        low (chs_digest x) (ground arith),
      )
      | inr absent ↦
          ground (arith, has-dedup_after x recs e h.1 h.0, other, low (chs_digest x) (ground arith))
    ]
  ]

  dedup_after-IsAscending :
      (r : HorizonRecord V H) (recs : List (HorizonRecord V H))
      → IsSorted recs
      → ((d : ℕ) → has recs d ≡ true → chs_digest r ≤ d)
      → IsAscending (dedup_after chs_digest r recs)
  unfolding dedup_after
  dedup_after-IsAscending r [] h low = tt
  dedup_after-IsAscending r (x ∷ recs) h low = elim (Bool-cases (chs_digest x == chs_digest r)) [
    | inl same ↦ rw same (dedup_after-IsAscending r recs h.1 (λ d there. low d (ground arith)))
    | inr other ↦ rw other (
      λ e there. ground (
        arith,
        has-dedup_after x recs e h.1 h.0,
        h.0 e (ground (arith, has-dedup_after x recs e h.1 h.0)),
      ),
      dedup_after-IsAscending x recs h.1 h.0,
    )
  ]

  has-dedup_records :
      (recs : List (HorizonRecord V H)) (e : ℕ)
      → IsSorted recs
      → has (dedup_records chs_digest recs) e ≡ has recs e
  unfolding dedup_records
  has-dedup_records [] e h = refl
  has-dedup_records (r ∷ recs) e h = ground (arith, has-dedup_after r recs e h.1 h.0)

  dedup_records-IsAscending :
      (recs : List (HorizonRecord V H))
      → IsSorted recs
      → IsAscending (dedup_records chs_digest recs)
  unfolding dedup_records
  dedup_records-IsAscending [] h = tt
  dedup_records-IsAscending (r ∷ recs) h = (
    λ e there. ground (
      arith,
      has-dedup_after r recs e h.1 h.0,
      h.0 e (ground (arith, has-dedup_after r recs e h.1 h.0)),
    ),
    dedup_after-IsAscending r recs h.1 h.0,
  )

  pub has-set :
      (recs : List (HorizonRecord V H)) (e : ℕ)
      → has (dedup_records chs_digest (sort_records chs_digest recs)) e ≡ has recs e
  has-set recs e =
      has-dedup_records (sort_records chs_digest recs) e (sort_records-IsSorted recs)
      ∙ has-sort_records recs e

  pub set-IsAscending :
      (recs : List (HorizonRecord V H))
      → IsAscending (dedup_records chs_digest (sort_records chs_digest recs))
  set-IsAscending recs =
      dedup_records-IsAscending (sort_records chs_digest recs) (sort_records-IsSorted recs)

  heads_agree :
      (x y : HorizonRecord V H) (xs ys : List (HorizonRecord V H))
      → ((e : ℕ) → has xs e ≡ true → chs_digest x < e)
      → ((e : ℕ) → has ys e ≡ true → chs_digest y < e)
      → ((e : ℕ) → has (x ∷ xs) e ≡ has (y ∷ ys) e)
      → chs_digest x ≡ chs_digest y
  heads_agree x y xs ys low_x low_y same = elim (Bool-cases (has ys (chs_digest x))) [
    | inr absent ↦ ground (arith, same (chs_digest x))
    | inl later ↦ elim (Bool-cases (has xs (chs_digest y))) [
      | inr absent ↦ ground (arith, same (chs_digest y))
      | inl also ↦ absurd (omega (arith, low_y (chs_digest x) later, low_x (chs_digest y) also))
    ]
  ]

  tails_agree :
      (x y : HorizonRecord V H) (xs ys : List (HorizonRecord V H)) (e : ℕ)
      → chs_digest x ≡ chs_digest y
      → ((e : ℕ) → has xs e ≡ true → chs_digest x < e)
      → ((e : ℕ) → has ys e ≡ true → chs_digest y < e)
      → has (x ∷ xs) e ≡ has (y ∷ ys) e
      → has xs e ≡ has ys e
  tails_agree x y xs ys e first low_x low_y same = elim (Bool-cases (has xs e)) [
    | inl in_xs ↦ ground (arith, low_x e in_xs)
    | inr out_xs ↦ elim (Bool-cases (has ys e)) [
      | inl in_ys ↦ ground (arith, low_y e in_ys)
      | inr out_ys ↦ out_xs ∙ sym out_ys
    ]
  ]

  -- ascending lists with the same members are the same list of digests
  pub digests_unique :
      (xs ys : List (HorizonRecord V H))
      → IsAscending xs
      → IsAscending ys
      → ((e : ℕ) → has xs e ≡ has ys e)
      → map chs_digest xs ≡ map chs_digest ys
  digests_unique [] [] h k same = refl
  digests_unique [] (y ∷ ys) h k same = absurd (ground (arith, same (chs_digest y)))
  digests_unique (x ∷ xs) [] h k same = absurd (ground (arith, same (chs_digest x)))
  digests_unique (x ∷ xs) (y ∷ ys) h k same =
      let first = heads_agree x y xs ys h.0 k.0 same in
      ap₂ (λ d ds. d ∷ ds) first
        (digests_unique xs ys h.1 k.1 (λ e. tails_agree x y xs ys e first h.0 k.0 (same e)))
