-- ===== src/Nlint/Repeated/Table.antt =====
-- crates/oo/src/nlint.rs: the rule R6 keeps each key once, with its places in order.
use text.Mathlib.Text.{◌==◌ as str_eq}
use text.Mathlib.TextEquality.{eq_iff}
use nlang_tools.Prelude.{
  ℕ, String, Bool, true, false, ◌||◌, if◌then◌else◌, List, [], ◌∷◌, ◌++◌, append_assoc, append-nil,
  ◌≡◌, refl, ap, ap₂, sym, ◌∙◌, arith, Bool-cases, inl, inr, subst,
}
use nlang_tools.Nlint.Repeated.{
  Introduction, Occurrences, Diagnostic, r6_emit, push_occurrence, push_all, emit_repeated,
  emit_all,
}

-- the places where a key is introduced
abbrev pub places : String → List Introduction → List (ℕ × ℕ)
places k [] = []
places k (x ∷ xs) = if str_eq x.0 k then x.1 ∷ places k xs else places k xs

abbrev pub has_name : String → List String → Bool
has_name k [] = false
has_name k (n ∷ ns) = str_eq n k || has_name k ns

abbrev pub IsDistinct : List String → Type 0
IsDistinct [] = Unit
IsDistinct (n ∷ ns) = (has_name n ns ≡ false) × IsDistinct ns

abbrev pub keys_of : Occurrences → List String
keys_of [] = []
keys_of (entry ∷ rest) = entry.0 ∷ keys_of rest

abbrev pub lookup : String → Occurrences → List (ℕ × ℕ)
lookup k [] = []
lookup k (entry ∷ rest) = if str_eq entry.0 k then entry.1 else lookup k rest

differ_back : (a b : String) → str_eq a b ≡ false → str_eq b a ≡ false
differ_back a b differ = elim (Bool-cases (str_eq b a)) [
  | inl same ↦ absurd (ground (arith, differ, (eq_iff a b).1 (sym ((eq_iff b a).0 same))))
  | inr other ↦ other
]

differ_from : (a b c : String) → str_eq a b ≡ false → b ≡ c → str_eq a c ≡ false
differ_from a b c differ same = subst (λ n. str_eq a n ≡ false) same differ

lookup-push_occurrence :
    (j : String) (span : ℕ × ℕ) (table : Occurrences) (k : String)
    → lookup k (push_occurrence j span table)
      ≡ (if str_eq j k then lookup k table ++ (span ∷ []) else lookup k table)
unfolding push_occurrence
lookup-push_occurrence j span [] k = refl
lookup-push_occurrence j span (entry ∷ rest) k = elim (Bool-cases (str_eq entry.0 j)) [
  | inl same ↦
      let eq : entry.0 ≡ j = (eq_iff entry.0 j).0 same in
      ground (arith, same, ap (λ n. str_eq n k) eq)
  | inr other ↦ elim (Bool-cases (str_eq entry.0 k)) [
    | inl first ↦
        let unlike : str_eq j k ≡ false =
          differ_from j entry.0 k (differ_back entry.0 j other) ((eq_iff entry.0 k).0 first) in
        ground (arith, other, first, unlike)
    | inr later ↦ ground (arith, other, later, lookup-push_occurrence j span rest k)
  ]
]

has_name-push_occurrence :
    (j : String) (span : ℕ × ℕ) (table : Occurrences) (k : String)
    → has_name k (keys_of (push_occurrence j span table))
      ≡ (str_eq j k || has_name k (keys_of table))
unfolding push_occurrence
has_name-push_occurrence j span [] k = refl
has_name-push_occurrence j span (entry ∷ rest) k = elim (Bool-cases (str_eq entry.0 j)) [
  | inl same ↦
      let eq : entry.0 ≡ j = (eq_iff entry.0 j).0 same in
      ground (arith, same, ap (λ n. str_eq n k) eq)
  | inr other ↦ ground (arith, other, has_name-push_occurrence j span rest k)
]

IsDistinct-push_occurrence :
    (j : String) (span : ℕ × ℕ) (table : Occurrences)
    → IsDistinct (keys_of table)
    → IsDistinct (keys_of (push_occurrence j span table))
unfolding push_occurrence
IsDistinct-push_occurrence j span [] distinct = (refl, tt)
IsDistinct-push_occurrence j span (entry ∷ rest) distinct = elim (Bool-cases (str_eq entry.0 j)) [
  | inl same ↦ rw (same) distinct
  | inr other ↦ rw (other) (
    ground (
      arith,
      has_name-push_occurrence j span rest entry.0,
      differ_back entry.0 j other,
      distinct.0,
    ),
    IsDistinct-push_occurrence j span rest distinct.1,
  )
]

pub lookup-push_all :
    (xs : List Introduction) (table : Occurrences) (k : String)
    → lookup k (push_all xs table) ≡ lookup k table ++ places k xs
unfolding push_all
lookup-push_all [] table k = sym (append-nil (lookup k table))
lookup-push_all (x ∷ xs) table k = elim (Bool-cases (str_eq x.0 k)) [
  | inl same ↦
      let added : lookup k (push_occurrence x.0 x.1 table) ≡ lookup k table ++ (x.1 ∷ []) =
        ground (arith, same, lookup-push_occurrence x.0 x.1 table k) in
      rw (same) (
        lookup-push_all xs (push_occurrence x.0 x.1 table) k
        ∙ (ap (λ t. t ++ places k xs) added
            ∙ append_assoc (lookup k table) (x.1 ∷ []) (places k xs)))
  | inr other ↦
      let kept : lookup k (push_occurrence x.0 x.1 table) ≡ lookup k table =
        ground (arith, other, lookup-push_occurrence x.0 x.1 table k) in
      rw (other)
        (lookup-push_all xs (push_occurrence x.0 x.1 table) k ∙ ap (λ t. t ++ places k xs) kept)
]

pub IsDistinct-push_all :
    (xs : List Introduction) (table : Occurrences)
    → IsDistinct (keys_of table)
    → IsDistinct (keys_of (push_all xs table))
unfolding push_all
IsDistinct-push_all [] table distinct = distinct
IsDistinct-push_all (x ∷ xs) table distinct =
    IsDistinct-push_all xs (push_occurrence x.0 x.1 table)
      (IsDistinct-push_occurrence x.0 x.1 table distinct)

pub lookup-absent :
    (k : String) (table : Occurrences) → has_name k (keys_of table) ≡ false → lookup k table ≡ []
lookup-absent k [] h = refl
lookup-absent k (entry ∷ rest) h = ground (arith, h, lookup-absent k rest (ground (arith, h)))

-- a report for a key, at the second of its places
abbrev pub reports_of : String → String → List (ℕ × ℕ) → List Diagnostic
reports_of file k (a ∷ (b ∷ spans)) = r6_emit file b k ∷ []
reports_of file k spans = []

emit_repeated-reports_of :
    (file k : String) (spans : List (ℕ × ℕ)) → emit_repeated file k spans ≡ reports_of file k spans
emit_repeated-reports_of file k [] = refl
emit_repeated-reports_of file k (a ∷ []) = refl
emit_repeated-reports_of file k (a ∷ (b ∷ spans)) = refl

abbrev pub emit_each : String → (String → List (ℕ × ℕ)) → List String → List Diagnostic
emit_each file spans [] = []
emit_each file spans (k ∷ ks) = reports_of file k (spans k) ++ emit_each file spans ks

pub emit_each-same :
    (file : String) (f g : String → List (ℕ × ℕ)) (ks : List String)
    → ((k : String) → has_name k ks ≡ true → f k ≡ g k)
    → emit_each file f ks ≡ emit_each file g ks
emit_each-same file f g [] same = refl
emit_each-same file f g (k ∷ ks) same =
    ap₂ (λ spans rest. reports_of file k spans ++ rest)
      (same k (ground (arith, (eq_iff k k).1 refl)))
      (emit_each-same file f g ks (λ j h. same j (ground (arith, h))))

lookup-later :
    (entry : String × List (ℕ × ℕ)) (rest : Occurrences) (k : String)
    → has_name entry.0 (keys_of rest) ≡ false
    → has_name k (keys_of rest) ≡ true
    → lookup k (entry ∷ rest) ≡ lookup k rest
lookup-later entry rest k absent listed = elim (Bool-cases (str_eq entry.0 k)) [
  | inl same ↦
      let listed' =
        subst (λ n. has_name n (keys_of rest) ≡ true) (sym ((eq_iff entry.0 k).0 same)) listed in
      absurd (ground (arith, absent, listed'))
  | inr other ↦ ground (arith, other)
]

pub emit_all-each :
    (file : String) (table : Occurrences)
    → IsDistinct (keys_of table)
    → emit_all file table ≡ emit_each file (λ k. lookup k table) (keys_of table)
unfolding emit_all
emit_all-each file [] distinct = refl
emit_all-each file (entry ∷ rest) distinct =
    let first : lookup entry.0 (entry ∷ rest) ≡ entry.1 =
      ground (arith, (eq_iff entry.0 entry.0).1 refl) in
    ap₂ (λ reports more. reports ++ more)
      (emit_repeated-reports_of file entry.0 entry.1 ∙ ap (reports_of file entry.0) (sym first))
      (emit_all-each file rest distinct.1
        ∙ emit_each-same file (λ k. lookup k rest) (λ k. lookup k (entry ∷ rest)) (keys_of rest)
            (λ k listed. sym (lookup-later entry rest k distinct.0 listed)))

pub places-append :
    (k : String) (xs ys : List Introduction) → places k (xs ++ ys) ≡ places k xs ++ places k ys
places-append k [] ys = refl
places-append k (x ∷ xs) ys = ground (arith, places-append k xs ys)
