-- ===== src/Gc/Sweep/Safe.antt =====
-- crates/interpreter/src/gc.rs: what a collection deletes, against reachability from HEAD.
use text.Mathlib.Text.{◌==◌ as str_eq}
use text.Mathlib.TextEquality.{eq_iff}
use nlang_tools.Prelude.{
  ℕ, ◌+◌, ◌%◌, String, true, false, Option, List, [], ◌∷◌, ◌≡◌, refl, sym, inl, inr, arith,
  Bool-cases, Option-cases, subst, length, format,
}
use nlang_tools.Gc.Mark.{has_digest}
use nlang_tools.Gc.Sweep.{
  GcReport, reported, gc_failed, Swept, u64_bound, sweep, is_empty, nothing_deleted, also_deleted,
}

-- the digests of a listing
abbrev pub names : List (String × ℕ) → List String
names [] = []
names (object ∷ all) = object.0 ∷ names all

has_digest-false :
    (xs : List String) (a b : String)
    → str_eq a b ≡ true
    → has_digest xs a ≡ false
    → has_digest xs b ≡ false
has_digest-false xs a b h = subst (λ x. has_digest xs x ≡ false) ((eq_iff a b).0 h)

sym_eq : (a b : String) → str_eq a b ≡ true → str_eq b a ≡ true
sym_eq a b h = (eq_iff b a).1 (sym ((eq_iff a b).0 h))

pub is_empty→[] : (lines : List String) → is_empty lines ≡ true → lines ≡ []
is_empty→[] [] h = refl
is_empty→[] (line ∷ lines) h = absurd (ground arith)

module _ (remove_digest : String → Option String) (live : List String) (report : GcReport) where
  -- one deletion after the other, as a relation
  pub data Sweeps : List (String × ℕ) → ℕ → Swept → Type 0 where
    swept_all :
        (removed freed : ℕ)
        → Sweeps [] removed
            (nothing_deleted (reported (record report { removed = removed; freed_bytes = freed })))
    kept_object :
        {object : String × ℕ} {all : List (String × ℕ)} {removed : ℕ} {s : Swept}
        → has_digest live object.0 ≡ true
        → Sweeps all removed s
        → Sweeps (object ∷ all) removed s
    stuck_object :
        {object : String × ℕ} {all : List (String × ℕ)} {removed : ℕ} (msg : String)
        → Sweeps (object ∷ all) removed (nothing_deleted (gc_failed msg))
    deleted_object :
        {object : String × ℕ} {all : List (String × ℕ)} {removed : ℕ} {s : Swept}
        → has_digest live object.0 ≡ false
        → Sweeps all (removed + 1) s
        → Sweeps (object ∷ all) removed (also_deleted object.0 s)

  pub sweep-Sweeps :
      (all : List (String × ℕ)) (removed freed : ℕ)
      → Sweeps all removed (sweep remove_digest live report all removed freed)
  unfolding sweep
  sweep-Sweeps [] removed freed = swept_all removed freed
  sweep-Sweeps (object ∷ all) removed freed = elim (Bool-cases (has_digest live object.0)) [
    | inl kept ↦ rw kept (kept_object kept (sweep-Sweeps all removed freed))
    | inr dead ↦ elim (Option-cases (remove_digest object.0)) [
      | inl gone ↦
          rw dead rw gone
            (deleted_object dead (sweep-Sweeps all (removed + 1) ((freed + object.1) % u64_bound)))
      | inr stuck ↦
          rw dead rw stuck.1 (stuck_object (format ("remove " ∷ object.0 ∷ ": " ∷ stuck.0 ∷ [])))
    ]
  ]

  pub Sweeps-deleted :
      {all : List (String × ℕ)} {removed : ℕ} {s : Swept} (e : String)
      → Sweeps all removed s
      → has_digest s.deleted e ≡ true
      → (has_digest live e ≡ false) × (has_digest (names all) e ≡ true)
  Sweeps-deleted e (swept_all removed freed) h = absurd (ground arith)
  Sweeps-deleted e (kept_object kept later) h = ground (arith, Sweeps-deleted e later h)
  Sweeps-deleted e (stuck_object msg) h = absurd (ground arith)
  Sweeps-deleted e (deleted_object {object} dead later) h = elim (Bool-cases (str_eq object.0 e)) [
    | inl same ↦ ground (arith, has_digest-false live object.0 e same dead)
    | inr other ↦ ground (arith, Sweeps-deleted e later (ground arith))
  ]

  pub Sweeps-all :
      {all : List (String × ℕ)} {removed : ℕ} {s : Swept} (r : GcReport) (e : String)
      → Sweeps all removed s
      → s.answer ≡ reported r
      → has_digest (names all) e ≡ true
      → has_digest live e ≡ false
      → has_digest s.deleted e ≡ true
  Sweeps-all r e (swept_all removed freed) done listed dead = absurd (ground arith)
  Sweeps-all r e (kept_object {object} kept later) done listed dead =
      elim (Bool-cases (str_eq object.0 e)) [
        | inl same ↦
            absurd (ground (arith, has_digest-false live e object.0 (sym_eq object.0 e same) dead))
        | inr other ↦ Sweeps-all r e later done (ground arith) dead
      ]
  Sweeps-all r e (stuck_object msg) done listed dead = absurd (ground arith)
  Sweeps-all r e (deleted_object {object} gone later) done listed dead =
      elim (Bool-cases (str_eq object.0 e)) [
        | inl same ↦ ground arith
        | inr other ↦ ground (arith, Sweeps-all r e later done (ground arith) dead)
      ]

  pub Sweeps-removed :
      {all : List (String × ℕ)} {removed : ℕ} {s : Swept} (r : GcReport)
      → Sweeps all removed s
      → s.answer ≡ reported r
      → r.removed ≡ removed + length s.deleted
  Sweeps-removed r (swept_all removed freed) done = ground arith
  Sweeps-removed r (kept_object kept later) done = Sweeps-removed r later done
  Sweeps-removed r (stuck_object msg) done = absurd (ground arith)
  Sweeps-removed r (deleted_object gone later) done = ground (arith, Sweeps-removed r later done)
