-- ===== src/Gc/Mark/Ends.antt =====
-- crates/interpreter/src/gc.rs: the mark phase ends, by a measure that its loop brings down.
use text.Mathlib.Text.{◌==◌ as str_eq}
use text.Mathlib.TextEquality.{eq_iff}
use nlang_tools.Prelude.{
  ℕ, zero, suc, ◌+◌, ◌≤◌, String, Bool, true, false, if◌then◌else◌, some, List, [], ◌∷◌, ◌++◌, ◌≡◌,
  refl, ◌∙◌, inl, inr, arith, Bool-cases, length, length-append,
}
use nlang_tools.Gc.Mark.{
  has_digest, Store, HeadRead, head_at, head_failed, no_head, RecordRead, record_failed, recorded,
  Outcome, failed, marked, lost_context, visit, mark_loop, mark_walk,
}
use nlang_tools.Gc.Mark.Links.{links, pushed-links}
use nlang_tools.Gc.Mark.Reach.{Visit-cases}

module _ {B C : Type 0} (store : Store B C) (follow_abandoned : Bool) where
  -- the links of the objects of a list that were not seen, counted
  unfoldable pub weight : List String → List String → ℕ
  weight [] seen = 0
  weight (u ∷ objects) seen =
      if has_digest seen u
      then weight objects seen
      else length (links store follow_abandoned u) + weight objects seen

  weight_drops :
      (objects seen : List String) (d : String) → weight objects (d ∷ seen) ≤ weight objects seen
  unfolding weight
  weight_drops [] seen d = omega arith
  weight_drops (u ∷ objects) seen d = ground (arith, weight_drops objects seen d)

  weight-take :
      (objects seen : List String) (d : String)
      → has_digest objects d ≡ true
      → has_digest seen d ≡ false
      → length (links store follow_abandoned d) + weight objects (d ∷ seen) ≤ weight objects seen
  unfolding weight
  weight-take [] seen d listed new = absurd (ground arith)
  weight-take (u ∷ objects) seen d listed new = elim (Bool-cases (str_eq u d)) [
    | inl same ↦
        rw ((eq_iff u d).0 same) ground (arith, weight_drops objects seen d, (eq_iff d d).1 refl)
    | inr other ↦ ground (arith, weight-take objects seen d (ground arith) new)
  ]

  Result : ℕ → List String → List String → List String → Type 0
  Result fuel queue seen integrity =
      (o : Outcome) × (mark_loop store follow_abandoned fuel queue seen integrity ≡ some o)

  mark_loop-ends :
      (fuel : ℕ) (objects queue seen integrity : List String)
      → ((e : String) → store.object_exists e ≡ true → has_digest objects e ≡ true)
      → length queue + weight objects seen ≤ fuel
      → Result fuel queue seen integrity
  unfolding mark_loop Result
  mark_loop-ends fuel objects [] seen integrity listed enough =
      (marked seen integrity, ground arith)
  mark_loop-ends zero objects (d ∷ queue) seen integrity listed enough = absurd (omega arith)
  mark_loop-ends (suc fuel) objects (d ∷ queue) seen integrity listed enough =
      elim (Bool-cases (has_digest seen d)) [
        | inl old ↦ rw old (mark_loop-ends fuel objects queue seen integrity listed (omega arith))
        | inr new ↦ elim (Bool-cases (store.object_exists d)) [
          | inr gone ↦
              rw new rw gone (mark_loop-ends fuel objects queue seen integrity listed (omega arith))
          | inl there ↦ elim (Visit-cases (visit store follow_abandoned d (d ∷ seen))) [
            | inl stop ↦ rw new rw there rw stop.1 (failed stop.0, refl)
            | inr next ↦ rw new rw there rw next.1.1 (
                mark_loop-ends fuel objects (queue ++ next.0) (d ∷ seen) (integrity ++ next.1.0)
                  listed
                  (omega (
                    arith,
                    length-append queue next.0,
                    (pushed-links store follow_abandoned d (d ∷ seen) next.0 next.1.0 next.1.1).1,
                    weight-take objects seen d (listed d there) new,
                  )))
          ]
        ]
      ]

  Walked : ℕ → Type 0
  Walked fuel = (o : Outcome) × (mark_walk store follow_abandoned fuel ≡ some o)

  without_head :
      (fuel : ℕ) (r : RecordRead)
      → store.get_head ≡ no_head
      → store.records_a_commit ≡ r
      → Walked fuel
  unfolding mark_walk Walked
  without_head fuel (record_failed msg) none_there e = (failed msg, rw none_there rw e refl)
  without_head fuel (recorded true) none_there e = (failed lost_context, rw none_there rw e refl)
  without_head fuel (recorded false) none_there e = (marked [] [], rw none_there rw e refl)

  mark_walk-head_at :
      (fuel : ℕ) (d : String)
      → store.get_head ≡ head_at d
      → mark_walk store follow_abandoned fuel ≡ mark_loop store follow_abandoned fuel (d ∷ []) [] []
  unfolding mark_walk
  mark_walk-head_at fuel d e = rw e refl

  from_head :
      (objects : List String) (h : HeadRead)
      → ((e : String) → store.object_exists e ≡ true → has_digest objects e ≡ true)
      → store.get_head ≡ h
      → Walked (suc (weight objects []))
  unfolding mark_walk Walked Result
  from_head objects (head_failed msg) listed e = (failed msg, rw e refl)
  from_head objects no_head listed e =
      without_head (suc (weight objects [])) store.records_a_commit e refl
  from_head objects (head_at d) listed e =
      let ended =
        mark_loop-ends (suc (weight objects [])) objects (d ∷ []) [] [] listed (omega arith) in
      (ended.0, mark_walk-head_at (suc (weight objects [])) d e ∙ ended.1)

  -- With a list of the objects that exist, the mark phase ends with an outcome, with fuel for HEAD
  -- and for each link of each of these objects.
  pub mark_walk-ends :
      (objects : List String)
      → ((e : String) → store.object_exists e ≡ true → has_digest objects e ≡ true)
      → (o : Outcome) × (mark_walk store follow_abandoned (suc (weight objects [])) ≡ some o)
  unfolding Walked
  mark_walk-ends objects listed = from_head objects store.get_head listed refl
