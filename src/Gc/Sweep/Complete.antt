-- ===== src/Gc/Sweep/Complete.antt =====
-- crates/interpreter/src/gc.rs: what a collection that runs to its report deletes.
use nlang_tools.Prelude.{
  ℕ, ◌==◌, String, Bool, true, false, Option, none, some, List, [], ◌∷◌, ◌≡◌, refl, sym, ◌∙◌, ◌↔◌,
  inl, inr, arith, Bool-cases, subst,
}
use nlang_tools.Gc.Mark.{has_digest, head_at, Outcome, failed, marked}
use nlang_tools.Gc.Mark.Reach.{Reach, mark_walk-Reach}
use nlang_tools.Gc.Sweep.{
  Listed, list_failed, objects, Snapshot, GcReport, reported, plan_gc, mark, Swept, sweep_listed,
  run_planned, run_gc,
}
use nlang_tools.Gc.Sweep.Gate.{Ran, mark-walked, true_and_false}
use nlang_tools.Gc.Sweep.Safe.{names, Sweeps, sweep-Sweeps, Sweeps-deleted, Sweeps-all}

module _ (remove_digest : String → Option String) where
  sweep_listed-reported :
      (report r : GcReport) (list_digests : Listed) (second : Option Outcome) (s : Swept)
      → sweep_listed remove_digest report list_digests second ≡ some s
      → s.answer ≡ reported r
      → Ran remove_digest report list_digests second s
  sweep_listed-reported report r (list_failed msg) second s h done = absurd (ground arith)
  sweep_listed-reported report r (objects all) none s h done = absurd (ground arith)
  sweep_listed-reported report r (objects all) (some (failed msg)) s h done = absurd (ground arith)
  sweep_listed-reported report r (objects all) (some (marked live [])) s h done =
      (all, (live, refl, refl, ground arith))
  sweep_listed-reported report r (objects all) (some (marked live (line ∷ lines))) s h done =
      absurd (ground arith)

  run_planned-reported :
      (report r : GcReport) (list_digests : Listed) (second : Option Outcome) (s : Swept)
      → run_planned remove_digest false list_digests second (some (reported report)) ≡ some s
      → (report.collectable == 0) ≡ false
      → s.answer ≡ reported r
      → Ran remove_digest report list_digests second s
  run_planned-reported report r list_digests second s h some_work done =
      elim (Bool-cases report.walk_incomplete) [
        | inl stops ↦ absurd (ground (arith, stops))
        | inr complete ↦
            sweep_listed-reported report r list_digests second s
              (ground (arith, h, complete, some_work)) done
      ]

not_true→false : (b : Bool) → ¬ (b ≡ true) → b ≡ false
not_true→false true h = absurd (h refl)
not_true→false false h = refl

objects_inj : (all all' : List (String × ℕ)) → objects all ≡ objects all' → all ≡ all'
objects_inj all all' h = ground arith

module _ {B C : Type 0} (remove_digest : String → Option String) where
  -- Where a collection that found something to collect runs to its report, it deletes exactly the
  -- listed objects that are not reachable from HEAD, and the report counts them.
  pub run_gc_complete :
      (fuel : ℕ) (before after : Snapshot B C) (s : Swept) (report r : GcReport)
      (all : List (String × ℕ)) (head e : String)
      → plan_gc fuel before ≡ some (reported report)
      → (report.collectable == 0) ≡ false
      → after.list_digests ≡ objects all
      → after.store.get_head ≡ head_at head
      → run_gc remove_digest fuel before after false ≡ some s
      → s.answer ≡ reported r
      → (has_digest s.deleted e ≡ true)
        ↔ ((has_digest (names all) e ≡ true) × (¬ Reach after.store false head e))
  unfolding run_gc
  run_gc_complete fuel before after s report r all head e planned some_work listed at h done =
      let ran =
        run_planned-reported remove_digest report r after.list_digests (mark fuel after false) s
          (subst
            (λ p.
              run_planned remove_digest false after.list_digests (mark fuel after false) p ≡ some s)
            planned h)
          some_work done in
      let live = ran.1.0 in
      let walk =
        mark_walk-Reach after.store false fuel head e live [] at
          (mark-walked fuel after false live [] ran.1.2) in
      let steps =
        subst (Sweeps remove_digest live report ran.0 0) (sym ran.1.3)
          (sweep-Sweeps remove_digest live report ran.0 0 0) in
      let same = objects_inj ran.0 all (sym ran.1.1 ∙ listed) in
      (
        λ deleted.
            let facts = Sweeps-deleted remove_digest live report e steps deleted in
            (
              subst (λ x. has_digest (names x) e ≡ true) same facts.1,
              λ reached. true_and_false (walk.1 reached) facts.0,
            ),
        λ rest.
            Sweeps-all remove_digest live report r e steps done
              (subst (λ x. has_digest (names x) e ≡ true) (sym same) rest.0)
              (not_true→false (has_digest live e) (λ seen. rest.1 (walk.0 seen))),
      )
