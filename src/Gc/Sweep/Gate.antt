-- ===== src/Gc/Sweep/Gate.antt =====
-- crates/interpreter/src/gc.rs: what a collection asks for before it deletes anything.
use nlang_tools.Prelude.{
  ℕ, ◌==◌, String, Bool, true, false, not, Option, none, some, List, [], ◌∷◌, ◌≡◌, refl, ◌⊎◌, inl,
  inr, arith, Bool-cases, Option-cases, subst,
}
use nlang_tools.Gc.Mark.{has_digest, head_at, Outcome, failed, marked, mark_walk}
use nlang_tools.Gc.Mark.Reach.{Reach, mark_walk-Reach}
use nlang_tools.Gc.Sweep.{
  Listed, list_failed, objects, Snapshot, GcReport, Answer, reported, gc_failed, roots_error,
  plan_gc, plan_live, plan_listed, report_of, mark, Swept, sweep, sweep_listed, run_planned, run_gc,
  is_empty,
}
use nlang_tools.Gc.Sweep.Safe.{is_empty→[], sweep-Sweeps, Sweeps-deleted}

module _ (remove_digest : String → Option String) where
  -- the sweep of a listing, after a second walk without findings
  abbrev pub Ran : GcReport → Listed → Option Outcome → Swept → Type 0
  Ran report list_digests second s =
      (all : List (String × ℕ)) × ((live : List String) × (list_digests ≡ objects all)
        × (second ≡ some (marked live []))
        × (s ≡ sweep remove_digest live report all 0 0))

  sweep_listed-Ran :
      (report : GcReport) (list_digests : Listed) (second : Option Outcome) (s : Swept)
      → sweep_listed remove_digest report list_digests second ≡ some s
      → (s.deleted ≡ []) ⊎ Ran report list_digests second s
  sweep_listed-Ran report (list_failed msg) second s h = inl (ground arith)
  sweep_listed-Ran report (objects all) none s h = absurd (ground arith)
  sweep_listed-Ran report (objects all) (some (failed msg)) s h = inl (ground arith)
  sweep_listed-Ran report (objects all) (some (marked live [])) s h =
      inr (all, (live, refl, refl, ground arith))
  sweep_listed-Ran report (objects all) (some (marked live (line ∷ lines))) s h = inl (ground arith)

  run_planned-Ran :
      (dry_run : Bool) (list_digests : Listed) (second : Option Outcome) (plan : Option Answer)
      (s : Swept)
      → run_planned remove_digest dry_run list_digests second plan ≡ some s
      → (s.deleted ≡ [])
        ⊎ ((report : GcReport) × (plan ≡ some (reported report))
            × (dry_run ≡ false)
            × (report.walk_incomplete ≡ false)
            × Ran report list_digests second s)
  run_planned-Ran dry_run list_digests second none s h = absurd (ground arith)
  run_planned-Ran dry_run list_digests second (some (gc_failed msg)) s h = inl (ground arith)
  run_planned-Ran true list_digests second (some (reported report)) s h = inl (ground arith)
  run_planned-Ran false list_digests second (some (reported report)) s h =
      elim (Bool-cases report.walk_incomplete) [
        | inl stops ↦ inl (ground (arith, stops))
        | inr complete ↦ elim (Bool-cases (report.collectable == 0)) [
          | inl nothing ↦ inl (ground (arith, complete, nothing))
          | inr goes ↦
              elim (sweep_listed-Ran report list_digests second s
                (ground (arith, h, complete, goes))) [
                  | inl no_deletion ↦ inl no_deletion
                  | inr ran ↦ inr (report, refl, refl, complete, ran)
                ]
        ]
      ]

plan_live-integrity :
    (all : List (String × ℕ)) (first second : Option Outcome) (report : GcReport)
    → plan_live all first second ≡ some (reported report)
    → report.walk_incomplete ≡ not (is_empty report.integrity)
unfolding report_of
plan_live-integrity all none second report h = absurd (ground arith)
plan_live-integrity all (some (failed msg)) second report h = absurd (ground arith)
plan_live-integrity all (some (marked live lines)) none report h = absurd (ground arith)
plan_live-integrity all (some (marked live lines)) (some (failed msg)) report h =
    absurd (ground arith)
plan_live-integrity all (some (marked live lines)) (some (marked live_abs others)) report h =
    ground arith

plan_listed-integrity :
    (l : Listed) (first second : Option Outcome) (report : GcReport)
    → plan_listed l first second ≡ some (reported report)
    → report.walk_incomplete ≡ not (is_empty report.integrity)
plan_listed-integrity (list_failed msg) first second report h = absurd (ground arith)
plan_listed-integrity (objects all) first second report h =
    plan_live-integrity all first second report h

module _ {B C : Type 0} (fuel : ℕ) where
  plan_gc-integrity :
      (s : Snapshot B C) (report : GcReport)
      → plan_gc fuel s ≡ some (reported report)
      → report.walk_incomplete ≡ not (is_empty report.integrity)
  unfolding plan_gc
  plan_gc-integrity s report h = elim (Option-cases (roots_error fuel s)) [
    | inr stuck ↦ absurd (ground (arith, stuck.1))
    | inl fine ↦
        plan_listed-integrity s.list_digests (mark_walk s.store false fuel)
          (mark_walk s.store true fuel) report (ground (arith, h, fine))
  ]

  pub mark-walked :
      (s : Snapshot B C) (follow_abandoned : Bool) (live lines : List String)
      → mark fuel s follow_abandoned ≡ some (marked live lines)
      → mark_walk s.store follow_abandoned fuel ≡ some (marked live lines)
  unfolding mark
  mark-walked s follow_abandoned live lines h = elim (Option-cases (roots_error fuel s)) [
    | inr stuck ↦ absurd (ground (arith, stuck.1))
    | inl fine ↦ ground (arith, h, fine)
  ]

pub true_and_false : {b : Bool} → b ≡ true → b ≡ false → ⊥
true_and_false h k = ground arith

module _ {B C : Type 0} (remove_digest : String → Option String) where
  -- A collection that deletes something was not a dry run, and neither its plan nor its second
  -- walk had a finding about the integrity of an object.
  pub run_gc-gate :
      (fuel : ℕ) (before after : Snapshot B C) (dry_run : Bool) (s : Swept) (e : String)
      → run_gc remove_digest fuel before after dry_run ≡ some s
      → has_digest s.deleted e ≡ true
      → (dry_run ≡ false)
        × ((report : GcReport) × (plan_gc fuel before ≡ some (reported report))
            × (report.integrity ≡ []))
        × ((live : List String) × (mark fuel after false ≡ some (marked live [])))
  unfolding run_gc
  run_gc-gate fuel before after dry_run s e h deleted =
      elim (run_planned-Ran remove_digest dry_run after.list_digests (mark fuel after false)
        (plan_gc fuel before) s h) [
          | inl no_deletion ↦
              absurd (ground (arith, subst (λ x. has_digest x e ≡ true) no_deletion deleted))
          | inr ran ↦ (
            ran.2,
            (
              ran.0,
              ran.1,
              is_empty→[] (ran.0).integrity
                  (ground (arith, plan_gc-integrity fuel before ran.0 ran.1, ran.3)),
            ),
            (ran.4.1.0, ran.4.1.2),
          )
        ]

  -- A digest that a collection deletes is not reachable from HEAD, in the store that the second
  -- walk read.
  pub run_gc-unreachable :
      (fuel : ℕ) (before after : Snapshot B C) (dry_run : Bool) (s : Swept) (head e : String)
      → run_gc remove_digest fuel before after dry_run ≡ some s
      → after.store.get_head ≡ head_at head
      → has_digest s.deleted e ≡ true
      → ¬ Reach after.store false head e
  unfolding run_gc
  run_gc-unreachable fuel before after dry_run s head e h at deleted reached =
      elim (run_planned-Ran remove_digest dry_run after.list_digests (mark fuel after false)
        (plan_gc fuel before) s h) [
          | inl no_deletion ↦
              absurd (ground (arith, subst (λ x. has_digest x e ≡ true) no_deletion deleted))
          | inr ran ↦
              true_and_false
                ((mark_walk-Reach after.store false fuel head e ran.4.1.0 [] at
                    (mark-walked fuel after false ran.4.1.0 [] ran.4.1.2)).1
                  reached)
                (Sweeps-deleted remove_digest ran.4.1.0 ran.0 e
                  (sweep-Sweeps remove_digest ran.4.1.0 ran.0 ran.4.0 0 0)
                  (subst (λ x. has_digest x.deleted e ≡ true) ran.4.1.3 deleted)).0
        ]
