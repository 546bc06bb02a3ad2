-- ===== src/Gc/Sweep.antt =====
-- crates/interpreter/src/gc.rs: a collection planned from two walks, and the sweep that removes
-- what is not reachable. A `Snapshot` is what the host answers while one of these reads the store.
pub mod Safe
pub mod Gate
pub mod Complete
use nlang_tools.Prelude.{
  ℕ, zero, suc, ◌+◌, ◌%◌, ◌^◌, ◌==◌, String, Bool, true, false, not, if◌then◌else◌, Option, none,
  some, List, [], ◌∷◌, ◌++◌, length, format, decimal,
}
use nlang_tools.Gc.Mark.{
  has_digest, Store, HeadRead, head_at, head_failed, no_head, Outcome, failed, marked, mark_walk,
}

pub data Listed : Type 0 where
  list_failed : String → Listed
  objects : List (String × ℕ) → Listed

-- `circles_error` is the failure of `load_circles`, when it fails
pub record Snapshot (B C : Type 0) : Type 0 where
  pub store : Store B C
  pub circles_error : Option String
  pub list_digests : Listed

pub record GcReport : Type 0 where
  pub total_objects : ℕ
  pub reachable : ℕ
  pub collectable : ℕ
  pub collectable_bytes : ℕ
  pub abandoned_content : ℕ
  pub removed : ℕ
  pub freed_bytes : ℕ
  pub integrity : List String
  pub walk_incomplete : Bool

pub data Answer : Type 0 where
  reported : GcReport → Answer
  gc_failed : String → Answer

abbrev u64_bound : ℕ
u64_bound = 2 ^ 64

-- the counts of the loop of `plan_gc`: collectable objects, their bytes, abandoned content
pub record Counts : Type 0 where
  pub collectable : ℕ
  pub collectable_bytes : ℕ
  pub abandoned_content : ℕ

unfoldable pub tally : List String → List String → List (String × ℕ) → Counts → Counts
tally live live_abs [] c = c
tally live live_abs (object ∷ all) c =
    if has_digest live object.0
    then tally live live_abs all c
    else tally live live_abs all (record {
      collectable = c.collectable + 1;
      collectable_bytes = (c.collectable_bytes + object.1) % u64_bound;
      abandoned_content =
          if has_digest live_abs object.0 then c.abandoned_content + 1 else c.abandoned_content;
    })

abbrev pub no_counts : Counts
no_counts = record { collectable = 0; collectable_bytes = 0; abandoned_content = 0 }

abbrev pub is_empty : List String → Bool
is_empty [] = true
is_empty (line ∷ lines) = false

abbrev pub incomplete_message : List String → String
incomplete_message lines = format (
    "gc refused: reachability walk incomplete ("
    ∷ decimal (length lines)
    ∷ " integrity finding(s)); nothing removed"
    ∷ [])

-- the report from the two walks
unfoldable pub report_of : List (String × ℕ) → List String → List String → List String → GcReport
unfolding tally
report_of all live integrity live_abs =
    let c = tally live live_abs all no_counts in
    record {
      total_objects = length all;
      reachable = length live;
      collectable = c.collectable;
      collectable_bytes = c.collectable_bytes;
      abandoned_content = c.abandoned_content;
      removed = 0;
      freed_bytes = 0;
      integrity = integrity;
      walk_incomplete = not (is_empty integrity);
    }

-- the second walk
abbrev pub plan_abandoned :
    List (String × ℕ) → List String → List String → Option Outcome → Option Answer
plan_abandoned all live integrity none = none
plan_abandoned all live integrity (some (failed msg)) = some (gc_failed msg)
plan_abandoned all live integrity (some (marked live_abs lines)) =
    some (reported (report_of all live integrity live_abs))

-- the first walk, and then the second
abbrev pub plan_live : List (String × ℕ) → Option Outcome → Option Outcome → Option Answer
plan_live all none second = none
plan_live all (some (failed msg)) second = some (gc_failed msg)
plan_live all (some (marked live integrity)) second = plan_abandoned all live integrity second

abbrev pub plan_listed : Listed → Option Outcome → Option Outcome → Option Answer
plan_listed (list_failed msg) first second = some (gc_failed (format ("list objects: " ∷ msg ∷ [])))
plan_listed (objects all) first second = plan_live all first second

module _ {B C : Type 0} (fuel : ℕ) where
  -- `get_head` and `load_circles`, whose failures end a plan and a mark
  unfoldable pub roots_error : Snapshot B C → Option String
  roots_error s = elim s.store.get_head [
    | head_failed msg ↦ some msg
    | no_head ↦ s.circles_error
    | head_at d ↦ s.circles_error
  ]

  unfoldable pub plan_gc : Snapshot B C → Option Answer
  unfolding roots_error report_of
  plan_gc s = elim (roots_error s) [
    | some msg ↦ some (gc_failed msg)
    | none ↦ plan_listed s.list_digests (mark_walk s.store false fuel) (mark_walk s.store true fuel)
  ]

  unfoldable pub mark : Snapshot B C → Bool → Option Outcome
  unfolding roots_error
  mark s follow_abandoned = elim (roots_error s) [
    | some msg ↦ some (failed msg)
    | none ↦ mark_walk s.store follow_abandoned fuel
  ]

-- What the deletions come to: the digests that were removed, and the answer. A digest that the
-- host does not remove ends the sweep.
pub record Swept : Type 0 where
  pub deleted : List String
  pub answer : Answer

abbrev pub nothing_deleted : Answer → Swept
nothing_deleted a = record { deleted = []; answer = a }

abbrev pub also_deleted : String → Swept → Swept
also_deleted d s = record { deleted = d ∷ s.deleted; answer = s.answer }

module _ (remove_digest : String → Option String) where
  -- the loop that deletes; `removed` and `freed` count so far
  unfoldable pub sweep : List String → GcReport → List (String × ℕ) → ℕ → ℕ → Swept
  sweep live report [] removed freed =
      nothing_deleted (reported (record report { removed = removed; freed_bytes = freed }))
  sweep live report (object ∷ all) removed freed =
      let skipped = sweep live report all removed freed in
      let rest = sweep live report all (removed + 1) ((freed + object.1) % u64_bound) in
      if has_digest live object.0 then skipped else elim (remove_digest object.0) [
        | some msg ↦ nothing_deleted (gc_failed (format ("remove " ∷ object.0 ∷ ": " ∷ msg ∷ [])))
        | none ↦ also_deleted object.0 rest
      ]

  -- after the second walk, which can find what the first did not
  abbrev pub sweep_marked : GcReport → List (String × ℕ) → Option Outcome → Option Swept
  sweep_marked report all none = none
  sweep_marked report all (some (failed msg)) = some (nothing_deleted (gc_failed msg))
  sweep_marked report all (some (marked live integrity)) =
      if not (is_empty integrity)
      then some (nothing_deleted (gc_failed (incomplete_message integrity)))
      else some (sweep live report all 0 0)

  abbrev pub sweep_listed : GcReport → Listed → Option Outcome → Option Swept
  sweep_listed report (list_failed msg) second =
      some (nothing_deleted (gc_failed (format ("list objects: " ∷ msg ∷ []))))
  sweep_listed report (objects all) second = sweep_marked report all second

  abbrev pub run_planned : Bool → Listed → Option Outcome → Option Answer → Option Swept
  run_planned dry_run list_digests second none = none
  run_planned dry_run list_digests second (some (gc_failed msg)) =
      some (nothing_deleted (gc_failed msg))
  run_planned dry_run list_digests second (some (reported report)) =
      if dry_run
      then some (nothing_deleted (reported report))
      else if report.walk_incomplete
      then some (nothing_deleted (gc_failed (incomplete_message report.integrity)))
      else if report.collectable == 0
      then some (nothing_deleted (reported report))
      else sweep_listed report list_digests second

  -- `before` is the store as the plan reads it, and `after` as the second walk does
  unfoldable pub run_gc : {B C : Type 0} → ℕ → Snapshot B C → Snapshot B C → Bool → Option Swept
  unfolding plan_gc mark sweep
  run_gc fuel before after dry_run =
      run_planned dry_run after.list_digests (mark fuel after false) (plan_gc fuel before)
