-- ===== src/Gc/Tests.antt =====
-- crates/interpreter/src/gc.rs: collections of a small store.
use text.Mathlib.Text.{◌==◌ as str_eq}
use nlang_tools.Prelude.{
  ℕ, suc, String, true, false, ◌||◌, if◌then◌else◌, Option, none, some, List, [], ◌∷◌, ◌≡◌, refl,
  ◌↔◌,
}
use nlang_tools.Gc.Mark.{
  has_digest, found, Store, raw, opened, head_at, recorded, Outcome, marked, mark_walk, mark_loop,
  visit, visit_verified, verify_reachable_object, verify_framed, unseen, push_commit_predecessor,
  push_opened, push_previous,
}
use nlang_tools.Gc.Mark.Reach.{Reach, mark_walk-Reach}
use nlang_tools.Gc.Mark.Ends.{weight, mark_walk-ends}
use nlang_tools.Gc.Sweep.{
  objects, Snapshot, GcReport, reported, plan_gc, mark, roots_error, report_of, tally, Swept, sweep,
  run_gc,
}
use nlang_tools.Gc.Sweep.Safe.{names}
use nlang_tools.Gc.Sweep.Gate.{run_gc-gate, run_gc-unreachable}
use nlang_tools.Gc.Sweep.Complete.{run_gc_complete}

-- "a" is the commit at HEAD, "b" the value it names, "p" its predecessor and "c" on its own
abbrev toy : Store String String
toy = record {
  get_head = head_at "a";
  records_a_commit = recorded true;
  object_exists = has_digest ("a" ∷ "b" ∷ "c" ∷ "p" ∷ []);
  read_raw_digest = raw;
  is_framed = λ b. true;
  refs_of_document = λ b follow. if str_eq b "a" then "b" ∷ [] else [];
  hex_decodes = λ d. true;
  is_32_bytes = λ d. str_eq d "a" || str_eq d "p";
  get_value = λ d. found;
  get_commit = λ d. found;
  open_commit = opened true;
  json_refs = λ b follow. some [];
  value_matches = λ b d. some true;
  commit_matches = λ b d. some true;
  declared = λ d. true;
  previous_commit_in = λ c d. if str_eq d "a" then some "p" else none;
}

abbrev listing : List (String × ℕ)
listing = ("a", 3) ∷ ("b", 5) ∷ ("c", 7) ∷ ("p", 9) ∷ []

abbrev snapshot : Snapshot String String
snapshot = record { store = toy; circles_error = none; list_digests = objects listing }

abbrev keep : String → Option String
keep d = none

mark_walk-Reach_example : (has_digest ("p" ∷ "b" ∷ "a" ∷ []) "p" ≡ true) ↔ Reach toy false "a" "p"
unfolding mark_walk mark_loop visit verify_reachable_object verify_framed visit_verified unseen
    push_commit_predecessor push_opened push_previous
mark_walk-Reach_example = mark_walk-Reach toy false 4 "a" "p" ("p" ∷ "b" ∷ "a" ∷ []) [] refl refl

mark_walk-ends_example :
    (o : Outcome) × (mark_walk toy false (suc (weight toy false ("a" ∷ "b" ∷ "c" ∷ "p" ∷ []) []))
      ≡ some o)
mark_walk-ends_example = mark_walk-ends toy false ("a" ∷ "b" ∷ "c" ∷ "p" ∷ []) (λ e there. there)

abbrev plan_report : GcReport
plan_report = record {
  total_objects = 4;
  reachable = 3;
  collectable = 1;
  collectable_bytes = 7;
  abandoned_content = 0;
  removed = 0;
  freed_bytes = 0;
  integrity = [];
  walk_incomplete = false;
}

abbrev final_report : GcReport
final_report = record plan_report { removed = 1; freed_bytes = 7 }

abbrev swept : Swept
swept = record { deleted = "c" ∷ []; answer = reported final_report }

plan_toy : plan_gc 4 snapshot ≡ some (reported plan_report)
unfolding plan_gc roots_error report_of tally mark_walk mark_loop visit verify_reachable_object
    verify_framed visit_verified unseen push_commit_predecessor push_opened push_previous
plan_toy = refl

run_toy : run_gc keep 4 snapshot snapshot false ≡ some swept
unfolding run_gc sweep mark plan_gc roots_error report_of tally mark_walk mark_loop visit
    verify_reachable_object verify_framed visit_verified unseen push_commit_predecessor push_opened
    push_previous
run_toy = refl

run_gc-gate_example :
    (false ≡ false)
    × ((report : GcReport) × (plan_gc 4 snapshot ≡ some (reported report))
        × (report.integrity ≡ []))
    × ((live : List String) × (mark 4 snapshot false ≡ some (marked live [])))
run_gc-gate_example = run_gc-gate keep 4 snapshot snapshot false swept "c" run_toy refl

run_gc-unreachable_example : ¬ Reach toy false "a" "c"
run_gc-unreachable_example =
    run_gc-unreachable keep 4 snapshot snapshot false swept "a" "c" run_toy refl refl

run_gc_complete_example :
    (has_digest ("c" ∷ []) "b" ≡ true)
    ↔ ((has_digest (names listing) "b" ≡ true) × (¬ Reach toy false "a" "b"))
run_gc_complete_example =
    run_gc_complete keep 4 snapshot snapshot swept plan_report final_report listing "a" "b" plan_toy
      refl refl refl run_toy refl
