-- ===== src/Horizon/Trace.antt =====
-- crates/interpreter/src/observation.rs: the flags of an answer in progress. A trace is behind an
-- `Arc`: it is a number here, and the flags of all traces are the store, beside the thread's slot.
pub mod Scopes
use nlang_tools.Prelude.{ℕ, Bool, true, false, ◌==◌, if◌then◌else◌, Option, none, some}

pub record AnswerTrace : Type 0 where
  pub reduced_thunk : Bool
  pub touched_horizon : Bool

-- `AnswerTrace::new`
abbrev pub new_trace : AnswerTrace
new_trace = record { reduced_thunk = false; touched_horizon = false }

pub record Thread : Type 0 where
  pub traces : ℕ → AnswerTrace
  pub active_answer : Option ℕ

pub record AnswerTraceGuard : Type 0 where
  pub prev : Option ℕ

unfoldable pub push_answer_trace : ℕ → Thread → AnswerTraceGuard × Thread
push_answer_trace trace t =
    (record { prev = t.active_answer }, record { traces = t.traces; active_answer = some trace })

unfoldable pub drop_guard : AnswerTraceGuard → Thread → Thread
drop_guard guard t = record { traces = t.traces; active_answer = guard.prev }

abbrev pub update : ℕ → (AnswerTrace → AnswerTrace) → (ℕ → AnswerTrace) → ℕ → AnswerTrace
update i f traces j = if i == j then f (traces j) else traces j

abbrev pub with_reduced : AnswerTrace → AnswerTrace
with_reduced a = record { reduced_thunk = true; touched_horizon = a.touched_horizon }

abbrev pub with_horizon : AnswerTrace → AnswerTrace
with_horizon a = record { reduced_thunk = a.reduced_thunk; touched_horizon = true }

unfoldable pub note_at :
    Option ℕ → (AnswerTrace → AnswerTrace) → (ℕ → AnswerTrace) → ℕ → AnswerTrace
note_at none f traces = traces
note_at (some trace) f traces = update trace f traces

unfoldable pub note_thunk_reduced : Thread → Thread
unfolding note_at
note_thunk_reduced t = record {
  traces = note_at t.active_answer with_reduced t.traces;
  active_answer = t.active_answer;
}

unfoldable pub note_horizon : Thread → Thread
unfolding note_at
note_horizon t = record {
  traces = note_at t.active_answer with_horizon t.traces;
  active_answer = t.active_answer;
}
