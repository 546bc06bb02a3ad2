-- ===== src/Horizon/Trace/Scopes.antt =====
-- crates/interpreter/src/observation.rs: answers inside answers, each with its own trace.
use nlang_tools.Prelude.{
  ℕ, Bool, false, ◌||◌, ◌==◌, Option, none, some, ◌≡◌, refl, sym, subst, ◌∙◌, arith,
}
use nlang_tools.Horizon.Trace.{
  AnswerTrace, Thread, push_answer_trace, drop_guard, note_at, note_thunk_reduced, note_horizon,
  with_reduced, with_horizon,
}

-- What an evaluation does to the flags: it notes, or it runs the acts of another answer between
-- the push of that answer's trace and the drop of the guard.
mutual
  pub data Act : Type 0 where
    note_thunk : Act
    note_suspension : Act
    answer : ℕ → Acts → Act

  pub data Acts : Type 0 where
    done : Acts
    then_next : Act → Acts → Acts

unfoldable mutual
  unfolding push_answer_trace drop_guard note_thunk_reduced note_horizon

  pub run_act : Act → Thread → Thread
  run_act note_thunk t = note_thunk_reduced t
  run_act note_suspension t = note_horizon t
  run_act (answer trace body) t =
      drop_guard (push_answer_trace trace t).0 (run_acts body (push_answer_trace trace t).1)

  pub run_acts : Acts → Thread → Thread
  run_acts done t = t
  run_acts (then_next a rest) t = run_acts rest (run_act a t)

-- whether a trace is the one in the slot
abbrev pub is_active : ℕ → Option ℕ → Bool
is_active i none = false
is_active i (some trace) = trace == i

-- whether acts suspend, or reduce a thunk, while this trace is the innermost
unfoldable mutual
  pub suspends_act : ℕ → Option ℕ → Act → Bool
  suspends_act i active note_thunk = false
  suspends_act i active note_suspension = is_active i active
  suspends_act i active (answer trace body) = suspends i (some trace) body

  pub suspends : ℕ → Option ℕ → Acts → Bool
  suspends i active done = false
  suspends i active (then_next a rest) = suspends_act i active a || suspends i active rest

unfoldable mutual
  pub reduces_act : ℕ → Option ℕ → Act → Bool
  reduces_act i active note_thunk = is_active i active
  reduces_act i active note_suspension = false
  reduces_act i active (answer trace body) = reduces i (some trace) body

  pub reduces : ℕ → Option ℕ → Acts → Bool
  reduces i active done = false
  reduces i active (then_next a rest) = reduces_act i active a || reduces i active rest

-- what the acts leave in the slot and in one trace
abbrev pub Left : ℕ → Bool → Bool → Thread → Thread → Type 0
Left i reduced suspended t t' =
    (t'.active_answer ≡ t.active_answer)
    × ((t'.traces i).reduced_thunk ≡ ((t.traces i).reduced_thunk || reduced))
    × ((t'.traces i).touched_horizon ≡ ((t.traces i).touched_horizon || suspended))

note_at-reduced :
    (i : ℕ) (active : Option ℕ) (traces : ℕ → AnswerTrace)
    → ((note_at active with_reduced traces i).reduced_thunk
        ≡ ((traces i).reduced_thunk || is_active i active))
      × ((note_at active with_reduced traces i).touched_horizon
          ≡ ((traces i).touched_horizon || false))
unfolding note_at
note_at-reduced i none traces = ground arith
note_at-reduced i (some trace) traces = ground arith

note_at-horizon :
    (i : ℕ) (active : Option ℕ) (traces : ℕ → AnswerTrace)
    → ((note_at active with_horizon traces i).reduced_thunk ≡ ((traces i).reduced_thunk || false))
      × ((note_at active with_horizon traces i).touched_horizon
          ≡ ((traces i).touched_horizon || is_active i active))
unfolding note_at
note_at-horizon i none traces = ground arith
note_at-horizon i (some trace) traces = ground arith

or-false : (b : Bool) → (b || false) ≡ b
or-false b = ground arith

-- the thread inside an answer
abbrev inside : ℕ → Thread → Thread
inside trace t = record { traces = t.traces; active_answer = some trace }

or-next : (a b c x y : Bool) → b ≡ (a || x) → c ≡ (b || y) → c ≡ (a || (x || y))
or-next a b c x y p q = ground arith

Left-next :
    (i : ℕ) (x y : Bool) (rest : Acts) (t t' t'' : Thread)
    → Left i x y t t'
    → Left i (reduces i t'.active_answer rest) (suspends i t'.active_answer rest) t' t''
    → Left i (x || reduces i t.active_answer rest) (y || suspends i t.active_answer rest) t t''
Left-next i x y rest t t' t'' h k =
    let k' : Left i (reduces i t.active_answer rest) (suspends i t.active_answer rest) t' t'' =
      subst (λ active. Left i (reduces i active rest) (suspends i active rest) t' t'') h.0 k in
    (
      k.0 ∙ h.0,
      or-next _ _ _ x (reduces i t.active_answer rest) h.1 k'.1,
      or-next _ _ _ y (suspends i t.active_answer rest) h.2 k'.2,
    )

mutual
  unfolding run_act suspends_act reduces_act note_thunk_reduced note_horizon push_answer_trace
      drop_guard

  act-Left :
      (i : ℕ) (a : Act) (t : Thread)
      → Left i (reduces_act i t.active_answer a) (suspends_act i t.active_answer a) t (run_act a t)
  act-Left i note_thunk t = (
    refl,
    (note_at-reduced i t.active_answer t.traces).0,
    (note_at-reduced i t.active_answer t.traces).1,
  )
  act-Left i note_suspension t = (
    refl,
    (note_at-horizon i t.active_answer t.traces).0,
    (note_at-horizon i t.active_answer t.traces).1,
  )
  act-Left i (answer trace body) t =
      (refl, (acts-Left i body (inside trace t)).1, (acts-Left i body (inside trace t)).2)

  acts-Left :
      (i : ℕ) (acts : Acts) (t : Thread)
      → Left i
          (reduces i t.active_answer acts)
          (suspends i t.active_answer acts)
          t
          (run_acts acts t)
  acts-Left i done t = (refl, sym (or-false _), sym (or-false _))
  acts-Left i (then_next a rest) t =
      Left-next i (reduces_act i t.active_answer a) (suspends_act i t.active_answer a) rest t
        (run_act a t) (run_acts rest (run_act a t)) (act-Left i a t)
        (acts-Left i rest (run_act a t))

-- Acts of any nesting leave the trace in the slot that was there, and raise a flag exactly of the
-- traces that were innermost at a reduction or a suspension: an answer inside another with a trace
-- of its own leaves the other's flags alone, and no flag is ever cleared.
pub run_acts-Left :
    (i : ℕ) (acts : Acts) (t : Thread)
    → Left i (reduces i t.active_answer acts) (suspends i t.active_answer acts) t (run_acts acts t)
run_acts-Left i acts t = acts-Left i acts t
