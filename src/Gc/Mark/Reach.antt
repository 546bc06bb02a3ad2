-- ===== src/Gc/Mark/Reach.antt =====
-- crates/interpreter/src/gc.rs: what the mark phase has seen when it ends, against reachability.
use text.Mathlib.Text.{◌==◌ as str_eq}
use text.Mathlib.TextEquality.{eq_iff}
use nlang_tools.Prelude.{
  ℕ, zero, suc, String, Bool, true, false, ◌||◌, some, List, [], ◌∷◌, ◌++◌, ◌≡◌, refl, sym, ◌↔◌,
  ◌⊎◌, inl, inr, arith, Bool-cases, subst,
}
use nlang_tools.Gc.Mark.{
  has_digest, Store, head_at, Visit, refused, pushed, marked, visit, mark_loop, mark_walk,
}
use nlang_tools.Gc.Mark.Links.{links, has_digest-append, pushed-links}

pub Visit-cases :
    (v : Visit)
    → ((msg : String) × (v ≡ refused msg))
      ⊎ ((more : List String) × ((lines : List String) × (v ≡ pushed more lines)))
Visit-cases (refused msg) = inl (msg, refl)
Visit-cases (pushed more lines) = inr (more, (lines, refl))

module _ {B C : Type 0} (store : Store B C) (follow_abandoned : Bool) where
  -- the digests of the objects that a chain of links leads to from HEAD
  pub data Reach (head : String) : String → Type 0 where
    at_head : store.object_exists head ≡ true → Reach head head
    by_link :
        {a e : String}
        → Reach head a
        → has_digest (links store follow_abandoned a) e ≡ true
        → store.object_exists e ≡ true
        → Reach head e

  record Inv (head : String) (queue seen : List String) : Type 0 where
    seen_ok : (e : String) → has_digest seen e ≡ true → Reach head e
    queue_ok :
        (e : String) → has_digest queue e ≡ true → store.object_exists e ≡ true → Reach head e
    root : store.object_exists head ≡ true → (has_digest seen head || has_digest queue head) ≡ true
    closed :
        (a e : String)
        → has_digest seen a ≡ true
        → has_digest (links store follow_abandoned a) e ≡ true
        → store.object_exists e ≡ true
        → (has_digest seen e || has_digest queue e) ≡ true

  kept_without :
      (d e : String) (queue seen : List String)
      → ((has_digest seen d ≡ true) ⊎ (store.object_exists d ≡ false))
      → store.object_exists e ≡ true
      → (has_digest seen e || (str_eq d e || has_digest queue e)) ≡ true
      → (has_digest seen e || has_digest queue e) ≡ true
  kept_without d e queue seen old there h = elim (Bool-cases (str_eq d e)) [
    | inl same ↦ elim old [
      | inl known ↦
          ground (arith, subst (λ x. has_digest seen x ≡ true) ((eq_iff d e).0 same) known)
      | inr gone ↦
          absurd
            (ground (arith, subst (λ x. store.object_exists x ≡ false) ((eq_iff d e).0 same) gone))
    ]
    | inr other ↦ ground arith
  ]

  -- a digest that leads nowhere new can be taken off the queue
  Inv-skip :
      (head d : String) (queue seen : List String)
      → ((has_digest seen d ≡ true) ⊎ (store.object_exists d ≡ false))
      → Inv head (d ∷ queue) seen
      → Inv head queue seen
  Inv-skip head d queue seen old inv = record {
    seen_ok = inv.seen_ok;
    queue_ok = λ e queued. inv.queue_ok e (ground arith);
    root = λ there. kept_without d head queue seen old there (inv.root there);
    closed = λ a e from link there.
        kept_without d e queue seen old there (inv.closed a e from link there);
  }

  d_reached :
      (head d : String) (queue seen : List String)
      → store.object_exists d ≡ true
      → Inv head (d ∷ queue) seen
      → Reach head d
  d_reached head d queue seen there inv = inv.queue_ok d (ground (arith, (eq_iff d d).1 refl)) there

  Inv-take :
      (head d : String) (queue seen more lines : List String)
      → store.object_exists d ≡ true
      → visit store follow_abandoned d (d ∷ seen) ≡ pushed more lines
      → Inv head (d ∷ queue) seen
      → Inv head (queue ++ more) (d ∷ seen)
  Inv-take head d queue seen more lines there visited inv = record {
    seen_ok = λ e known. elim (Bool-cases (str_eq d e)) [
      | inl same ↦ subst (Reach head) ((eq_iff d e).0 same) (d_reached head d queue seen there inv)
      | inr other ↦ inv.seen_ok e (ground arith)
    ];
    queue_ok = λ e queued exists. elim (Bool-cases (has_digest queue e)) [
      | inl waits ↦ inv.queue_ok e (ground arith) exists
      | inr fresh ↦
          by_link (d_reached head d queue seen there inv)
            (ground (
              arith,
              has_digest-append queue more e,
              (pushed-links store follow_abandoned d (d ∷ seen) more lines visited).0 e,
            ))
            exists
    ];
    root = λ exists. ground (arith, inv.root exists, has_digest-append queue more head);
    closed = λ a e from link exists. elim (Bool-cases (str_eq d a)) [
      | inl same ↦ ground (
        arith,
        has_digest-append queue more e,
        (pushed-links store follow_abandoned d (d ∷ seen) more lines visited).0 e,
        subst (λ x. has_digest (links store follow_abandoned x) e ≡ true)
            (sym ((eq_iff d a).0 same)) link,
      )
      | inr other ↦
          ground (arith, has_digest-append queue more e, inv.closed a e (ground arith) link exists)
    ];
  }

  mark_loop-Inv :
      (fuel : ℕ) (head : String) (queue seen integrity seen' integrity' : List String)
      → mark_loop store follow_abandoned fuel queue seen integrity ≡ some (marked seen' integrity')
      → Inv head queue seen
      → Inv head [] seen'
  unfolding mark_loop
  mark_loop-Inv fuel head [] seen integrity seen' integrity' h inv =
      subst (Inv head []) (ground arith) inv
  mark_loop-Inv zero head (d ∷ queue) seen integrity seen' integrity' h inv = absurd (ground arith)
  mark_loop-Inv (suc fuel) head (d ∷ queue) seen integrity seen' integrity' h inv =
      elim (Bool-cases (has_digest seen d)) [
        | inl old ↦
            mark_loop-Inv fuel head queue seen integrity seen' integrity' (rw old at h)
              (Inv-skip head d queue seen (inl old) inv)
        | inr new ↦ elim (Bool-cases (store.object_exists d)) [
          | inr gone ↦
              mark_loop-Inv fuel head queue seen integrity seen' integrity' (rw new at rw gone at h)
                (Inv-skip head d queue seen (inr gone) inv)
          | inl there ↦ elim (Visit-cases (visit store follow_abandoned d (d ∷ seen))) [
            | inl stop ↦ absurd (ground (arith, stop.1))
            | inr next ↦
                mark_loop-Inv fuel head (queue ++ next.0) (d ∷ seen) (integrity ++ next.1.0) seen'
                  integrity' (rw new at rw there at rw next.1.1 at h)
                  (Inv-take head d queue seen next.0 next.1.0 there next.1.1 inv)
          ]
        ]
      ]

  Reach-seen :
      (head : String) (seen : List String)
      → Inv head [] seen
      → {e : String} → Reach head e
      → has_digest seen e ≡ true
  Reach-seen head seen inv (at_head there) = ground (arith, inv.root there)
  Reach-seen head seen inv {e} (by_link {a} r link there) =
      ground (arith, inv.closed a e (Reach-seen head seen inv r) link there)

  Inv-start : (head : String) → Inv head (head ∷ []) []
  Inv-start head = record {
    seen_ok = λ e known. absurd (ground arith);
    queue_ok = λ e queued there. subst (Reach head) ((eq_iff head e).0 (ground arith)) (
        at_head (
          subst (λ x. store.object_exists x ≡ true) (sym ((eq_iff head e).0 (ground arith)))
            there));
    root = λ there. ground (arith, (eq_iff head head).1 refl);
    closed = λ a e from link there. absurd (ground arith);
  }

  -- Where HEAD is at a digest and the mark phase ends with a set, a digest is in the set exactly
  -- where a chain of links leads to it from HEAD over objects that exist.
  pub mark_walk-Reach :
      (fuel : ℕ) (head e : String) (seen integrity : List String)
      → store.get_head ≡ head_at head
      → mark_walk store follow_abandoned fuel ≡ some (marked seen integrity)
      → (has_digest seen e ≡ true) ↔ Reach head e
  unfolding mark_walk
  mark_walk-Reach fuel head e seen integrity at walked =
      let inv =
        mark_loop-Inv fuel head (head ∷ []) [] [] seen integrity (rw at at walked)
          (Inv-start head) in
      (inv.seen_ok e, Reach-seen head seen inv)
