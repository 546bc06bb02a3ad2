-- ===== src/Savepoint/Ancestry/Ends.antt =====
-- crates/interpreter/src/savepoint.rs: the walk over predecessors ends, also on a cycle.
use text.Mathlib.Text.{◌==◌ as str_eq}
use text.Mathlib.TextEquality.{eq_iff}
use nlang_tools.Prelude.{
  ℕ, zero, suc, ◌+◌, ◌≤◌, length, String, Bool, true, false, if◌then◌else◌, Option, none, some,
  List, [], ◌∷◌, ◌≡◌, refl, sym, ap, ◌∙◌, inl, inr, arith, Bool-cases,
}
use nlang_tools.Savepoint.Circles.{mem}
use nlang_tools.Savepoint.Ancestry.{
  ContentHash, Loaded, previous, Opened, Answer, failed, answered, push, step_back, ancestor_loop,
  commit_is_ancestor,
}
use nlang_tools.Savepoint.Ancestry.Chain.{mem_eq, Previous-cases}

-- the digests of a list that were not seen, counted
unseen_count : List String → List String → ℕ
unseen_count [] seen = 0
unseen_count (d ∷ known) seen =
    if mem d seen then unseen_count known seen else suc (unseen_count known seen)

unseen_count-none : (known : List String) → unseen_count known [] ≡ length known
unfolding unseen_count
unseen_count-none [] = refl
unseen_count-none (d ∷ known) = ap suc (unseen_count-none known)

if_false : {A : Type 0} (x y : A) (b : Bool) → b ≡ false → (if b then x else y) ≡ y
if_false x y b h = rw h refl

unseen_count_drops :
    (known seen : List String) (d : String)
    → unseen_count known (d ∷ seen) ≤ unseen_count known seen
unfolding unseen_count
unseen_count_drops [] seen d = omega arith
unseen_count_drops (u ∷ known) seen d = ground (arith, unseen_count_drops known seen d)

unseen_count-take :
    (known seen : List String) (d : String)
    → mem d known ≡ true
    → mem d seen ≡ false
    → suc (unseen_count known (d ∷ seen)) ≤ unseen_count known seen
unfolding unseen_count
unseen_count-take [] seen d listed new = absurd (ground arith)
unseen_count-take (u ∷ known) seen d listed new = elim (Bool-cases (str_eq u d)) [
  | inl same ↦ ground (
    arith,
    unseen_count_drops known seen d,
    mem_eq seen u d ((eq_iff u d).0 same),
    (eq_iff d u).1 (sym ((eq_iff u d).0 same)),
  )
  | inr other ↦
      ground (arith, other, unseen_count-take known seen d (ground (arith, listed, other)) new)
]

AllKnown : List String → List ContentHash → Type 0
AllKnown known [] = Unit
AllKnown known (h ∷ hs) = (mem h.digest known ≡ true) × AllKnown known hs

module _ (circles : Loaded) (open_commit : ContentHash → Opened) (known : List String) where
  abbrev pub ClosedBack : Type 0
  ClosedBack =
      (h p : ContentHash)
      → step_back circles open_commit h ≡ previous (some p)
      → mem p.digest known ≡ true

  AllKnown-push :
      (x : ContentHash) (stack : List ContentHash) (o : Option ContentHash)
      → ClosedBack
      → AllKnown known (x ∷ stack)
      → step_back circles open_commit x ≡ previous o
      → AllKnown known (push o stack)
  unfolding AllKnown
  AllKnown-push x stack none back all e = all.1
  AllKnown-push x stack (some p) back all e = (back x p e, all.1)

  length-push :
      (o : Option ContentHash) (stack : List ContentHash)
      → length (push o stack) ≤ suc (length stack)
  length-push none stack = omega arith
  length-push (some p) stack = omega arith

  Ended : ContentHash → ℕ → List String → List ContentHash → Type 0
  Ended base fuel seen stack =
      (a : Answer) × (ancestor_loop circles open_commit base fuel seen stack ≡ some a)

  ancestor_loop-ends :
      (base : ContentHash) (fuel : ℕ) (seen : List String) (stack : List ContentHash)
      → ClosedBack
      → AllKnown known stack
      → length stack + unseen_count known seen ≤ fuel
      → Ended base fuel seen stack
  unfolding ancestor_loop Ended AllKnown
  ancestor_loop-ends base fuel seen [] back all enough = (answered false, ground arith)
  ancestor_loop-ends base zero seen (x ∷ stack) back all enough = absurd (omega arith)
  ancestor_loop-ends base (suc fuel) seen (x ∷ stack) back all enough =
      elim (Bool-cases (mem x.digest seen)) [
        | inl old ↦ rw old (ancestor_loop-ends base fuel seen stack back all.1 (omega arith))
        | inr new ↦ elim (Bool-cases (str_eq x.digest base.digest)) [
          | inl hit ↦ rw new rw hit (answered true, refl)
          | inr miss ↦ elim (Previous-cases (step_back circles open_commit x)) [
            | inl stop ↦ rw new rw miss rw stop.1 (failed stop.0, refl)
            | inr next ↦ rw new rw miss rw next.1 (
                ancestor_loop-ends base fuel (x.digest ∷ seen) (push next.0 stack) back
                  (AllKnown-push x stack next.0 back all next.1)
                  (omega (
                    arith,
                    length-push next.0 stack,
                    unseen_count-take known seen x.digest all.0 new,
                  )))
          ]
        ]
      ]

  -- With a list that holds the head's digest and that of every predecessor, the walk ends with an
  -- answer, with fuel for each of them and one more round, on a cycle of predecessors too.
  pub commit_is_ancestor-ends :
      (head base : ContentHash)
      → ClosedBack
      → mem head.digest known ≡ true
      → (a : Answer) × (commit_is_ancestor circles open_commit (suc (length known)) head base
          ≡ some a)
  unfolding commit_is_ancestor Ended AllKnown
  commit_is_ancestor-ends head base back listed =
      elim (Bool-cases (str_eq head.digest base.digest)) [
        | inl same ↦ rw same (answered false, refl)
        | inr other ↦
            let ended : Ended base (suc (length known)) [] (head ∷ []) =
              ancestor_loop-ends base (suc (length known)) [] (head ∷ []) back (listed, tt)
                (omega (arith, unseen_count-none known)) in
            (ended.0, if_false _ _ (str_eq head.digest base.digest) other ∙ ended.1)
      ]
