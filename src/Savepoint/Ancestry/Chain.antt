-- ===== src/Savepoint/Ancestry/Chain.antt =====
-- crates/interpreter/src/savepoint.rs: the walk over predecessors against chains of them.
use text.Mathlib.Text.{◌==◌ as str_eq}
use text.Mathlib.TextEquality.{eq_iff}
use nlang_tools.Prelude.{
  ℕ, zero, suc, String, true, Option, none, some, List, [], ◌∷◌, ◌≡◌, refl, ap, inl, inr, arith,
  Bool-cases, ◌⊎◌,
}
use nlang_tools.Savepoint.Circles.{mem}
use nlang_tools.Savepoint.Ancestry.{
  ContentHash, Loaded, Previous, previous_failed, previous, Opened, answered, push, step_back,
  ancestor_loop, commit_is_ancestor,
}

pub Previous-cases :
    (p : Previous)
    → ((msg : String) × (p ≡ previous_failed msg)) ⊎ ((o : Option ContentHash) × (p ≡ previous o))
Previous-cases (previous_failed msg) = inl (msg, refl)
Previous-cases (previous o) = inr (o, refl)

abbrev pub digests : List ContentHash → List String
digests [] = []
digests (h ∷ hs) = h.digest ∷ digests hs

pub mem_eq : (ids : List String) (a b : String) → a ≡ b → mem a ids ≡ mem b ids
mem_eq ids a b h = ap (λ x. mem x ids) h

module _ (circles : Loaded) (open_commit : ContentHash → Opened) where
  -- a chain of predecessors
  pub data Chain (head : ContentHash) : ContentHash → Type 0 where
    at_head : Chain head head
    back :
        {h p : ContentHash}
        → Chain head h
        → step_back circles open_commit h ≡ previous (some p)
        → Chain head p

  AllChain : ContentHash → List ContentHash → Type 0
  AllChain head [] = Unit
  AllChain head (h ∷ hs) = Chain head h × AllChain head hs

  AllChain-push :
      (head x : ContentHash) (stack : List ContentHash) (o : Option ContentHash)
      → AllChain head (x ∷ stack)
      → step_back circles open_commit x ≡ previous o
      → AllChain head (push o stack)
  unfolding AllChain
  AllChain-push head x stack none all e = all.1
  AllChain-push head x stack (some p) all e = (back all.0 e, all.1)

  abbrev pub Found : ContentHash → ContentHash → Type 0
  Found head base = (h : ContentHash) × Chain head h × (h.digest ≡ base.digest)

  ancestor_loop-Found :
      (base head : ContentHash) (fuel : ℕ) (seen : List String) (stack : List ContentHash)
      → AllChain head stack
      → ancestor_loop circles open_commit base fuel seen stack ≡ some (answered true)
      → Found head base
  unfolding ancestor_loop AllChain
  ancestor_loop-Found base head fuel seen [] all h = absurd (ground arith)
  ancestor_loop-Found base head zero seen (x ∷ stack) all h = absurd (ground arith)
  ancestor_loop-Found base head (suc fuel) seen (x ∷ stack) all h =
      elim (Bool-cases (mem x.digest seen)) [
        | inl old ↦ ancestor_loop-Found base head fuel seen stack all.1 (ground (arith, h, old))
        | inr new ↦ elim (Bool-cases (str_eq x.digest base.digest)) [
          | inl hit ↦ (x, all.0, (eq_iff x.digest base.digest).0 hit)
          | inr miss ↦ elim (Previous-cases (step_back circles open_commit x)) [
            | inl stop ↦ absurd (ground (arith, h, new, miss, stop.1))
            | inr next ↦
                ancestor_loop-Found base head fuel (x.digest ∷ seen) (push next.0 stack)
                  (AllChain-push head x stack next.0 all next.1)
                  (ground (arith, h, new, miss, next.1))
          ]
        ]
      ]

  -- A commit that the walk finds is at the end of a chain of predecessors from the head.
  pub commit_is_ancestor-Found :
      (fuel : ℕ) (head base : ContentHash)
      → commit_is_ancestor circles open_commit fuel head base ≡ some (answered true)
      → Found head base
  unfolding commit_is_ancestor AllChain
  commit_is_ancestor-Found fuel head base h = elim (Bool-cases (str_eq head.digest base.digest)) [
    | inl same ↦ absurd (ground (arith, h, same))
    | inr other ↦
        ancestor_loop-Found base head fuel [] (head ∷ []) (at_head, tt) (ground (arith, h, other))
  ]
