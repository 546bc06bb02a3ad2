-- ===== src/Savepoint/Ancestry/Search.antt =====
-- crates/interpreter/src/savepoint.rs: the walk over predecessors misses no commit of the chain.
use text.Mathlib.Text.{◌==◌ as str_eq}
use text.Mathlib.TextEquality.{eq_iff}
use nlang_tools.Prelude.{
  ℕ, zero, suc, String, Bool, true, false, ◌||◌, Option, none, some, List, [], ◌∷◌, ◌≡◌, refl, sym,
  ◌∙◌, inl, inr, arith, Bool-cases, ◌↔◌,
}
use nlang_tools.Savepoint.Circles.{mem}
use nlang_tools.Savepoint.Ancestry.{
  ContentHash, Loaded, previous, Opened, answered, push, step_back, ancestor_loop,
  commit_is_ancestor,
}
use nlang_tools.Savepoint.Ancestry.Chain.{
  Chain, at_head, back, Found, digests, mem_eq, Previous-cases, commit_is_ancestor-Found,
}

abbrev is_pushed : Option ContentHash → String → Bool
is_pushed none e = false
is_pushed (some p) e = str_eq p.digest e

mem-push :
    (o : Option ContentHash) (stack : List ContentHash) (e : String)
    → mem e (digests (push o stack)) ≡ (is_pushed o e || mem e (digests stack))
mem-push none stack e = refl
mem-push (some p) stack e = refl

is_pushed-itself :
    (o : Option ContentHash) (p : ContentHash)
    → previous o ≡ previous (some p)
    → is_pushed o p.digest ≡ true
is_pushed-itself none p h = absurd (ground arith)
is_pushed-itself (some q) p h = (eq_iff q.digest p.digest).1 (ground (arith, h))

still_known :
    (x e : String) (seen : List String) (stack : List ContentHash)
    → mem x seen ≡ true
    → (mem e seen || (str_eq x e || mem e (digests stack))) ≡ true
    → (mem e seen || mem e (digests stack)) ≡ true
still_known x e seen stack old h = elim (Bool-cases (str_eq x e)) [
  | inl same ↦ ground (arith, old, mem_eq seen x e ((eq_iff x e).0 same))
  | inr other ↦ ground (arith, h, other)
]

module _ (circles : Loaded) (open_commit : ContentHash → Opened) where
  -- a predecessor is known by the digest alone
  abbrev pub ByDigest : Type 0
  ByDigest =
      (a b : ContentHash)
      → a.digest ≡ b.digest
      → step_back circles open_commit a ≡ step_back circles open_commit b

  record Inv (base head : ContentHash) (seen : List String) (stack : List ContentHash)
      : Type 0 where
    clean : mem base.digest seen ≡ false
    root : (mem head.digest seen || mem head.digest (digests stack)) ≡ true
    closed :
        (a p : ContentHash)
        → mem a.digest seen ≡ true
        → step_back circles open_commit a ≡ previous (some p)
        → (mem p.digest seen || mem p.digest (digests stack)) ≡ true

  Inv-skip :
      (base head x : ContentHash) (seen : List String) (stack : List ContentHash)
      → mem x.digest seen ≡ true
      → Inv base head seen (x ∷ stack)
      → Inv base head seen stack
  Inv-skip base head x seen stack old inv = record {
    clean = inv.clean;
    root = still_known x.digest head.digest seen stack old inv.root;
    closed =
        λ a p from step. still_known x.digest p.digest seen stack old (inv.closed a p from step);
  }

  Inv-step :
      (base head x : ContentHash) (seen : List String) (stack : List ContentHash)
      (o : Option ContentHash)
      → ByDigest
      → str_eq x.digest base.digest ≡ false
      → step_back circles open_commit x ≡ previous o
      → Inv base head seen (x ∷ stack)
      → Inv base head (x.digest ∷ seen) (push o stack)
  Inv-step base head x seen stack o by_digest miss step inv = record {
    clean = ground (arith, miss, inv.clean);
    root = ground (arith, inv.root, mem-push o stack head.digest);
    closed = λ a p from back_step. elim (Bool-cases (str_eq x.digest a.digest)) [
      | inl same ↦ ground (
        arith,
        mem-push o stack p.digest,
        is_pushed-itself o p
            (sym step ∙ (by_digest x a ((eq_iff x.digest a.digest).0 same) ∙ back_step)),
      )
      | inr other ↦
          ground (
            arith,
            mem-push o stack p.digest,
            inv.closed a p (ground (arith, from, other)) back_step,
          )
    ];
  }

  Inv-start : (base head : ContentHash) → Inv base head [] (head ∷ [])
  Inv-start base head = record {
    clean = refl;
    root = ground (arith, (eq_iff head.digest head.digest).1 refl);
    closed = λ a p from step. absurd (ground arith);
  }

  Chain-seen :
      (base head : ContentHash) (seen : List String)
      → Inv base head seen []
      → {h : ContentHash} → Chain circles open_commit head h
      → mem h.digest seen ≡ true
  Chain-seen base head seen inv at_head = ground (arith, inv.root)
  Chain-seen base head seen inv (back {h} {p} chain step) =
      ground (arith, inv.closed h p (Chain-seen base head seen inv chain) step)

  ancestor_loop-missed :
      (base head : ContentHash) (fuel : ℕ) (seen : List String) (stack : List ContentHash)
      → ByDigest
      → Inv base head seen stack
      → ancestor_loop circles open_commit base fuel seen stack ≡ some (answered false)
      → ¬ Found circles open_commit head base
  unfolding ancestor_loop
  ancestor_loop-missed base head fuel seen [] by_digest inv h found = absurd (
      ground (
        arith,
        inv.clean,
        Chain-seen base head seen inv found.1,
        mem_eq seen (found.0).digest base.digest found.2,
      ))
  ancestor_loop-missed base head zero seen (x ∷ stack) by_digest inv h found = absurd (ground arith)
  ancestor_loop-missed base head (suc fuel) seen (x ∷ stack) by_digest inv h found =
      elim (Bool-cases (mem x.digest seen)) [
        | inl old ↦
            ancestor_loop-missed base head fuel seen stack by_digest
              (Inv-skip base head x seen stack old inv) (ground (arith, h, old)) found
        | inr new ↦ elim (Bool-cases (str_eq x.digest base.digest)) [
          | inl hit ↦ absurd (ground (arith, h, new, hit))
          | inr miss ↦ elim (Previous-cases (step_back circles open_commit x)) [
            | inl stop ↦ absurd (ground (arith, h, new, miss, stop.1))
            | inr next ↦
                ancestor_loop-missed base head fuel (x.digest ∷ seen) (push next.0 stack) by_digest
                  (Inv-step base head x seen stack next.0 by_digest miss next.1 inv)
                  (ground (arith, h, new, miss, next.1)) found
          ]
        ]
      ]

  -- Where a commit's predecessor depends on its digest alone and the walk answers, it answers that
  -- the base is an ancestor exactly if the base differs from the head and stands at the end of a
  -- chain of predecessors.
  pub commit_is_ancestor-Chain :
      (fuel : ℕ) (head base : ContentHash) (b : Bool)
      → ByDigest
      → commit_is_ancestor circles open_commit fuel head base ≡ some (answered b)
      → (b ≡ true)
        ↔ ((str_eq head.digest base.digest ≡ false) × Found circles open_commit head base)
  unfolding commit_is_ancestor
  commit_is_ancestor-Chain fuel head base true by_digest h = (
    λ e. (ground (arith, h), commit_is_ancestor-Found circles open_commit fuel head base h),
    λ r. refl,
  )
  commit_is_ancestor-Chain fuel head base false by_digest h = (
    λ e. absurd (ground arith),
    λ r. absurd (
        ancestor_loop-missed base head fuel [] (head ∷ []) by_digest (Inv-start base head)
          (ground (arith, h, r.0)) r.1),
  )
