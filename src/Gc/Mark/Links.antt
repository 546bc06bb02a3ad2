-- ===== src/Gc/Mark/Links.antt =====
-- crates/interpreter/src/gc.rs: a visit pushes the links of an object less what was seen.
use text.Mathlib.Text.{◌==◌ as str_eq}
use text.Mathlib.TextEquality.{eq_iff}
use nlang_tools.Prelude.{
  String, Bool, true, not, ◌&&◌, ◌||◌, Option, none, some, List, [], ◌∷◌, ◌++◌, length,
  length-append, ◌≤◌, ◌≡◌, refl, ap, inl, inr, arith, Bool-cases, subst,
}
use nlang_tools.Gc.Mark.{
  has_digest, Store, Visit, refused, pushed, unseen, verify_reachable_object, push_previous,
  push_commit_predecessor, after_refs, visit, VerifiedObject, verified, caid_mismatch, undecodable,
  unreadable, Opened, opened, other_address, unreadable_commit, no_commit, push_opened,
  visit_verified,
}

has_digest_eq :
    (xs : List String) (a b : String) → str_eq a b ≡ true → has_digest xs a ≡ has_digest xs b
has_digest_eq xs a b h = ap (has_digest xs) ((eq_iff a b).0 h)

pub has_digest-append :
    (xs ys : List String) (e : String)
    → has_digest (xs ++ ys) e ≡ (has_digest xs e || has_digest ys e)
has_digest-append [] ys e = refl
has_digest-append (x ∷ xs) ys e = ground (arith, has_digest-append xs ys e)

has_digest-unseen :
    (seen refs : List String) (e : String)
    → has_digest (unseen seen refs) e ≡ (has_digest refs e && not (has_digest seen e))
unfolding unseen
has_digest-unseen seen [] e = refl
has_digest-unseen seen (r ∷ refs) e = elim (Bool-cases (str_eq r e)) [
  | inl same ↦ ground (arith, has_digest-unseen seen refs e, has_digest_eq seen r e same)
  | inr other ↦ ground (arith, has_digest-unseen seen refs e)
]

length-unseen : (seen refs : List String) → length (unseen seen refs) ≤ length (unseen [] refs)
unfolding unseen
length-unseen seen [] = omega arith
length-unseen seen (r ∷ refs) = ground (arith, length-unseen seen refs)

-- what a visit puts on the queue
abbrev pub pushes : Visit → List String
pushes (refused msg) = []
pushes (pushed more lines) = more

-- the first visit is the second one without what was seen
abbrev Pruned : List String → Visit → Visit → Type 0
Pruned seen (refused msg) (refused msg') = Unit
Pruned seen (refused msg) (pushed more lines) = ⊥
Pruned seen (pushed more lines) (refused msg) = ⊥
Pruned seen (pushed more lines) (pushed more' lines') =
    ((e : String) → has_digest more e ≡ (has_digest more' e && not (has_digest seen e)))
    × (length more ≤ length more')

push_previous-Pruned :
    (seen : List String) (o : Option String)
    → Pruned seen (push_previous seen o) (push_previous [] o)
unfolding push_previous
push_previous-Pruned seen none = (λ e. refl, omega arith)
push_previous-Pruned seen (some p) = elim (Bool-cases (has_digest seen p)) [
  | inl old ↦ rw old (
      (
        λ e. elim (Bool-cases (str_eq p e)) [
          | inl same ↦ ground (arith, has_digest_eq seen p e same, old)
          | inr other ↦ ground (arith, other)
        ],
        omega arith,
      ))
  | inr new ↦ rw new (
      (
        λ e. elim (Bool-cases (str_eq p e)) [
          | inl same ↦ ground (arith, has_digest_eq seen p e same, new)
          | inr other ↦ ground (arith, other)
        ],
        omega arith,
      ))
]

after_refs-Pruned :
    (seen refs : List String) (v v' : Visit)
    → Pruned seen v v'
    → Pruned seen (after_refs (unseen seen refs) v) (after_refs (unseen [] refs) v')
after_refs-Pruned seen refs (refused msg) (refused msg') h = h
after_refs-Pruned seen refs (refused msg) (pushed more lines) h = absurd h
after_refs-Pruned seen refs (pushed more lines) (refused msg) h = absurd h
after_refs-Pruned seen refs (pushed more lines) (pushed more' lines') h = (
  λ e. ground (
    arith,
    has_digest-append (unseen seen refs) more e,
    has_digest-append (unseen [] refs) more' e,
    has_digest-unseen seen refs e,
    has_digest-unseen [] refs e,
    h.0 e,
  ),
  omega (
    arith,
    h.1,
    length-unseen seen refs,
    length-append (unseen seen refs) more,
    length-append (unseen [] refs) more',
  ),
)

module _ {B C : Type 0} (store : Store B C) (follow_abandoned : Bool) where
  -- the digests that the object of this one names
  abbrev pub links : String → List String
  links d = pushes (visit store follow_abandoned d [])

  push_opened-Pruned :
      (d : String) (seen : List String) (o : Opened C)
      → Pruned seen
          (push_opened store follow_abandoned d seen o)
          (push_opened store follow_abandoned d [] o)
  unfolding push_opened
  push_opened-Pruned d seen (opened v2 commit) =
      elim (Bool-cases (not follow_abandoned && (v2 && not (store.declared d)))) [
        | inl cut ↦ rw cut tt
        | inr kept ↦ rw kept (push_previous-Pruned seen (store.previous_commit_in commit d))
      ]
  push_opened-Pruned d seen other_address = (λ e. refl, omega arith)
  push_opened-Pruned d seen (unreadable_commit reason) = elim (Bool-cases follow_abandoned) [
    | inl on ↦ rw on ((λ e. refl, omega arith))
    | inr off ↦ rw off tt
  ]
  push_opened-Pruned d seen no_commit = (λ e. refl, omega arith)

  push_commit_predecessor-Pruned :
      (d : String) (seen : List String)
      → Pruned seen
          (push_commit_predecessor store follow_abandoned d seen)
          (push_commit_predecessor store follow_abandoned d [])
  unfolding push_commit_predecessor
  push_commit_predecessor-Pruned d seen = elim (Bool-cases (store.is_32_bytes d)) [
    | inl decoded ↦ rw decoded (push_opened-Pruned d seen (store.open_commit d))
    | inr short ↦ rw short ((λ e. refl, omega arith))
  ]

  visit_verified-Pruned :
      (d : String) (seen : List String) (o : VerifiedObject)
      → Pruned seen
          (visit_verified store follow_abandoned d seen o)
          (visit_verified store follow_abandoned d [] o)
  unfolding visit_verified
  visit_verified-Pruned d seen (verified refs) =
      after_refs-Pruned seen refs (push_commit_predecessor store follow_abandoned d seen)
        (push_commit_predecessor store follow_abandoned d [])
        (push_commit_predecessor-Pruned d seen)
  visit_verified-Pruned d seen caid_mismatch = (λ e. refl, omega arith)
  visit_verified-Pruned d seen undecodable = (λ e. refl, omega arith)
  visit_verified-Pruned d seen (unreadable msg) = elim (Bool-cases follow_abandoned) [
    | inl on ↦ rw on ((λ e. refl, omega arith))
    | inr off ↦ rw off tt
  ]

  visit-Pruned :
      (d : String) (seen : List String)
      → Pruned seen (visit store follow_abandoned d seen) (visit store follow_abandoned d [])
  unfolding visit
  visit-Pruned d seen =
      visit_verified-Pruned d seen (verify_reachable_object store follow_abandoned d)

  Pruned-pushes :
      (seen : List String) (v v' : Visit) (more lines : List String)
      → Pruned seen v v'
      → v ≡ pushed more lines
      → ((e : String) → has_digest more e ≡ (has_digest (pushes v') e && not (has_digest seen e)))
        × (length more ≤ length (pushes v'))
  Pruned-pushes seen (refused msg) v' more lines h same = absurd (ground arith)
  Pruned-pushes seen (pushed a b) (refused msg) more lines h same = absurd h
  Pruned-pushes seen (pushed a b) (pushed a' b') more lines h same =
      subst
        (λ v.
          ((e : String) → has_digest (pushes v) e ≡ (has_digest a' e && not (has_digest seen e)))
          × (length (pushes v) ≤ length a'))
        same h

  -- a visit that is not refused pushes the links that were not seen
  pub pushed-links :
      (d : String) (seen more lines : List String)
      → visit store follow_abandoned d seen ≡ pushed more lines
      → ((e : String) → has_digest more e ≡ (has_digest (links d) e && not (has_digest seen e)))
        × (length more ≤ length (links d))
  pushed-links d seen more lines =
      Pruned-pushes seen (visit store follow_abandoned d seen) (visit store follow_abandoned d [])
        more lines (visit-Pruned d seen)
