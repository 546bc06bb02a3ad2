-- ===== src/Gc/Mark.antt =====
-- crates/interpreter/src/gc.rs: the mark phase, from the object behind a digest to the set of the
-- digests that are reachable from HEAD. A digest is its hexadecimal text, and a `BTreeSet` a list.
pub mod Links
pub mod Reach
pub mod Ends
use Prim.Native.String.{len, slice}
use text.Mathlib.Text.{◌==◌ as str_eq}
use nlang_tools.Prelude.{
  ℕ, zero, suc, String, Bool, true, false, not, ◌&&◌, ◌||◌, if◌then◌else◌, Option, none, some, List,
  [], ◌∷◌, ◌++◌, format,
}

abbrev pub has_digest : List String → String → Bool
has_digest [] d = false
has_digest (s ∷ set) d = str_eq s d || has_digest set d

-- how a read through the store's decoders ends
pub data Lookup : Type 0 where
  found : Lookup
  mismatch : Lookup
  missed : Lookup

pub data RawRead (B : Type 0) : Type 0 where
  raw : B → RawRead B
  read_error : String → RawRead B

-- `open_commit`, with whether the address is of version 2
pub data Opened (C : Type 0) : Type 0 where
  opened : Bool → C → Opened C
  other_address : Opened C
  unreadable_commit : String → Opened C
  no_commit : Opened C

pub data HeadRead : Type 0 where
  head_failed : String → HeadRead
  no_head : HeadRead
  head_at : String → HeadRead

pub data RecordRead : Type 0 where
  record_failed : String → RecordRead
  recorded : Bool → RecordRead

-- What the walk asks of the store, of its codec and of the savepoints, `declared` and
-- `previous_commit_in` with the circles that were loaded. `B` are bytes and `C` commits.
pub record Store (B C : Type 0) : Type 0 where
  pub get_head : HeadRead
  pub records_a_commit : RecordRead
  pub object_exists : String → Bool
  pub read_raw_digest : String → RawRead B
  pub is_framed : B → Bool
  pub refs_of_document : B → Bool → List String
  pub hex_decodes : String → Bool
  pub is_32_bytes : String → Bool
  pub get_value : String → Lookup
  pub get_commit : String → Lookup
  pub open_commit : String → Opened C
  pub json_refs : B → Bool → Option (List String)
  pub value_matches : B → String → Option Bool
  pub commit_matches : B → String → Option Bool
  pub declared : String → Bool
  pub previous_commit_in : C → String → Option String

pub data VerifiedObject : Type 0 where
  verified : List String → VerifiedObject
  caid_mismatch : VerifiedObject
  undecodable : VerifiedObject
  unreadable : String → VerifiedObject

-- where the bytes do not parse, the code goes on
abbrev pub refs_or : Option (List String) → VerifiedObject → VerifiedObject
refs_or none other = other
refs_or (some refs) other = verified refs

abbrev pub is_found : Lookup → Bool
is_found found = true
is_found mismatch = false
is_found missed = false

-- what the walk reads off an object: the digests to visit and lines of the report, or a refusal
pub data Visit : Type 0 where
  refused : String → Visit
  pushed : List String → List String → Visit

pub data Outcome : Type 0 where
  failed : String → Outcome
  marked : List String → List String → Outcome

-- the digests that are not in the set
unfoldable pub unseen : List String → List String → List String
unseen seen [] = []
unseen seen (r ∷ refs) = if has_digest seen r then unseen seen refs else r ∷ unseen seen refs

abbrev unreadable_prefix : String
unreadable_prefix = "cannot read store object: "

abbrev starts : String → String → Bool
starts msg prefix = str_eq (slice msg 0 (len prefix)) prefix

-- `strip_prefix`, or else the whole message
unfoldable pub reason_of : String → String
reason_of msg =
    if starts msg unreadable_prefix then slice msg (len unreadable_prefix) (len msg) else msg

abbrev pub undecodable_line : String → String
undecodable_line d =
    format ("integrity #object_undecodable: reachable digest " ∷ d ∷ " cannot be decoded" ∷ [])

abbrev pub mismatch_line : String → String
mismatch_line d =
    format ("integrity #caid_mismatch: reachable digest " ∷ d ∷ " does not match its bytes" ∷ [])

abbrev pub cannot_read_line : String → String → String
cannot_read_line d reason = format ("cannot read store object " ∷ d ∷ ": " ∷ reason ∷ [])

abbrev pub lost_context : String
lost_context =
    "lost context: HEAD is absent and the store records a commit; restore it with rollback <commit> --grant rollback"

abbrev pub undeclared_line : String → String
undeclared_line d =
    format ("gc refused: commit " ∷ d ∷ " is value-addressed and no circle declares it" ∷ [])

-- the predecessor alone
unfoldable pub push_previous : List String → Option String → Visit
push_previous seen none = pushed [] []
push_previous seen (some p) = if has_digest seen p then pushed [] [] else pushed (p ∷ []) []

abbrev pub after_refs : List String → Visit → Visit
after_refs refs (refused msg) = refused msg
after_refs refs (pushed more lines) = pushed (refs ++ more) lines

module _ {B C : Type 0} (store : Store B C) (follow_abandoned : Bool) where
  unfoldable pub verify_framed : String → List String → VerifiedObject
  verify_framed d refs =
      if not (store.hex_decodes d) then undecodable else elim (store.get_value d) [
        | found ↦ verified refs
        | mismatch ↦ caid_mismatch
        | missed ↦ elim (store.get_commit d) [
          | found ↦ verified refs
          | mismatch ↦ elim (store.open_commit d) [
            | opened v2 commit ↦ verified refs
            | other_address ↦ caid_mismatch
            | unreadable_commit reason ↦ undecodable
            | no_commit ↦ undecodable
          ]
          | missed ↦ undecodable
        ]
      ]

  -- an object of which it is known whether its content has this address
  abbrev matched_or : Option Bool → Option (List String) → VerifiedObject → VerifiedObject
  matched_or none refs other = other
  matched_or (some true) refs other = refs_or refs other
  matched_or (some false) refs other = caid_mismatch

  unfoldable pub verify_json : String → B → VerifiedObject
  verify_json d bytes =
      let refs = store.json_refs bytes follow_abandoned in
      let as_commit = matched_or (store.commit_matches bytes d) refs undecodable in
      let as_value = matched_or (store.value_matches bytes d) refs as_commit in
      if store.hex_decodes d && is_found (store.get_value d)
      then refs_or refs as_value
      else as_value

  unfoldable pub verify_reachable_object : String → VerifiedObject
  unfolding verify_framed verify_json
  verify_reachable_object d = elim (store.read_raw_digest d) [
    | raw bytes ↦
        if store.is_framed bytes
        then verify_framed d (store.refs_of_document bytes follow_abandoned)
        else verify_json d bytes
    | read_error msg ↦ if starts msg "cannot read " then unreadable msg else undecodable
  ]

  unfoldable pub push_opened : String → List String → Opened C → Visit
  unfolding push_previous
  push_opened d seen (opened v2 commit) =
      if not follow_abandoned && (v2 && not (store.declared d))
      then refused (undeclared_line d)
      else push_previous seen (store.previous_commit_in commit d)
  push_opened d seen other_address = pushed [] []
  push_opened d seen (unreadable_commit reason) =
      if follow_abandoned then pushed [] [] else refused (cannot_read_line d reason)
  push_opened d seen no_commit = pushed [] []

  unfoldable pub push_commit_predecessor : String → List String → Visit
  unfolding push_opened
  push_commit_predecessor d seen =
      if not (store.is_32_bytes d) then pushed [] [] else push_opened d seen (store.open_commit d)

  unfoldable pub visit_verified : String → List String → VerifiedObject → Visit
  unfolding push_commit_predecessor unseen reason_of
  visit_verified d seen (verified refs) =
      after_refs (unseen seen refs) (push_commit_predecessor d seen)
  visit_verified d seen caid_mismatch = pushed [] (mismatch_line d ∷ [])
  visit_verified d seen undecodable = pushed [] (undecodable_line d ∷ [])
  visit_verified d seen (unreadable msg) =
      if follow_abandoned
      then pushed [] (undecodable_line d ∷ [])
      else refused (cannot_read_line d (reason_of msg))

  -- the body of the loop for an object that is there, which `seen` holds already
  unfoldable pub visit : String → List String → Visit
  unfolding verify_reachable_object visit_verified
  visit d seen = visit_verified d seen (verify_reachable_object d)

  -- `none`: the fuel ran out
  unfoldable pub mark_loop : ℕ → List String → List String → List String → Option Outcome
  unfolding visit
  mark_loop fuel [] seen integrity = some (marked seen integrity)
  mark_loop zero (d ∷ queue) seen integrity = none
  mark_loop (suc fuel) (d ∷ queue) seen integrity =
      let skipped = mark_loop fuel queue seen integrity in
      let visited : Option Outcome = elim (visit d (d ∷ seen)) [
        | refused msg ↦ some (failed msg)
        | pushed more lines ↦ mark_loop fuel (queue ++ more) (d ∷ seen) (integrity ++ lines)
      ] in
      if has_digest seen d then skipped else if store.object_exists d then visited else skipped

  unfoldable pub mark_walk : ℕ → Option Outcome
  unfolding mark_loop
  mark_walk fuel = elim store.get_head [
    | head_failed msg ↦ some (failed msg)
    | head_at d ↦ mark_loop fuel (d ∷ []) [] []
    | no_head ↦ elim store.records_a_commit [
      | record_failed msg ↦ some (failed msg)
      | recorded true ↦ some (failed lost_context)
      | recorded false ↦ some (marked [] [])
    ]
  ]
