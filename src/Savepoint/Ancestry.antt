-- ===== src/Savepoint/Ancestry.antt =====
-- crates/interpreter/src/savepoint.rs: the predecessor of a commit, from the commit or from the
-- circle it became, and the walk over predecessors. A digest is its hexadecimal text.
pub mod Chain
pub mod Search
pub mod Ends
use Prim.Native.Char.{code}
use Prim.Native.String
use Prim.Native.String.{len}
use text.Mathlib.Text.{◌==◌ as str_eq}
use nlang_tools.Prelude.{
  ℕ, zero, suc, String, Bool, true, false, not, ◌&&◌, ◌||◌, ◌==◌, leb, if◌then◌else◌, Option, none,
  some, List, [], ◌∷◌,
}
use nlang_tools.Savepoint.Circles.{Circle, Circles, get_circle, mem}

pub record ContentHash : Type 0 where
  pub v2 : Bool
  pub digest : String

abbrev is_lower_hex : ℕ → Bool
is_lower_hex b = (leb 48 b && leb b 57) || (leb 97 b && leb b 102)

all_lower_hex : String → Bool
all_lower_hex String.[] = true
all_lower_hex (String.◌∷◌ c s) = is_lower_hex (code c) && all_lower_hex s

unfoldable pub is_hex64 : String → Bool
unfolding all_lower_hex
is_hex64 s = len s == 64 && all_lower_hex s

unfoldable pub hash_from_hex : String → Option ContentHash
unfolding is_hex64
hash_from_hex d = if is_hex64 d then some (record { v2 = false; digest = d }) else none

abbrev names_commit : Option String → String → Bool
names_commit none digest = false
names_commit (some d) digest = str_eq d digest

-- the first circle with this `commit:` note
unfoldable pub circle_id_for_commit : Circles → String → Option String
circle_id_for_commit [] digest = none
circle_id_for_commit (node ∷ nodes) digest =
    if names_commit (node.1).commit_digest digest
    then some node.0
    else circle_id_for_commit nodes digest

abbrev ancestor_of : Option Circle → Option String
ancestor_of none = none
ancestor_of (some circle) = circle.ancestor

abbrev commit_of : Option Circle → Option String
commit_of none = none
commit_of (some circle) = circle.commit_digest

abbrev unless_current : String → Option ContentHash → Option ContentHash
unless_current current none = none
unless_current current (some h) = if str_eq h.digest current then none else some h

abbrev noted_hash : Option String → String → Option ContentHash
noted_hash none current = none
noted_hash (some d) current = if str_eq d current then none else hash_from_hex d

unfoldable pub hash_from_ancestor : Circles → String → String → Option ContentHash
unfolding hash_from_hex get_circle
hash_from_ancestor nodes aid current = elim (hash_from_hex aid) [
  | some h ↦ unless_current current (some h)
  | none ↦ noted_hash (commit_of (get_circle nodes aid)) current
]

abbrev from_circle : Circles → String → Option String → Option ContentHash
from_circle nodes digest none = none
from_circle nodes digest (some aid) = hash_from_ancestor nodes aid digest

unfoldable pub previous_in : Circles → Option ContentHash → String → Option ContentHash
unfolding circle_id_for_commit hash_from_ancestor get_circle
previous_in nodes (some p) digest = some p
previous_in nodes none digest = elim (circle_id_for_commit nodes digest) [
  | none ↦ none
  | some start ↦ from_circle nodes digest (ancestor_of (get_circle nodes start))
]

pub data Loaded : Type 0 where
  load_failed : String → Loaded
  loaded : Circles → Loaded

pub data Previous : Type 0 where
  previous_failed : String → Previous
  previous : Option ContentHash → Previous

-- the directory is read only where the commit names no parent
unfoldable pub previous_commit : Loaded → Option ContentHash → String → Previous
unfolding previous_in
previous_commit circles (some p) digest = previous (some p)
previous_commit (load_failed msg) none digest = previous_failed msg
previous_commit (loaded nodes) none digest = previous (previous_in nodes none digest)

-- `open_commit`: the parent that the commit names
pub data Opened : Type 0 where
  open_failed : String → Opened
  opened : Option ContentHash → Opened

pub data Answer : Type 0 where
  failed : String → Answer
  answered : Bool → Answer

abbrev pub push : Option ContentHash → List ContentHash → List ContentHash
push none stack = stack
push (some p) stack = p ∷ stack

module _ (circles : Loaded) (open_commit : ContentHash → Opened) where
  unfoldable pub step_back : ContentHash → Previous
  unfolding previous_commit
  step_back h = elim (open_commit h) [
    | open_failed msg ↦ previous_failed msg
    | opened parent ↦ previous_commit circles parent h.digest
  ]

  -- the head of the stack is the end of the `Vec`; `none`: the fuel ran out
  unfoldable pub ancestor_loop : ContentHash → ℕ → List String → List ContentHash → Option Answer
  ancestor_loop base fuel seen [] = some (answered false)
  ancestor_loop base zero seen (h ∷ stack) = none
  ancestor_loop base (suc fuel) seen (h ∷ stack) =
      let skipped = ancestor_loop base fuel seen stack in
      let further : Option Answer = elim (step_back h) [
        | previous_failed msg ↦ some (failed msg)
        | previous p ↦ ancestor_loop base fuel (h.digest ∷ seen) (push p stack)
      ] in
      if mem h.digest seen
      then skipped
      else if str_eq h.digest base.digest
      then some (answered true)
      else further

  unfoldable pub commit_is_ancestor : ℕ → ContentHash → ContentHash → Option Answer
  unfolding ancestor_loop
  commit_is_ancestor fuel head base =
      if str_eq head.digest base.digest
      then some (answered false)
      else ancestor_loop base fuel [] (head ∷ [])
