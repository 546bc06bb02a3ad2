-- ===== src/Savepoint/Circles.antt =====
-- crates/interpreter/src/savepoint.rs: circles with their covering relation, and what an injection
-- adds to them. A `BTreeMap` is the list of its entries in the order of the keys.
pub mod Tips
use Prim.Native.Nat.{Ordering}
use Prim.Native.String.{compare}
use text.Mathlib.Text.{◌==◌ as str_eq}
use nlang_tools.Prelude.{
  ℕ, String, Bool, true, false, not, ◌&&◌, ◌||◌, if◌then◌else◌, Option, none, some, List, [], ◌∷◌,
}

pub record Circle : Type 0 where
  pub parents : List String
  pub combo : String
  pub commit_digest : Option String
  pub ancestor : Option String
  pub point : Option String

abbrev pub Circles : Type 0
Circles = List (String × Circle)

abbrev pub mem : String → List String → Bool
mem id [] = false
mem id (x ∷ ids) = str_eq x id || mem id ids

abbrev pub mentioned : Circles → String → Bool
mentioned [] id = false
mentioned (node ∷ nodes) id = mem id (node.1).parents || mentioned nodes id

abbrev pub has_circle : Circles → String → Bool
has_circle [] id = false
has_circle (node ∷ nodes) id = str_eq node.0 id || has_circle nodes id

abbrev pub unmentioned : Circles → Circles → List String
unmentioned all [] = []
unmentioned all (node ∷ nodes) =
    if mentioned all node.0 then unmentioned all nodes else node.0 ∷ unmentioned all nodes

unfoldable pub tips_of : Circles → List String
tips_of nodes = unmentioned nodes nodes

unfoldable pub get_circle : Circles → String → Option Circle
get_circle [] id = none
get_circle (node ∷ nodes) id = if str_eq node.0 id then some node.1 else get_circle nodes id

-- the file of a new circle, as `load_circles` reads it back
unfoldable pub insert_circle : String → Circle → Circles → Circles
insert_circle id circle [] = (id, circle) ∷ []
insert_circle id circle (node ∷ nodes) =
    let rest = insert_circle id circle nodes in
    elim (compare id node.0) [
      | Ordering.lt ↦ (id, circle) ∷ node ∷ nodes
      | Ordering.eq ↦ (id, circle) ∷ nodes
      | Ordering.gt ↦ node ∷ rest
    ]

pub data Recorded : Type 0 where
  refused : String → Recorded
  unchanged : Recorded
  written : String → Circles → Recorded

abbrev pub is_empty {ℓ} : {A : Type ℓ} → List A → Bool
is_empty [] = true
is_empty (x ∷ xs) = false

abbrev pub cycle_message : String
cycle_message = "savepoint cycle: ids nonempty and tips empty"

abbrev pub has_combo : Option Circle → String → Bool
has_combo none combo = false
has_combo (some circle) combo = str_eq circle.combo combo

-- whether one tip says all that the injection would
abbrev pub adds_nothing : Circles → List String → String → Bool → Bool
adds_nothing nodes [] combo positions_equal = false
adds_nothing nodes (tip ∷ []) combo positions_equal =
    has_combo (get_circle nodes tip) combo || positions_equal
adds_nothing nodes (tip ∷ other ∷ tips) combo positions_equal = false

abbrev pub proposal : List String → String → Option String → Circle
proposal tips combo point = record {
  parents = tips;
  combo = combo;
  commit_digest = none;
  ancestor = none;
  point = point;
}

-- `id` is the name that the host mints, and `point` what `point_to_write` reads; the tips stand
-- in the order of the keys, which is the order that they are sorted to
unfoldable pub record_circle : Circles → String → Bool → String → Option String → Recorded
unfolding tips_of insert_circle get_circle
record_circle nodes combo positions_equal id point =
    if not (is_empty nodes) && is_empty (tips_of nodes)
    then refused cycle_message
    else if adds_nothing nodes (tips_of nodes) combo positions_equal
    then unchanged
    else written id (insert_circle id (proposal (tips_of nodes) combo point) nodes)

abbrev pub covering_of : Option String → List String → List String
covering_of (some p) tips = p ∷ []
covering_of none [] = []
covering_of none (tip ∷ tips) = tip ∷ []

-- the circle of a commit event, with at most one parent; `empty_combo` is the text of no fields
unfoldable pub record_commit :
    String → Circles → String → Option String → Option String → Bool → String → Recorded
unfolding tips_of insert_circle
record_commit empty_combo nodes digest covering ancestor records_point id =
    if not (is_empty nodes) && is_empty (tips_of nodes)
    then refused cycle_message
    else written id (
        insert_circle id
          (record {
            parents = covering_of covering (tips_of nodes);
            combo = empty_combo;
            commit_digest = some digest;
            ancestor = ancestor;
            point = if records_point then some digest else none;
          })
          nodes)
