-- ===== src/Savepoint/Tests.antt =====
-- crates/interpreter/src/savepoint.rs: a text of two lines, circles, and commits in a row.
use text.Mathlib.Text.{◌==◌ as str_eq}
use nlang_tools.Prelude.{
  ℕ, List, [], ◌∷◌, All, ◌≡◌, refl, ap, ◌↔◌, String, true, false, Option, none, some, if◌then◌else◌,
  arith, subst, Bool-cases, inl, inr,
}
use nlang_tools.Savepoint.Circles.{Circle, Circles, mem}
use nlang_tools.Savepoint.Ancestry.{
  ContentHash, loaded, Opened, opened, Answer, previous_in, circle_id_for_commit, previous_commit,
  step_back, ancestor_loop, commit_is_ancestor,
}
use nlang_tools.Savepoint.Ancestry.Chain.{Found}
use nlang_tools.Savepoint.Ancestry.Search.{ByDigest, commit_is_ancestor-Chain}
use nlang_tools.Savepoint.Ancestry.Ends.{ClosedBack, commit_is_ancestor-ends}
use nlang_tools.Savepoint.Frame.{escape_frame, unescape_frame, StaysOnLine, unescape-escape_frame}

abbrev two_lines : List ℕ
two_lines = 97 ∷ 10 ∷ 92 ∷ 110 ∷ []

escaped : escape_frame two_lines ≡ 97 ∷ 92 ∷ 110 ∷ 92 ∷ 92 ∷ 110 ∷ []
unfolding escape_frame
escaped = refl

unescape-escape_frame_example :
    (unescape_frame (escape_frame two_lines) ≡ two_lines) × All StaysOnLine (escape_frame two_lines)
unescape-escape_frame_example = unescape-escape_frame two_lines

abbrev circle : List String → String → Circle
circle parents combo = record {
  parents = parents;
  combo = combo;
  commit_digest = none;
  ancestor = none;
  point = none;
}

-- two tips over one circle
abbrev forked : Circles
forked =
    ("a", circle [] "{ x: 1 }")
    ∷ ("b", circle ("a" ∷ []) "{ y: 2 }")
    ∷ ("d", circle ("a" ∷ []) "{ z: 3 }")
    ∷ []

abbrev joined : Circles
joined =
    ("a", circle [] "{ x: 1 }")
    ∷ ("b", circle ("a" ∷ []) "{ y: 2 }")
    ∷ ("c", circle ("b" ∷ "d" ∷ []) "{ w: 4 }")
    ∷ ("d", circle ("a" ∷ []) "{ z: 3 }")
    ∷ []

abbrev hash : String → ContentHash
hash d = record { v2 = true; digest = d }

-- three commits in a row
abbrev parent_of : String → Option ContentHash
parent_of d =
    if str_eq d "third"
    then some (hash "second")
    else if str_eq d "second"
    then some (hash "first")
    else none

abbrev open_commit : ContentHash → Opened
open_commit h = opened (parent_of h.digest)

by_digest : ByDigest (loaded []) open_commit
unfolding step_back previous_commit
by_digest a b same = ap (λ d. previous_commit (loaded []) (parent_of d) d) same

commit_is_ancestor-Chain_example : (true ≡ true) ↔ (
    (str_eq "third" "first" ≡ false) × Found (loaded []) open_commit (hash "third") (hash "first"))
unfolding commit_is_ancestor ancestor_loop step_back previous_commit
commit_is_ancestor-Chain_example =
    commit_is_ancestor-Chain (loaded []) open_commit 4 (hash "third") (hash "first") true by_digest
      refl

abbrev commits : List String
commits = "third" ∷ "second" ∷ "first" ∷ []

closed_back : ClosedBack (loaded []) open_commit commits
unfolding step_back previous_commit previous_in circle_id_for_commit
closed_back h p back = elim (Bool-cases (str_eq h.digest "third")) [
  | inl third ↦
      subst (λ q. mem q.digest commits ≡ true) {x = hash "second"} {y = p}
        (ground (arith, back, third)) refl
  | inr earlier ↦ elim (Bool-cases (str_eq h.digest "second")) [
    | inl second ↦
        subst (λ q. mem q.digest commits ≡ true) {x = hash "first"} {y = p}
          (ground (arith, back, earlier, second)) refl
    | inr first ↦ absurd (ground (arith, back, earlier, first))
  ]
]

commit_is_ancestor-ends_example :
    (a : Answer) × (commit_is_ancestor (loaded []) open_commit 4 (hash "third") (hash "second")
      ≡ some a)
commit_is_ancestor-ends_example =
    commit_is_ancestor-ends (loaded []) open_commit commits (hash "third") (hash "second")
      closed_back refl
