-- ===== src/Savepoint/Circles/Tips.antt =====
-- crates/interpreter/src/savepoint.rs: an injection covers every tip.
use Prim.Native.Nat.{Ordering}
use Prim.Native.String.{compare}
use text.Mathlib.Text.{◌==◌ as str_eq}
use text.Mathlib.TextEquality.{eq_iff, path_by_compare}
use nlang_tools.Prelude.{
  String, Bool, true, false, not, ◌&&◌, ◌||◌, Option, List, [], ◌∷◌, ◌≡◌, refl, sym, ap, ◌∙◌, subst,
  inl, inr, arith, Bool-cases,
}
use nlang_tools.Savepoint.Circles.{
  Circle, Circles, mem, mentioned, has_circle, unmentioned, tips_of, insert_circle, written,
  proposal, record_circle,
}

mem_eq : (ids : List String) (a b : String) → str_eq a b ≡ true → mem a ids ≡ mem b ids
mem_eq ids a b h = ap (λ x. mem x ids) ((eq_iff a b).0 h)

mentioned_eq :
    (nodes : Circles) (a b : String) → str_eq a b ≡ true → mentioned nodes a ≡ mentioned nodes b
mentioned_eq nodes a b h = ap (mentioned nodes) ((eq_iff a b).0 h)

-- a tip is a circle that no circle mentions
mem-unmentioned :
    (all nodes : Circles) (e : String)
    → mem e (unmentioned all nodes) ≡ (has_circle nodes e && not (mentioned all e))
mem-unmentioned all [] e = refl
mem-unmentioned all (node ∷ nodes) e = elim (Bool-cases (str_eq node.0 e)) [
  | inl same ↦ ground (arith, same, mentioned_eq all node.0 e same, mem-unmentioned all nodes e)
  | inr other ↦ ground (arith, other, mem-unmentioned all nodes e)
]

same_key : (id key e : String) → compare id key ≡ Ordering.eq → str_eq id e ≡ str_eq key e
same_key id key e h = ap (λ x. str_eq x e) (path_by_compare id key h)

key_found : (id key : String) → compare id key ≡ Ordering.eq → str_eq key id ≡ true
key_found id key h = (eq_iff key id).1 (sym (path_by_compare id key h))

mentioned-insert_circle :
    (id : String) (circle : Circle) (nodes : Circles) (e : String)
    → has_circle nodes id ≡ false
    → mentioned (insert_circle id circle nodes) e ≡ (mem e circle.parents || mentioned nodes e)
unfolding insert_circle
mentioned-insert_circle id circle [] e new = refl
mentioned-insert_circle id circle (node ∷ nodes) e new =
    ground (arith, mentioned-insert_circle id circle nodes e, key_found id node.0)

has_circle-insert_circle :
    (id : String) (circle : Circle) (nodes : Circles) (e : String)
    → has_circle (insert_circle id circle nodes) e ≡ (str_eq id e || has_circle nodes e)
unfolding insert_circle
has_circle-insert_circle id circle [] e = refl
has_circle-insert_circle id circle (node ∷ nodes) e =
    ground (arith, has_circle-insert_circle id circle nodes e, same_key id node.0 e)

has_circle_eq :
    (nodes : Circles) (a b : String) → str_eq a b ≡ true → has_circle nodes a ≡ has_circle nodes b
has_circle_eq nodes a b h = ap (has_circle nodes) ((eq_iff a b).0 h)

only_new :
    (id : String) (nodes : Circles) (combo : String) (point : Option String) (e : String)
    → has_circle nodes id ≡ false
    → mentioned nodes id ≡ false
    → (has_circle (insert_circle id (proposal (unmentioned nodes nodes) combo point) nodes) e
        && not
            (mentioned (insert_circle id (proposal (unmentioned nodes nodes) combo point) nodes) e))
      ≡ str_eq id e
only_new id nodes combo point e new fresh =
    let circle = proposal (unmentioned nodes nodes) combo point in
    elim (Bool-cases (str_eq id e)) [
      | inl same ↦ ground (
        arith,
        same,
        has_circle-insert_circle id circle nodes e,
        mentioned-insert_circle id circle nodes e new,
        mem-unmentioned nodes nodes e,
        has_circle_eq nodes id e same,
        mentioned_eq nodes id e same,
      )
      | inr other ↦ ground (
        arith,
        other,
        has_circle-insert_circle id circle nodes e,
        mentioned-insert_circle id circle nodes e new,
        mem-unmentioned nodes nodes e,
      )
    ]

-- When an injection is recorded under a name that is new, as a circle and in the circles' parents,
-- that circle is afterwards the only tip: it covers every tip there was.
pub record_circle-tip :
    (nodes nodes' : Circles) (combo : String) (positions_equal : Bool) (id id' : String)
    (point : Option String) (e : String)
    → has_circle nodes id ≡ false
    → mentioned nodes id ≡ false
    → record_circle nodes combo positions_equal id point ≡ written id' nodes'
    → mem e (tips_of nodes') ≡ str_eq id e
unfolding record_circle tips_of
record_circle-tip nodes nodes' combo positions_equal id id' point e new fresh h =
    let circle = proposal (unmentioned nodes nodes) combo point in
    let after : nodes' ≡ insert_circle id circle nodes = ground (arith, h) in
    subst (λ x. mem e (unmentioned x x) ≡ str_eq id e) (sym after)
      (mem-unmentioned (insert_circle id circle nodes) (insert_circle id circle nodes) e
        ∙ only_new id nodes combo point e new fresh)
