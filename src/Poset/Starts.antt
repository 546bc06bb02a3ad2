-- ===== src/Poset/Starts.antt =====
-- crates/interpreter/src/eval.rs: the names from which the ranks of an order literal go up.
use nlang_tools.Prelude.{
  ℕ, suc, String, true, false, List, [], ◌∷◌, ◌≡◌, ◌⊎◌, ◌↔◌, sym, subst, inl, inr, arith,
  Bool-cases, In, first, In-one,
}
use nlang_tools.Poset.{
  ValRelation, listed, nodes_from, has_incoming, bottom_tag, start_names, start_rank,
}
use nlang_tools.Poset.Order.{Below, has_incoming-Below, successors-Below}
use nlang_tools.Poset.Members.{
  IsMember, listed-In, In-listed, nodes_from-In, sources_all, sources-In,
}
use nlang_tools.Poset.Walks.{Walk, start, step}

-- `#_|_` starts with rank 0 if it is a member, and else the members that nothing is below with 1.
abbrev pub IsStart : List ValRelation → String → ℕ → Type 0
IsStart relations n c =
    (IsMember relations bottom_tag × (n ≡ bottom_tag) × (c ≡ 0))
    ⊎ ((¬ IsMember relations bottom_tag)
        × IsMember relations n
        × ((m : String) → ¬ Below relations m n)
        × (c ≡ 1))

-- the ways up from a start, with the rank to which they lead
pub data Climb (relations : List ValRelation) : String → ℕ → Type 0 where
  at_start : {n : String} {c : ℕ} → IsStart relations n c → Climb relations n c
  climbs :
      {u v : String} {r : ℕ} → Climb relations u r → Below relations u v → Climb relations v (suc r)

nodes-IsMember :
    (relations : List ValRelation) (n : String)
    → In n (nodes_from relations []) ↔ IsMember relations n
nodes-IsMember relations n = (
  λ there. elim ((nodes_from-In relations [] n).0 there) [ inl gone ↦ elim gone [ ] | inr m ↦ m ],
  λ member. (nodes_from-In relations [] n).1 (inr member),
)

free-Below :
    (relations : List ValRelation) (n : String)
    → (has_incoming relations n ≡ false) ↔ ((m : String) → ¬ Below relations m n)
free-Below relations n = (
  λ free m below. absurd (ground (arith, free, (has_incoming-Below relations n).1 (m, below))),
  λ alone. elim (Bool-cases (has_incoming relations n)) [
    | inl above ↦
        let (m, below) = (has_incoming-Below relations n).0 above in absurd (alone m below)
    | inr free ↦ free
  ],
)

-- the bottom tag is a member, or it is not one
bottom-cases :
    (relations : List ValRelation)
    → ((listed bottom_tag (nodes_from relations []) ≡ true) × IsMember relations bottom_tag)
      ⊎ ((listed bottom_tag (nodes_from relations []) ≡ false) × (¬ IsMember relations bottom_tag))
bottom-cases relations = elim (Bool-cases (listed bottom_tag (nodes_from relations []))) [
  | inl there ↦ inl (
    there,
    (nodes-IsMember relations bottom_tag).0 (listed-In (nodes_from relations []) bottom_tag there),
  )
  | inr gone ↦ inr (
    gone,
    λ member. absurd (
        ground (
          arith,
          gone,
          In-listed (nodes_from relations []) bottom_tag
              ((nodes-IsMember relations bottom_tag).1 member),
        )),
  )
]

pub start_names-IsStart :
    (relations : List ValRelation) (n : String)
    → In n (start_names relations)
    → IsStart relations n (start_rank relations)
unfolding start_names start_rank
start_names-IsStart relations n there = elim (bottom-cases relations) [
  | inl (listed_there, member) ↦ inl (
    member,
    In-one n bottom_tag (subst (In n) (ground (arith, listed_there)) there),
    ground (arith, listed_there),
  )
  | inr (gone, other) ↦
      let (node, free) =
        (sources-In relations (nodes_from relations []) n).0
          (subst (In n) (ground (arith, gone)) there) in
      inr (
        other,
        (nodes-IsMember relations n).0 node,
        (free-Below relations n).0 free,
        ground (arith, gone),
      )
]

pub IsStart-start_names :
    (relations : List ValRelation) (n : String) (c : ℕ)
    → IsStart relations n c
    → In n (start_names relations) × (c ≡ start_rank relations)
unfolding start_names start_rank
IsStart-start_names relations n c begins = elim (bottom-cases relations) [
  | inl (known, member) ↦ elim begins [
    | inl (m, same, zero_rank) ↦
        rw known (subst (λ e. In e (bottom_tag ∷ [])) (sym same) first, zero_rank)
    | inr (other, named, alone, one) ↦ absurd (other member)
  ]
  | inr (gone, other) ↦ elim begins [
    | inl (m, same, zero_rank) ↦ absurd (other m)
    | inr (m, named, alone, one) ↦ rw gone (
      sources_all relations (nodes_from relations []) n ((nodes-IsMember relations n).1 named)
          ((free-Below relations n).1 alone),
      one,
    )
  ]
]

pub Walk-Climb :
    (relations : List ValRelation) (v : String) (r : ℕ)
    → Walk relations (start_names relations) (start_rank relations) v r
    → Climb relations v r
Walk-Climb relations v r (start there) = at_start (start_names-IsStart relations v there)
Walk-Climb relations v r (step {u = u} {r = k} walk joined) =
    climbs (Walk-Climb relations u k walk) ((successors-Below relations u v).0 joined)

pub Climb-Walk :
    (relations : List ValRelation) (v : String) (r : ℕ)
    → Climb relations v r
    → Walk relations (start_names relations) (start_rank relations) v r
Climb-Walk relations v r (at_start begins) =
    let (there, same) = IsStart-start_names relations v r begins in
    subst (Walk relations (start_names relations) (start_rank relations) v) (sym same) (start there)
Climb-Walk relations v r (climbs {u = u} {r = k} climb below) =
    step (Climb-Walk relations u k climb) ((successors-Below relations u v).1 below)
