-- ===== src/Poset/Order.antt =====
-- crates/interpreter/src/eval.rs: what the relations of an order literal say.
use text.Mathlib.Text.{◌==◌ as str_eq}
use text.Mathlib.TextEquality.{eq_iff}
use mathlib.Core.Option.{some-injective}
use nlang_tools.Prelude.{
  ℕ, ◌<◌, String, Bool, true, ◌||◌, Option, none, some, List, [], ◌∷◌, ◌≡◌, ◌⊎◌, ◌↔◌, refl, sym, ap,
  ap₂, ◌∙◌, subst, inl, inr, arith, Bool-cases, In, first, later, All,
}
use nlang_tools.Poset.{
  ValRelOp, lt, gt, lte, gte, eq, ValRelation, edge_of, push_edge, successors, has_incoming,
  equalities,
}

-- the relation puts the first name below the second one
abbrev pub Says : ValRelation → String → String → Type 0
Says r a b = elim r.op [
  | lt ↦ (r.left ≡ a) × (r.right ≡ b)
  | lte ↦ (r.left ≡ a) × (r.right ≡ b)
  | gt ↦ (r.right ≡ a) × (r.left ≡ b)
  | gte ↦ (r.right ≡ a) × (r.left ≡ b)
  | eq ↦ ⊥
]

abbrev pub Below : List ValRelation → String → String → Type 0
Below relations a b = (r : ValRelation) × In r relations × Says r a b

-- an inequation, of which the higher member has the lesser height
abbrev pub Falls : (String → ℕ) → ValRelation → Type 0
Falls height r = elim r.op [
  | lt ↦ height r.right < height r.left
  | lte ↦ height r.right < height r.left
  | gt ↦ height r.left < height r.right
  | gte ↦ height r.left < height r.right
  | eq ↦ ⊥
]

abbrev link : String → String → Option (String × String)
link a b = some (a, b)

some_pair : (l h a b : String) → (link l h ≡ some (a, b)) ↔ ((l ≡ a) × (h ≡ b))
some_pair l h a b = (
  λ e. let pair = some-injective (l, h) (a, b) e in (ap (λ x. x.0) pair, ap (λ x. x.1) pair),
  λ (left_same, right_same). ap₂ (λ x y. some (x, y)) left_same right_same,
)

edge-Says :
    (o : ValRelOp) (l h a b : String)
    → (edge_of (record { left = l; op = o; right = h }) ≡ some (a, b))
      ↔ Says (record { left = l; op = o; right = h }) a b
edge-Says lt l h a b = some_pair l h a b
edge-Says lte l h a b = some_pair l h a b
edge-Says gt l h a b = some_pair h l a b
edge-Says gte l h a b = some_pair h l a b
edge-Says eq l h a b = (λ e. absurd (ground (arith, e)), λ says. elim says [ ])

-- the edge of a relation is what it says
edge_of-Says : (r : ValRelation) (a b : String) → (edge_of r ≡ some (a, b)) ↔ Says r a b
edge_of-Says r a b = edge-Says r.op r.left r.right a b

Below-first :
    (r : ValRelation) (rs : List ValRelation) (a b : String) → Says r a b → Below (r ∷ rs) a b
Below-first r rs a b says = (r, first, says)

Below-later :
    (r : ValRelation) (rs : List ValRelation) (a b : String) → Below rs a b → Below (r ∷ rs) a b
Below-later r rs a b (x, there, says) = (x, later there, says)

Below-cases :
    (r : ValRelation) (rs : List ValRelation) (a b : String)
    → Below (r ∷ rs) a b
    → Says r a b ⊎ Below rs a b
Below-cases r rs a b (x, first, says) = inl says
Below-cases r rs a b (x, later there, says) = inr (x, there, says)

In-first : (b v : String) (rest : List String) → In v (b ∷ rest) → (b ≡ v) ⊎ In v rest
In-first b v rest first = inl refl
In-first b v rest (later there) = inr there

push_edge-cases :
    (a b u v : String) (rest : List String)
    → In v (push_edge (some (a, b)) u rest)
    → (link a b ≡ some (u, v)) ⊎ In v rest
push_edge-cases a b u v rest there = elim (Bool-cases (str_eq a u)) [
  | inl same ↦ elim (In-first b v rest (subst (In v) (ground (arith, same)) there)) [
    | inl last ↦ inl ((some_pair a b u v).1 ((eq_iff a u).0 same, last))
    | inr before ↦ inr before
  ]
  | inr other ↦ inr (subst (In v) (ground (arith, other)) there)
]

push_edge-In :
    (a b u v : String) (rest : List String)
    → (link a b ≡ some (u, v)) ⊎ In v rest
    → In v (push_edge (some (a, b)) u rest)
push_edge-In a b u v rest (inl e) =
    let (left_same, right_same) = (some_pair a b u v).0 e in
    rw ((eq_iff a u).1 left_same) (subst (λ x. In v (x ∷ rest)) (sym right_same) first)
push_edge-In a b u v rest (inr there) = elim (Bool-cases (str_eq a u)) [
  | inl same ↦ rw same (later there)
  | inr other ↦ rw other there
]

In-push_edge :
    (o : Option (String × String)) (u v : String) (rest : List String)
    → In v (push_edge o u rest) ↔ ((o ≡ some (u, v)) ⊎ In v rest)
In-push_edge none u v rest =
    (λ there. inr there, λ h. elim h [ inl e ↦ absurd (ground (arith, e)) | inr there ↦ there ])
In-push_edge (some (a, b)) u v rest = (push_edge-cases a b u v rest, push_edge-In a b u v rest)

pub successors-Below :
    (relations : List ValRelation) (u v : String)
    → In v (successors relations u) ↔ Below relations u v
unfolding successors
successors-Below [] u v = (λ there. elim there [ ], λ (r, there, says). elim there [ ])
successors-Below (r ∷ relations) u v = (
  λ there. elim ((In-push_edge (edge_of r) u v (successors relations u)).0 there) [
    | inl edge ↦ Below-first r relations u v ((edge_of-Says r u v).0 edge)
    | inr below ↦ Below-later r relations u v ((successors-Below relations u v).0 below)
  ],
  λ below.
      (In-push_edge (edge_of r) u v (successors relations u)).1
        (elim (Below-cases r relations u v below) [
          | inl says ↦ inl ((edge_of-Says r u v).1 says)
          | inr on ↦ inr ((successors-Below relations u v).1 on)
        ]),
)

incoming_edge :
    (o : Option (String × String)) (n : String) (rest : Bool)
    → (elim o [ none ↦ rest | some (a, b) ↦ str_eq b n || rest ] ≡ true)
      ↔ (((m : String) × (o ≡ some (m, n))) ⊎ (rest ≡ true))
incoming_edge none n rest =
    (λ h. inr h, λ h. elim h [ inl (m, e) ↦ absurd (ground (arith, e)) | inr there ↦ there ])
incoming_edge (some (a, b)) n rest = (
  λ h. elim (Bool-cases (str_eq b n)) [
    | inl same ↦ inl (a, (some_pair a b a n).1 (refl, (eq_iff b n).0 same))
    | inr other ↦ inr (ground (arith, h, other))
  ],
  λ h. elim h [
    | inl (m, e) ↦ ground (arith, (eq_iff b n).1 ((some_pair a b m n).0 e).1)
    | inr there ↦ ground (arith, there)
  ],
)

pub has_incoming-Below :
    (relations : List ValRelation) (n : String)
    → (has_incoming relations n ≡ true) ↔ ((m : String) × Below relations m n)
unfolding has_incoming
has_incoming-Below [] n = (λ h. absurd (ground (arith, h)), λ (m, (r, there, says)). elim there [ ])
has_incoming-Below (r ∷ relations) n = (
  λ h. elim ((incoming_edge (edge_of r) n (has_incoming relations n)).0 h) [
    | inl (m, edge) ↦ (m, Below-first r relations m n ((edge_of-Says r m n).0 edge))
    | inr on ↦
        let (m, below) = (has_incoming-Below relations n).0 on in
        (m, Below-later r relations m n below)
  ],
  λ (m, below).
      (incoming_edge (edge_of r) n (has_incoming relations n)).1
        (elim (Below-cases r relations m n below) [
          | inl says ↦ inl (m, (edge_of-Says r m n).1 says)
          | inr on ↦ inr ((has_incoming-Below relations n).1 (m, on))
        ]),
)

Falls-edge :
    (height : String → ℕ) (o : ValRelOp) (l h a b : String)
    → Falls height (record { left = l; op = o; right = h })
    → Says (record { left = l; op = o; right = h }) a b
    → height b < height a
Falls-edge height lt l h a b down (p, q) = rw (sym p) rw (sym q) down
Falls-edge height lte l h a b down (p, q) = rw (sym p) rw (sym q) down
Falls-edge height gt l h a b down (p, q) = rw (sym p) rw (sym q) down
Falls-edge height gte l h a b down (p, q) = rw (sym p) rw (sym q) down
Falls-edge height eq l h a b down says = elim says [ ]

pub Falls-Below :
    (height : String → ℕ) (relations : List ValRelation) (a b : String)
    → All (Falls height) relations
    → Below relations a b
    → height b < height a
Falls-Below height [] a b down (r, there, says) = elim there [ ]
Falls-Below height (r ∷ relations) a b (down, rest) below =
    elim (Below-cases r relations a b below) [
      | inl says ↦ Falls-edge height r.op r.left r.right a b down says
      | inr on ↦ Falls-Below height relations a b rest on
    ]

Falls-none :
    (height : String → ℕ) (o : ValRelOp) (l h : String) (rest : List (String × String))
    → Falls height (record { left = l; op = o; right = h })
    → elim (edge_of (record { left = l; op = o; right = h })) [
      | none ↦ (l, h) ∷ rest
      | some e ↦ rest
    ]
      ≡ rest
Falls-none height lt l h rest down = refl
Falls-none height lte l h rest down = refl
Falls-none height gt l h rest down = refl
Falls-none height gte l h rest down = refl
Falls-none height eq l h rest down = elim down [ ]

pub equalities-Falls :
    (height : String → ℕ) (relations : List ValRelation)
    → All (Falls height) relations
    → equalities relations ≡ []
unfolding equalities
equalities-Falls height [] down = refl
equalities-Falls height (r ∷ relations) (down, rest) =
    Falls-none height r.op r.left r.right (equalities relations) down
    ∙ equalities-Falls height relations rest
