-- ===== src/Poset/Members.antt =====
-- crates/interpreter/src/eval.rs: the names in the relations of an order literal, and those of them
-- to which no edge leads.
use text.Mathlib.Text.{◌==◌ as str_eq}
use text.Mathlib.TextEquality.{eq_iff}
use nlang_tools.Prelude.{
  String, true, false, List, [], ◌∷◌, ◌++◌, ◌≡◌, ◌⊎◌, ◌↔◌, refl, sym, subst, inl, inr, arith,
  Bool-cases, In, first, later, In-append, append-left, append-last, In-one,
}
use nlang_tools.Poset.{ValRelation, listed, insert_name, nodes_from, has_incoming, sources}

abbrev pub IsMember : List ValRelation → String → Type 0
IsMember relations n = (r : ValRelation) × In r relations × ((r.left ≡ n) ⊎ (r.right ≡ n))

In-first : (b v : String) (rest : List String) → In v (b ∷ rest) → (b ≡ v) ⊎ In v rest
In-first b v rest first = inl refl
In-first b v rest (later there) = inr there

pub listed-In : (names : List String) (n : String) → listed n names ≡ true → In n names
listed-In [] n there = absurd (ground (arith, there))
listed-In (m ∷ names) n there = elim (Bool-cases (str_eq m n)) [
  | inl same ↦ subst (λ e. In e (m ∷ names)) ((eq_iff m n).0 same) first
  | inr other ↦ later (listed-In names n (ground (arith, there, other)))
]

pub In-listed : (names : List String) (n : String) → In n names → listed n names ≡ true
In-listed [] n there = elim there [ ]
In-listed (n ∷ names) m first = ground (arith, (eq_iff m m).1 refl)
In-listed (m ∷ names) n (later there) = ground (arith, In-listed names n there)

insert_name-In :
    (m : String) (names : List String) (n : String)
    → In n (insert_name m names) ↔ (In n names ⊎ (m ≡ n))
insert_name-In m names n = elim (Bool-cases (listed m names)) [
  | inl known ↦ (
    λ there. inl (subst (In n) (ground (arith, known)) there),
    λ h. rw known (elim h [
      | inl there ↦ there
      | inr same ↦ subst (λ e. In e names) same (listed-In names m known)
    ]),
  )
  | inr new ↦ (
    λ there. elim (In-append n names (m ∷ []) (subst (In n) (ground (arith, new)) there)) [
      | inl before ↦ inl before
      | inr last ↦ inr (sym (In-one n m last))
    ],
    λ h. rw new (elim h [
      | inl there ↦ append-left n names (m ∷ []) there
      | inr same ↦ subst (λ e. In e (names ++ (m ∷ []))) same (append-last m names)
    ]),
  )
]

IsMember-cases :
    (r : ValRelation) (rs : List ValRelation) (n : String)
    → IsMember (r ∷ rs) n
    → ((r.left ≡ n) ⊎ (r.right ≡ n)) ⊎ IsMember rs n
IsMember-cases r rs n (x, first, named) = inl named
IsMember-cases r rs n (x, later there, named) = inr (x, there, named)

pub nodes_from-In :
    (relations : List ValRelation) (nodes : List String) (n : String)
    → In n (nodes_from relations nodes) ↔ (In n nodes ⊎ IsMember relations n)
unfolding nodes_from
nodes_from-In [] nodes n =
    (λ there. inl there, λ h. elim h [ inl there ↦ there | inr (r, gone, named) ↦ elim gone [ ] ])
nodes_from-In (r ∷ relations) nodes n =
    let rest = nodes_from-In relations (insert_name r.right (insert_name r.left nodes)) n in
    let right_in = insert_name-In r.right (insert_name r.left nodes) n in
    let left_in = insert_name-In r.left nodes n in
    (
      λ there. elim (rest.0 there) [
        | inr (x, below, named) ↦ inr (x, later below, named)
        | inl known ↦ elim (right_in.0 known) [
          | inr same ↦ inr (r, first, inr same)
          | inl known' ↦ elim (left_in.0 known') [
            | inr same ↦ inr (r, first, inl same)
            | inl before ↦ inl before
          ]
        ]
      ],
      λ h. rest.1 (elim h [
        | inl before ↦ inl (right_in.1 (inl (left_in.1 (inl before))))
        | inr member ↦ elim (IsMember-cases r relations n member) [
          | inl (inl same) ↦ inl (right_in.1 (inl (left_in.1 (inr same))))
          | inl (inr same) ↦ inl (right_in.1 (inr same))
          | inr on ↦ inr on
        ]
      ]),
    )

sources_free :
    (relations : List ValRelation) (nodes : List String) (n : String)
    → In n (sources relations nodes)
    → In n nodes × (has_incoming relations n ≡ false)
unfolding sources
sources_free relations [] n there = elim there [ ]
sources_free relations (m ∷ nodes) n there = elim (Bool-cases (has_incoming relations m)) [
  | inl above ↦
      let (before, free) =
        sources_free relations nodes n (subst (In n) (ground (arith, above)) there) in
      (later before, free)
  | inr free ↦
      elim (In-first m n (sources relations nodes) (subst (In n) (ground (arith, free)) there)) [
        | inl same ↦
            subst (λ e. In e (m ∷ nodes) × (has_incoming relations e ≡ false)) same (first, free)
        | inr on ↦ let (before, free') = sources_free relations nodes n on in (later before, free')
      ]
]

pub sources_all :
    (relations : List ValRelation) (nodes : List String) (n : String)
    → In n nodes
    → has_incoming relations n ≡ false
    → In n (sources relations nodes)
unfolding sources
sources_all relations [] n there free = elim there [ ]
sources_all relations (m ∷ nodes) n first free = rw free first
sources_all relations (m ∷ nodes) n (later there) free =
    elim (Bool-cases (has_incoming relations m)) [
      | inl above ↦ rw above (sources_all relations nodes n there free)
      | inr begins ↦ rw begins (later (sources_all relations nodes n there free))
    ]

pub sources-In :
    (relations : List ValRelation) (nodes : List String) (n : String)
    → In n (sources relations nodes) ↔ (In n nodes × (has_incoming relations n ≡ false))
unfolding sources
sources-In relations nodes n =
    (sources_free relations nodes n, λ (there, free). sources_all relations nodes n there free)
