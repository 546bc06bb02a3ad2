-- ===== src/Poset/Walks.antt =====
-- crates/interpreter/src/eval.rs: the loop over the queue finds the longest walks.
use text.Mathlib.Text.{◌==◌ as str_eq}
use text.Mathlib.TextEquality.{eq_iff}
use mathlib.Core.Option.{some-injective}
use nlang_tools.Prelude.{In, first, later, In-append, append-left, append-last, In-one}
use nlang_tools.Prelude.{
  ℕ, suc, ◌≤◌, ltb, String, false, Option, none, some, List, [], ◌∷◌, ◌++◌, ◌≡◌, ◌⊎◌, refl, sym, ap,
  ◌∙◌, subst, inl, inr, arith, Bool-cases,
}
use nlang_tools.Poset.{ValRelation, successors, Ranks, Queue, set_rank, raised, visit_each}

-- a rank that is known and great enough
abbrev pub AtLeast : Ranks → String → ℕ → Type 0
AtLeast ranks v k = (r : ℕ) × (ranks v ≡ some r) × (k ≤ r)

set_same : (n : String) (x : ℕ) (ranks : Ranks) → set_rank n x ranks n ≡ some x
unfolding set_rank
set_same n x ranks = ground (arith, (eq_iff n n).1 refl)

set_other :
    (n m : String) (x : ℕ) (ranks : Ranks) → str_eq n m ≡ false → set_rank n x ranks m ≡ ranks m
unfolding set_rank
set_other n m x ranks other = rw other refl

raised-greater : (o : Option ℕ) (n : ℕ) → n ≤ raised o n
raised-greater none n = omega arith
raised-greater (some c) n = ground arith

raised-keeps : (o : Option ℕ) (n r : ℕ) → o ≡ some r → r ≤ raised o n
raised-keeps none n r known = absurd (ground (arith, known))
raised-keeps (some c) n r known = ground (arith, some-injective c r known)

raised-cases : (o : Option ℕ) (n : ℕ) → (raised o n ≡ n) ⊎ (o ≡ some (raised o n))
raised-cases none n = inl refl
raised-cases (some c) n = elim (Bool-cases (ltb c n)) [
  | inl less ↦ inl (rw less refl)
  | inr more ↦ inr (rw more refl)
]

AtLeast-set :
    (ranks : Ranks) (v w : String) (n k : ℕ)
    → AtLeast ranks w k
    → AtLeast (set_rank v (raised (ranks v) n) ranks) w k
AtLeast-set ranks v w n k (r, known, enough) = elim (Bool-cases (str_eq v w)) [
  | inl same ↦
      subst (λ e. AtLeast (set_rank v (raised (ranks v) n) ranks) e k) ((eq_iff v w).0 same)
        (
          raised (ranks v) n,
          set_same v (raised (ranks v) n) ranks,
          omega
              (arith, enough, raised-keeps (ranks v) n r (ap ranks ((eq_iff v w).0 same) ∙ known)),
        )
  | inr other ↦ (r, set_other v w (raised (ranks v) n) ranks other ∙ known, enough)
]

pub AtLeast-visit :
    (vs : List String) (n : ℕ) (ranks : Ranks) (queue : Queue) (w : String) (k : ℕ)
    → AtLeast ranks w k
    → AtLeast (visit_each vs n ranks queue).0 w k
unfolding visit_each
AtLeast-visit [] n ranks queue w k enough = enough
AtLeast-visit (v ∷ vs) n ranks queue w k enough =
    AtLeast-visit vs n (set_rank v (raised (ranks v) n) ranks)
      (queue ++ ((v, raised (ranks v) n) ∷ [])) w k (AtLeast-set ranks v w n k enough)

Carried-here :
    (v : String) (vs : List String) (n r : ℕ) (ranks : Ranks) (z : String)
    → In z (v ∷ vs)
    → suc r ≤ n
    → (In z vs × (suc r ≤ n)) ⊎ AtLeast (set_rank v (raised (ranks v) n) ranks) z (suc r)
Carried-here v vs n r ranks z first less = inr (
  raised (ranks v) n,
  set_same v (raised (ranks v) n) ranks,
  omega (arith, less, raised-greater (ranks v) n),
)
Carried-here v vs n r ranks z (later there) less = inl (there, less)

-- what was to be visited has been, or is still to be
Carried-next :
    (v : String) (vs : List String) (n r : ℕ) (ranks : Ranks) (z : String)
    → (In z (v ∷ vs) × (suc r ≤ n)) ⊎ AtLeast ranks z (suc r)
    → (In z vs × (suc r ≤ n)) ⊎ AtLeast (set_rank v (raised (ranks v) n) ranks) z (suc r)
Carried-next v vs n r ranks z (inl (there, less)) = Carried-here v vs n r ranks z there less
Carried-next v vs n r ranks z (inr enough) = inr (AtLeast-set ranks v z n (suc r) enough)

module _ (relations : List ValRelation) (starts : List String) (c : ℕ) where
  -- the walks along the edges, with `c` and their number of edges
  pub data Walk : String → ℕ → Type 0 where
    start : {s : String} → In s starts → Walk s c
    step : {u v : String} {r : ℕ} → Walk u r → In v (successors relations u) → Walk v (suc r)

  abbrev pub Sound : Ranks → Queue → Type 0
  Sound ranks queue =
      ((v : String) (r : ℕ) → ranks v ≡ some r → Walk v r)
      × ((v : String) (r : ℕ) → In (v, r) queue → Walk v r)

  pub visit_each-Sound :
      (vs : List String) (n : ℕ) (ranks : Ranks) (queue : Queue)
      → ((v : String) → In v vs → Walk v n)
      → Sound ranks queue
      → Sound (visit_each vs n ranks queue).0 (visit_each vs n ranks queue).1
  unfolding visit_each
  visit_each-Sound [] n ranks queue reached sound = sound
  visit_each-Sound (v ∷ vs) n ranks queue reached (by_rank, by_queue) =
      let new_walk : Walk v (raised (ranks v) n) = elim (raised-cases (ranks v) n) [
        | inl fresh ↦ subst (Walk v) (sym fresh) (reached v first)
        | inr kept ↦ by_rank v (raised (ranks v) n) kept
      ] in
      visit_each-Sound vs n (set_rank v (raised (ranks v) n) ranks)
        (queue ++ ((v, raised (ranks v) n) ∷ [])) (λ w there. reached w (later there))
        (
          λ w r known. elim (Bool-cases (str_eq v w)) [
            | inl same ↦
                let at_v : some (raised (ranks v) n) ≡ some r =
                  sym (set_same v (raised (ranks v) n) ranks)
                  ∙ ap (set_rank v (raised (ranks v) n) ranks) ((eq_iff v w).0 same)
                  ∙ known in
                subst (λ e. Walk e r) ((eq_iff v w).0 same)
                  (subst (Walk v) (some-injective (raised (ranks v) n) r at_v) new_walk)
            | inr other ↦ by_rank w r (sym (set_other v w (raised (ranks v) n) ranks other) ∙ known)
          ],
          λ w r there. elim (In-append (w, r) queue ((v, raised (ranks v) n) ∷ []) there) [
            | inl before ↦ by_queue w r before
            | inr last ↦
                let at_v = In-one (w, r) (v, raised (ranks v) n) last in
                subst (λ e. Walk e.0 e.1) (sym at_v) new_walk
          ],
        )

  -- Each rank is on the queue, or it has been carried on to the successors, but for those that are
  -- still to be visited.
  abbrev pub Carried : List String → ℕ → Ranks → Queue → Type 0
  Carried vs n ranks queue =
      (v : String) (r : ℕ)
      → ranks v ≡ some r
      → In (v, r) queue
        ⊎ ((w : String)
            → In w (successors relations v)
            → (In w vs × (suc r ≤ n)) ⊎ AtLeast ranks w (suc r))

  pub visit_each-Carried :
      (vs : List String) (n : ℕ) (ranks : Ranks) (queue : Queue)
      → Carried vs n ranks queue
      → Carried [] n (visit_each vs n ranks queue).0 (visit_each vs n ranks queue).1
  unfolding visit_each
  visit_each-Carried [] n ranks queue carried = carried
  visit_each-Carried (v ∷ vs) n ranks queue carried =
      let x = raised (ranks v) n in
      visit_each-Carried vs n (set_rank v x ranks) (queue ++ ((v, x) ∷ [])) (λ w r known.
        elim (Bool-cases (str_eq v w)) [
          | inl same ↦
              let at_v : some x ≡ some r =
                sym (set_same v x ranks) ∙ ap (set_rank v x ranks) ((eq_iff v w).0 same) ∙ known in
              inl (
                subst (λ e. In (e, r) (queue ++ ((v, x) ∷ []))) ((eq_iff v w).0 same)
                  (subst (λ e. In (v, e) (queue ++ ((v, x) ∷ []))) (some-injective x r at_v)
                    (append-last (v, x) queue)))
          | inr other ↦ elim (carried w r (sym (set_other v w x ranks other) ∙ known)) [
            | inl before ↦ inl (append-left (w, r) queue ((v, x) ∷ []) before)
            | inr on ↦ inr (λ z joined. Carried-next v vs n r ranks z (on z joined))
          ]
        ])
