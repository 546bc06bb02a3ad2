-- ===== src/Nlint/Context/Edges.antt =====
-- crates/oo/src/nlint.rs: two contexts are joined exactly if they share a coordinate.
use nlang_tools.Prelude.{
  ℕ, zero, suc, ◌<◌, ◌==◌, ==_iff, String, Bool, true, false, not, ◌||◌, ◌&&◌, List, [], ◌∷◌,
  length, replicate, length-replicate, ◌≡◌, refl, ap, sym, ◌∙◌, arith, Bool-cases, inl, inr,
}
use nlang_tools.Nlint.Cliques.{mem, neighbors}
use nlang_tools.Nlint.Context.{
  ContextNode, insert_into, incidence_of, Graph, join_pair, join_each, join_all, join_owners,
  context_graph,
}
use nlang_tools.Nlint.Context.Owners.{
  length-insert_into, mem-insert_into, neighbors-replicate, holds, own_of, mem-incidence_of,
}
use nlang_tools.Nlint.Context.Sorted.{IsSorted, head_once, AllSorted, incidence_of-AllSorted}

pub length-join_pair : (a b : ℕ) (g : Graph) → length (join_pair a b g).0 ≡ length g.0
unfolding join_pair
length-join_pair a b g = length-insert_into (insert_into g.0 a b) b a ∙ length-insert_into g.0 a b

pub mem-join_pair :
    (a b : ℕ) (g : Graph) (x y : ℕ)
    → a < length g.0
    → b < length g.0
    → mem y (neighbors (join_pair a b g).0 x)
      ≡ ((a == x && b == y) || ((b == x && a == y) || mem y (neighbors g.0 x)))
unfolding join_pair
mem-join_pair a b g x y a_in b_in = ground (
  arith,
  mem-insert_into (insert_into g.0 a b) b a x y (omega (arith, b_in, length-insert_into g.0 a b)),
  mem-insert_into g.0 a b x y a_in,
)

length-join_each : (a : ℕ) (bs : List ℕ) (g : Graph) → length (join_each a bs g).0 ≡ length g.0
unfolding join_each
length-join_each a [] g = refl
length-join_each a (b ∷ bs) g = length-join_each a bs (join_pair a b g) ∙ length-join_pair a b g

length-join_all : (cs : List ℕ) (g : Graph) → length (join_all cs g).0 ≡ length g.0
unfolding join_all
length-join_all [] g = refl
length-join_all (a ∷ cs) g = length-join_all cs (join_each a cs g) ∙ length-join_each a cs g

length-join_owners :
    (owners : List (List ℕ)) (g : Graph) → length (join_owners owners g).0 ≡ length g.0
unfolding join_owners
length-join_owners [] g = refl
length-join_owners (cs ∷ owners) g =
    length-join_owners owners (join_all cs g) ∙ length-join_all cs g

abbrev Inside : ℕ → List ℕ → Type 0
Inside n cs = (e : ℕ) → mem e cs ≡ true → e < n

mem-join_each :
    (a : ℕ) (bs : List ℕ) (g : Graph) (x y : ℕ)
    → a < length g.0
    → Inside (length g.0) bs
    → mem y (neighbors (join_each a bs g).0 x)
      ≡ ((a == x && mem y bs) || ((a == y && mem x bs) || mem y (neighbors g.0 x)))
unfolding join_each
mem-join_each a [] g x y a_in inside = ground arith
mem-join_each a (b ∷ bs) g x y a_in inside =
    let b_in : b < length g.0 = inside b (ground (arith, (==_iff b b).1 refl)) in
    ground (
      arith,
      mem-join_each a bs (join_pair a b g) x y (omega (arith, a_in, length-join_pair a b g))
          (λ e listed. omega (arith, length-join_pair a b g, inside e (ground (arith, listed)))),
      mem-join_pair a b g x y a_in b_in,
    )

-- both nodes are listed, and they are not the same
abbrev pub together : ℕ → ℕ → List ℕ → Bool
together x y cs = mem x cs && (mem y cs && not (x == y))

together-first :
    (a x y : ℕ) (cs : List ℕ)
    → mem a cs ≡ false
    → together x y (a ∷ cs) ≡ ((a == x && mem y cs) || ((a == y && mem x cs) || together x y cs))
together-first a x y cs once = elim (Bool-cases (a == x)) [
  | inl first ↦
      let x_once : mem x cs ≡ false = ap (λ e. mem e cs) (sym ((==_iff a x).0 first)) ∙ once in
      elim (Bool-cases (a == y)) [
        | inl second ↦
            let y_once : mem y cs ≡ false =
              ap (λ e. mem e cs) (sym ((==_iff a y).0 second)) ∙ once in
            ground (arith, first, second, x_once, y_once)
        | inr other ↦ ground (arith, first, other, x_once)
      ]
  | inr other ↦ elim (Bool-cases (a == y)) [
    | inl second ↦
        let y_once : mem y cs ≡ false = ap (λ e. mem e cs) (sym ((==_iff a y).0 second)) ∙ once in
        ground (arith, other, second, y_once)
    | inr neither ↦ ground (arith, other, neither)
  ]
]

mem-join_all :
    (cs : List ℕ) (g : Graph) (x y : ℕ)
    → IsSorted cs
    → Inside (length g.0) cs
    → mem y (neighbors (join_all cs g).0 x) ≡ (together x y cs || mem y (neighbors g.0 x))
unfolding join_all
mem-join_all [] g x y sorted inside = refl
mem-join_all (a ∷ cs) g x y sorted inside =
    let a_in : a < length g.0 = inside a (ground (arith, (==_iff a a).1 refl)) in
    ground (
      arith,
      mem-join_all cs (join_each a cs g) x y sorted.1
          (λ e listed. omega (arith, length-join_each a cs g, inside e (ground (arith, listed)))),
      mem-join_each a cs g x y a_in (λ e listed. inside e (ground (arith, listed))),
      together-first a x y cs (head_once a cs sorted),
    )

-- some set lists both
abbrev pub any_together : ℕ → ℕ → List (List ℕ) → Bool
any_together x y [] = false
any_together x y (cs ∷ owners) = together x y cs || any_together x y owners

mem-join_owners :
    (owners : List (List ℕ)) (g : Graph) (x y : ℕ)
    → AllSorted owners
    → ((k : ℕ) → Inside (length g.0) (neighbors owners k))
    → mem y (neighbors (join_owners owners g).0 x)
      ≡ (any_together x y owners || mem y (neighbors g.0 x))
unfolding join_owners
mem-join_owners [] g x y sorted inside = refl
mem-join_owners (cs ∷ owners) g x y sorted inside = ground (
  arith,
  mem-join_owners owners (join_all cs g) x y (λ k. sorted (suc k))
      (λ k e listed. omega (arith, length-join_all cs g, inside (suc k) e listed)),
  mem-join_all cs g x y (sorted 0) (inside 0),
)

pub any_together-index :
    (x y : ℕ) (owners : List (List ℕ))
    → any_together x y owners ≡ true
    → (k : ℕ) × (together x y (neighbors owners k) ≡ true)
any_together-index x y [] h = absurd (ground (arith, h))
any_together-index x y (cs ∷ owners) h = elim (Bool-cases (together x y cs)) [
  | inl first ↦ (0, first)
  | inr other ↦
      let (k, later) = any_together-index x y owners (ground (arith, h, other)) in (suc k, later)
]

pub index-any_together :
    (x y : ℕ) (owners : List (List ℕ)) (k : ℕ)
    → together x y (neighbors owners k) ≡ true
    → any_together x y owners ≡ true
index-any_together x y [] k h = absurd (ground (arith, h))
index-any_together x y (cs ∷ owners) zero h = ground (arith, h)
index-any_together x y (cs ∷ owners) (suc k) h = ground (arith, index-any_together x y owners k h)

own_of-inside :
    (contexts : List ContextNode) (coords : List String) (k e : ℕ)
    → holds coords k (own_of contexts e) ≡ true
    → e < length contexts
own_of-inside [] coords k e h = absurd (ground (arith, h))
own_of-inside (ctx ∷ contexts) coords k zero h = omega arith
own_of-inside (ctx ∷ contexts) coords k (suc e) h =
    omega (arith, own_of-inside contexts coords k e h)

pub length-context_graph :
    (coords : List String) (contexts : List ContextNode)
    → length (context_graph coords contexts).0 ≡ length contexts
unfolding context_graph
length-context_graph coords contexts =
    length-join_owners (incidence_of coords contexts).coord_to_contexts
      (replicate (length contexts) [], 0)
    ∙ length-replicate (length contexts) []

module _ (coords : List String) (contexts : List ContextNode) where
  abbrev pub owners : List (List ℕ)
  owners = (incidence_of coords contexts).coord_to_contexts

  owners-Inside : (k : ℕ) → Inside (length contexts) (neighbors owners k)
  owners-Inside k e listed =
      own_of-inside contexts coords k e (sym (mem-incidence_of coords contexts k e) ∙ listed)

  pub context_graph-together :
      (a b : ℕ) → mem b (neighbors (context_graph coords contexts).0 a) ≡ any_together a b owners
  unfolding context_graph
  context_graph-together a b =
      let none_yet : mem b (neighbors (replicate (length contexts) []) a) ≡ false =
        ap (mem b) (neighbors-replicate (length contexts) a) in
      ground (
        arith,
        none_yet,
        mem-join_owners owners (replicate (length contexts) [], 0) a b
            (incidence_of-AllSorted coords contexts)
            (λ k e listed. omega (
              arith,
              length-replicate {A = List ℕ} (length contexts) [],
              owners-Inside k e listed,
            )),
      )
