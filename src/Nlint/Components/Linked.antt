-- ===== src/Nlint/Components/Linked.antt =====
-- crates/oo/src/nlint.rs: the components of the context graph are the groups of contexts that
-- shared coordinates link.
use nlang_tools.Prelude.{
  ℕ, ◌<◌, ◌==◌, ==_iff, String, true, List, [], ◌∷◌, length, some, ◌≡◌, ◌⊎◌, sym, inl, inr, arith,
  Bool-cases, subst,
}
use nlang_tools.Nlint.Cliques.{mem}
use nlang_tools.Nlint.Components.{count_components}
use nlang_tools.Nlint.Components.Flood.{Reaches, here, edge}
use nlang_tools.Nlint.Context.{ContextNode, context_graph}
use nlang_tools.Nlint.Context.Shared.{Shares, context_graph-Shares}
use nlang_tools.Nlint.Context.Edges.{length-context_graph}
use nlang_tools.Nlint.Components.Groups.{Apart, count_components-Reaches}

module _ (coords : List String) (contexts : List ContextNode) where
  -- a chain of contexts, each of which shares a coordinate with the next
  pub data Linked : ℕ → ℕ → Type 0 where
    same_context : {a : ℕ} → Linked a a
    shared : {a b c : ℕ} → Shares coords contexts a b → Linked b c → Linked a c

  Reaches-Linked : (a b : ℕ) → Reaches (context_graph coords contexts).0 a b → Linked a b
  Reaches-Linked a b here = same_context
  Reaches-Linked a b (edge {b = c} joined way) =
      shared ((context_graph-Shares coords contexts a c).0 joined).1 (Reaches-Linked c b way)

  Linked-Reaches : (a b : ℕ) → Linked a b → Reaches (context_graph coords contexts).0 a b
  Linked-Reaches a b same_context = here
  Linked-Reaches a b (shared {b = c} sharing way) = elim (Bool-cases (a == c)) [
    | inl same ↦
        subst (λ e. Reaches (context_graph coords contexts).0 e b) (sym ((==_iff a c).0 same))
          (Linked-Reaches c b way)
    | inr differ ↦
        edge ((context_graph-Shares coords contexts a c).1 (differ, sharing))
          (Linked-Reaches c b way)
  ]

  Linked-append : (a b c : ℕ) → Linked a b → Linked b c → Linked a c
  Linked-append a b c same_context rest = rest
  Linked-append a b c (shared {b = d} sharing way) rest =
      shared sharing (Linked-append d b c way rest)

  Linked-sym : (a b : ℕ) → Linked a b → Linked b a
  Linked-sym a b same_context = same_context
  Linked-sym a b (shared {b = d} (name, known, in_a, in_d) way) =
      Linked-append b d a (Linked-sym d b way) (shared (name, known, in_d, in_a) same_context)

  Apart-Linked :
      (reps : List ℕ)
      → Apart (Reaches (context_graph coords contexts).0) reps
      → Apart (λ a b. Linked a b ⊎ Linked b a) reps
  Apart-Linked [] apart = tt
  Apart-Linked (s ∷ reps) (alone, apart) = (
    λ r listed link. alone r listed (elim link [
      | inl way ↦ Linked-Reaches r s way
      | inr back ↦ Linked-Reaches r s (Linked-sym s r back)
    ]),
    Apart-Linked reps apart,
  )

  -- The count of components ends, and it is the length of a list of contexts of which no two are
  -- linked by chains of shared coordinates, in either direction, while each context is linked with
  -- one of them.
  pub count_components-Linked :
      (reps : List ℕ) × (count_components (context_graph coords contexts).0 ≡ some (length reps))
      × Apart (λ a b. Linked a b ⊎ Linked b a) reps
      × ((r : ℕ) → mem r reps ≡ true → r < length contexts)
      × ((x : ℕ) → x < length contexts → (r : ℕ) × (mem r reps ≡ true) × Linked r x)
  count_components-Linked =
      let (reps, count, apart, among, covered) =
        count_components-Reaches (context_graph coords contexts).0 in
      (
        reps,
        count,
        Apart-Linked reps apart,
        λ r listed. omega (arith, among r listed, length-context_graph coords contexts),
        λ x inside.
            let (r, listed, way) =
              covered x (omega (arith, inside, length-context_graph coords contexts)) in
            (r, listed, Reaches-Linked r x way),
      )
