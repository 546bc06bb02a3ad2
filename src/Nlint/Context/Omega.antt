-- ===== src/Nlint/Context/Omega.antt =====
-- crates/oo/src/nlint.rs: `omega` is the number of contexts in a greatest clique.
use nlang_tools.Prelude.{
  ℕ, ◌≤◌, ◌==◌, leb, String, Bool, true, false, List, [], ◌∷◌, length, All, ◌≡◌, refl, ◌∙◌, arith,
  Bool-cases, inl, inr,
}
use nlang_tools.Nlint.Cliques.{mem, bron_kerbosch}
use nlang_tools.Nlint.Cliques.Sound.{IsClique, IsMaximal, bron_kerbosch-IsMaximal}
use nlang_tools.Nlint.Cliques.Complete.{Found, here, further}
use nlang_tools.Nlint.Context.{ContextNode, context_graph, max_len, omega_of}
use nlang_tools.Nlint.Context.Sorted.{IsSorted}
use nlang_tools.Nlint.Context.Edges.{length-context_graph}
use nlang_tools.Nlint.Context.Shared.{
  Shares, context_graph-Shares, context_graph-IsSymmetric, context_graph-IsIrreflexive,
}
use nlang_tools.Nlint.Context.Listed.{Nodes, IsSetOf, bron_kerbosch-sets}
use nlang_tools.Nlint.Context.Grown.{length-within, bron_kerbosch-covers}

max_len-Found :
    (s : ℕ → Bool) (c : List ℕ) (cs : List (List ℕ))
    → IsSorted c
    → ((e : ℕ) → mem e c ≡ true → s e ≡ true)
    → Found [] s cs
    → length c ≤ max_len cs
unfolding max_len
max_len-Found s c _ sorted within (here d cs same) =
    omega (arith, length-within c d sorted (λ e h. same e ∙ within e h))
max_len-Found s c _ sorted within (further d cs found) =
    omega (arith, max_len-Found s c cs sorted within found)

-- the greatest length is that of a member, or 0
max_len-attained :
    (P : List ℕ → Type 0) (cs : List (List ℕ))
    → All P cs
    → P []
    → (c : List ℕ) × P c × (length c ≡ max_len cs)
unfolding max_len
max_len-attained P [] all empty = ([], empty, refl)
max_len-attained P (d ∷ cs) all empty =
    let (c, holds, long) = max_len-attained P cs all.1 empty in
    elim (Bool-cases (leb (length d) (length c))) [
      | inl less ↦ (c, holds, ground (arith, less, long))
      | inr more ↦ (d, all.0, ground (arith, more, long))
    ]

All-both :
    (P Q : List ℕ → Type 0) (cs : List (List ℕ)) → All P cs → All Q cs → All (λ c. P c × Q c) cs
All-both P Q [] all both = tt
All-both P Q (c ∷ cs) all both = ((all.0, both.0), All-both P Q cs all.1 both.1)

module _ (coords : List String) (contexts : List ContextNode) where
  -- different contexts of which every two own a common coordinate
  pub record IsContextClique (c : List ℕ) : Type 0 where
    pub sorted : IsSorted c
    pub nodes : Nodes (length contexts) c
    pub sharing :
        (a b : ℕ) → mem a c ≡ true → mem b c ≡ true → (a == b) ≡ false → Shares coords contexts a b

  IsContextClique-IsClique :
      (c : List ℕ) → IsContextClique c → IsClique (context_graph coords contexts).0 c
  IsContextClique-IsClique c clique a b in_a in_b differ =
      (context_graph-Shares coords contexts a b).1 (differ, clique.sharing a b in_a in_b differ)

  IsMaximal-IsContextClique :
      (c : List ℕ)
      → IsMaximal (context_graph coords contexts).0 c
        × IsSetOf (length (context_graph coords contexts).0) c
      → IsContextClique c
  IsMaximal-IsContextClique c (maximal, set) = record {
    sorted = set.0;
    nodes = λ e listed. omega (arith, set.1 e listed, length-context_graph coords contexts);
    sharing = λ a b in_a in_b differ.
        ((context_graph-Shares coords contexts a b).0 (maximal.clique a b in_a in_b differ)).1;
  }

  All-joined :
      (cs : List (List ℕ))
      → All
          (λ c.
            IsMaximal (context_graph coords contexts).0 c
            × IsSetOf (length (context_graph coords contexts).0) c)
          cs
      → All IsContextClique cs
  All-joined [] all = tt
  All-joined (c ∷ cs) all = (IsMaximal-IsContextClique c all.0, All-joined cs all.1)

  -- A set of contexts of which every two own a common coordinate has as many members as `omega` of
  -- the context graph says, and no such set has more.
  pub omega_of-greatest :
      ((c : List ℕ) × IsContextClique c × (length c ≡ omega_of (context_graph coords contexts).0))
      × ((c : List ℕ) → IsContextClique c → length c ≤ omega_of (context_graph coords contexts).0)
  unfolding omega_of
  omega_of-greatest =
      let adj = (context_graph coords contexts).0 in
      let symmetric = context_graph-IsSymmetric coords contexts in
      (
        max_len-attained IsContextClique (bron_kerbosch adj)
            (All-joined (bron_kerbosch adj) (
              All-both (IsMaximal adj) (IsSetOf (length adj)) (bron_kerbosch adj)
                (bron_kerbosch-IsMaximal adj symmetric) (bron_kerbosch-sets adj)))
            (record {
              sorted = tt;
              nodes = λ e listed. absurd (ground (arith, listed));
              sharing = λ a b in_a in_b differ. absurd (ground (arith, in_a));
            }),
        λ c clique.
            let (s, within, found) =
              bron_kerbosch-covers adj symmetric c (context_graph-IsIrreflexive coords contexts)
                (IsContextClique-IsClique c clique)
                (λ e listed.
                  omega (arith, clique.nodes e listed, length-context_graph coords contexts)) in
            max_len-Found s c (bron_kerbosch adj) clique.sorted within found,
      )
