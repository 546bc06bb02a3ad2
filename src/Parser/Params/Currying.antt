-- ===== src/Parser/Params/Currying.antt =====
-- A multi-parameter morphism is the curried one.
use nlang_tools.Prelude.{
  ℕ, suc, leb, if◌then◌else◌, arith, ◌≡◌, refl, ap, ◌∙◌, none, some, List, [], ◌∷◌, ◌++◌,
  append_assoc, append-nil, length,
}
use mathlib.Core.List.{reverse, reverse-cons, foldl-append}
use nlang_tools.Parser.Ast.{Span, BinaryOp, Expr, node, binary, morphism}
use nlang_tools.Parser.Params.{collect_bare_path_apply_chain, under, curry, fold_multiparam}

-- A juxtaposition of names, rest the grammar builds it: from the left, whatever the spans.
abbrev pub chain : Expr → List (Expr × Span) → Expr
chain f [] = f
chain f ((a, s) ∷ rest) = chain (node (binary BinaryOp.apply f a) s) rest

abbrev pub names : List (Expr × Span) → List Expr
names [] = []
names ((a, _) ∷ rest) = a ∷ names rest

-- Each is a lone bare name.
abbrev pub BareNames : List (Expr × Span) → Type 0
BareNames [] = Unit
BareNames ((a, _) ∷ rest) = (collect_bare_path_apply_chain a ≡ some (a ∷ [])) × BareNames rest

collect-chain :
    (f : Expr) (fs : List Expr) (rest : List (Expr × Span))
    → collect_bare_path_apply_chain f ≡ some fs
    → BareNames rest
    → collect_bare_path_apply_chain (chain f rest) ≡ some (fs ++ names rest)
collect-chain f fs [] h bare = rw append-nil h
collect-chain f fs ((a, s) ∷ rest) h (bare_a, bare) =
    rw
      (collect-chain (node (binary BinaryOp.apply f a) s) (fs ++ a ∷ []) rest
        (unfold collect_bare_path_apply_chain in rw (h, bare_a)) bare)
      (ap some (append_assoc fs (a ∷ []) (names rest)))

-- the body under its parameters, outermost first
abbrev pub nested : List Expr → Expr → Span → Expr
nested [] body span = body
nested (p ∷ ps) body span = node (morphism p (nested ps body span)) span

curry-nested :
    (ps : List Expr) (body : Expr) (span : Span) → curry ps body span ≡ nested ps body span
unfolding curry
curry-nested [] body span = refl
curry-nested (p ∷ ps) body span = rw (reverse-cons p ps) (
    foldl-append (under span) body (reverse ps) (p ∷ [])
    ∙ ap (λ (e : Expr). node (morphism p e) span) (curry-nested ps body span))

-- A parameter that is a juxtaposition of two or more bare names, as the grammar builds it from
-- the left, gives the curried morphism: one parameter after another, in the order written.
pub fold_multiparam-chain :
    (f a : Expr) (s : Span) (rest : List (Expr × Span)) (body : Expr) (span : Span)
    → collect_bare_path_apply_chain f ≡ some (f ∷ [])
    → BareNames ((a, s) ∷ rest)
    → fold_multiparam (chain f ((a, s) ∷ rest)) body span ≡ nested (f ∷ a ∷ names rest) body span
unfolding fold_multiparam
fold_multiparam-chain f a s rest body span h bare =
    rw (collect-chain f (f ∷ []) ((a, s) ∷ rest) h bare, fold_multiparam)
      (two (length (names rest)) ∙ curry-nested (f ∷ a ∷ names rest) body span)
  where
    two :
        (n : ℕ)
        → (if leb 2 (suc (suc n))
            then curry (f ∷ a ∷ names rest) body span
            else node (morphism (chain f ((a, s) ∷ rest)) body) span)
          ≡ curry (f ∷ a ∷ names rest) body span
    two n = ground arith

-- A parameter that is no such juxtaposition is kept whole.
pub fold_multiparam-other :
    (param body : Expr) (span : Span)
    → collect_bare_path_apply_chain param ≡ none
    → fold_multiparam param body span ≡ node (morphism param body) span
unfolding fold_multiparam
fold_multiparam-other param body span h = rw (h, fold_multiparam)
