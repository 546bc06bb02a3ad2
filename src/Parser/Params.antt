-- ===== src/Parser/Params.antt =====
-- crates/parser/src/lib.rs: a morphism with several parameters, `x y z -> body`, is the curried
-- one.
pub mod Currying
use nlang_tools.Prelude.{
  ℕ, ◌+◌, ◌≤◌, ◌≡◌, refl, ap, Bool, true, false, ◌&&◌, ◌==◌, leb, if◌then◌else◌, Option, none, some,
  List, [], ◌∷◌, ◌++◌, append_assoc, append-nil, length, String, arith,
}
use mathlib.Core.List.{reverse, foldl}
use nlang_tools.Parser.Ast.{
  Span, AstPath, PathAnchor, BinaryOp, Expr, ExprKind, node, path, binary, morphism,
}

abbrev pub is_bare : PathAnchor → Bool
is_bare PathAnchor.bare = true
is_bare _ = false

-- `p.anchor == PathAnchor::Bare && p.segments.len() == 1`
unfoldable pub is_bare_name : AstPath → Bool
is_bare_name p = is_bare p.anchor && length p.segments == 1

abbrev append_leaves : Option (List Expr) → Option (List Expr) → Option (List Expr)
append_leaves none right = none
append_leaves (some left) none = none
append_leaves (some left) (some right) = some (left ++ right)

unfoldable mutual
  unfolding is_bare_name

  pub collect_bare_path_apply_chain : Expr → Option (List Expr)
  collect_bare_path_apply_chain (node k s) = collect_in_kind k s

  pub collect_in_kind : ExprKind → Span → Option (List Expr)
  collect_in_kind (path p) s = if is_bare_name p then some (node (path p) s ∷ []) else none
  collect_in_kind (binary BinaryOp.apply f a) s =
      append_leaves (collect_bare_path_apply_chain f) (collect_bare_path_apply_chain a)
  collect_in_kind _ s = none

abbrev pub under : Span → Expr → Expr → Expr
under span res p = node (morphism p res) span

-- the loop over the parameters, last one first
unfoldable pub curry : List Expr → Expr → Span → Expr
curry params body span = foldl (under span) body (reverse params)

unfoldable pub fold_multiparam : Expr → Expr → Span → Expr
unfolding collect_bare_path_apply_chain curry
fold_multiparam param body span = elim (collect_bare_path_apply_chain param) [
  | none ↦ node (morphism param body) span
  | some params ↦
      if leb 2 (length params) then curry params body span else node (morphism param body) span
]
