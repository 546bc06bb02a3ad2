-- ===== src/Parser/Tests.antt =====
-- The parser's passes on small trees and texts, and its theorems at concrete inputs.
use nlang_tools.Prelude.{
  ◌↔◌, true, ℕ, ◌≡◌, refl, false, none, some, List, [], ◌∷◌, ◌++◌, replicate, ltb, if◌then◌else◌,
  arith,
}
use nlang_tools.Parser.Ast.{
  Span, PathAnchor, pos, int, BinaryOp, Expr, Program, node, atom, path, binary, combo, context,
  no_fields, and_field, field, named, pattern_key,
}
use nlang_tools.Parser.Tier.Form.{in_q}
use nlang_tools.Parser.Tier.{has_free_dollar, classify_tier}
use nlang_tools.Parser.Tier.Positive.{Tiered, classify_tier-Tiered}
use nlang_tools.Parser.Tier.Scope.{IsFree, has_free_dollar-IsFree}
use nlang_tools.Parser.Depth.Size.{size, depth}
use nlang_tools.Parser.Depth.{
  admitted, nesting_limit_exceeded, parser_ast_depth_limit, drop_exprs_iteratively,
  parser_ast_gate_expr,
}
use nlang_tools.Parser.Depth.Weight.{weight_owned}
use nlang_tools.Parser.Depth.Fence.{drop_exprs_iteratively-weight, parser_ast_gate_expr-depth}
use nlang_tools.Parser.Nesting.{exceeds_parser_nesting_limit}
use nlang_tools.Parser.Nesting.Bound.{exceeds-opening_bytes}
use nlang_tools.Parser.Params.{collect_bare_path_apply_chain}
use nlang_tools.Parser.Address.{decoded, decode_digest_hex}

abbrev at : ℕ → ℕ → Span
at a b = record { start = a; end = b }

abbrev one : Expr
one = node (atom (int (pos 1))) (at 5 6)

-- `x`
abbrev name : Expr
name =
    node (path (record { anchor = PathAnchor.bare; segments = "x" ∷ []; span = at 0 1 })) (at 0 1)

-- `$`
abbrev dollar : Expr
dollar = node context (at 0 1)

-- `$ + 1`
abbrev plus_one : Expr
plus_one = node (binary BinaryOp.add dollar one) (at 0 6)

-- `{ a: $ + 1 }`
abbrev transformer : Expr
transformer =
    node (combo (and_field (field (named none "a") plus_one (at 2 9)) no_fields) [] false) (at 0 11)

abbrev program : Program
program = record { fields = and_field (field (pattern_key one) transformer (at 0 20)) no_fields }

tier-transformer : classify_tier transformer ≡ (in_q, some "Add `+` (arithmetic) at span 0..6")
unfolding classify_tier
tier-transformer = refl

depth-transformer : depth transformer ≡ 3
unfolding depth
depth-transformer = refl

gate-transformer : parser_ast_gate_expr transformer ≡ some (admitted transformer)
unfolding parser_ast_gate_expr size
gate-transformer = refl

-- `{{ ( }` opens two and closes none
scan-text : exceeds_parser_nesting_limit (b'{' ∷ b'{' ∷ b'(' ∷ b'}' ∷ []) ≡ some false
unfolding exceeds_parser_nesting_limit
scan-text = refl

parser_ast_gate_expr-depth_example :
    parser_ast_gate_expr transformer
    ≡ some (
        if ltb parser_ast_depth_limit (depth transformer)
        then nesting_limit_exceeded
        else admitted transformer)
parser_ast_gate_expr-depth_example = parser_ast_gate_expr-depth transformer

drop_exprs_iteratively-weight_example :
    drop_exprs_iteratively 9 (transformer ∷ one ∷ []) ≡ some (weight_owned (transformer ∷ one ∷ []))
unfolding size
drop_exprs_iteratively-weight_example =
    drop_exprs_iteratively-weight 9 (transformer ∷ one ∷ []) (omega arith)

exceeds-opening_bytes_example : exceeds_parser_nesting_limit (b'(' ∷ b'"' ∷ []) ≡ some false
exceeds-opening_bytes_example = exceeds-opening_bytes (b'(' ∷ b'"' ∷ []) (omega arith)

has_free_dollar-IsFree_example : (has_free_dollar transformer ≡ true) ↔ IsFree transformer
has_free_dollar-IsFree_example = has_free_dollar-IsFree transformer

classify_tier-Tiered_example : Tiered transformer (classify_tier transformer)
classify_tier-Tiered_example = classify_tier-Tiered transformer

name_is_bare : collect_bare_path_apply_chain name ≡ some (name ∷ [])
unfolding collect_bare_path_apply_chain
name_is_bare = refl

abbrev digest : List ℕ
digest = replicate 31 0 ++ 255 ∷ []

-- 64 times the digit 7
reads_sevens : decode_digest_hex (replicate 64 b'7') ≡ decoded (replicate 32 0x77)
unfolding decode_digest_hex
reads_sevens = refl
