-- ===== src/Parser/Depth/Fence.antt =====
-- The fence is exact: the worklist walk ends, and says whether the tree has more levels than the
-- limit; a refused tree is dismantled to the last node.
use nlang_tools.Prelude.{
  ℕ, ◌+◌, ◌≤◌, ◌<◌, ◌≡◌, refl, ap, ◌∙◌, some, [], ◌∷◌, ◌⊎◌, inl, inr, arith, Bool-cases,
  if◌then◌else◌, zero, suc, max, ltb,
}
use nlang_tools.Parser.Ast.{
  Expr, Fields, FieldKey, Program, node, no_fields, and_field, field, named, quoted, pattern_key,
  path_key,
}
use nlang_tools.Parser.Depth.Size.{size, depth, depth_kind, depth_fields, depth_key}
use nlang_tools.Parser.Depth.{
  parser_ast_depth_limit, admitted, nesting_limit_exceeded, Pending, push_children, exceeds_loop,
  expr_exceeds_ast_depth, key_exceeds_ast_depth, fields_exceed_ast_depth, program_exceeds_ast_depth,
  Owned, own_fields, own_children, drop_exprs_iteratively, drop_program_iteratively,
  parser_ast_gate_expr, parser_ast_gate_program,
}
use nlang_tools.Parser.Depth.Weight.{
  weight, weight_owned, deepest, weight-push_children, Deepens-push_children, weight-own_children,
  weight-own_fields,
}

ltb_cong : (a x y : ℕ) → (a < x → a < y) → (a < y → a < x) → ltb a x ≡ ltb a y
ltb_cong a x y f g = ground arith

-- one round that does not stop the walk keeps the question open
deepest-round :
    (l d n before after : ℕ)
    → d ≤ l
    → (before ≤ after) × (after ≤ max (d + 1 + n) before) × ((n ≡ 0) ⊎ (d + 1 + n ≤ after))
    → ltb (l + 1) after ≡ ltb (l + 1) (max (d + suc n) before)
deepest-round l d n before after h (low, high, reached) =
    ltb_cong (l + 1) after (max (d + suc n) before) (λ k. omega arith) (λ k. omega arith)

exceeds_loop_lem :
    (fuel : ℕ) (p : Pending)
    → weight p ≤ fuel
    → exceeds_loop fuel p ≡ some (ltb (parser_ast_depth_limit + 1) (deepest p))
unfolding exceeds_loop size depth
exceeds_loop_lem zero [] h = refl
exceeds_loop_lem zero ((node k s, d) ∷ p) h = absurd (omega arith)
exceeds_loop_lem (suc fuel) [] h = refl
exceeds_loop_lem (suc fuel) ((node k s, d) ∷ p) h =
    elim (Bool-cases (ltb parser_ast_depth_limit d)) [
      | inl over ↦ rw over (ap some (ground arith))
      | inr under ↦
          let ih =
            exceeds_loop_lem fuel (push_children k (d + 1) p)
              (omega (arith, weight-push_children k (d + 1) p)) in
          rw under (
            ih
            ∙ ap some (
                deepest-round parser_ast_depth_limit d (depth_kind k) (deepest p) _ (ground arith)
                  (Deepens-push_children k (d + 1) p)))
    ]

-- The walk over a tree always ends with an answer, and the answer is whether the tree has more
-- levels than the limit.
pub expr_exceeds_ast_depth-depth :
    (e : Expr) → expr_exceeds_ast_depth e ≡ some (ltb parser_ast_depth_limit (depth e))
unfolding expr_exceeds_ast_depth
expr_exceeds_ast_depth-depth e =
    exceeds_loop_lem (size e) ((e, 1) ∷ []) (omega arith) ∙ ap some (ground arith)

key_exceeds-depth :
    (k : FieldKey) → key_exceeds_ast_depth k ≡ some (ltb parser_ast_depth_limit (depth_key k))
unfolding key_exceeds_ast_depth depth
key_exceeds-depth (pattern_key e) = expr_exceeds_ast_depth-depth e
key_exceeds-depth (named _ _) = refl
key_exceeds-depth (quoted _) = refl
key_exceeds-depth (path_key _) = refl

fields_exceed-depth :
    (fs : Fields) → fields_exceed_ast_depth fs ≡ some (ltb parser_ast_depth_limit (depth_fields fs))
unfolding fields_exceed_ast_depth depth
fields_exceed-depth no_fields = refl
fields_exceed-depth (and_field (field key value _) fs) =
    rw (expr_exceeds_ast_depth-depth value, key_exceeds-depth key, fields_exceed-depth fs)
      (ground arith)

-- A program is over the limit if some field's value or pattern key is.
pub program_exceeds_ast_depth-depth :
    (p : Program)
    → program_exceeds_ast_depth p ≡ some (ltb parser_ast_depth_limit (depth_fields p.fields))
unfolding program_exceeds_ast_depth
program_exceeds_ast_depth-depth p = fields_exceed-depth p.fields

-- The dismantling loop ends when its fuel is the number of nodes that wait, and by then it has
-- replaced each of those nodes once.
pub drop_exprs_iteratively-weight :
    (fuel : ℕ) (pending : Owned)
    → weight_owned pending ≤ fuel
    → drop_exprs_iteratively fuel pending ≡ some (weight_owned pending)
unfolding drop_exprs_iteratively size
drop_exprs_iteratively-weight zero [] h = refl
drop_exprs_iteratively-weight zero (node k s ∷ p) h = absurd (omega arith)
drop_exprs_iteratively-weight (suc fuel) [] h = refl
drop_exprs_iteratively-weight (suc fuel) (node k s ∷ p) h =
    rw
      (drop_exprs_iteratively-weight fuel (own_children k p)
        (omega (arith, weight-own_children k p)))
      (ap some (omega (arith, weight-own_children k p)))

drop_program-size :
    (p : Program) → drop_program_iteratively p ≡ some (weight_owned (own_fields p.fields []))
unfolding drop_program_iteratively
drop_program-size p =
    drop_exprs_iteratively-weight _ _ (omega (arith, weight-own_fields p.fields []))

-- The gate for expressions always answers: it refuses exactly the trees that have more levels
-- than the limit, and passes every other tree on unchanged.
pub parser_ast_gate_expr-depth :
    (e : Expr)
    → parser_ast_gate_expr e
      ≡ some (if ltb parser_ast_depth_limit (depth e) then nesting_limit_exceeded else admitted e)
unfolding parser_ast_gate_expr
parser_ast_gate_expr-depth e =
    rw
      (
        expr_exceeds_ast_depth-depth e,
        drop_exprs_iteratively-weight (size e) (e ∷ []) (omega arith),
      )
      (ground arith)

-- The gate for programs always answers: it refuses exactly those that hold a value or a pattern
-- key with more levels than the limit, and passes every other program on unchanged.
pub parser_ast_gate_program-depth :
    (p : Program)
    → parser_ast_gate_program p
      ≡ some (
          if ltb parser_ast_depth_limit (depth_fields p.fields)
          then nesting_limit_exceeded
          else admitted p)
unfolding parser_ast_gate_program
parser_ast_gate_program-depth p =
    rw (program_exceeds_ast_depth-depth p, drop_program-size p) (ground arith)
