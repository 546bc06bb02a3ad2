-- ===== src/Parser/Depth.antt =====
-- crates/parser/src/lib.rs: the fence behind the grammar. A tree that is too deep for recursive
-- passes is found by a walk with an explicit worklist, and taken apart by another.
-- A worklist is a list whose head is the end at which the `Vec` is pushed and popped. Each loop
-- takes fuel, and `none` says that the fuel ran out.
pub mod Size
pub mod Weight
pub mod Fence
use nlang_tools.Prelude.{
  ℕ, String, ◌+◌, ◌≤◌, ◌<◌, ◌≡◌, refl, sym, ap, ap₂, ◌∙◌, Bool, true, false, ◌&&◌, ◌||◌, not,
  Option, none, some, List, [], ◌∷◌, ◌++◌, ◌↔◌, ◌⊎◌, inl, inr, arith, Bool-cases, if◌then◌else◌,
  zero, suc, max, ltb, length,
}
use nlang_tools.Parser.Ast.{
  Span, AstPath, Relation, BinaryOp, UnaryOp, Expr, ExprKind, Exprs, RangeStep, Parts, StringPart,
  Fields, Field, FieldKey, Program, node, atom, path, binary, morphism, combo, complement, ternary,
  unary, list, tuple, poset, anon_set, interpolated, range, context, spread, structural, no_exprs,
  and_expr, no_step, step, no_parts, and_part, literal, interpolation, no_fields, and_field, field,
  named, quoted, pattern_key, path_key,
}
use nlang_tools.Parser.Depth.Size.{size, size_fields}

abbrev pub parser_ast_depth_limit : ℕ
parser_ast_depth_limit = 4096

pub data Gate {ℓ} (A : Type ℓ) : Type ℓ where
  admitted : A → Gate A
  nesting_limit_exceeded : Gate A

infixl 5 ◌>>=◌
abbrev pub ◌>>=◌ {ℓ κ} : {A : Type ℓ} {B : Type κ} → Option A → (A → Option B) → Option B
none >>= f = none
some a >>= f = f a

abbrev pub Pending : Type 0
Pending = List (Expr × ℕ)

unfoldable pub push_items : Exprs → ℕ → Pending → Pending
push_items no_exprs d pending = pending
push_items (and_expr e es) d pending = push_items es d ((e, d) ∷ pending)

unfoldable pub push_parts : Parts → ℕ → Pending → Pending
push_parts no_parts d pending = pending
push_parts (and_part (literal _) ps) d pending = push_parts ps d pending
push_parts (and_part (interpolation e) ps) d pending = push_parts ps d ((e, d) ∷ pending)

unfoldable pub push_key : FieldKey → ℕ → Pending → Pending
push_key (pattern_key e) d pending = (e, d) ∷ pending
push_key (named _ _) d pending = pending
push_key (quoted _) d pending = pending
push_key (path_key _) d pending = pending

unfoldable pub push_fields : Fields → ℕ → Pending → Pending
unfolding push_key
push_fields no_fields d pending = pending
push_fields (and_field (field key value _) fs) d pending =
    push_fields fs d (push_key key d ((value, d) ∷ pending))

-- the `match` of the loop: the children of a node, each at the depth `d`
unfoldable pub push_children : ExprKind → ℕ → Pending → Pending
unfolding push_items push_parts push_fields
push_children (binary _ a b) d pending = (b, d) ∷ (a, d) ∷ pending
push_children (morphism param body) d pending = (body, d) ∷ (param, d) ∷ pending
push_children (combo fields _ _) d pending = push_fields fields d pending
push_children (ternary a b c) d pending = (c, d) ∷ (b, d) ∷ (a, d) ∷ pending
push_children (unary _ e) d pending = (e, d) ∷ pending
push_children (complement e) d pending = (e, d) ∷ pending
push_children (anon_set e) d pending = (e, d) ∷ pending
push_children (spread e) d pending = (e, d) ∷ pending
push_children (structural e) d pending = (e, d) ∷ pending
push_children (list items) d pending = push_items items d pending
push_children (tuple items) d pending = push_items items d pending
push_children (interpolated parts) d pending = push_parts parts d pending
push_children (range a b no_step) d pending = (b, d) ∷ (a, d) ∷ pending
push_children (range a b (step c)) d pending = (c, d) ∷ (b, d) ∷ (a, d) ∷ pending
push_children (atom _) d pending = pending
push_children (path _) d pending = pending
push_children (poset _) d pending = pending
push_children context d pending = pending

unfoldable pub exceeds_loop : ℕ → Pending → Option Bool
exceeds_loop zero [] = some false
exceeds_loop zero (_ ∷ _) = none
exceeds_loop (suc fuel) [] = some false
exceeds_loop (suc fuel) ((node k _, depth) ∷ pending) =
    let rest = exceeds_loop fuel (push_children k (depth + 1) pending) in
    if ltb parser_ast_depth_limit depth then some true else rest

unfoldable pub expr_exceeds_ast_depth : Expr → Option Bool
unfolding exceeds_loop push_children
expr_exceeds_ast_depth root = exceeds_loop (size root) ((root, 1) ∷ [])

unfoldable pub key_exceeds_ast_depth : FieldKey → Option Bool
unfolding expr_exceeds_ast_depth
key_exceeds_ast_depth (pattern_key e) = expr_exceeds_ast_depth e
key_exceeds_ast_depth (named _ _) = some false
key_exceeds_ast_depth (quoted _) = some false
key_exceeds_ast_depth (path_key _) = some false

abbrev or_else_exceeds : Bool → Option Bool → Option Bool
or_else_exceeds true other = some true
or_else_exceeds false other = other

unfoldable pub fields_exceed_ast_depth : Fields → Option Bool
unfolding expr_exceeds_ast_depth key_exceeds_ast_depth
fields_exceed_ast_depth no_fields = some false
fields_exceed_ast_depth (and_field (field key value _) fs) =
    let rest = fields_exceed_ast_depth fs in
    do
      by_value ← expr_exceeds_ast_depth value
      by_key ← or_else_exceeds by_value (key_exceeds_ast_depth key)
      or_else_exceeds by_key rest

unfoldable pub program_exceeds_ast_depth : Program → Option Bool
unfolding fields_exceed_ast_depth
program_exceeds_ast_depth p = fields_exceed_ast_depth p.fields

-- The nodes that wait to be dismantled.
abbrev pub Owned : Type 0
Owned = List Expr

unfoldable pub own_items : Exprs → Owned → Owned
own_items no_exprs pending = pending
own_items (and_expr e es) pending = own_items es (e ∷ pending)

unfoldable pub own_parts : Parts → Owned → Owned
own_parts no_parts pending = pending
own_parts (and_part (literal _) ps) pending = own_parts ps pending
own_parts (and_part (interpolation e) ps) pending = own_parts ps (e ∷ pending)

unfoldable pub own_key : FieldKey → Owned → Owned
own_key (pattern_key e) pending = e ∷ pending
own_key (named _ _) pending = pending
own_key (quoted _) pending = pending
own_key (path_key _) pending = pending

unfoldable pub own_fields : Fields → Owned → Owned
unfolding own_key
own_fields no_fields pending = pending
own_fields (and_field (field key value _) fs) pending = own_fields fs (value ∷ own_key key pending)

unfoldable pub own_children : ExprKind → Owned → Owned
unfolding own_items own_parts own_fields
own_children (binary _ a b) pending = b ∷ a ∷ pending
own_children (morphism param body) pending = body ∷ param ∷ pending
own_children (combo fields _ _) pending = own_fields fields pending
own_children (ternary a b c) pending = c ∷ b ∷ a ∷ pending
own_children (unary _ e) pending = e ∷ pending
own_children (complement e) pending = e ∷ pending
own_children (anon_set e) pending = e ∷ pending
own_children (spread e) pending = e ∷ pending
own_children (structural e) pending = e ∷ pending
own_children (list items) pending = own_items items pending
own_children (tuple items) pending = own_items items pending
own_children (interpolated parts) pending = own_parts parts pending
own_children (range a b no_step) pending = b ∷ a ∷ pending
own_children (range a b (step c)) pending = c ∷ b ∷ a ∷ pending
own_children (atom _) pending = pending
own_children (path _) pending = pending
own_children (poset _) pending = pending
own_children context pending = pending

-- One round takes a node off the list and moves its children onto it. What is counted is the
-- number of nodes replaced by an atom before they are dropped.
unfoldable pub drop_exprs_iteratively : ℕ → Owned → Option ℕ
drop_exprs_iteratively zero [] = some 0
drop_exprs_iteratively zero (_ ∷ _) = none
drop_exprs_iteratively (suc fuel) [] = some 0
drop_exprs_iteratively (suc fuel) (node k _ ∷ pending) =
    drop_exprs_iteratively fuel (own_children k pending) >>= λ n. some (n + 1)

unfoldable pub drop_program_iteratively : Program → Option ℕ
unfolding drop_exprs_iteratively own_children own_fields
drop_program_iteratively p = drop_exprs_iteratively (size_fields p.fields) (own_fields p.fields [])

-- the error, once the tree is dismantled
abbrev refused {ℓ} : {A : Type ℓ} → Option ℕ → Option (Gate A)
refused dropped = dropped >>= λ _. some nesting_limit_exceeded

unfoldable pub parser_ast_gate_expr : Expr → Option (Gate Expr)
unfolding expr_exceeds_ast_depth drop_exprs_iteratively own_children
parser_ast_gate_expr e = do
  exceeds ← expr_exceeds_ast_depth e
  if exceeds then refused (drop_exprs_iteratively (size e) (e ∷ [])) else some (admitted e)

unfoldable pub parser_ast_gate_program : Program → Option (Gate Program)
unfolding program_exceeds_ast_depth drop_program_iteratively
parser_ast_gate_program p = do
  exceeds ← program_exceeds_ast_depth p
  if exceeds then refused (drop_program_iteratively p) else some (admitted p)
