-- ===== src/Nlint/Repeated/Walk.antt =====
-- crates/oo/src/nlint.rs: the rule R6 over a whole program. A walk gives the reports that its call
-- appends.
pub mod Containers
pub mod Everywhere
use nlang_tools.Prelude.{String, Bool, List, [], ◌++◌}
use nlang_tools.Parser.Ast.{
  AstPath, Expr, ExprKind, Exprs, RangeStep, Parts, StringPart, Fields, Field, FieldKey, Program,
  node, atom, path, binary, morphism, combo, complement, ternary, unary, list, tuple, poset,
  anon_set, interpolated, range, context, spread, structural, no_exprs, and_expr, no_step, step,
  no_parts, and_part, literal, interpolation, no_fields, and_field, field, named, quoted,
  pattern_key, path_key,
}
use nlang_tools.Nlint.Repeated.{Diagnostic, check_r6_combo_fields}

module _ (canonical : FieldKey → String) (to_key : AstPath → String) (merges : String → Bool)
    (file : String) where
  unfoldable mutual
    unfolding check_r6_combo_fields

    pub walk_r6_expr : Expr → List Diagnostic
    walk_r6_expr (node k s) = walk_r6_kind k

    pub walk_r6_kind : ExprKind → List Diagnostic
    walk_r6_kind (combo fields rs closed) =
        check_r6_combo_fields canonical to_key merges file fields ++ walk_r6_fields fields
    walk_r6_kind (morphism a b) = walk_r6_expr a ++ walk_r6_expr b
    walk_r6_kind (binary op a b) = walk_r6_expr a ++ walk_r6_expr b
    walk_r6_kind (ternary a b c) = walk_r6_expr a ++ (walk_r6_expr b ++ walk_r6_expr c)
    walk_r6_kind (list es) = walk_r6_items es
    walk_r6_kind (tuple es) = walk_r6_items es
    walk_r6_kind (unary op e) = walk_r6_expr e
    walk_r6_kind (complement e) = walk_r6_expr e
    walk_r6_kind (spread e) = walk_r6_expr e
    walk_r6_kind (structural e) = walk_r6_expr e
    walk_r6_kind (anon_set e) = walk_r6_expr e
    walk_r6_kind (range a b c) = walk_r6_expr a ++ (walk_r6_expr b ++ walk_r6_step c)
    walk_r6_kind (interpolated ps) = walk_r6_parts ps
    walk_r6_kind (atom a) = []
    walk_r6_kind (path p) = []
    walk_r6_kind (poset rs) = []
    walk_r6_kind context = []

    pub walk_r6_items : Exprs → List Diagnostic
    walk_r6_items no_exprs = []
    walk_r6_items (and_expr e es) = walk_r6_expr e ++ walk_r6_items es

    pub walk_r6_step : RangeStep → List Diagnostic
    walk_r6_step no_step = []
    walk_r6_step (step e) = walk_r6_expr e

    pub walk_r6_parts : Parts → List Diagnostic
    walk_r6_parts no_parts = []
    walk_r6_parts (and_part q ps) = walk_r6_part q ++ walk_r6_parts ps

    pub walk_r6_part : StringPart → List Diagnostic
    walk_r6_part (literal l) = []
    walk_r6_part (interpolation e) = walk_r6_expr e

    pub walk_r6_fields : Fields → List Diagnostic
    walk_r6_fields no_fields = []
    walk_r6_fields (and_field f fs) = walk_r6_field f ++ walk_r6_fields fs

    pub walk_r6_field : Field → List Diagnostic
    walk_r6_field (field key value s) = walk_r6_expr value ++ walk_r6_key key

    pub walk_r6_key : FieldKey → List Diagnostic
    walk_r6_key (pattern_key e) = walk_r6_expr e
    walk_r6_key (named p name) = []
    walk_r6_key (quoted s) = []
    walk_r6_key (path_key p) = []

  -- the fields of the program itself may repeat a key
  unfoldable pub walk_r6_collision : Program → List Diagnostic
  unfolding walk_r6_fields
  walk_r6_collision program = walk_r6_fields program.fields
