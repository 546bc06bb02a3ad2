-- ===== src/Parser/Tier/Dollar.antt =====
-- crates/parser/src/tier.rs: the flag of the scan for a free `$` makes no difference.
use nlang_tools.Prelude.{◌≡◌, refl, Bool}
use nlang_tools.Parser.Ast.{
  BinaryOp, Expr, ExprKind, Exprs, RangeStep, Fields, Field, FieldKey, node, atom, path, binary,
  morphism, combo, complement, ternary, unary, list, tuple, poset, anon_set, interpolated, range,
  context, spread, structural, no_exprs, and_expr, no_step, step, no_fields, and_field, field,
  named, quoted, pattern_key, path_key,
}
use nlang_tools.Parser.Tier.{
  has_free_dollar_inner, has_free_kind, has_free_items, has_free_step, has_free_fields,
  has_free_dollar_field, has_free_key,
}

-- The flag is carried and never read.
module _ (f g : Bool) where
  mutual
    unfolding has_free_dollar_inner

    flag_expr : (e : Expr) → has_free_dollar_inner e f ≡ has_free_dollar_inner e g
    flag_expr (node k s) = flag_kind k

    flag_kind : (k : ExprKind) → has_free_kind k f ≡ has_free_kind k g
    flag_kind context = refl
    flag_kind (binary BinaryOp.pipe a b) = flag_expr a
    flag_kind (binary _ a b) = rw (flag_expr a, flag_expr b)
    flag_kind (morphism param body) = flag_expr param
    flag_kind (interpolated parts) = refl
    flag_kind (combo fields rs c) = flag_fields fields
    flag_kind (ternary a b c) = rw (flag_expr a, flag_expr b, flag_expr c)
    flag_kind (unary op e) = flag_expr e
    flag_kind (anon_set e) = flag_expr e
    flag_kind (spread e) = flag_expr e
    flag_kind (structural e) = flag_expr e
    flag_kind (complement e) = flag_expr e
    flag_kind (list items) = flag_items items
    flag_kind (tuple items) = flag_items items
    flag_kind (range a b c) = rw (flag_expr a, flag_expr b, flag_step c)
    flag_kind (path p) = refl
    flag_kind (atom a) = refl
    flag_kind (poset rs) = refl

    flag_items : (es : Exprs) → has_free_items es f ≡ has_free_items es g
    flag_items no_exprs = refl
    flag_items (and_expr e es) = rw (flag_expr e, flag_items es)

    flag_step : (c : RangeStep) → has_free_step c f ≡ has_free_step c g
    flag_step no_step = refl
    flag_step (step e) = flag_expr e

    flag_fields : (fs : Fields) → has_free_fields fs f ≡ has_free_fields fs g
    flag_fields no_fields = refl
    flag_fields (and_field x xs) = rw (flag_field x, flag_fields xs)

    flag_field : (x : Field) → has_free_dollar_field x f ≡ has_free_dollar_field x g
    flag_field (field key value s) = rw (flag_key key, flag_expr value)

    flag_key : (key : FieldKey) → has_free_key key f ≡ has_free_key key g
    flag_key (pattern_key e) = flag_expr e
    flag_key (named p n) = refl
    flag_key (quoted t) = refl
    flag_key (path_key p) = refl

-- Whether the scan starts inside an interpolation makes no difference to its answer.
pub has_free_dollar_inner-flag :
    (e : Expr) (f g : Bool) → has_free_dollar_inner e f ≡ has_free_dollar_inner e g
has_free_dollar_inner-flag e f g = flag_expr f g e
