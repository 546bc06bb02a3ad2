-- ===== src/Parser/Tier.antt =====
-- crates/parser/src/tier.rs: what a pipe's right side is, whether it reads `$`, and its tier.
pub mod Form
pub mod Dollar
pub mod Scope
pub mod Positive
pub mod Positions
use nlang_tools.Prelude.{
  ℕ, String, Bool, true, false, ◌&&◌, ◌||◌, Option, none, some, List, [], ◌∷◌, if◌then◌else◌,
  format, decimal,
}
use text.Mathlib.Text.{starts_with}
use nlang_tools.Parser.Tier.Form.{RhsForm, Tier, in_c, in_m, in_q}
use nlang_tools.Parser.Ast.{
  Span, AstPath, PathAnchor, UnaryOp, BinaryOp, Expr, ExprKind, Exprs, RangeStep, Parts, StringPart,
  Fields, Field, FieldKey, node, atom, path, binary, morphism, combo, complement, ternary, unary,
  list, tuple, poset, anon_set, interpolated, range, context, spread, structural, no_exprs,
  and_expr, no_step, step, no_parts, and_part, literal, interpolation, no_fields, and_field, field,
  named, quoted, pattern_key, path_key, kind,
}

abbrev is_bare : PathAnchor → Bool
is_bare PathAnchor.bare = true
is_bare _ = false

abbrev first_starts_slash : List String → Bool
first_starts_slash [] = false
first_starts_slash (s ∷ _) = starts_with s "/"

unfoldable pub is_morphism_path : AstPath → Bool
is_morphism_path p = is_bare p.anchor && first_starts_slash p.segments

unfoldable pub classify_kind : ExprKind → RhsForm
unfolding is_morphism_path
classify_kind (combo _ _ _) = RhsForm.transformer
classify_kind (morphism _ _) = RhsForm.morphism
classify_kind (path p) = if is_morphism_path p then RhsForm.morphism else RhsForm.unknown
classify_kind (atom _) = RhsForm.atom
classify_kind _ = RhsForm.unknown

unfoldable pub classify_rhs : Expr → RhsForm
unfolding classify_kind
classify_rhs rhs = classify_kind (kind rhs)

-- The scan for a free `$`, with the flag that it carries into interpolations.
unfoldable mutual
  pub has_free_dollar_inner : Expr → Bool → Bool
  has_free_dollar_inner (node k _) in_interp = has_free_kind k in_interp

  pub has_free_kind : ExprKind → Bool → Bool
  has_free_kind context in_interp = true
  has_free_kind (binary BinaryOp.pipe lhs _) in_interp = has_free_dollar_inner lhs in_interp
  has_free_kind (morphism param _) in_interp = has_free_dollar_inner param in_interp
  has_free_kind (interpolated parts) in_interp = has_free_parts parts
  has_free_kind (combo fields _ _) in_interp = has_free_fields fields in_interp
  has_free_kind (binary _ a b) in_interp =
      has_free_dollar_inner a in_interp || has_free_dollar_inner b in_interp
  has_free_kind (ternary cond then_branch else_branch) in_interp =
      has_free_dollar_inner cond in_interp
      || (has_free_dollar_inner then_branch in_interp
          || has_free_dollar_inner else_branch in_interp)
  has_free_kind (unary _ e) in_interp = has_free_dollar_inner e in_interp
  has_free_kind (anon_set e) in_interp = has_free_dollar_inner e in_interp
  has_free_kind (spread e) in_interp = has_free_dollar_inner e in_interp
  has_free_kind (structural e) in_interp = has_free_dollar_inner e in_interp
  has_free_kind (complement e) in_interp = has_free_dollar_inner e in_interp
  has_free_kind (list items) in_interp = has_free_items items in_interp
  has_free_kind (tuple items) in_interp = has_free_items items in_interp
  has_free_kind (range first last by) in_interp =
      has_free_dollar_inner first in_interp
      || (has_free_dollar_inner last in_interp || has_free_step by in_interp)
  has_free_kind (path _) in_interp = false
  has_free_kind (atom _) in_interp = false
  has_free_kind (poset _) in_interp = false

  pub has_free_parts : Parts → Bool
  has_free_parts no_parts = false
  has_free_parts (and_part p ps) = has_free_part p || has_free_parts ps

  pub has_free_part : StringPart → Bool
  has_free_part (literal _) = false
  has_free_part (interpolation e) = has_free_dollar_inner e true

  pub has_free_items : Exprs → Bool → Bool
  has_free_items no_exprs in_interp = false
  has_free_items (and_expr e es) in_interp =
      has_free_dollar_inner e in_interp || has_free_items es in_interp

  pub has_free_step : RangeStep → Bool → Bool
  has_free_step no_step in_interp = false
  has_free_step (step e) in_interp = has_free_dollar_inner e in_interp

  pub has_free_fields : Fields → Bool → Bool
  has_free_fields no_fields in_interp = false
  has_free_fields (and_field f fs) in_interp =
      has_free_dollar_field f in_interp || has_free_fields fs in_interp

  pub has_free_dollar_field : Field → Bool → Bool
  has_free_dollar_field (field key value _) in_interp =
      has_free_key key in_interp || has_free_dollar_inner value in_interp

  pub has_free_key : FieldKey → Bool → Bool
  has_free_key (pattern_key e) in_interp = has_free_dollar_inner e in_interp
  has_free_key (named _ _) in_interp = false
  has_free_key (quoted _) in_interp = false
  has_free_key (path_key _) in_interp = false

unfoldable pub has_free_dollar : Expr → Bool
unfolding has_free_dollar_inner
has_free_dollar e = has_free_dollar_inner e false

-- why a binary node is outside the positive fragment; `none` for those inside it
unfoldable pub binary_offence : BinaryOp → Option String
binary_offence BinaryOp.meet = none
binary_offence BinaryOp.join = none
binary_offence BinaryOp.lens = none
binary_offence BinaryOp.apply = some "Apply (morphism application)"
binary_offence BinaryOp.diff = some "Diff `\\` (not in M whitelist: only & and |)"
binary_offence BinaryOp.add = some "Add `+` (arithmetic)"
binary_offence BinaryOp.sub = some "Sub `-` (arithmetic)"
binary_offence BinaryOp.mul = some "Mul `*` (arithmetic)"
binary_offence BinaryOp.div = some "Div `/` (arithmetic)"
binary_offence BinaryOp.rem = some "Rem `%` (arithmetic)"
binary_offence BinaryOp.eq = some "Eq `==` (booleanizing comparison)"
binary_offence BinaryOp.ne = some "Ne `!=` (booleanizing comparison)"
binary_offence BinaryOp.lt = some "Lt `<` (booleanizing comparison)"
binary_offence BinaryOp.gt = some "Gt `>` (booleanizing comparison)"
binary_offence BinaryOp.lte = some "Lte `<=` (booleanizing comparison)"
binary_offence BinaryOp.gte = some "Gte `>=` (booleanizing comparison)"
binary_offence BinaryOp.lattice_eq = some "LatticeEq `=` (lattice-family boolean track)"
binary_offence BinaryOp.probe = some "Probe `<=>` (direction probe)"
binary_offence BinaryOp.type_annotation = some "TypeAnnotation `@`"
binary_offence BinaryOp.pipe = some "Pipe `|>` (nested)"

unfoldable pub unary_offence : UnaryOp → String
unary_offence UnaryOp.negation = "Unary `!`"
unary_offence UnaryOp.neg = "Unary `-` (arithmetic)"

-- the offending construct and its source range
abbrev pub Offence : Type 0
Offence = String × (ℕ × ℕ)

abbrev pub at_span : String → Span → Option Offence
at_span text s = some (text, (s.start, s.end))

abbrev pub or_else : Option Offence → Option Offence → Option Offence
or_else none other = other
or_else (some found) other = some found

abbrev pub offence_or : Option String → Span → Option Offence → Option Offence
offence_or none s inside = inside
offence_or (some text) s inside = at_span text s

unfoldable mutual
  unfolding binary_offence unary_offence

  pub first_non_whitelist : Expr → Option Offence
  first_non_whitelist (node k s) = first_in_kind k s

  pub first_in_kind : ExprKind → Span → Option Offence
  first_in_kind context s = none
  first_in_kind (path _) s = none
  first_in_kind (atom _) s = none
  first_in_kind (combo fields _ _) s = first_in_fields fields
  first_in_kind (list items) s = first_in_items items
  first_in_kind (tuple items) s = first_in_items items
  first_in_kind (spread e) s = first_non_whitelist e
  first_in_kind (binary op a b) s =
      offence_or (binary_offence op) s (or_else (first_non_whitelist a) (first_non_whitelist b))
  first_in_kind (morphism _ _) s = at_span "Morphism literal `->`" s
  first_in_kind (ternary _ _ _) s = at_span "Ternary `? :`" s
  first_in_kind (complement _) s = at_span "Complement `!` (anti-monotone)" s
  first_in_kind (unary op _) s = at_span (unary_offence op) s
  first_in_kind (interpolated _) s =
      at_span "Interpolated string (string building — non-monotone)" s
  first_in_kind (anon_set _) s = at_span "AnonSet `@{}`" s
  first_in_kind (range _ _ _) s = at_span "Range `..`" s
  first_in_kind (structural _) s = at_span "Structural `<<>>`" s
  first_in_kind (poset _) s = at_span "Poset literal `#{}`" s

  pub first_in_items : Exprs → Option Offence
  first_in_items no_exprs = none
  first_in_items (and_expr e es) = or_else (first_non_whitelist e) (first_in_items es)

  pub first_in_fields : Fields → Option Offence
  first_in_fields no_fields = none
  first_in_fields (and_field f fs) = or_else (first_non_whitelist_field f) (first_in_fields fs)

  pub first_non_whitelist_field : Field → Option Offence
  first_non_whitelist_field (field key value _) =
      or_else (first_in_key key) (first_non_whitelist value)

  pub first_in_key : FieldKey → Option Offence
  first_in_key (pattern_key e) = first_non_whitelist e
  first_in_key (named _ _) = none
  first_in_key (quoted _) = none
  first_in_key (path_key _) = none

abbrev pub demotion : Option Offence → Tier × Option String
demotion none = (in_m, none)
demotion (some (text, (start, end))) =
    (in_q, some (format (text ∷ " at span " ∷ decimal start ∷ ".." ∷ decimal end ∷ [])))

unfoldable pub classify_tier : Expr → Tier × Option String
unfolding has_free_dollar first_non_whitelist decimal
classify_tier rhs = if has_free_dollar rhs then demotion (first_non_whitelist rhs) else (in_c, none)
