-- ===== src/Nlint/Sealed.antt =====
-- crates/oo/src/nlint.rs: the rule R3, a transformer whose keys a sealed literal does not have. A
-- `HashSet` of keys is the list of its members, the one first inserted first.
pub mod Missing
pub mod Lacks
use text.Mathlib.Text.{◌==◌ as str_eq}
use nlang_tools.Prelude.{
  ℕ, zero, suc, String, Bool, true, false, not, ◌||◌, if◌then◌else◌, List, [], ◌∷◌, ◌++◌, Option,
  none, some, format, join, decimal,
}
use nlang_tools.Parser.Ast.{
  AstPath, Expr, node, ExprKind, combo, tuple, spread, Exprs, no_exprs, and_expr, Fields, no_fields,
  and_field, field, FieldKey, named, quoted, pattern_key, path_key, kind,
}
use nlang_tools.Parser.Tier.Form.{RhsForm}
use nlang_tools.Parser.Tier.{classify_rhs}

abbrev pub contains_key : String → List String → Bool
contains_key k [] = false
contains_key k (x ∷ xs) = str_eq x k || contains_key k xs

abbrev pub insert_key : String → List String → List String
insert_key k keys = if contains_key k keys then keys else keys ++ (k ∷ [])

-- the texts of the positions from `i` on
unfoldable pub positions : ℕ → Exprs → List String
positions i no_exprs = []
positions i (and_expr e es) = decimal i ∷ positions (suc i) es

unfoldable pub extra_keys : List String → List String → List String
extra_keys lhs_keys [] = []
extra_keys lhs_keys (k ∷ ks) =
    if contains_key k lhs_keys then extra_keys lhs_keys ks else k ∷ extra_keys lhs_keys ks

-- the message and the reason of the demotion
unfoldable pub missing_keys : List String → String × String
missing_keys extra = (
  format (
      "static `_|_ #missing_key`: sealed LHS does not contain key(s) ["
      ∷ join ", " extra
      ∷ "]; use morphism evolution or `{ ...t }` explicit unbox (SYNTAX_12 §4 #7)"
      ∷ []),
  format ("R3 sealed-keyed: transformer adds [" ∷ join ", " extra ∷ "] to sealed LHS" ∷ []),
)

abbrev pub report_extra : List String → Option (String × String)
report_extra [] = none
report_extra (k ∷ ks) = some (missing_keys (k ∷ ks))

abbrev is_spread_value : ExprKind → Bool
is_spread_value (spread e) = true
is_spread_value _ = false

-- `to_key` is the text of a path as a key, `print` that of an expression.
module _ (to_key : AstPath → String) (print : Expr → String) where
  -- the keys of a transformer with the flag that they are uncertain
  abbrev key_into : FieldKey → List String × Bool → List String × Bool
  key_into (named p name) (keys, has_spread) = (insert_key name keys, has_spread)
  key_into (quoted s) (keys, has_spread) = (insert_key s keys, has_spread || str_eq s "...")
  key_into (path_key p) (keys, has_spread) = (insert_key (to_key p) keys, has_spread)
  key_into (pattern_key e) (keys, has_spread) = (keys, true)

  unfoldable pub gather : Fields → List String × Bool → List String × Bool
  gather no_fields found = found
  gather (and_field (field key value s) fields) found =
      let next = key_into key found in
      gather fields (next.0, next.1 || is_spread_value (kind value))

  abbrev pub certain : List String × Bool → Option (List String)
  certain (keys, true) = none
  certain (keys, false) = some keys

  abbrev pub transformer_keys : ExprKind → Option (List String)
  transformer_keys (combo fields rs closed) = certain (gather fields ([], false))
  transformer_keys _ = none

  abbrev pub own_key : FieldKey → List String → List String
  own_key (named p name) keys = insert_key name keys
  own_key (quoted s) keys = if str_eq s "..." then keys else insert_key s keys
  own_key (path_key p) keys = insert_key (to_key p) keys
  own_key (pattern_key e) keys = insert_key (print e) keys

  unfoldable pub combo_field_keys : Fields → List String → List String
  combo_field_keys no_fields keys = keys
  combo_field_keys (and_field (field key value s) fields) keys =
      combo_field_keys fields (own_key key keys)

  abbrev pub sealed_literal_keys : ExprKind → Option (List String)
  sealed_literal_keys (tuple items) = some (positions 0 items)
  sealed_literal_keys (combo fields rs true) = some (combo_field_keys fields [])
  sealed_literal_keys _ = none

  abbrev pub compare_keys : Option (List String) → Option (List String) → Option (String × String)
  compare_keys none rhs_keys = none
  compare_keys (some lhs_keys) none = none
  compare_keys (some lhs_keys) (some rhs_keys) = report_extra (extra_keys lhs_keys rhs_keys)

  abbrev when_transformer : RhsForm → Option (String × String) → Option (String × String)
  when_transformer RhsForm.transformer report = report
  when_transformer _ report = none

  unfoldable pub check_r3 : Expr → Expr → Option (String × String)
  unfolding classify_rhs positions extra_keys gather combo_field_keys missing_keys
  check_r3 lhs rhs =
      when_transformer (classify_rhs rhs)
        (compare_keys (sealed_literal_keys (kind lhs)) (transformer_keys (kind rhs)))
