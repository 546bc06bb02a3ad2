-- ===== src/Nlint/Repeated/Spread.antt =====
-- crates/oo/src/nlint.rs: what a field of a container introduces for the rule R6, spread literals
-- among them.
use nlang_tools.Prelude.{
  String, Bool, ◌||◌, if◌then◌else◌, [], ◌∷◌, Option, none, some, ◌≡◌, refl, sym, ◌∙◌, Bool-cases,
  inl, inr,
}
use nlang_tools.Parser.Ast.{
  Span, AstPath, Expr, node, ExprKind, atom, path, binary, morphism, combo, complement, ternary,
  unary, list, tuple, poset, anon_set, interpolated, range, context, spread, structural, Field,
  field, FieldKey, named, quoted, pattern_key, path_key, kind,
}
use nlang_tools.Nlint.Repeated.{
  ends_of, r6_key_spelling, keys_of_combo, r6_literal_spread_keys, is_spread, introductions_of,
  introduction_of, contributions,
}
use nlang_tools.Nlint.Repeated.Table.{places}
use nlang_tools.Nlint.Repeated.Places.{
  is_spelled, spells-r6_key_spelling, places-literal_keys, place_in_literal, place_in_spread,
  place_in, is_dots, spreads_value,
}

module _ (canonical : FieldKey → String) (to_key : AstPath → String) (merges : String → Bool) where
  places-keys_of_combo :
      (k : String) (kd : ExprKind)
      → places k
          (introductions_of canonical to_key merges (keys_of_combo canonical to_key merges kd))
        ≡ place_in_literal canonical to_key merges k kd
  places-keys_of_combo k (combo fields relations closed) =
      places-literal_keys canonical to_key merges k fields []
  places-keys_of_combo k (atom a) = refl
  places-keys_of_combo k (path p) = refl
  places-keys_of_combo k (binary op l r) = refl
  places-keys_of_combo k (morphism l r) = refl
  places-keys_of_combo k (complement e) = refl
  places-keys_of_combo k (ternary a b c) = refl
  places-keys_of_combo k (unary op e) = refl
  places-keys_of_combo k (list es) = refl
  places-keys_of_combo k (tuple es) = refl
  places-keys_of_combo k (poset rs) = refl
  places-keys_of_combo k (anon_set e) = refl
  places-keys_of_combo k (interpolated ps) = refl
  places-keys_of_combo k (range a b by) = refl
  places-keys_of_combo k context = refl
  places-keys_of_combo k (spread e) = refl
  places-keys_of_combo k (structural e) = refl

  places-spread :
      (k : String) (value : Expr)
      → places k (
          introductions_of canonical to_key merges
            (r6_literal_spread_keys canonical to_key merges value))
        ≡ place_in_spread canonical to_key merges k value
  places-spread k (node (spread e) s) = places-keys_of_combo k (kind e)
  places-spread k (node (combo fields relations closed) s) =
      places-literal_keys canonical to_key merges k fields []
  places-spread k (node (atom a) s) = refl
  places-spread k (node (path p) s) = refl
  places-spread k (node (binary op l r) s) = refl
  places-spread k (node (morphism l r) s) = refl
  places-spread k (node (complement e) s) = refl
  places-spread k (node (ternary a b c) s) = refl
  places-spread k (node (unary op e) s) = refl
  places-spread k (node (list es) s) = refl
  places-spread k (node (tuple es) s) = refl
  places-spread k (node (poset rs) s) = refl
  places-spread k (node (anon_set e) s) = refl
  places-spread k (node (interpolated ps) s) = refl
  places-spread k (node (range a b by) s) = refl
  places-spread k (node context s) = refl
  places-spread k (node (structural e) s) = refl

  is_spread_lem :
      (key : FieldKey) (value : Expr)
      → is_spread canonical to_key merges key value ≡ (
          is_dots canonical to_key merges key || spreads_value canonical to_key merges (kind value))
  is_spread_lem (named p name) (node v s) = refl
  is_spread_lem (quoted t) (node v s) = refl
  is_spread_lem (pattern_key e) (node v s) = refl
  is_spread_lem (path_key p) (node v s) = refl

  places-spelling :
      (k : String) (o : Option String) (span : Span)
      → places k (introduction_of canonical to_key merges o span)
        ≡ (if is_spelled canonical to_key merges o k then ends_of span ∷ [] else [])
  places-spelling k none span = refl
  places-spelling k (some j) span = refl

  -- what the table is given for a field
  pub places-contributions :
      (k : String) (f : Field)
      → places k (contributions canonical to_key merges f) ≡ place_in canonical to_key merges k f
  unfolding contributions
  places-contributions k (field key value span) =
      elim (Bool-cases (is_spread canonical to_key merges key value)) [
        | inl spreads ↦
            rw spreads rw (sym (is_spread_lem key value) ∙ spreads) (places-spread k value)
        | inr plain ↦
            rw plain rw (sym (is_spread_lem key value) ∙ plain) rw
              (spells-r6_key_spelling canonical to_key merges k key)
              (places-spelling k (r6_key_spelling canonical to_key merges key) span)
      ]
