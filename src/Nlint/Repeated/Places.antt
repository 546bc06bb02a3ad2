-- ===== src/Nlint/Repeated/Places.antt =====
-- crates/oo/src/nlint.rs: the places at which the fields of a container introduce a key, for the
-- rule R6.
use text.Mathlib.Text.{◌==◌ as str_eq}
use text.Mathlib.TextEquality.{eq_iff}
use nlang_tools.Prelude.{
  ℕ, String, Bool, true, false, not, ◌||◌, ◌&&◌, if◌then◌else◌, List, [], ◌∷◌, ◌++◌, Option, none,
  some, append-nil, ◌≡◌, refl, ap, ◌∙◌, arith, Bool-cases, inl, inr, subst,
}
use nlang_tools.Parser.Ast.{
  Span, AstPath, Expr, node, ExprKind, combo, spread, Fields, no_fields, and_field, Field, field,
  FieldKey, named, quoted, pattern_key, path_key, kind,
}
use nlang_tools.Nlint.Repeated.{
  Introduction, ends_of, is_in, r6_key_spelling, first_introduction, literal_keys,
}
use nlang_tools.Nlint.Repeated.Table.{places, places-append}

module _ (canonical : FieldKey → String) (to_key : AstPath → String) (merges : String → Bool) where
  -- a key of that text, which is no spread, no pattern and no `_`
  abbrev pub spells : String → FieldKey → Bool
  spells k (named p name) =
      str_eq (canonical (named p name)) k && not (merges name || merges (canonical (named p name)))
  spells k (path_key p) =
      str_eq (canonical (path_key p)) k
      && not (merges (to_key p) || merges (canonical (path_key p)))
  spells k (quoted s) =
      str_eq (canonical (quoted s)) k && not (str_eq s "..." || merges (canonical (quoted s)))
  spells k (pattern_key e) = false

  -- in a literal that is spread, the first field of that key
  abbrev pub first_place : String → Fields → List (ℕ × ℕ)
  first_place k no_fields = []
  first_place k (and_field (field key value span) fields) =
      if spells k key then (span.start, span.end) ∷ [] else first_place k fields

  abbrev pub place_in_literal : String → ExprKind → List (ℕ × ℕ)
  place_in_literal k (combo fields relations closed) = first_place k fields
  place_in_literal k _ = []

  -- what is spread is under the `...`, or the whole value
  abbrev pub place_in_spread : String → Expr → List (ℕ × ℕ)
  place_in_spread k (node (spread e) s) = place_in_literal k (kind e)
  place_in_spread k (node v s) = place_in_literal k v

  abbrev pub is_dots : FieldKey → Bool
  is_dots (quoted s) = str_eq s "..."
  is_dots _ = false

  abbrev pub spreads_value : ExprKind → Bool
  spreads_value (spread e) = true
  spreads_value _ = false

  abbrev pub place_in : String → Field → List (ℕ × ℕ)
  place_in k (field key value span) =
      if is_dots key || spreads_value (kind value)
      then place_in_spread k value
      else if spells k key
      then (span.start, span.end) ∷ []
      else []

  -- the places in the fields of a container, in their order
  abbrev pub places_of : String → Fields → List (ℕ × ℕ)
  places_of k no_fields = []
  places_of k (and_field f fields) = place_in k f ++ places_of k fields

  abbrev pub is_spelled : Option String → String → Bool
  is_spelled none k = false
  is_spelled (some j) k = str_eq j k

  pub spells-r6_key_spelling :
      (k : String) (key : FieldKey)
      → spells k key ≡ is_spelled (r6_key_spelling canonical to_key merges key) k
  unfolding r6_key_spelling
  spells-r6_key_spelling k (named p name) = ground arith
  spells-r6_key_spelling k (path_key p) = ground arith
  spells-r6_key_spelling k (quoted s) = ground arith
  spells-r6_key_spelling k (pattern_key e) = refl

  is_in-last :
      (k : String) (x : Introduction) (out : List Introduction)
      → is_in k (out ++ (x ∷ [])) ≡ (is_in k out || str_eq x.0 k)
  is_in-last k x [] = ground arith
  is_in-last k x (y ∷ out) = ground (arith, is_in-last k x out)

  is_in-introduction :
      (o : Option String) (span : Span) (out : List Introduction) (k : String)
      → is_in k (first_introduction canonical to_key merges o span out)
        ≡ (is_in k out || is_spelled o k)
  is_in-introduction none span out k = ground arith
  is_in-introduction (some j) span out k = elim (Bool-cases (is_in j out)) [
    | inl known ↦ elim (Bool-cases (str_eq j k)) [
      | inl same ↦
          ground (arith, known, same, subst (λ n. is_in n out ≡ true) ((eq_iff j k).0 same) known)
      | inr other ↦ ground (arith, known, other)
    ]
    | inr new ↦ ground (arith, new, is_in-last k (j, ends_of span) out)
  ]

  places-introduction :
      (o : Option String) (span : Span) (out : List Introduction) (k : String)
      → places k (first_introduction canonical to_key merges o span out)
        ≡ places k out
          ++ (if is_in k out then [] else if is_spelled o k then ends_of span ∷ [] else [])
  places-introduction none span out k = ground (arith, append-nil (places k out))
  places-introduction (some j) span out k = elim (Bool-cases (is_in j out)) [
    | inl known ↦ elim (Bool-cases (str_eq j k)) [
      | inl same ↦ ground (
        arith,
        known,
        append-nil (places k out),
        subst (λ n. is_in n out ≡ true) ((eq_iff j k).0 same) known,
      )
      | inr other ↦ ground (arith, known, other, append-nil (places k out))
    ]
    | inr new ↦ elim (Bool-cases (str_eq j k)) [
      | inl same ↦ ground (
        arith,
        new,
        same,
        places-append k out ((j, ends_of span) ∷ []),
        subst (λ n. is_in n out ≡ false) ((eq_iff j k).0 same) new,
      )
      | inr other ↦ ground (
        arith,
        new,
        other,
        places-append k out ((j, ends_of span) ∷ []),
        append-nil (places k out),
      )
    ]
  ]

  pub places-literal_keys :
      (k : String) (fields : Fields) (out : List Introduction)
      → places k (literal_keys canonical to_key merges fields out)
        ≡ places k out ++ (if is_in k out then [] else first_place k fields)
  unfolding literal_keys
  places-literal_keys k no_fields out = ground (arith, append-nil (places k out))
  places-literal_keys k (and_field (field key value span) fields) out =
      let o = r6_key_spelling canonical to_key merges key in
      let more = first_introduction canonical to_key merges o span out in
      let rest = places-literal_keys k fields more in
      let grown = places-introduction o span out k in
      let seen = is_in-introduction o span out k in
      let spelled = spells-r6_key_spelling k key in
      elim (Bool-cases (is_in k out)) [
        | inl known ↦
            rest
            ∙ ground (
              arith,
              seen,
              known,
              ap (λ t. t ++ (if is_in k more then [] else first_place k fields)) grown,
              append-nil (places k out ++ []),
              append-nil (places k out),
            )
        | inr new ↦ elim (Bool-cases (is_spelled o k)) [
          | inl same ↦
              rest
              ∙ ground (
                arith,
                seen,
                new,
                same,
                spelled,
                grown,
                append-nil (places k out ++ (ends_of span ∷ [])),
              )
          | inr other ↦
              rest ∙ ground (arith, seen, new, other, spelled, grown, append-nil (places k out))
        ]
      ]
