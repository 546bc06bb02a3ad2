-- ===== src/Nlint/Sealed/Lacks.antt =====
-- crates/oo/src/nlint.rs: the rule R3 against the keys of a sealed literal.
use text.Mathlib.Text.{◌==◌ as str_eq}
use text.Mathlib.TextEquality.{eq_iff}
use nlang_tools.Prelude.{
  ℕ, zero, suc, ◌+◌, ◌≤◌, ◌<◌, String, Bool, true, false, ◌||◌, List, [], none, some, ◌≡◌, ◌⊎◌,
  refl, ap, ◌∙◌, ◌↔◌, arith, Bool-cases, inl, inr, decimal,
}
use nlang_tools.Parser.Ast.{
  AstPath, Expr, node, ExprKind, atom, path, binary, morphism, combo, complement, ternary, unary,
  list, tuple, poset, anon_set, interpolated, range, context, spread, structural, Relation, Span,
  Exprs, no_exprs, and_expr, Fields, no_fields, and_field, field, named, quoted, pattern_key,
  path_key, kind,
}
use nlang_tools.Parser.Tier.{classify_rhs, classify_kind}
use nlang_tools.Nlint.Sealed.{
  contains_key, insert_key, is_spread_value, positions, combo_field_keys, sealed_literal_keys,
  transformer_keys, compare_keys, check_r3,
}
use nlang_tools.Nlint.Sealed.Missing.{
  is_reported, names_key, is_uncertain, found_lacks, contains_key-insert_key, or_assoc,
}

abbrev pub size : Exprs → ℕ
size no_exprs = 0
size (and_expr e items) = suc (size items)

-- a tuple, or a combo that is closed
abbrev pub is_sealed : ExprKind → Bool
is_sealed (tuple items) = true
is_sealed (combo _ _ closed) = closed
is_sealed _ = false

abbrev pub spreads_item : Exprs → Bool
spreads_item no_exprs = false
spreads_item (and_expr e items) = is_spread_value (kind e) || spreads_item items

abbrev pub spreads_field : Fields → Bool
spreads_field no_fields = false
spreads_field (and_field (field (quoted t) value s) fields) =
    (str_eq t "..." || is_spread_value (kind value)) || spreads_field fields
spreads_field (and_field (field key value s) fields) =
    is_spread_value (kind value) || spreads_field fields

-- an item or a field of the literal is spread, so that its keys are not known
abbrev pub spreads_into : ExprKind → Bool
spreads_into (tuple items) = spreads_item items
spreads_into (combo fields rs closed) = spreads_field fields
spreads_into _ = false

positions_range :
    (k : String) (i : ℕ) (items : Exprs)
    → contains_key k (positions i items) ≡ true
    → (j : ℕ) × (i ≤ j) × (j < i + size items) × (decimal j ≡ k)
unfolding positions
positions_range k i no_exprs there = absurd (ground (arith, there))
positions_range k i (and_expr e items) there = elim (Bool-cases (str_eq (decimal i) k)) [
  | inl same ↦ (i, omega arith, omega arith, (eq_iff (decimal i) k).0 same)
  | inr other ↦
      let (j, more, less, text) = positions_range k (suc i) items (ground (arith, there, other)) in
      (j, omega (arith, more), omega (arith, less), text)
]

range_positions :
    (k : String) (i d : ℕ) (items : Exprs)
    → d < size items
    → decimal (i + d) ≡ k
    → contains_key k (positions i items) ≡ true
unfolding positions
range_positions k i d no_exprs less text = absurd (omega (arith, less))
range_positions k i zero (and_expr e items) less text =
    ground (arith, (eq_iff (decimal i) k).1 (ap decimal (omega arith) ∙ text))
range_positions k i (suc d) (and_expr e items) less text =
    let rest =
      range_positions k (suc i) d items (omega (arith, less)) (ap decimal (omega arith) ∙ text) in
    ground (arith, rest)

module _ (to_key : AstPath → String) (print : Expr → String) where
  -- a field of that key, the text of a pattern among them
  abbrev pub has_field : Fields → String → Bool
  has_field no_fields k = false
  has_field (and_field (field (named p name) value s) fields) k =
      str_eq name k || has_field fields k
  has_field (and_field (field (quoted t) value s) fields) k = str_eq t k || has_field fields k
  has_field (and_field (field (path_key p) value s) fields) k =
      str_eq (to_key p) k || has_field fields k
  has_field (and_field (field (pattern_key e) value s) fields) k =
      str_eq (print e) k || has_field fields k

  -- the keys of a literal: the positions of a tuple from 0 on, and the fields of a combo
  abbrev pub HasKey : ExprKind → String → Type 0
  HasKey (tuple items) k = (i : ℕ) × (i < size items) × (decimal i ≡ k)
  HasKey (combo fields rs closed) k = has_field fields k ≡ true
  HasKey _ k = ⊥

  combo_field_keys-has_field :
      (fields : Fields) (keys : List String) (k : String)
      → spreads_field fields ≡ false
      → contains_key k (combo_field_keys to_key print fields keys)
        ≡ (contains_key k keys || has_field fields k)
  unfolding combo_field_keys
  combo_field_keys-has_field no_fields keys k plain = ground arith
  combo_field_keys-has_field (and_field (field (named p name) value s) fields) keys k plain =
      combo_field_keys-has_field fields (insert_key name keys) k (ground (arith, plain))
      ∙ (ap (λ t. t || has_field fields k) (contains_key-insert_key k name keys)
          ∙ or_assoc (contains_key k keys) (str_eq name k) (has_field fields k))
  combo_field_keys-has_field (and_field (field (path_key p) value s) fields) keys k plain =
      combo_field_keys-has_field fields (insert_key (to_key p) keys) k (ground (arith, plain))
      ∙ (ap (λ t. t || has_field fields k) (contains_key-insert_key k (to_key p) keys)
          ∙ or_assoc (contains_key k keys) (str_eq (to_key p) k) (has_field fields k))
  combo_field_keys-has_field (and_field (field (pattern_key e) value s) fields) keys k plain =
      combo_field_keys-has_field fields (insert_key (print e) keys) k (ground (arith, plain))
      ∙ (ap (λ t. t || has_field fields k) (contains_key-insert_key k (print e) keys)
          ∙ or_assoc (contains_key k keys) (str_eq (print e) k) (has_field fields k))
  combo_field_keys-has_field (and_field (field (quoted t) value s) fields) keys k plain =
      let no_dots : str_eq t "..." ≡ false = ground (arith, plain) in
      rw (no_dots, combo_field_keys)
        (combo_field_keys-has_field fields (insert_key t keys) k (ground (arith, plain))
          ∙ (ap (λ u. u || has_field fields k) (contains_key-insert_key k t keys)
              ∙ or_assoc (contains_key k keys) (str_eq t k) (has_field fields k)))

  -- the keys that the rule finds are those of the literal
  abbrev Finds : ExprKind → List String → Type 0
  Finds kd keys = (k : String) → (contains_key k keys ≡ false) ↔ (¬ HasKey kd k)

  abbrev SealedKeys : ExprKind → Type 0
  SealedKeys kd =
      ((is_sealed kd ≡ true)
        × ((keys : List String) × (sealed_literal_keys to_key print kd ≡ some keys)
            × Finds kd keys))
      ⊎ ((is_sealed kd ≡ false) × (sealed_literal_keys to_key print kd ≡ none))

  Finds-tuple : (items : Exprs) → Finds (tuple items) (positions 0 items)
  Finds-tuple items k = (
    λ lacks (i, less, text).
        absurd (
          ground
            (arith, lacks, range_positions k 0 i items less (ap decimal (omega arith) ∙ text))),
    λ absent. elim (Bool-cases (contains_key k (positions 0 items))) [
      | inl there ↦
          let (j, more, less, text) = positions_range k 0 items there in
          absurd (absent (j, omega (arith, less), text))
      | inr gone ↦ gone
    ],
  )

  Finds-combo :
      (fields : Fields) (rs : List Relation) (closed : Bool)
      → spreads_field fields ≡ false
      → Finds (combo fields rs closed) (combo_field_keys to_key print fields [])
  Finds-combo fields rs closed plain k =
      let same = combo_field_keys-has_field fields [] k plain in
      (
        λ lacks there. absurd (ground (arith, lacks, there, same)),
        λ absent. elim (Bool-cases (has_field fields k)) [
          | inl there ↦ absurd (absent there)
          | inr gone ↦ same ∙ gone
        ],
      )

  sealed_keys : (kd : ExprKind) → spreads_into kd ≡ false → SealedKeys kd
  sealed_keys (tuple items) plain = inl (refl, (positions 0 items, refl, Finds-tuple items))
  sealed_keys (combo fields rs true) plain =
      inl (refl, (combo_field_keys to_key print fields [], refl, Finds-combo fields rs true plain))
  sealed_keys (combo _ _ false) plain = inr (refl, refl)
  sealed_keys (atom a) plain = inr (refl, refl)
  sealed_keys (path p) plain = inr (refl, refl)
  sealed_keys (binary op l r) plain = inr (refl, refl)
  sealed_keys (morphism l r) plain = inr (refl, refl)
  sealed_keys (complement e) plain = inr (refl, refl)
  sealed_keys (ternary a b c) plain = inr (refl, refl)
  sealed_keys (unary op e) plain = inr (refl, refl)
  sealed_keys (list es) plain = inr (refl, refl)
  sealed_keys (poset rs) plain = inr (refl, refl)
  sealed_keys (anon_set e) plain = inr (refl, refl)
  sealed_keys (interpolated ps) plain = inr (refl, refl)
  sealed_keys (range a b by) plain = inr (refl, refl)
  sealed_keys context plain = inr (refl, refl)
  sealed_keys (spread e) plain = inr (refl, refl)
  sealed_keys (structural e) plain = inr (refl, refl)

  unsealed :
      (lhs : Expr) (fields : Fields) (rs : List Relation) (closed : Bool) (s : Span)
      → sealed_literal_keys to_key print (kind lhs) ≡ none
      → is_reported (check_r3 to_key print lhs (node (combo fields rs closed) s)) ≡ false
  unfolding check_r3 classify_rhs classify_kind
  unsealed lhs fields rs closed s nothing =
      ap
        (λ l.
          is_reported
            (compare_keys to_key print l (transformer_keys to_key print (combo fields rs closed))))
        nothing

  -- Where nothing is spread in the left side, a combo on the right is reported exactly if the left
  -- side is a tuple or a closed combo, the combo on the right has no pattern and nothing spread, and
  -- it names a key that the left side does not have. The keys of a tuple are its positions from 0 on
  -- in decimal, those of a closed combo the names, paths and texts of its fields, a pattern's text
  -- among them.
  pub check_r3-lacks :
      (lhs : Expr) (fields : Fields) (rs : List Relation) (closed : Bool) (s : Span)
      → spreads_into (kind lhs) ≡ false
      → (is_reported (check_r3 to_key print lhs (node (combo fields rs closed) s)) ≡ true) ↔ (
          (is_sealed (kind lhs) ≡ true)
          × (is_uncertain to_key print fields ≡ false)
          × ((k : String) × (names_key to_key print fields k ≡ true) × (¬ HasKey (kind lhs) k)))
  check_r3-lacks lhs fields rs closed s plain = elim (sealed_keys (kind lhs) plain) [
    | inr (open_side, nothing) ↦ (
      λ h. absurd (ground (arith, h, unsealed lhs fields rs closed s nothing)),
      λ (shut, rest, other). absurd (ground (arith, shut, open_side)),
    )
    | inl (shut, (keys, found, finds)) ↦
        let (only, enough) = found_lacks to_key print lhs keys fields rs closed s found in
        (
          λ h.
              let (certain_keys, (k, named_there, lacks)) = only h in
              (shut, certain_keys, (k, named_there, (finds k).0 lacks)),
          λ (is_shut, certain_keys, (k, named_there, absent)).
              enough (certain_keys, (k, named_there, (finds k).1 absent)),
        )
  ]
