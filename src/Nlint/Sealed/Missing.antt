-- ===== src/Nlint/Sealed/Missing.antt =====
-- crates/oo/src/nlint.rs: what the rule R3 reports of the keys that it has found.
use text.Mathlib.Text.{◌==◌ as str_eq}
use text.Mathlib.TextEquality.{eq_iff}
use nlang_tools.Prelude.{
  String, Bool, true, false, not, ◌||◌, ◌&&◌, List, [], ◌∷◌, ◌++◌, Option, none, some, ◌≡◌, refl,
  ap, sym, ◌∙◌, ◌↔◌, arith, Bool-cases, inl, inr, subst,
}
use nlang_tools.Parser.Ast.{
  AstPath, Expr, node, combo, Relation, Span, Fields, no_fields, and_field, field, FieldKey, named,
  quoted, pattern_key, path_key, kind,
}
use nlang_tools.Parser.Tier.{classify_rhs, classify_kind}
use nlang_tools.Nlint.Sealed.{
  contains_key, insert_key, extra_keys, report_extra, is_spread_value, key_into, gather, certain,
  sealed_literal_keys, compare_keys, check_r3,
}

contains_key-append :
    (k j : String) (keys : List String)
    → contains_key k (keys ++ (j ∷ [])) ≡ (contains_key k keys || str_eq j k)
contains_key-append k j [] = ground arith
contains_key-append k j (x ∷ keys) = ground (arith, contains_key-append k j keys)

pub contains_key-insert_key :
    (k j : String) (keys : List String)
    → contains_key k (insert_key j keys) ≡ (contains_key k keys || str_eq j k)
contains_key-insert_key k j keys = elim (Bool-cases (contains_key j keys)) [
  | inl known ↦ elim (Bool-cases (str_eq j k)) [
    | inl same ↦
        let known' : contains_key k keys ≡ true =
          subst (λ n. contains_key n keys ≡ true) ((eq_iff j k).0 same) known in
        ground (arith, known, same, known')
    | inr other ↦ ground (arith, known, other)
  ]
  | inr new ↦ ground (arith, new, contains_key-append k j keys)
]

pub or_assoc : (a b c : Bool) → ((a || b) || c) ≡ (a || (b || c))
or_assoc a b c = ground arith

abbrev pub is_reported : Option (String × String) → Bool
is_reported none = false
is_reported (some r) = true

-- a key of the list is not among the others
abbrev pub lacks_one : List String → List String → Bool
lacks_one lhs_keys [] = false
lacks_one lhs_keys (k ∷ ks) = not (contains_key k lhs_keys) || lacks_one lhs_keys ks

report_extra-lacks_one :
    (lhs_keys ks : List String)
    → is_reported (report_extra (extra_keys lhs_keys ks)) ≡ lacks_one lhs_keys ks
unfolding extra_keys
report_extra-lacks_one lhs_keys [] = refl
report_extra-lacks_one lhs_keys (k ∷ ks) = elim (Bool-cases (contains_key k lhs_keys)) [
  | inl known ↦ ground (arith, known, report_extra-lacks_one lhs_keys ks)
  | inr extra ↦ ground (arith, extra)
]

lacks_one-key :
    (lhs_keys ks : List String)
    → lacks_one lhs_keys ks ≡ true
    → (k : String) × (contains_key k ks ≡ true) × (contains_key k lhs_keys ≡ false)
lacks_one-key lhs_keys [] h = absurd (ground (arith, h))
lacks_one-key lhs_keys (x ∷ ks) h = elim (Bool-cases (contains_key x lhs_keys)) [
  | inl known ↦
      let (k, there, lacks) = lacks_one-key lhs_keys ks (ground (arith, h, known)) in
      (k, ground (arith, there), lacks)
  | inr extra ↦ (x, ground (arith, (eq_iff x x).1 refl), extra)
]

key-lacks_one :
    (lhs_keys ks : List String) (k : String)
    → contains_key k ks ≡ true
    → contains_key k lhs_keys ≡ false
    → lacks_one lhs_keys ks ≡ true
key-lacks_one lhs_keys [] k there lacks = absurd (ground (arith, there))
key-lacks_one lhs_keys (x ∷ ks) k there lacks = elim (Bool-cases (str_eq x k)) [
  | inl same ↦
      let lacks' : contains_key x lhs_keys ≡ false =
        subst (λ n. contains_key n lhs_keys ≡ false) (sym ((eq_iff x k).0 same)) lacks in
      ground (arith, lacks')
  | inr other ↦ ground (arith, key-lacks_one lhs_keys ks k (ground (arith, there, other)) lacks)
]

module _ (to_key : AstPath → String) (print : Expr → String) where
  -- a key with that text
  abbrev pub names : FieldKey → String → Bool
  names (named p name) k = str_eq name k
  names (quoted s) k = str_eq s k
  names (path_key p) k = str_eq (to_key p) k
  names (pattern_key e) k = false

  abbrev pub names_key : Fields → String → Bool
  names_key no_fields k = false
  names_key (and_field (field key value s) fields) k = names key k || names_key fields k

  -- a pattern, or a value that is spread
  abbrev pub hides_keys : FieldKey → Expr → Bool
  hides_keys (pattern_key e) value = true
  hides_keys (quoted s) value = str_eq s "..." || is_spread_value (kind value)
  hides_keys key value = is_spread_value (kind value)

  abbrev pub is_uncertain : Fields → Bool
  is_uncertain no_fields = false
  is_uncertain (and_field (field key value s) fields) = hides_keys key value || is_uncertain fields

  key_into-names :
      (key : FieldKey) (keys : List String) (b : Bool) (k : String)
      → contains_key k (key_into to_key print key (keys, b)).0
        ≡ (contains_key k keys || names key k)
  key_into-names (named p name) keys b k = contains_key-insert_key k name keys
  key_into-names (quoted s) keys b k = contains_key-insert_key k s keys
  key_into-names (path_key p) keys b k = contains_key-insert_key k (to_key p) keys
  key_into-names (pattern_key e) keys b k = ground arith

  key_into-hides :
      (key : FieldKey) (value : Expr) (keys : List String) (b : Bool)
      → ((key_into to_key print key (keys, b)).1 || is_spread_value (kind value))
        ≡ (b || hides_keys key value)
  key_into-hides (named p name) value keys b = refl
  key_into-hides (quoted s) value keys b = ground arith
  key_into-hides (path_key p) value keys b = refl
  key_into-hides (pattern_key e) value keys b = ground arith

  gather-names :
      (fields : Fields) (keys : List String) (b : Bool) (k : String)
      → contains_key k (gather to_key print fields (keys, b)).0
        ≡ (contains_key k keys || names_key fields k)
  unfolding gather
  gather-names no_fields keys b k = ground arith
  gather-names (and_field (field key value s) fields) keys b k =
      let next = key_into to_key print key (keys, b) in
      let rest = gather-names fields next.0 (next.1 || is_spread_value (kind value)) k in
      rest
      ∙ (ap (λ t. t || names_key fields k) (key_into-names key keys b k)
          ∙ or_assoc (contains_key k keys) (names key k) (names_key fields k))

  gather-uncertain :
      (fields : Fields) (keys : List String) (b : Bool)
      → (gather to_key print fields (keys, b)).1 ≡ (b || is_uncertain fields)
  unfolding gather
  gather-uncertain no_fields keys b = ground arith
  gather-uncertain (and_field (field key value s) fields) keys b =
      let next = key_into to_key print key (keys, b) in
      let rest = gather-uncertain fields next.0 (next.1 || is_spread_value (kind value)) in
      rest
      ∙ (ap (λ t. t || is_uncertain fields) (key_into-hides key value keys b)
          ∙ or_assoc b (hides_keys key value) (is_uncertain fields))

  when_certain :
      (found : List String × Bool) (lhs_keys : List String)
      → is_reported (compare_keys to_key print (some lhs_keys) (certain to_key print found))
        ≡ (not found.1 && lacks_one lhs_keys found.0)
  when_certain (keys, true) lhs_keys = refl
  when_certain (keys, false) lhs_keys = report_extra-lacks_one lhs_keys keys

  pub found_lacks :
      (lhs : Expr) (lhs_keys : List String) (fields : Fields) (rs : List Relation) (closed : Bool)
      (s : Span)
      → sealed_literal_keys to_key print (kind lhs) ≡ some lhs_keys
      → (is_reported (check_r3 to_key print lhs (node (combo fields rs closed) s)) ≡ true) ↔ (
          (is_uncertain fields ≡ false)
          × ((k : String) × (names_key fields k ≡ true) × (contains_key k lhs_keys ≡ false)))
  unfolding check_r3 classify_rhs classify_kind
  found_lacks lhs lhs_keys fields rs closed s sealed =
      let found = gather to_key print fields ([], false) in
      let outcome : is_reported (check_r3 to_key print lhs (node (combo fields rs closed) s))
          ≡ (not found.1 && lacks_one lhs_keys found.0) =
        ap (λ l. is_reported (compare_keys to_key print l (certain to_key print found))) sealed
        ∙ when_certain found lhs_keys in
      let uncertain = gather-uncertain fields [] false in
      (
        λ h.
            let (k, there, lacks) = lacks_one-key lhs_keys found.0 (ground (arith, h, outcome)) in
            (
              ground (arith, h, outcome, uncertain),
              (k, sym (gather-names fields [] false k) ∙ there, lacks),
            ),
        λ (plain, (k, named_there, lacks)).
            let listed =
              key-lacks_one lhs_keys found.0 k (gather-names fields [] false k ∙ named_there)
                lacks in
            ground (arith, outcome, uncertain, plain, listed),
      )
