-- ===== src/Builtins/Csv/Fields.antt =====
-- crates/interpreter/src/builtins/csv.rs: a field that is escaped is read back.
use nlang_tools.Prelude.{
  ℕ, ◌==◌, ==_iff, Bool, true, false, not, ◌&&◌, ◌||◌, List, [], ◌∷◌, ◌++◌, append_assoc,
  append-nil, ◌≡◌, refl, ap, sym, ◌∙◌, arith, Bool-cases, inl, inr,
}
use nlang_tools.Builtins.Csv.{
  Text, quote, comma, line_feed, line_return, Reader, push_char, read_char, read_chars, has_char,
  double_quotes, escape_csv_field,
}

-- a reader amid a row
abbrev pub reading : List (List Text) → List Text → Text → Bool → Reader
reading rows row field in_quotes = record {
  rows = rows;
  current_row = row;
  current_field = field;
  in_quotes = in_quotes;
}

abbrev pub is_special : ℕ → Bool
is_special c = c == quote || (c == comma || (c == line_feed || c == line_return))

-- `rest` goes on with another character than a quote
abbrev pub starts_quote : Text → Bool
starts_quote [] = false
starts_quote (c ∷ rest) = c == quote

read-plain :
    (c : ℕ) (cs : Text) (s : Reader)
    → (is_special c && not s.in_quotes) ≡ false
    → (c == quote) ≡ false
    → read_chars (c ∷ cs) s ≡ read_chars cs (push_char c s)
unfolding read_chars read_char
read-plain c [] s plain other = ground (arith, plain, other)
read-plain c (d ∷ cs) s plain other = ground (arith, plain, other)

read-quoted_pair :
    (cs : Text) (rows : List (List Text)) (row : List Text) (field : Text)
    → read_chars (quote ∷ quote ∷ cs) (reading rows row field true)
      ≡ read_chars cs (reading rows row (field ++ (quote ∷ [])) true)
unfolding read_chars read_char
read-quoted_pair cs rows row field = refl

read-open :
    (cs : Text) (rows : List (List Text)) (row : List Text) (field : Text)
    → read_chars (quote ∷ cs) (reading rows row field false)
      ≡ read_chars cs (reading rows row field true)
unfolding read_chars read_char
read-open [] rows row field = refl
read-open (d ∷ cs) rows row field = refl

read-close :
    (rest : Text) (rows : List (List Text)) (row : List Text) (field : Text)
    → starts_quote rest ≡ false
    → read_chars (quote ∷ rest) (reading rows row field true)
      ≡ read_chars rest (reading rows row field false)
unfolding read_chars read_char
read-close [] rows row field h = refl
read-close (d ∷ rest) rows row field h = ground (arith, h)

read-doubled :
    (f rest : Text) (rows : List (List Text)) (row : List Text) (field : Text)
    → read_chars (double_quotes f ++ rest) (reading rows row field true)
      ≡ read_chars rest (reading rows row (field ++ f) true)
unfolding double_quotes
read-doubled [] rest rows row field =
    ap (λ t. read_chars rest (reading rows row t true)) (sym (append-nil field))
read-doubled (c ∷ f) rest rows row field =
    let whole : (field ++ (c ∷ [])) ++ f ≡ field ++ (c ∷ f) = append_assoc field (c ∷ []) f in
    let more : read_chars (double_quotes f ++ rest) (reading rows row (field ++ (c ∷ [])) true)
        ≡ read_chars rest (reading rows row (field ++ (c ∷ f)) true) =
      read-doubled f rest rows row (field ++ (c ∷ []))
      ∙ ap (λ t. read_chars rest (reading rows row t true)) whole in
    elim (Bool-cases (c == quote)) [
      | inl same ↦
          let back : quote ≡ c = sym ((==_iff c quote).0 same) in
          rw (same) (
            read-quoted_pair (double_quotes f ++ rest) rows row field
            ∙ (ap
                  (λ k.
                    read_chars (double_quotes f ++ rest)
                      (reading rows row (field ++ (k ∷ [])) true))
                  back
                ∙ more))
      | inr other ↦ rw (other) (
          read-plain c (double_quotes f ++ rest) (reading rows row field true)
            (ground (arith, other)) other
          ∙ more)
    ]

-- one of the characters that call for quotes
abbrev pub needs_quotes : Text → Bool
needs_quotes s =
    has_char comma s || (has_char quote s || (has_char line_feed s || has_char line_return s))

read-unquoted :
    (f rest : Text) (rows : List (List Text)) (row : List Text) (field : Text)
    → needs_quotes f ≡ false
    → read_chars (f ++ rest) (reading rows row field false)
      ≡ read_chars rest (reading rows row (field ++ f) false)
read-unquoted [] rest rows row field plain =
    ap (λ t. read_chars rest (reading rows row t false)) (sym (append-nil field))
read-unquoted (c ∷ f) rest rows row field plain =
    read-plain c (f ++ rest) (reading rows row field false) (ground (arith, plain))
      (ground (arith, plain))
    ∙ (read-unquoted f rest rows row (field ++ (c ∷ [])) (ground (arith, plain))
        ∙ ap (λ t. read_chars rest (reading rows row t false)) (append_assoc field (c ∷ []) f))

read-in_quotes :
    (f rest : Text) (rows : List (List Text)) (row : List Text)
    → starts_quote rest ≡ false
    → read_chars (quote ∷ ((double_quotes f ++ (quote ∷ [])) ++ rest)) (reading rows row [] false)
      ≡ read_chars rest (reading rows row f false)
read-in_quotes f rest rows row h =
    read-open ((double_quotes f ++ (quote ∷ [])) ++ rest) rows row []
    ∙ (ap (λ t. read_chars t (reading rows row [] true))
          (append_assoc (double_quotes f) (quote ∷ []) rest)
        ∙ (read-doubled f (quote ∷ rest) rows row [] ∙ read-close rest rows row f h))

pub read-escape_csv_field :
    (f rest : Text) (rows : List (List Text)) (row : List Text)
    → starts_quote rest ≡ false
    → read_chars (escape_csv_field f ++ rest) (reading rows row [] false)
      ≡ read_chars rest (reading rows row f false)
unfolding escape_csv_field
read-escape_csv_field f rest rows row h = elim (Bool-cases (needs_quotes f)) [
  | inl quoted ↦ rw (quoted) (read-in_quotes f rest rows row h)
  | inr plain ↦ rw (plain) (read-unquoted f rest rows row [] plain)
]
