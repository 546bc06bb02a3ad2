-- ===== src/Builtins/Csv/Tables.antt =====
-- crates/interpreter/src/builtins/csv.rs: a table that is written is read back.
use nlang_tools.Prelude.{
  Bool, true, false, not, ◌&&◌, List, [], ◌∷◌, ◌++◌, append_assoc, append-nil, map, ◌≡◌, refl, ap,
  sym, ◌∙◌, arith,
}
use nlang_tools.Builtins.Csv.{
  Text, comma, line_feed, Reader, read_char, read_chars, is_nil, finish, parse_csv,
  escape_csv_field, join_text,
}
use nlang_tools.Builtins.Csv.Fields.{reading, starts_quote, read-escape_csv_field}

-- the last field of a row, and those before it
abbrev last_of : Text → List Text → Text
last_of f [] = f
last_of f (g ∷ gs) = last_of g gs

abbrev init_of : Text → List Text → List Text
init_of f [] = []
init_of f (g ∷ gs) = f ∷ init_of g gs

init-last : (f : Text) (fs : List Text) → init_of f fs ++ (last_of f fs ∷ []) ≡ f ∷ fs
init-last f [] = refl
init-last f (g ∷ gs) = ap (λ t. f ∷ t) (init-last g gs)

read-comma :
    (cs : Text) (rows : List (List Text)) (row : List Text) (field : Text)
    → read_chars (comma ∷ cs) (reading rows row field false)
      ≡ read_chars cs (reading rows (row ++ (field ∷ [])) [] false)
unfolding read_chars read_char
read-comma [] rows row field = refl
read-comma (d ∷ cs) rows row field = refl

read-line_feed :
    (cs : Text) (rows : List (List Text)) (row : List Text) (field : Text)
    → read_chars (line_feed ∷ cs) (reading rows row field false)
      ≡ read_chars cs (reading (rows ++ ((row ++ (field ∷ [])) ∷ [])) [] [] false)
unfolding read_chars read_char
read-line_feed [] rows row field = refl
read-line_feed (d ∷ cs) rows row field = refl

-- a row as it is written
abbrev pub line : List Text → Text
line row = join_text comma (map escape_csv_field row)

read-line :
    (f : Text) (fs : List Text) (rest : Text) (rows : List (List Text)) (row : List Text)
    → starts_quote rest ≡ false
    → read_chars (line (f ∷ fs) ++ rest) (reading rows row [] false)
      ≡ read_chars rest (reading rows (row ++ init_of f fs) (last_of f fs) false)
unfolding join_text
read-line f [] rest rows row h =
    read-escape_csv_field f rest rows row h
    ∙ ap (λ r. read_chars rest (reading rows r f false)) (sym (append-nil row))
read-line f (g ∷ gs) rest rows row h =
    ap (λ t. read_chars t (reading rows row [] false))
      (append_assoc (escape_csv_field f) (comma ∷ line (g ∷ gs)) rest)
    ∙ (read-escape_csv_field f (comma ∷ (line (g ∷ gs) ++ rest)) rows row refl
        ∙ (read-comma (line (g ∷ gs) ++ rest) rows row f
            ∙ (read-line g gs rest rows (row ++ (f ∷ [])) h
                ∙ ap (λ r. read_chars rest (reading rows r (last_of g gs) false))
                    (append_assoc row (f ∷ []) (init_of g gs)))))

abbrev pub is_blank : List Text → Bool
is_blank [] = true
is_blank ([] ∷ []) = true
is_blank _ = false

-- each row has a cell, and the last row is not one empty cell
abbrev pub is_readable : List (List Text) → Bool
is_readable [] = true
is_readable (row ∷ []) = not (is_blank row)
is_readable (row ∷ (next ∷ rows)) = not (is_nil row) && is_readable (next ∷ rows)

finish-long :
    (rows : List (List Text)) (f : Text) (row : List Text) (field : Text)
    → finish (reading rows (f ∷ row) field false) ≡ rows ++ ((f ∷ (row ++ (field ∷ []))) ∷ [])
finish-long rows f row [] = refl
finish-long rows f row (c ∷ field) = refl

finish-row :
    (f : Text) (fs : List Text) (rows : List (List Text))
    → is_blank (f ∷ fs) ≡ false
    → finish (reading rows (init_of f fs) (last_of f fs) false) ≡ rows ++ ((f ∷ fs) ∷ [])
finish-row [] [] rows h = absurd (ground (arith, h))
finish-row (c ∷ f) [] rows h = refl
finish-row f (g ∷ gs) rows h =
    finish-long rows f (init_of g gs) (last_of g gs)
    ∙ ap (λ r. rows ++ (r ∷ [])) (init-last f (g ∷ gs))

read_nil : (s : Reader) → read_chars [] s ≡ s
unfolding read_chars
read_nil s = refl

read-nothing :
    (done : List (List Text)) → finish (read_chars [] (reading done [] [] false)) ≡ done ++ []
unfolding read_chars
read-nothing done = sym (append-nil done)

-- the lines of a table
abbrev pub table : List (List Text) → Text
table tab = join_text line_feed (map line tab)

read-table :
    (tab done : List (List Text))
    → is_readable tab ≡ true
    → finish (read_chars (table tab) (reading done [] [] false)) ≡ done ++ tab
unfolding join_text
read-table [] done h = read-nothing done
read-table ([] ∷ []) done h = absurd (ground (arith, h))
read-table ((f ∷ fs) ∷ []) done h =
    ap (λ t. finish (read_chars t (reading done [] [] false))) (sym (append-nil (line (f ∷ fs))))
    ∙ (ap finish (read-line f fs [] done [] refl)
        ∙ (ap finish (read_nil (reading done (init_of f fs) (last_of f fs) false))
            ∙ finish-row f fs done (ground (arith, h))))
read-table ([] ∷ (next ∷ rows)) done h = absurd (ground (arith, h))
read-table ((f ∷ fs) ∷ (next ∷ rows)) done h =
    ap finish (
      read-line f fs (line_feed ∷ table (next ∷ rows)) done [] refl
      ∙ (read-line_feed (table (next ∷ rows)) done (init_of f fs) (last_of f fs)
          ∙ ap (λ r. read_chars (table (next ∷ rows)) (reading (done ++ (r ∷ [])) [] [] false))
              (init-last f fs)))
    ∙ (read-table (next ∷ rows) (done ++ ((f ∷ fs) ∷ [])) h
        ∙ append_assoc done ((f ∷ fs) ∷ []) (next ∷ rows))

pub parse_csv-table :
    (tab : List (List Text)) → is_readable tab ≡ true → parse_csv (table tab) ≡ tab
unfolding parse_csv
parse_csv-table tab h = read-table tab [] h
