-- ===== src/Builtins/Csv/RoundTrip.antt =====
-- crates/interpreter/src/builtins/csv.rs: the rows that are written as text are read back.
use nlang_tools.Prelude.{
  true, if◌then◌else◌, List, [], ◌∷◌, map, Option, none, some, ◌≡◌, refl, ap, ◌∙◌, Bool-cases, inl,
  inr,
}
use nlang_tools.Builtins.Csv.{
  Text, parse_csv, escape_csv_field, Row, list_row, record_row, other_row, text_eq, header_of,
  has_other_key, and_text, escaped, cells_of, cell_at, cells_at, row_cells, line_of, lines_of,
  with_header, joined_lines, csv_text,
}
use nlang_tools.Builtins.Csv.Tables.{line, is_readable, table, parse_csv-table}

abbrev pub all_texts : List (Option Text) → Option (List Text)
all_texts [] = some []
all_texts (cell ∷ cells) = and_text cell (all_texts cells)

abbrev pub value_at : Text → List (Text × Option Text) → Option Text
value_at k [] = some []
value_at k (entry ∷ entries) = if text_eq entry.0 k then entry.1 else value_at k entries

abbrev pub values_at : List Text → List (Text × Option Text) → Option (List Text)
values_at [] entries = some []
values_at (k ∷ h) entries = and_text (value_at k entries) (values_at h entries)

-- the texts in a row, under the header
abbrev pub texts_of : Option (List Text) → Row → Option (List Text)
texts_of (some h) (record_row entries) =
    if has_other_key h entries then none else values_at h entries
texts_of (some h) _ = none
texts_of none (list_row cells) = all_texts cells
texts_of none _ = none

abbrev pub and_row : Option (List Text) → Option (List (List Text)) → Option (List (List Text))
and_row none rest = none
and_row (some row) none = none
and_row (some row) (some rows) = some (row ∷ rows)

abbrev pub rows_of : Option (List Text) → List Row → Option (List (List Text))
rows_of header [] = some []
rows_of header (row ∷ rows) = and_row (texts_of header row) (rows_of header rows)

abbrev pub headed : Option (List Text) → Option (List (List Text)) → Option (List (List Text))
headed none tab = tab
headed (some h) tab = and_row (some h) tab

-- The table of the rows: with the header as its first row, where they are records.
abbrev pub table_of : List Row → Option (List (List Text))
table_of rows = headed (header_of rows) (rows_of (header_of rows) rows)

abbrev map_some {ℓ κ} : {A : Type ℓ} {B : Type κ} → (A → B) → Option A → Option B
map_some f none = none
map_some f (some a) = some (f a)

and_escaped :
    (o : Option Text) (os : Option (List Text))
    → and_text (escaped o) (map_some (map escape_csv_field) os)
      ≡ map_some (map escape_csv_field) (and_text o os)
and_escaped none os = refl
and_escaped (some t) none = refl
and_escaped (some t) (some ts) = refl

cells_of-escaped :
    (cells : List (Option Text))
    → cells_of cells ≡ map_some (map escape_csv_field) (all_texts cells)
unfolding cells_of
cells_of-escaped [] = refl
cells_of-escaped (cell ∷ cells) =
    ap (and_text (escaped cell)) (cells_of-escaped cells) ∙ and_escaped cell (all_texts cells)

cell_at-escaped :
    (k : Text) (entries : List (Text × Option Text))
    → cell_at k entries ≡ escaped (value_at k entries)
unfolding escape_csv_field
cell_at-escaped k [] = refl
cell_at-escaped k (entry ∷ entries) = elim (Bool-cases (text_eq entry.0 k)) [
  | inl same ↦ rw (same) refl
  | inr other ↦ rw (other) (cell_at-escaped k entries)
]

cells_at-escaped :
    (h : List Text) (entries : List (Text × Option Text))
    → cells_at h entries ≡ map_some (map escape_csv_field) (values_at h entries)
unfolding cells_at
cells_at-escaped [] entries = refl
cells_at-escaped (k ∷ h) entries =
    ap (λ o. and_text o (cells_at h entries)) (cell_at-escaped k entries)
    ∙ (ap (and_text (escaped (value_at k entries))) (cells_at-escaped h entries)
        ∙ and_escaped (value_at k entries) (values_at h entries))

row_cells-escaped :
    (header : Option (List Text)) (row : Row)
    → row_cells header row ≡ map_some (map escape_csv_field) (texts_of header row)
row_cells-escaped none (list_row cells) = cells_of-escaped cells
row_cells-escaped none (record_row entries) = refl
row_cells-escaped none other_row = refl
row_cells-escaped (some h) (list_row cells) = refl
row_cells-escaped (some h) other_row = refl
row_cells-escaped (some h) (record_row entries) = elim (Bool-cases (has_other_key h entries)) [
  | inl other ↦ rw (other) refl
  | inr none_other ↦ rw (none_other) (cells_at-escaped h entries)
]

and_line :
    (o : Option (List Text)) (os : Option (List (List Text)))
    → and_text (line_of (map_some (map escape_csv_field) o)) (map_some (map line) os)
      ≡ map_some (map line) (and_row o os)
and_line none os = refl
and_line (some row) none = refl
and_line (some row) (some rows) = refl

lines_of-rows :
    (header : Option (List Text)) (rows : List Row)
    → lines_of header rows ≡ map_some (map line) (rows_of header rows)
unfolding lines_of
lines_of-rows header [] = refl
lines_of-rows header (row ∷ rows) =
    ap (λ o. and_text (line_of o) (lines_of header rows)) (row_cells-escaped header row)
    ∙ (ap (and_text (line_of (map_some (map escape_csv_field) (texts_of header row))))
          (lines_of-rows header rows)
        ∙ and_line (texts_of header row) (rows_of header rows))

with_header-headed :
    (header : Option (List Text)) (tab : Option (List (List Text)))
    → with_header header (map_some (map line) tab) ≡ map_some (map line) (headed header tab)
with_header-headed none tab = refl
with_header-headed (some h) none = refl
with_header-headed (some h) (some tab) = refl

joined_lines-table :
    (tab : Option (List (List Text))) → joined_lines (map_some (map line) tab) ≡ map_some table tab
joined_lines-table none = refl
joined_lines-table (some tab) = refl

pub csv_text-table : (rows : List Row) → csv_text rows ≡ map_some table (table_of rows)
unfolding csv_text
csv_text-table rows =
    ap (λ ls. joined_lines (with_header (header_of rows) ls)) (lines_of-rows (header_of rows) rows)
    ∙ (ap joined_lines (with_header-headed (header_of rows) (rows_of (header_of rows) rows))
        ∙ joined_lines-table (table_of rows))

-- Rows that make a table, under a header where they are records, are written as a text from which
-- that table is read back, if each row has a cell and the last row is not one empty cell.
pub parse_csv-csv_text :
    (rows : List Row) (tab : List (List Text))
    → table_of rows ≡ some tab
    → is_readable tab ≡ true
    → (t : Text) × (csv_text rows ≡ some t) × (parse_csv t ≡ tab)
parse_csv-csv_text rows tab made readable =
    (table tab, csv_text-table rows ∙ ap (map_some table) made, parse_csv-table tab readable)
