-- ===== src/Builtins/Csv.antt =====
-- crates/interpreter/src/builtins/csv.rs: tables read from text and written to it. A text is the
-- list of the code points of its characters.
pub mod Fields
pub mod Tables
pub mod RoundTrip
use Prim.Native.Nat.{compare, Ordering}
use nlang_tools.Prelude.{
  ℕ, ◌==◌, Bool, true, false, not, ◌&&◌, ◌||◌, if◌then◌else◌, List, [], ◌∷◌, ◌++◌, map, Option,
  none, some,
}

abbrev pub Text : Type 0
Text = List ℕ

abbrev pub quote : ℕ
quote = 34

abbrev pub comma : ℕ
comma = 44

abbrev pub line_feed : ℕ
line_feed = 10

abbrev pub line_return : ℕ
line_return = 13

pub record Reader : Type 0 where
  pub rows : List (List Text)
  pub current_row : List Text
  pub current_field : Text
  pub in_quotes : Bool

abbrev pub is_next : ℕ → Option ℕ → Bool
is_next c none = false
is_next c (some d) = d == c

abbrev pub push_char : ℕ → Reader → Reader
push_char c s = record s { current_field = s.current_field ++ (c ∷ []) }

abbrev pub end_field : Reader → Reader
end_field s = record s { current_row = s.current_row ++ (s.current_field ∷ []); current_field = [] }

abbrev pub end_row : Reader → Reader
end_row s = record s {
  rows = s.rows ++ ((s.current_row ++ (s.current_field ∷ [])) ∷ []);
  current_row = [];
  current_field = [];
}

-- the state after a character, with whether the next one is taken as well
unfoldable pub read_char : ℕ → Option ℕ → Reader → Reader × Bool
read_char c peek s =
    if c == quote
    then (if s.in_quotes
        then (if is_next quote peek
            then (push_char quote s, true)
            else (record s { in_quotes = false }, false))
        else (record s { in_quotes = true }, false))
    else if c == comma && not s.in_quotes
    then (end_field s, false)
    else if c == line_return && not s.in_quotes
    then (end_row s, is_next line_feed peek)
    else if c == line_feed && not s.in_quotes
    then (end_row s, false)
    else (push_char c s, false)

unfoldable pub read_chars : List ℕ → Reader → Reader
unfolding read_char
read_chars [] s = s
read_chars (c ∷ []) s = (read_char c none s).0
read_chars (c ∷ (d ∷ cs)) s =
    let after = read_char c (some d) s in
    let past = read_chars cs after.0 in
    let on = read_chars (d ∷ cs) after.0 in if after.1 then past else on

abbrev pub is_nil {ℓ} : {A : Type ℓ} → List A → Bool
is_nil [] = true
is_nil (x ∷ xs) = false

abbrev pub finish : Reader → List (List Text)
finish s =
    if not (is_nil s.current_field) || not (is_nil s.current_row)
    then s.rows ++ ((s.current_row ++ (s.current_field ∷ [])) ∷ [])
    else s.rows

abbrev pub start : Reader
start = record { rows = []; current_row = []; current_field = []; in_quotes = false }

unfoldable pub parse_csv : Text → List (List Text)
unfolding read_chars
parse_csv input = finish (read_chars input start)

abbrev pub has_char : ℕ → Text → Bool
has_char c [] = false
has_char c (d ∷ text) = d == c || has_char c text

-- `s.replace('"', "\"\"")`
unfoldable pub double_quotes : Text → Text
double_quotes [] = []
double_quotes (c ∷ text) =
    let rest = double_quotes text in if c == quote then quote ∷ quote ∷ rest else c ∷ rest

unfoldable pub escape_csv_field : Text → Text
unfolding double_quotes
escape_csv_field s =
    if has_char comma s || (has_char quote s || (has_char line_feed s || has_char line_return s))
    then quote ∷ (double_quotes s ++ (quote ∷ []))
    else s

-- `[String]::join` on a separator of one character
unfoldable pub join_text : ℕ → List Text → Text
join_text sep [] = []
join_text sep (t ∷ []) = t
join_text sep (t ∷ (u ∷ ts)) = t ++ (sep ∷ join_text sep (u ∷ ts))

-- A row is a list of cells, a record of them, or another value; a cell is the text it has, or a
-- structure, which has none.
pub data Row : Type 0 where
  list_row : List (Option Text) → Row
  record_row : List (Text × Option Text) → Row
  other_row : Row

abbrev pub text_eq : Text → Text → Bool
text_eq [] [] = true
text_eq (c ∷ s) (d ∷ t) = c == d && text_eq s t
text_eq _ _ = false

-- the order of texts by their characters
unfoldable pub text_leb : Text → Text → Bool
text_leb [] t = true
text_leb (c ∷ s) [] = false
text_leb (c ∷ s) (d ∷ t) =
    let rest = text_leb s t in
    elim (compare c d) [ Ordering.lt ↦ true | Ordering.eq ↦ rest | Ordering.gt ↦ false ]

unfoldable pub insert_text : Text → List Text → List Text
unfolding text_leb
insert_text t [] = t ∷ []
insert_text t (u ∷ us) = if text_leb t u then t ∷ u ∷ us else u ∷ insert_text t us

unfoldable pub sort_texts : List Text → List Text
unfolding insert_text
sort_texts [] = []
sort_texts (t ∷ ts) = insert_text t (sort_texts ts)

-- a key that starts with `%`
abbrev pub is_meta : Text → Bool
is_meta [] = false
is_meta (c ∷ key) = c == b'%'

unfoldable pub plain_keys : List (Text × Option Text) → List Text
plain_keys [] = []
plain_keys (entry ∷ entries) =
    if is_meta entry.0 then plain_keys entries else entry.0 ∷ plain_keys entries

-- the header, where the first row is a record
abbrev pub header_of : List Row → Option (List Text)
header_of (record_row entries ∷ rows) = some (sort_texts (plain_keys entries))
header_of _ = none

abbrev pub in_texts : Text → List Text → Bool
in_texts t [] = false
in_texts t (u ∷ us) = text_eq u t || in_texts t us

-- a key of the record that the header lacks
abbrev pub has_other_key : List Text → List (Text × Option Text) → Bool
has_other_key h [] = false
has_other_key h (entry ∷ entries) =
    (not (is_meta entry.0) && not (in_texts entry.0 h)) || has_other_key h entries

abbrev pub and_text : Option Text → Option (List Text) → Option (List Text)
and_text none rest = none
and_text (some t) none = none
and_text (some t) (some ts) = some (t ∷ ts)

abbrev pub escaped : Option Text → Option Text
escaped none = none
escaped (some t) = some (escape_csv_field t)

unfoldable pub cells_of : List (Option Text) → Option (List Text)
unfolding escape_csv_field
cells_of [] = some []
cells_of (cell ∷ cells) = and_text (escaped cell) (cells_of cells)

-- `c.data.get(k)`, with no text for a key that is missing
abbrev pub cell_at : Text → List (Text × Option Text) → Option Text
cell_at k [] = some []
cell_at k (entry ∷ entries) = if text_eq entry.0 k then escaped entry.1 else cell_at k entries

unfoldable pub cells_at : List Text → List (Text × Option Text) → Option (List Text)
unfolding escape_csv_field
cells_at [] entries = some []
cells_at (k ∷ h) entries = and_text (cell_at k entries) (cells_at h entries)

abbrev pub row_cells : Option (List Text) → Row → Option (List Text)
row_cells (some h) (record_row entries) =
    if has_other_key h entries then none else cells_at h entries
row_cells (some h) _ = none
row_cells none (list_row cells) = cells_of cells
row_cells none _ = none

abbrev pub line_of : Option (List Text) → Option Text
line_of none = none
line_of (some cells) = some (join_text comma cells)

unfoldable pub lines_of : Option (List Text) → List Row → Option (List Text)
unfolding cells_of cells_at join_text
lines_of header [] = some []
lines_of header (row ∷ rows) = and_text (line_of (row_cells header row)) (lines_of header rows)

abbrev pub with_header : Option (List Text) → Option (List Text) → Option (List Text)
with_header none lines = lines
with_header (some h) lines = and_text (some (join_text comma (map escape_csv_field h))) lines

abbrev pub joined_lines : Option (List Text) → Option Text
joined_lines none = none
joined_lines (some lines) = some (join_text line_feed lines)

-- `none` is the bottom of a conflict
unfoldable pub csv_text : List Row → Option Text
unfolding plain_keys sort_texts lines_of escape_csv_field join_text
csv_text rows = joined_lines (with_header (header_of rows) (lines_of (header_of rows) rows))
