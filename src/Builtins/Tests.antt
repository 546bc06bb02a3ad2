-- ===== src/Builtins/Tests.antt =====
-- crates/interpreter/src/builtins: a table, a text in percent encoding, and numbers.
use nlang_tools.Prelude.{
  ℕ, ◌^◌, ◌%◌, false, ◌||◌, ◌==◌, if◌then◌else◌, List, [], ◌∷◌, Option, some, ◌≡◌, refl, arith,
}
use nlang_tools.Parser.Ast.{pos, negsuc}
use nlang_tools.Builtins.Csv.{
  Text, list_row, record_row, parse_csv, csv_text, read_chars, double_quotes, escape_csv_field,
  join_text, text_leb, insert_text, sort_texts, plain_keys, cells_of, cells_at, lines_of,
}
use nlang_tools.Builtins.Csv.RoundTrip.{parse_csv-csv_text}
use nlang_tools.Builtins.Url.{utf8, bytes_of, encode_bytes, url_encode, url_decode}
use nlang_tools.Builtins.Url.RoundTrip.{url_decode-url_encode}
use nlang_tools.Builtins.Math.{lcm, pow_mod, answer, conflict, bigint_choose, choose_loop}
use nlang_tools.Builtins.Math.Divisors.{IsLcm, lcm-IsLcm}
use nlang_tools.Builtins.Math.Powers.{pow_mod-power}
use nlang_tools.Builtins.Math.Products.{ways, bigint_choose-ways}

-- `a,b` with a line feed in it, and a quote
abbrev two_cells : List (Option Text)
two_cells = some (b'a' ∷ b',' ∷ 10 ∷ []) ∷ some (34 ∷ []) ∷ []

abbrev one_record : List (Text × Option Text)
one_record = ((b'y' ∷ []), some (b'1' ∷ [])) ∷ ((b'x' ∷ []), some []) ∷ []

two_cells_text :
    csv_text (list_row two_cells ∷ [])
    ≡ some (34 ∷ b'a' ∷ b',' ∷ 10 ∷ 34 ∷ b',' ∷ 34 ∷ 34 ∷ 34 ∷ 34 ∷ [])
unfolding csv_text plain_keys sort_texts lines_of escape_csv_field join_text cells_of double_quotes
two_cells_text = refl

-- the header is in order
one_record_text :
    csv_text (record_row one_record ∷ []) ≡ some (b'x' ∷ b',' ∷ b'y' ∷ 10 ∷ b',' ∷ b'1' ∷ [])
unfolding csv_text plain_keys sort_texts insert_text text_leb lines_of cells_at escape_csv_field
    join_text
one_record_text = refl

-- a last row that is one empty cell is lost
empty_cell_lost : parse_csv [] ≡ []
unfolding parse_csv read_chars
empty_cell_lost = refl

parse_csv-csv_text_example :
    (t : Text) × (csv_text (list_row two_cells ∷ []) ≡ some t)
    × (parse_csv t ≡ ((b'a' ∷ b',' ∷ 10 ∷ []) ∷ (34 ∷ []) ∷ []) ∷ [])
parse_csv-csv_text_example =
    parse_csv-csv_text (list_row two_cells ∷ []) (((b'a' ∷ b',' ∷ 10 ∷ []) ∷ (34 ∷ []) ∷ []) ∷ [])
      refl refl

-- `é%`
abbrev accented : List ℕ
accented = 0xe9 ∷ b'%' ∷ []

accented_encoded :
    url_encode accented ≡ b'%' ∷ b'C' ∷ b'3' ∷ b'%' ∷ b'A' ∷ b'9' ∷ b'%' ∷ b'2' ∷ b'5' ∷ []
unfolding url_encode bytes_of encode_bytes utf8
accented_encoded = refl

url_decode-url_encode_example :
    url_decode (λ bytes. bytes) (url_encode accented) ≡ bytes_of accented
url_decode-url_encode_example =
    url_decode-url_encode (λ bytes. bytes) accented (omega arith, (omega arith, tt))

lcm-IsLcm_example : (l : ℕ) × (lcm (negsuc 3) (pos 6) ≡ some l) × IsLcm 4 6 l
lcm-IsLcm_example = lcm-IsLcm (negsuc 3) (pos 6)

pow_mod-power_example :
    pow_mod (pos 3) (pos 5) (pos 7)
    ≡ (if false || (false || (false || 7 == 0)) then conflict else answer (3 ^ 5 % 7))
pow_mod-power_example = pow_mod-power (pos 3) (pos 5) (pos 7)

bigint_choose-ways_example : bigint_choose 5 (pos 2) ≡ some (ways 5 (pos 2))
bigint_choose-ways_example = bigint_choose-ways 5 (pos 2)

five_choose_two : bigint_choose 5 (pos 2) ≡ some 10
unfolding bigint_choose choose_loop
five_choose_two = refl
