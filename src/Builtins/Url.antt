-- ===== src/Builtins/Url.antt =====
-- crates/interpreter/src/builtins/url.rs: percent encoding. A text is the list of the code points
-- of its characters, and `lossy` reads bytes as UTF-8.
pub mod RoundTrip
use nlang_tools.Prelude.{
  ℕ, ◌+◌, ◌/◌, ◌%◌, Bool, ◌&&◌, ◌||◌, ◌==◌, ltb, leb, if◌then◌else◌, List, [], ◌∷◌, ◌++◌, Option,
  none, some,
}
use nlang_tools.Parser.Address.{from_str_radix}

-- the UTF-8 bytes of a character
unfoldable pub utf8 : ℕ → List ℕ
utf8 c =
    if ltb c 0x80
    then c ∷ []
    else if ltb c 0x800
    then (0xc0 + c / 0x40) ∷ (0x80 + c % 0x40) ∷ []
    else if ltb c 0x1_0000
    then (0xe0 + c / 0x1000) ∷ (0x80 + c / 0x40 % 0x40) ∷ (0x80 + c % 0x40) ∷ []
    else (0xf0 + c / 0x4_0000)
      ∷ (0x80 + c / 0x1000 % 0x40)
      ∷ (0x80 + c / 0x40 % 0x40)
      ∷ (0x80 + c % 0x40)
      ∷ []

unfoldable pub bytes_of : List ℕ → List ℕ
unfolding utf8
bytes_of [] = []
bytes_of (c ∷ text) = utf8 c ++ bytes_of text

abbrev pub is_unreserved : ℕ → Bool
is_unreserved b =
    (leb b'A' b && leb b b'Z')
    || ((leb b'a' b && leb b b'z')
        || ((leb b'0' b && leb b b'9') || (b == b'-' || (b == b'_' || (b == b'.' || b == b'~')))))

-- a digit of `{:02X}`
abbrev pub upper_digit : ℕ → ℕ
upper_digit n = if ltb n 10 then n + 48 else n + 55

unfoldable pub encode_bytes : List ℕ → List ℕ
encode_bytes [] = []
encode_bytes (b ∷ bytes) =
    let rest = encode_bytes bytes in
    if is_unreserved b then b ∷ rest else b'%' ∷ upper_digit (b / 16) ∷ upper_digit (b % 16) ∷ rest

unfoldable pub url_encode : List ℕ → List ℕ
unfolding bytes_of encode_bytes
url_encode s = encode_bytes (bytes_of s)

abbrev pub taken : Option ℕ → List ℕ → List ℕ → List ℕ
taken none rest one = one
taken (some b) rest one = b ∷ rest

-- the bytes that the loop over the characters gathers
unfoldable pub decode_chars : List ℕ → List ℕ
unfolding utf8 from_str_radix
decode_chars [] = []
decode_chars (c ∷ []) = utf8 c
decode_chars (c ∷ (x ∷ [])) = utf8 c ++ decode_chars (x ∷ [])
decode_chars (c ∷ (x ∷ (y ∷ cs))) =
    let past = decode_chars cs in
    let one = utf8 c ++ decode_chars (x ∷ (y ∷ cs)) in
    if c == b'%' then taken (from_str_radix x y) past one else one

module _ (lossy : List ℕ → List ℕ) where
  unfoldable pub url_decode : List ℕ → List ℕ
  unfolding decode_chars
  url_decode s = lossy (decode_chars s)
