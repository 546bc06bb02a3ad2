-- ===== src/Parser/Address.antt =====
-- crates/parser/src/lib.rs and ast.rs: the digest of an address literal, read from and printed
-- as hexadecimal digits. Texts are lists of UTF-8 bytes.
pub mod RoundTrip
use nlang_tools.Prelude.{
  ℕ, ◌+◌, ◌-◌, ◌*◌, ◌/◌, ◌%◌, Bool, true, false, ◌&&◌, ◌==◌, ltb, leb, if◌then◌else◌, Option, none,
  some, List, [], ◌∷◌, length,
}

-- What a call comes to: a value, `None`, or a panic on an index inside a character.
pub data Decoded {ℓ} (A : Type ℓ) : Type ℓ where
  decoded : A → Decoded A
  refused panicked : Decoded A

-- `char::to_digit(16)`
unfoldable pub to_digit : ℕ → Option ℕ
to_digit c =
    if leb b'0' c && leb c b'9'
    then some (c - 48)
    else if leb b'a' c && leb c b'f'
    then some (c - 87)
    else if leb b'A' c && leb c b'F'
    then some (c - 55)
    else none

abbrev two_digits : Option ℕ → Option ℕ → Option ℕ
two_digits (some high) (some low) = some (high * 16 + low)
two_digits (some high) none = none
two_digits none low = none

-- `u8::from_str_radix(_, 16)` on two bytes; the standard library takes a leading `+`
unfoldable pub from_str_radix : ℕ → ℕ → Option ℕ
unfolding to_digit
from_str_radix x y = if x == b'+' then to_digit y else two_digits (to_digit x) (to_digit y)

-- whether an index before these bytes is inside a character
abbrev pub is_inside : List ℕ → Bool
is_inside [] = false
is_inside (b ∷ _) = leb 0x80 b && ltb b 0xc0

abbrev pub push_byte : ℕ → Decoded (List ℕ) → Decoded (List ℕ)
push_byte b (decoded bs) = decoded (b ∷ bs)
push_byte b refused = refused
push_byte b panicked = panicked

abbrev pub parsed : Option ℕ → Decoded (List ℕ) → Decoded (List ℕ)
parsed none rest = refused
parsed (some b) rest = push_byte b rest

-- the loop over the pairs, which slices `s[2i .. 2i + 2]` and parses it
unfoldable pub decode_pairs : List ℕ → Decoded (List ℕ)
unfolding from_str_radix
decode_pairs [] = decoded []
decode_pairs (x ∷ []) = refused
decode_pairs (x ∷ (y ∷ rest)) =
    let more = decode_pairs rest in
    if is_inside rest then panicked else parsed (from_str_radix x y) more

unfoldable pub decode_digest_hex : List ℕ → Decoded (List ℕ)
unfolding decode_pairs
decode_digest_hex s = if length s == 64 then decode_pairs s else refused

-- the table `HEX`
unfoldable pub hex_digit : ℕ → ℕ
hex_digit n = if ltb n 10 then n + 48 else n + 87

unfoldable pub encode_digest_hex : List ℕ → List ℕ
unfolding hex_digit
encode_digest_hex [] = []
encode_digest_hex (b ∷ bs) = hex_digit (b / 16) ∷ hex_digit (b % 16) ∷ encode_digest_hex bs
