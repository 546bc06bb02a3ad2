-- ===== src/Parser/Address/RoundTrip.antt =====
-- A printed digest reads back; and what the reader takes beside that.
use nlang_tools.Prelude.{
  ℕ, ◌+◌, ◌*◌, ◌/◌, ◌%◌, ◌<◌, ◌≤◌, ◌≡◌, refl, ap, true, false, Option, none, some, List, [], ◌∷◌,
  length, All, arith, Bool-cases, inl, inr, ◌==◌, ==_iff, if◌then◌else◌,
}
use nlang_tools.Parser.Address.{
  Decoded, decoded, refused, panicked, to_digit, from_str_radix, is_inside, parsed, decode_pairs,
  decode_digest_hex, hex_digit, encode_digest_hex,
}

abbrev pub IsByte : ℕ → Type 0
IsByte b = b < 256

to_digit-hex_digit : (n : ℕ) → n < 16 → to_digit (hex_digit n) ≡ some n
unfolding to_digit hex_digit
to_digit-hex_digit n h = ground arith

from_str_radix-hex_digit :
    (h l : ℕ) → h < 16 → l < 16 → from_str_radix (hex_digit h) (hex_digit l) ≡ some (h * 16 + l)
unfolding from_str_radix hex_digit
from_str_radix-hex_digit h l hh hl =
    ground (arith, to_digit-hex_digit h hh, to_digit-hex_digit l hl)

encoded_is_outside : (bs : List ℕ) → All IsByte bs → is_inside (encode_digest_hex bs) ≡ false
unfolding encode_digest_hex hex_digit
encoded_is_outside [] h = refl
encoded_is_outside (b ∷ bs) h = ground arith

length-encode : (bs : List ℕ) → length (encode_digest_hex bs) ≡ 2 * length bs
unfolding encode_digest_hex
length-encode [] = omega arith
length-encode (b ∷ bs) = omega (arith, length-encode bs)

decode_pairs-encode :
    (bs : List ℕ) → All IsByte bs → decode_pairs (encode_digest_hex bs) ≡ decoded bs
unfolding decode_pairs encode_digest_hex
decode_pairs-encode [] h = refl
decode_pairs-encode (b ∷ bs) (h, hs) =
    rw
      (
        encoded_is_outside bs hs,
        from_str_radix-hex_digit (b / 16) (b % 16) (omega arith) (omega arith),
        decode_pairs-encode bs hs,
      )
      (ap (λ (n : ℕ). decoded (n ∷ bs)) (omega arith))

-- A digest of 32 bytes that is printed reads back as that digest.
pub decode-encode_digest_hex :
    (digest : List ℕ)
    → length digest ≡ 32
    → All IsByte digest
    → decode_digest_hex (encode_digest_hex digest) ≡ decoded digest
unfolding decode_digest_hex
decode-encode_digest_hex digest n h =
    rw (decode_pairs-encode digest h) (ground (arith, length-encode digest))

to_digit_lt : (c n : ℕ) → to_digit c ≡ some n → n < 16
unfolding to_digit
to_digit_lt c n h = ground arith

from_str_radix_lt : (x y n : ℕ) → from_str_radix x y ≡ some n → n < 256
unfolding from_str_radix
from_str_radix_lt x y n h = ground (arith, to_digit_lt x, to_digit_lt y)

abbrev Sound : List ℕ → List ℕ → Type 0
Sound s d = (length s ≡ 2 * length d) × All IsByte d

parsed-Sound :
    (x y : ℕ) (rest d : List ℕ) (o : Option ℕ) (more : Decoded (List ℕ))
    → from_str_radix x y ≡ o
    → ((d' : List ℕ) → more ≡ decoded d' → Sound rest d')
    → parsed o more ≡ decoded d
    → Sound (x ∷ y ∷ rest) d
parsed-Sound x y rest d none more p ih h = cc
parsed-Sound x y rest d (some b) refused p ih h = cc
parsed-Sound x y rest d (some b) panicked p ih h = cc
parsed-Sound x y rest [] (some b) (decoded d') p ih h = cc
parsed-Sound x y rest (c ∷ d) (some b) (decoded d') p ih h =
    let (len, all) = ih d (cc) in (omega (arith, len), (from_str_radix_lt x y c (cc), all))

decode_pairs-Sound : (s d : List ℕ) → decode_pairs s ≡ decoded d → Sound s d
unfolding decode_pairs
decode_pairs-Sound [] [] h = (refl, tt)
decode_pairs-Sound [] (b ∷ d) h = cc
decode_pairs-Sound (x ∷ []) d h = cc
decode_pairs-Sound (x ∷ (y ∷ rest)) d h = elim (Bool-cases (is_inside rest)) [
  | inl inside ↦ cc (rw (inside, decode_pairs) at h)
  | inr outside ↦
      parsed-Sound x y rest d (from_str_radix x y) (decode_pairs rest) refl
        (λ d'. decode_pairs-Sound rest d') (rw (outside, decode_pairs) at h)
]

-- What the reader accepts has 64 bytes of text and gives 32 bytes of digest.
pub decode_digest_hex-Sound :
    (s d : List ℕ)
    → decode_digest_hex s ≡ decoded d
    → (length s ≡ 64) × (length d ≡ 32) × All IsByte d
unfolding decode_digest_hex
decode_digest_hex-Sound s d h = elim (Bool-cases (length s == 64)) [
  | inl fits ↦
      let (len, all) = decode_pairs-Sound s d (rw (fits, decode_digest_hex) at h) in
      let n : length s ≡ 64 = (==_iff _ _).0 fits in (n, omega arith, all)
  | inr other ↦ cc (rw (other, decode_digest_hex) at h)
]

from_str_radix-plus : (y : ℕ) → from_str_radix b'+' y ≡ from_str_radix b'0' y
unfolding from_str_radix to_digit
from_str_radix-plus y = ground arith

-- A `+` is read for a `0` in the first place of a digest: besides the digits that are printed,
-- the reader takes texts that are no hexadecimal digits, and two texts name one address.
pub decode-plus :
    (y : ℕ) (rest : List ℕ)
    → decode_digest_hex (b'+' ∷ y ∷ rest) ≡ decode_digest_hex (b'0' ∷ y ∷ rest)
unfolding decode_digest_hex
decode-plus y rest =
    ap
      (λ (o : Option ℕ).
        if length (b'0' ∷ y ∷ rest) == 64
        then (if is_inside rest then panicked else parsed o (decode_pairs rest))
        else refused)
      (from_str_radix-plus y)

-- A text of the right length whose second pair of bytes begins inside a character makes the
-- reader panic: it slices the text there before it looks at a digit.
pub decode-inside :
    (x y z : ℕ) (rest : List ℕ)
    → length rest ≡ 61
    → 0x80 ≤ z
    → z < 0xc0
    → decode_digest_hex (x ∷ y ∷ z ∷ rest) ≡ panicked
unfolding decode_digest_hex decode_pairs
decode-inside x y z rest n low high =
    let inside : is_inside (z ∷ rest) ≡ true = ground arith in
    let fits : (length (x ∷ y ∷ z ∷ rest) == 64) ≡ true = (==_iff _ _).1 (omega arith) in
    rw (fits, inside)
