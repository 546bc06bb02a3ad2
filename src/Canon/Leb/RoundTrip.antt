-- ===== src/Canon/Leb/RoundTrip.antt =====
-- crates/interpreter/src/bn_serial.rs: LEB128 is read back, and it shows where it ends.
use Prim.Native.Nat.{bit_and, bit_or}
use nlang_tools.Prelude.{
  ℕ, zero, suc, ◌+◌, ◌-◌, ◌*◌, ◌/◌, ◌%◌, ◌^◌, ◌<◌, ◌≤◌, ltb, leb, same, same→eq, ◌==◌, Bool, true,
  false, ◌&&◌, if◌then◌else◌, List, [], ◌∷◌, ◌++◌, ◌≡◌, refl, ◌∙◌, ap, Option, some, none, arith,
  test_under, under_elim, Bool-cases, inl, inr,
}
use native.Mathlib.Numerals.{unary_clauses}
use nlang_tools.Parser.Ast.{ℤ, pos, negsuc}
use nlang_tools.Canon.Leb.{
  continued, low_bits, unsigned_loop, encode_unsigned_leb128, low_bits_of, shift_7, sign_bit,
  is_last, signed_loop, magnitude, encode_signed_leb128, fits_i64, encode_signed_leb128_int,
  to_le_bytes,
}

-- a value read, and the bytes after it
abbrev pub Read : Type 0 → Type 0
Read A = Option (A × List ℕ)

abbrev then_high : ℕ → Read ℕ → Read ℕ
then_high low none = none
then_high low (some (v, rest)) = some (low + 128 * v, rest)

unfoldable pub read_unsigned : List ℕ → Read ℕ
read_unsigned [] = none
read_unsigned (b ∷ bs) =
    let rest = then_high (b - 128) (read_unsigned bs) in if ltb b 128 then some (b, bs) else rest

abbrev byte_law : ℕ → Bool
byte_law b = bit_and b 0x7f == b % 128 && (bit_or (b % 128) 0x80 == b % 128 + 128)

byte_table : test_under 256 byte_law ≡ true
unfolding test_under
byte_table = refl

low_bits_lem : (v : ℕ) → low_bits v ≡ v % 128
low_bits_lem v = ground (arith, under_elim 256 byte_law (v % 256) byte_table)

continued-true : (b : ℕ) → b < 128 → continued true b ≡ b + 128
continued-true b h = ground (arith, under_elim 256 byte_law b byte_table)

-- a last byte, and a byte that others follow
read_unsigned_last : (b : ℕ) (bs : List ℕ) → b < 128 → read_unsigned (b ∷ bs) ≡ some (b, bs)
unfolding read_unsigned
read_unsigned_last b bs h = ground arith

read_unsigned_more :
    (b : ℕ) (bs : List ℕ)
    → b < 128
    → read_unsigned (continued true b ∷ bs) ≡ then_high b (read_unsigned bs)
unfolding read_unsigned
read_unsigned_more b bs h = rw (continued-true b h) (ground arith)

unsigned_loop-read :
    (fuel v : ℕ) (rest : List ℕ)
    → v < fuel
    → read_unsigned (unsigned_loop fuel v ++ rest) ≡ some (v, rest)
unfolding unsigned_loop
unsigned_loop-read zero v rest h = absurd (omega arith)
unsigned_loop-read (suc fuel) v rest h = elim (Bool-cases (v / 128 == 0)) [
  | inl small ↦
      let low : low_bits v ≡ v = ground (arith, low_bits_lem v) in
      rw (small, low) (read_unsigned_last v rest (ground arith))
  | inr large ↦
      rw (large, low_bits_lem v)
        (read_unsigned_more (v % 128) (unsigned_loop fuel (v / 128) ++ rest) (omega arith)
          ∙ rw (unsigned_loop-read fuel (v / 128) rest (ground arith)) (ground arith))
]

-- A number is read back from its bytes, whatever follows them.
pub encode_unsigned_leb128-read :
    (v : ℕ) (rest : List ℕ) → read_unsigned (encode_unsigned_leb128 v ++ rest) ≡ some (v, rest)
unfolding encode_unsigned_leb128
encode_unsigned_leb128-read v rest = unsigned_loop-read (suc v) v rest (omega arith)

-- the number `low + 128 * q` in two's complement
abbrev above_low : ℕ → ℤ → ℤ
above_low low (pos q) = pos (low + 128 * q)
above_low low (negsuc q) = negsuc (128 * q + (127 - low))

abbrev then_above : ℕ → Read ℤ → Read ℤ
then_above low none = none
then_above low (some (v, rest)) = some (above_low low v, rest)

abbrev last_value : ℕ → ℤ
last_value b = if ltb b 64 then pos b else negsuc (127 - b)

unfoldable pub read_signed : List ℕ → Read ℤ
read_signed [] = none
read_signed (b ∷ bs) =
    let rest = then_above (b - 128) (read_signed bs) in
    if ltb b 128 then some (last_value b, bs) else rest

sign_bit_lem : (b : ℕ) → b < 128 → sign_bit b ≡ leb 64 b
unfolding test_under
sign_bit_lem b h = same→eq _ _ (under_elim 128 (λ x. same (sign_bit x) (leb 64 x)) b sign_table h)
  where
    sign_table : test_under 128 (λ x. same (sign_bit x) (leb 64 x)) ≡ true
    sign_table = refl

low_bits_of-lt : (v : ℤ) → low_bits_of v < 128
low_bits_of-lt (pos n) = omega arith
low_bits_of-lt (negsuc n) = omega arith

above_low-shift : (v : ℤ) → above_low (low_bits_of v) (shift_7 v) ≡ v
above_low-shift (pos n) = ap pos (omega arith)
above_low-shift (negsuc n) = ap negsuc (omega arith)

-- where the loop stops the byte holds the whole number
last_value-is_last :
    (v : ℤ) → is_last (shift_7 v) (low_bits_of v) ≡ true → last_value (low_bits_of v) ≡ v
last_value-is_last (pos n) h = ground (arith, sign_bit_lem (n % 128))
last_value-is_last (negsuc n) h = ground (arith, sign_bit_lem (127 - n % 128))

magnitude-shift :
    (v : ℤ) (fuel : ℕ)
    → is_last (shift_7 v) (low_bits_of v) ≡ false
    → magnitude v + 2 ≤ suc fuel
    → magnitude (shift_7 v) + 2 ≤ fuel
magnitude-shift (pos n) fuel h k = ground (arith, sign_bit_lem (n % 128))
magnitude-shift (negsuc n) fuel h k = ground (arith, sign_bit_lem (127 - n % 128))

read_signed_last : (b : ℕ) (bs : List ℕ) → b < 128 → read_signed (b ∷ bs) ≡ some (last_value b, bs)
unfolding read_signed
read_signed_last b bs h = ground arith

read_signed_more :
    (b : ℕ) (bs : List ℕ)
    → b < 128
    → read_signed (continued true b ∷ bs) ≡ then_above b (read_signed bs)
unfolding read_signed
read_signed_more b bs h = rw (continued-true b h) (ground arith)

signed_loop-read :
    (fuel : ℕ) (v : ℤ) (rest : List ℕ)
    → magnitude v + 2 ≤ fuel
    → read_signed (signed_loop fuel v ++ rest) ≡ some (v, rest)
unfolding signed_loop
signed_loop-read zero v rest h = absurd (omega arith)
signed_loop-read (suc fuel) v rest h = elim (Bool-cases (is_last (shift_7 v) (low_bits_of v))) [
  | inl last ↦ rw last (
      read_signed_last (low_bits_of v) rest (low_bits_of-lt v)
      ∙ ap (λ x. some (x, rest)) (last_value-is_last v last))
  | inr more ↦ rw more (
      read_signed_more (low_bits_of v) (signed_loop fuel (shift_7 v) ++ rest) (low_bits_of-lt v)
      ∙ ap (then_above (low_bits_of v))
          (signed_loop-read fuel (shift_7 v) rest (magnitude-shift v fuel more h))
      ∙ ap (λ x. some (x, rest)) (above_low-shift v))
]

pub encode_signed_leb128-read :
    (v : ℤ) (rest : List ℕ) → read_signed (encode_signed_leb128 v ++ rest) ≡ some (v, rest)
unfolding encode_signed_leb128
encode_signed_leb128-read v rest = signed_loop-read (magnitude v + 2) v rest (omega arith)

-- An integer of any size is read back from its bytes, whatever follows them.
pub encode_signed_leb128_int-read :
    (v : ℤ) (rest : List ℕ) → read_signed (encode_signed_leb128_int v ++ rest) ≡ some (v, rest)
unfolding encode_signed_leb128_int
encode_signed_leb128_int-read v rest = elim (Bool-cases (fits_i64 v)) [
  | inl fits ↦ rw fits (encode_signed_leb128-read v rest)
  | inr wide ↦ rw wide (signed_loop-read (magnitude v + 2) v rest (omega arith))
]

-- so many bytes, lowest first, and the bytes after them
unfoldable pub read_le : ℕ → List ℕ → Read ℕ
read_le zero bs = some (0, bs)
read_le (suc n) [] = none
read_le (suc n) (b ∷ bs) = elim (read_le n bs) [
  | none ↦ none
  | some (v, rest) ↦ some (b + 256 * v, rest)
]

pub to_le_bytes-read :
    (n v : ℕ) (rest : List ℕ) → v < 256 ^ n → read_le n (to_le_bytes n v ++ rest) ≡ some (v, rest)
unfolding read_le to_le_bytes
to_le_bytes-read zero v rest h = ground arith
to_le_bytes-read (suc n) v rest h =
    let power : 256 ^ suc n ≡ 256 * 256 ^ n = simp unary_clauses (omega arith) in
    rw (to_le_bytes-read n (v / 256) rest (omega (arith, power))) (ground arith)
