-- ===== src/Canon/Leb.antt =====
-- crates/interpreter/src/bn_serial.rs: LEB128. A function gives the bytes that its call appends.
pub mod RoundTrip
use Prim.Native.Nat.{bit_and, bit_or}
use nlang_tools.Prelude.{
  ℕ, zero, suc, ◌+◌, ◌-◌, ◌*◌, ◌/◌, ◌%◌, ◌^◌, ltb, ◌==◌, Bool, true, false, not, ◌&&◌, ◌||◌,
  if◌then◌else◌, List, [], ◌∷◌, ◌++◌,
}
use nlang_tools.Parser.Ast.{ℤ, pos, negsuc}

-- the byte with its continuation bit
abbrev pub continued : Bool → ℕ → ℕ
continued more byte = if more then bit_or byte 0x80 else byte

-- `val as u8 & 0x7f`
abbrev pub low_bits : ℕ → ℕ
low_bits v = bit_and (v % 256) 0x7f

unfoldable pub unsigned_loop : ℕ → ℕ → List ℕ
unsigned_loop zero v = []
unsigned_loop (suc fuel) v =
    let rest = unsigned_loop fuel (v / 128) in
    continued (not (v / 128 == 0)) (low_bits v) ∷ (if v / 128 == 0 then [] else rest)

-- A round divides by 128, so as many rounds as the value and one more are enough.
unfoldable pub encode_unsigned_leb128 : ℕ → List ℕ
unfolding unsigned_loop
encode_unsigned_leb128 v = unsigned_loop (suc v) v

-- `val & 0x7f` of a number in two's complement, and `val >>= 7`
abbrev pub low_bits_of : ℤ → ℕ
low_bits_of (pos n) = n % 128
low_bits_of (negsuc n) = 127 - n % 128

abbrev pub shift_7 : ℤ → ℤ
shift_7 (pos n) = pos (n / 128)
shift_7 (negsuc n) = negsuc (n / 128)

abbrev pub is_zero : ℤ → Bool
is_zero (pos n) = n == 0
is_zero (negsuc n) = false

abbrev pub is_minus_one : ℤ → Bool
is_minus_one (pos n) = false
is_minus_one (negsuc n) = n == 0

abbrev pub sign_bit : ℕ → Bool
sign_bit byte = not (bit_and byte 0x40 == 0)

abbrev pub is_last : ℤ → ℕ → Bool
is_last val byte = (is_zero val && not (sign_bit byte)) || (is_minus_one val && sign_bit byte)

unfoldable pub signed_loop : ℕ → ℤ → List ℕ
signed_loop zero val = []
signed_loop (suc fuel) val =
    let rest = signed_loop fuel (shift_7 val) in
    continued (not (is_last (shift_7 val) (low_bits_of val))) (low_bits_of val)
    ∷ (if is_last (shift_7 val) (low_bits_of val) then [] else rest)

abbrev pub magnitude : ℤ → ℕ
magnitude (pos n) = n
magnitude (negsuc n) = n

unfoldable pub encode_signed_leb128 : ℤ → List ℕ
unfolding signed_loop
encode_signed_leb128 val = signed_loop (magnitude val + 2) val

-- `n.to_i64()` has a value
abbrev pub fits_i64 : ℤ → Bool
fits_i64 n = ltb (magnitude n) (2 ^ 63)

unfoldable pub encode_signed_leb128_int : ℤ → List ℕ
unfolding encode_signed_leb128 signed_loop
encode_signed_leb128_int n =
    if fits_i64 n then encode_signed_leb128 n else signed_loop (magnitude n + 2) n

-- `to_le_bytes` of a number of so many bytes
unfoldable pub to_le_bytes : ℕ → ℕ → List ℕ
to_le_bytes zero v = []
to_le_bytes (suc n) v = v % 256 ∷ to_le_bytes n (v / 256)
