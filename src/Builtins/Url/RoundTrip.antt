-- ===== src/Builtins/Url/RoundTrip.antt =====
-- crates/interpreter/src/builtins/url.rs: a text that is encoded is decoded to itself.
use nlang_tools.Prelude.{
  ℕ, ◌+◌, ◌*◌, ◌/◌, ◌%◌, ◌<◌, true, false, ◌==◌, ltb, List, [], ◌∷◌, ◌++◌, some, All, All-append,
  append-nil, ◌≡◌, refl, ap, sym, ◌∙◌, arith, Bool-cases, inl, inr,
}
use nlang_tools.Parser.Address.{to_digit, from_str_radix}
use nlang_tools.Builtins.Url.{
  utf8, bytes_of, is_unreserved, upper_digit, encode_bytes, url_encode, taken, decode_chars,
  url_decode,
}

-- a code point
abbrev pub IsChar : ℕ → Type 0
IsChar c = c < 0x11_0000

abbrev IsByte : ℕ → Type 0
IsByte b = b < 256

utf8-IsByte : (c : ℕ) → IsChar c → All IsByte (utf8 c)
unfolding utf8
utf8-IsByte c char = elim (Bool-cases (ltb c 0x80)) [
  | inl one ↦ rw (one) (ground (arith, one), tt)
  | inr more ↦ elim (Bool-cases (ltb c 0x800)) [
    | inl two ↦ rw (more) rw (two) (ground (arith, two), (omega arith, tt))
    | inr three ↦ elim (Bool-cases (ltb c 0x1_0000)) [
      | inl yes_three ↦
          rw (more) rw (three) rw (yes_three)
            (ground (arith, yes_three), (omega arith, (omega arith, tt)))
      | inr four ↦
          rw (more) rw (three) rw (four)
            (omega (arith, char), (omega arith, (omega arith, (omega arith, tt))))
    ]
  ]
]

bytes_of-IsByte : (s : List ℕ) → All IsChar s → All IsByte (bytes_of s)
unfolding bytes_of
bytes_of-IsByte [] chars = tt
bytes_of-IsByte (c ∷ s) chars =
    All-append IsByte (utf8 c) (bytes_of s) (utf8-IsByte c chars.0) (bytes_of-IsByte s chars.1)

to_digit-upper_digit : (n : ℕ) → n < 16 → to_digit (upper_digit n) ≡ some n
unfolding to_digit
to_digit-upper_digit n small = ground (arith, small)

decode-one :
    (c : ℕ) (cs : List ℕ) → (c == b'%') ≡ false → decode_chars (c ∷ cs) ≡ utf8 c ++ decode_chars cs
unfolding decode_chars
decode-one c [] other = sym (append-nil (utf8 c))
decode-one c (x ∷ []) other = refl
decode-one c (x ∷ (y ∷ cs)) other = rw (other) refl

from_str_radix-upper_digit :
    (h l : ℕ) → h < 16 → l < 16 → from_str_radix (upper_digit h) (upper_digit l) ≡ some (h * 16 + l)
unfolding from_str_radix
from_str_radix-upper_digit h l hh hl =
    ground (arith, to_digit-upper_digit h hh, to_digit-upper_digit l hl)

decode-percent :
    (b : ℕ) (cs : List ℕ)
    → b < 256
    → decode_chars (b'%' ∷ upper_digit (b / 16) ∷ upper_digit (b % 16) ∷ cs) ≡ b ∷ decode_chars cs
unfolding decode_chars
decode-percent b cs byte =
    let one : List ℕ =
      utf8 b'%' ++ decode_chars (upper_digit (b / 16) ∷ upper_digit (b % 16) ∷ cs) in
    let whole : b / 16 * 16 + b % 16 ≡ b = omega arith in
    ap (λ o. taken o (decode_chars cs) one)
      (from_str_radix-upper_digit (b / 16) (b % 16) (omega (arith, byte)) (omega arith))
    ∙ ap (λ n. n ∷ decode_chars cs) whole

utf8-ascii : (c : ℕ) → ltb c 0x80 ≡ true → utf8 c ≡ c ∷ []
unfolding utf8
utf8-ascii c one = rw (one) refl

decode_nil : decode_chars [] ≡ []
unfolding decode_chars
decode_nil = refl

unreserved_other : (b : ℕ) → is_unreserved b ≡ true → (b == b'%') ≡ false
unreserved_other b plain = ground (arith, plain)

unreserved_ascii : (b : ℕ) → is_unreserved b ≡ true → ltb b 0x80 ≡ true
unreserved_ascii b plain = ground (arith, plain)

decode-encode_bytes : (bs : List ℕ) → All IsByte bs → decode_chars (encode_bytes bs) ≡ bs
unfolding encode_bytes
decode-encode_bytes [] bytes = decode_nil
decode-encode_bytes (b ∷ bs) bytes = elim (Bool-cases (is_unreserved b)) [
  | inl plain ↦ rw (plain) (
      decode-one b (encode_bytes bs) (unreserved_other b plain)
      ∙ (ap (λ t. t ++ decode_chars (encode_bytes bs)) (utf8-ascii b (unreserved_ascii b plain))
          ∙ ap (λ t. b ∷ t) (decode-encode_bytes bs bytes.1)))
  | inr other ↦ rw (other) (
      decode-percent b (encode_bytes bs) bytes.0 ∙ ap (λ t. b ∷ t) (decode-encode_bytes bs bytes.1))
]

-- What is encoded of a text is decoded to what the text's bytes are read as, for every text of code
-- points.
pub url_decode-url_encode :
    (lossy : List ℕ → List ℕ) (s : List ℕ)
    → All IsChar s
    → url_decode lossy (url_encode s) ≡ lossy (bytes_of s)
unfolding url_decode url_encode
url_decode-url_encode lossy s chars =
    ap lossy (decode-encode_bytes (bytes_of s) (bytes_of-IsByte s chars))
