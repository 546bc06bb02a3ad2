-- ===== src/Canon/Tests.antt =====
-- Identity bytes at concrete expressions. The texts here are of ASCII, where the code points are
-- the bytes.
use Prim.Native.Nat.{compare, Ordering}
use Prim.Native.Char.{Char, char, code, nul, IsLt, IsScalar}
use text.Mathlib.TextEquality.{Char-path}
use nlang_tools.Prelude.{ℕ, String, false, Option, some, none, List, [], ◌∷◌, ◌≡◌, refl, ap₂, arith}
use nlang_tools.Parser.Ast.{
  pos, negsuc, BinaryOp, Expr, node, atom, int, tag, tag_start, binary, context, combo, no_fields,
  and_field, field, named,
}
use nlang_tools.Parser.Spans.{default, unknown}
use nlang_tools.Canon.Leb.{encode_unsigned_leb128, encode_signed_leb128_int}
use nlang_tools.Canon.Atoms.{Host, trim_hashes}
use nlang_tools.Canon.Atoms.Reading.{Inverse}
use nlang_tools.Canon.Encode.{encode_expr}
use nlang_tools.Canon.Encode.Reference.{bytes_of}
use nlang_tools.Canon.Encode.Refines.{encode_expr-bytes_of}
use nlang_tools.Canon.Encode.Normal.{normal, IsSized}
use nlang_tools.Canon.Encode.Reading.Injective.{encode_expr-injective}

abbrev InPlanes : Ordering → Ordering → Type 0
InPlanes Ordering.lt o = IsLt o
InPlanes Ordering.eq o = ⊥
InPlanes Ordering.gt o = ⊥

-- `IsScalar n` at the three comparisons of `n`
abbrev Scalar : Ordering → Ordering → Ordering → Type 0
Scalar Ordering.lt o p = Unit
Scalar Ordering.eq o p = InPlanes o p
Scalar Ordering.gt o p = InPlanes o p

planes_valid : (o p : Ordering) → Option (InPlanes o p)
planes_valid Ordering.lt Ordering.lt = some tt
planes_valid Ordering.lt Ordering.eq = none
planes_valid Ordering.lt Ordering.gt = none
planes_valid Ordering.eq p = none
planes_valid Ordering.gt p = none

valid : (o p q : Ordering) → Option (Scalar o p q)
unfolding planes_valid
valid Ordering.lt p q = some tt
valid Ordering.eq p q = planes_valid p q
valid Ordering.gt p q = planes_valid p q

planes_valid-some :
    (o p : Ordering) (s : InPlanes o p) → (t : InPlanes o p) × (planes_valid o p ≡ some t)
unfolding planes_valid
planes_valid-some Ordering.lt Ordering.lt s = (tt, refl)
planes_valid-some Ordering.lt Ordering.eq s = absurd s
planes_valid-some Ordering.lt Ordering.gt s = absurd s
planes_valid-some Ordering.eq p s = absurd s
planes_valid-some Ordering.gt p s = absurd s

valid-some : (o p q : Ordering) (s : Scalar o p q) → (t : Scalar o p q) × (valid o p q ≡ some t)
unfolding valid
valid-some Ordering.lt p q s = (tt, refl)
valid-some Ordering.eq p q s = planes_valid-some p q s
valid-some Ordering.gt p q s = planes_valid-some p q s

char_or_nul : (n : ℕ) → Option (IsScalar n) → Char
char_or_nul n none = nul
char_or_nul n (some s) = char n s

to_char : ℕ → Char
unfolding char_or_nul valid
to_char n = char_or_nul n (valid (compare n 55296) (compare 57343 n) (compare n 1114112))

to_char-code : (c : Char) → to_char (code c) ≡ c
unfolding to_char
to_char-code (char n s) =
    rw ((valid-some (compare n 55296) (compare 57343 n) (compare n 1114112) s).1)
      (Char-path _ _ refl)

codes : String → List ℕ
codes String.[] = []
codes (String.◌∷◌ c s) = code c ∷ codes s

of_codes : List ℕ → String
of_codes [] = String.[]
of_codes (n ∷ ns) = String.◌∷◌ (to_char n) (of_codes ns)

of_codes-codes : (s : String) → of_codes (codes s) ≡ s
unfolding of_codes codes
of_codes-codes String.[] = refl
of_codes-codes (String.◌∷◌ c s) = ap₂ String.◌∷◌ (to_char-code c) (of_codes-codes s)

-- of the floats only zero is met here
abbrev host : Host
host = record { as_bytes = codes; whole = λ b. pos 0; frac = λ b. 0 }

abbrev inverse : Inverse host
inverse = record {
  from_bytes = of_codes;
  of_parts = λ w f. 0;
  from_bytes-as_bytes = of_codes-codes;
  frac-lt = λ b. omega arith;
}

-- `{ a: $ + -300 }`, at two places of a file
abbrev plus_300 : Expr
plus_300 =
    node (binary BinaryOp.add (node context default) (node (atom (int (negsuc 299))) default))
      unknown

abbrev adder : Expr
adder =
    node (combo (and_field (field (named none "a") plus_300 default) no_fields) [] false) default

abbrev adder_elsewhere : Expr
adder_elsewhere =
    node (combo (and_field (field (named none "a") plus_300 unknown) no_fields) [] false) unknown

encode_expr-adder :
    encode_expr host adder
    ≡ some (0x45 ∷ 0 ∷ 1 ∷ 0 ∷ 0 ∷ 0 ∷ 1 ∷ 97 ∷ 0x4b ∷ 0x61 ∷ 0x40 ∷ 0x12 ∷ 0xd4 ∷ 0x7d ∷ [])
unfolding encode_expr codes encode_unsigned_leb128 encode_signed_leb128_int
encode_expr-adder = refl

-- the tag `#_` and the start of all tags have the same bytes
tag_start-bytes :
    encode_expr host (node (atom tag_start) default)
    ≡ encode_expr host (node (atom (tag "_")) default)
unfolding encode_expr trim_hashes
tag_start-bytes = refl

encode_expr-bytes_of_example : encode_expr host adder ≡ some (bytes_of host adder)
encode_expr-bytes_of_example = encode_expr-bytes_of host adder

encode_expr-injective_example : normal inverse adder ≡ normal inverse adder_elsewhere
unfolding encode_expr IsSized
encode_expr-injective_example =
    encode_expr-injective inverse adder adder_elsewhere ((tt, (tt, tt)), tt) ((tt, (tt, tt)), tt)
      refl
