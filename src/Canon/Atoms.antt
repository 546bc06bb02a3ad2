-- ===== src/Canon/Atoms.antt =====
-- crates/interpreter/src/bn_serial.rs: strings, atoms and paths in bytes. A function gives the
-- bytes that its call appends.
pub mod Reading
pub mod Paths
use Prim.Native.Char.{code}
use nlang_tools.Prelude.{ℕ, ◌==◌, String, if◌then◌else◌, List, [], ◌∷◌, ◌++◌, length}
use nlang_tools.Parser.Ast.{
  ℤ, Prefix, AddressAlgo, PathAnchor, AstPath, AtomKind, RelOp, sha256, root, current, parent, bare,
  address, int, float, complex, str, multiline_str, tag, tag_start, tag_end, regex, top, bottom,
  unit, path_lit, bytes, uri, time,
}
use nlang_tools.Canon.Leb.{
  encode_unsigned_leb128, encode_signed_leb128, encode_signed_leb128_int, to_le_bytes,
}

-- What the code takes from the language: the bytes of a text, and of the 64 bits of a float the
-- whole part as an `i64` and the magnitude of the fraction in units of 1 / 2 ^ 64.
pub record Host : Type 0 where
  pub as_bytes : String → List ℕ
  pub whole : ℕ → ℤ
  pub frac : ℕ → ℕ

-- `t.trim_start_matches('#')`
unfoldable pub trim_hashes : String → String
trim_hashes String.[] = String.[]
trim_hashes (String.◌∷◌ c s) = if code c == b'#' then trim_hashes s else String.◌∷◌ c s

unfoldable pub encode_string : Host → String → List ℕ
encode_string h s = encode_unsigned_leb128 (length (h.as_bytes s)) ++ h.as_bytes s

unfoldable pub encode_fixed128 : Host → ℕ → List ℕ
encode_fixed128 h val = encode_signed_leb128 (h.whole val) ++ to_le_bytes 8 (h.frac val)

unfoldable pub serialize_atom : Host → AtomKind → List ℕ
unfolding encode_string encode_fixed128
serialize_atom h (str s) = 0x10 ∷ encode_string h s
serialize_atom h (multiline_str s) = 0x10 ∷ encode_string h s
serialize_atom h (int n) = 0x12 ∷ encode_signed_leb128_int n
serialize_atom h (float f) = 0x13 ∷ encode_fixed128 h f
serialize_atom h (complex r i) = 0x14 ∷ (encode_fixed128 h r ++ encode_fixed128 h i)
serialize_atom h (tag t) = 0x11 ∷ encode_string h (trim_hashes t)
serialize_atom h tag_start = 0x11 ∷ encode_string h "_"
serialize_atom h tag_end = 0x11 ∷ encode_string h "_|_"
serialize_atom h (path_lit p) = 0x1d ∷ encode_string h p
serialize_atom h top = 0xff ∷ []
serialize_atom h bottom = 0xfe ∷ []
serialize_atom h unit = 0x19 ∷ []
serialize_atom h (regex r) = 0x1a ∷ encode_string h r
serialize_atom h (uri u) = 0x1b ∷ encode_string h u
serialize_atom h (time t) = 0x1c ∷ encode_string h t
serialize_atom h (bytes b) = 0x1e ∷ (encode_unsigned_leb128 (length b) ++ b)

unfoldable pub encode_expr_atom : Host → AtomKind → List ℕ
unfolding serialize_atom encode_string
encode_expr_atom h (multiline_str s) = 0x21 ∷ encode_string h s
encode_expr_atom h other = serialize_atom h other

unfoldable pub algo_byte : AddressAlgo → ℕ
algo_byte sha256 = 0

unfoldable pub encode_anchor : PathAnchor → List ℕ
unfolding algo_byte
encode_anchor bare = 0 ∷ []
encode_anchor root = 1 ∷ []
encode_anchor (parent n) = 2 ∷ to_le_bytes 4 n
encode_anchor current = 3 ∷ []
encode_anchor (address algo digest) = 4 ∷ (algo_byte algo ∷ digest)

unfoldable pub encode_segments : Host → List String → List ℕ
unfolding encode_string
encode_segments h [] = []
encode_segments h (seg ∷ segs) = encode_string h seg ++ encode_segments h segs

unfoldable pub encode_path : Host → AstPath → List ℕ
unfolding encode_anchor encode_segments
encode_path h p =
    encode_anchor p.anchor
    ++ (encode_unsigned_leb128 (length p.segments) ++ encode_segments h p.segments)

unfoldable pub prefix_byte : Prefix → ℕ
prefix_byte Prefix.plain = 0
prefix_byte Prefix.private = 1
prefix_byte Prefix.logic = 2
prefix_byte Prefix.type = 3
prefix_byte Prefix.meta = 4
prefix_byte Prefix.system = 5
prefix_byte Prefix.local = 6

unfoldable pub relop_byte : RelOp → ℕ
relop_byte RelOp.lt = 0
relop_byte RelOp.gt = 1
relop_byte RelOp.lte = 2
relop_byte RelOp.gte = 3
relop_byte RelOp.eq = 4
