-- ===== src/Canon/Atoms/Reading.antt =====
-- crates/interpreter/src/bn_serial.rs: strings, atoms and paths are read back from their bytes.
use nlang_tools.Prelude.{ℕ, ◌<◌, ◌^◌, ◌==◌, if◌then◌else◌, String, List, ◌∷◌, length, ◌≡◌, subst}
use nlang_tools.Parser.Ast.{
  ℤ, AtomKind, int, float, complex, str, multiline_str, tag, tag_start, tag_end, regex, top, bottom,
  unit, path_lit, bytes, uri, time,
}
use nlang_tools.Canon.Leb.RoundTrip.{
  read_unsigned, read_signed, read_le, encode_unsigned_leb128-read, encode_signed_leb128-read,
  encode_signed_leb128_int-read, to_le_bytes-read,
}
use nlang_tools.Canon.Reader.{
  Reader, bind, ret, read_bytes, read_byte, Reads, reads, Reads-ret, Reads-bind, Reads-map,
  Reads-byte, Reads-bytes,
}
use nlang_tools.Canon.Atoms.{Host, trim_hashes, encode_string, encode_fixed128, encode_expr_atom}

-- What the reader takes from the language, and what the two sides have to do with one another: a
-- text is got back from its bytes, and a fraction is less than 2 ^ 64 units.
pub record Inverse (h : Host) : Type 0 where
  pub from_bytes : List ℕ → String
  pub of_parts : ℤ → ℕ → ℕ
  pub from_bytes-as_bytes : (s : String) → from_bytes (h.as_bytes s) ≡ s
  pub frac-lt : (b : ℕ) → h.frac b < 256 ^ 8

-- the atom that an atom is for the identity: a float has only its parts, and `_` and `_|_` are tags
module _ {h : Host} (i : Inverse h) where
  unfoldable pub normal_float : ℕ → ℕ
  normal_float b = i.of_parts (h.whole b) (h.frac b)

  unfoldable pub normal_atom : AtomKind → AtomKind
  unfolding normal_float trim_hashes
  normal_atom (float f) = float (normal_float f)
  normal_atom (complex r s) = complex (normal_float r) (normal_float s)
  normal_atom (tag t) = tag (trim_hashes t)
  normal_atom tag_start = tag "_"
  normal_atom tag_end = tag "_|_"
  normal_atom other = other

  pub read_string : Reader String
  read_string = bind read_unsigned (λ n. bind (read_bytes n) (λ bs. ret (i.from_bytes bs)))

  pub Reads-string : (s : String) → Reads read_string (encode_string h s) s
  unfolding read_string encode_string
  Reads-string s =
      subst (λ x. Reads read_string (encode_string h s) x) (i.from_bytes-as_bytes s)
        (Reads-bind _ (reads (encode_unsigned_leb128-read (length (h.as_bytes s))))
          (Reads-map _ (Reads-bytes (h.as_bytes s))))

  read_float : Reader ℕ
  read_float = bind read_signed (λ w. bind (read_le 8) (λ f. ret (i.of_parts w f)))

  Reads-float : (b : ℕ) → Reads read_float (encode_fixed128 h b) (normal_float b)
  unfolding read_float encode_fixed128 normal_float
  Reads-float b =
      Reads-bind _ (reads (encode_signed_leb128-read (h.whole b)))
        (Reads-map _ (reads (λ rest. to_le_bytes-read 8 (h.frac b) rest (i.frac-lt b))))

  -- the rest of an atom, by its first byte
  read_atom_after : ℕ → Reader AtomKind
  read_atom_after b =
      if b == 0x10
      then bind read_string (λ s. ret (str s))
      else if b == 0x21
      then bind read_string (λ s. ret (multiline_str s))
      else if b == 0x12
      then bind read_signed (λ n. ret (int n))
      else if b == 0x13
      then bind read_float (λ f. ret (float f))
      else if b == 0x14
      then bind read_float (λ r. bind read_float (λ s. ret (complex r s)))
      else if b == 0x11
      then bind read_string (λ t. ret (tag t))
      else if b == 0x1d
      then bind read_string (λ p. ret (path_lit p))
      else if b == 0xff
      then ret top
      else if b == 0xfe
      then ret bottom
      else if b == 0x19
      then ret unit
      else if b == 0x1a
      then bind read_string (λ r. ret (regex r))
      else if b == 0x1b
      then bind read_string (λ u. ret (uri u))
      else if b == 0x1c
      then bind read_string (λ t. ret (time t))
      else bind read_unsigned (λ n. bind (read_bytes n) (λ bs. ret (bytes bs)))

  pub read_atom : Reader AtomKind
  read_atom = bind read_byte read_atom_after

  -- a first byte, and what is read after it
  pub Reads-tagged :
      {A : Type 0} (f : ℕ → Reader A) (b : ℕ) {c : List ℕ} {a : A}
      → Reads (f b) c a
      → Reads (bind read_byte f) (b ∷ c) a
  Reads-tagged f b r = Reads-bind f (Reads-byte b) r

  pub Reads-atom : (a : AtomKind) → Reads read_atom (encode_expr_atom h a) (normal_atom a)
  unfolding read_atom read_atom_after encode_expr_atom normal_atom
  Reads-atom (str s) = Reads-tagged read_atom_after 0x10 (Reads-map _ (Reads-string s))
  Reads-atom (multiline_str s) = Reads-tagged read_atom_after 0x21 (Reads-map _ (Reads-string s))
  Reads-atom (int n) =
      Reads-tagged read_atom_after 0x12 (Reads-map _ (reads (encode_signed_leb128_int-read n)))
  Reads-atom (float f) = Reads-tagged read_atom_after 0x13 (Reads-map _ (Reads-float f))
  Reads-atom (complex r s) =
      Reads-tagged read_atom_after 0x14 (Reads-bind _ (Reads-float r) (Reads-map _ (Reads-float s)))
  Reads-atom (tag t) =
      Reads-tagged read_atom_after 0x11 (Reads-map _ (Reads-string (trim_hashes t)))
  Reads-atom tag_start = Reads-tagged read_atom_after 0x11 (Reads-map _ (Reads-string "_"))
  Reads-atom tag_end = Reads-tagged read_atom_after 0x11 (Reads-map _ (Reads-string "_|_"))
  Reads-atom (path_lit p) = Reads-tagged read_atom_after 0x1d (Reads-map _ (Reads-string p))
  Reads-atom top = Reads-tagged read_atom_after 0xff (Reads-ret top)
  Reads-atom bottom = Reads-tagged read_atom_after 0xfe (Reads-ret bottom)
  Reads-atom unit = Reads-tagged read_atom_after 0x19 (Reads-ret unit)
  Reads-atom (regex r) = Reads-tagged read_atom_after 0x1a (Reads-map _ (Reads-string r))
  Reads-atom (uri u) = Reads-tagged read_atom_after 0x1b (Reads-map _ (Reads-string u))
  Reads-atom (time t) = Reads-tagged read_atom_after 0x1c (Reads-map _ (Reads-string t))
  Reads-atom (bytes b) =
      Reads-tagged read_atom_after 0x1e (
        Reads-bind _ (reads (encode_unsigned_leb128-read (length b))) (Reads-map _ (Reads-bytes b)))
