-- ===== src/Canon/Atoms/Paths.antt =====
-- crates/interpreter/src/bn_serial.rs: paths, relations and the prefixes of names are read back.
use nlang_tools.Prelude.{
  ℕ, zero, suc, ◌<◌, ◌^◌, ◌==◌, if◌then◌else◌, String, Option, none, some, List, [], ◌∷◌, length,
  ◌≡◌, refl, subst,
}
use nlang_tools.Parser.Ast.{
  Prefix, PathAnchor, AstPath, Relation, RelOp, sha256, root, current, parent, bare, address,
}
use nlang_tools.Parser.Spans.{default, set_path}
use nlang_tools.Canon.Leb.RoundTrip.{
  read_unsigned, read_le, encode_unsigned_leb128-read, to_le_bytes-read,
}
use nlang_tools.Canon.Reader.{
  Reader, bind, ret, read_bytes, read_byte, Reads, reads, Reads-ret, Reads-bind, Reads-map,
  Reads-byte, Reads-bytes,
}
use nlang_tools.Canon.Atoms.{Host, encode_anchor, encode_segments, encode_path, relop_byte}
use nlang_tools.Canon.Atoms.Reading.{
  Inverse, normal_atom, read_string, Reads-string, read_atom, Reads-atom, Reads-tagged,
}
use nlang_tools.Canon.Encode.{prefix_bytes}
use nlang_tools.Canon.Encode.Reference.{bytes_of_relation, bytes_of_relations}

-- the ranges that the types of the source give: a `u32` and a `[u8; 32]`
abbrev pub IsSizedAnchor : PathAnchor → Type 0
IsSizedAnchor (parent n) = n < 256 ^ 4
IsSizedAnchor (address algo digest) = length digest ≡ 32
IsSizedAnchor root = Unit {0}
IsSizedAnchor current = Unit {0}
IsSizedAnchor bare = Unit {0}

read_anchor_after : ℕ → Reader PathAnchor
read_anchor_after b =
    if b == 0
    then ret bare
    else if b == 1
    then ret root
    else if b == 2
    then bind (read_le 4) (λ n. ret (parent n))
    else if b == 3
    then ret current
    else bind read_byte (λ a. bind (read_bytes 32) (λ digest. ret (address sha256 digest)))

read_prefix_after : ℕ → Reader (Option Prefix)
read_prefix_after b = if b == 0 then ret none else bind read_byte (λ p. ret (some (prefix_of p)))
  where
    prefix_of : ℕ → Prefix
    prefix_of p =
        if p == 0
        then Prefix.plain
        else if p == 1
        then Prefix.private
        else if p == 2
        then Prefix.logic
        else if p == 3
        then Prefix.type
        else if p == 4
        then Prefix.meta
        else if p == 5
        then Prefix.system
        else Prefix.local

pub read_prefix : Reader (Option Prefix)
read_prefix = bind read_byte read_prefix_after

relop_of : ℕ → RelOp
relop_of b =
    if b == 0
    then RelOp.lt
    else if b == 1
    then RelOp.gt
    else if b == 2
    then RelOp.lte
    else if b == 3
    then RelOp.gte
    else RelOp.eq

relop_of-relop_byte : (op : RelOp) → relop_of (relop_byte op) ≡ op
unfolding relop_of relop_byte
relop_of-relop_byte RelOp.lt = refl
relop_of-relop_byte RelOp.gt = refl
relop_of-relop_byte RelOp.lte = refl
relop_of-relop_byte RelOp.gte = refl
relop_of-relop_byte RelOp.eq = refl

module _ {h : Host} (i : Inverse h) where
  Reads-anchor :
      (a : PathAnchor)
      → IsSizedAnchor a
      → Reads (bind read_byte read_anchor_after) (encode_anchor a) a
  unfolding encode_anchor read_anchor_after
  Reads-anchor bare z = Reads-tagged i read_anchor_after 0 (Reads-ret bare)
  Reads-anchor root z = Reads-tagged i read_anchor_after 1 (Reads-ret root)
  Reads-anchor (parent n) z =
      Reads-tagged i read_anchor_after 2 (Reads-map _ (reads (λ rest. to_le_bytes-read 4 n rest z)))
  Reads-anchor current z = Reads-tagged i read_anchor_after 3 (Reads-ret current)
  Reads-anchor (address sha256 digest) z = Reads-tagged i read_anchor_after 4 (
      Reads-bind _ (Reads-byte 0)
        (Reads-map _ (subst (λ n. Reads (read_bytes n) digest digest) z (Reads-bytes digest))))

  read_segments : ℕ → Reader (List String)
  read_segments zero = ret []
  read_segments (suc n) = bind (read_string i) (λ s. bind (read_segments n) (λ ss. ret (s ∷ ss)))

  Reads-segments : (ss : List String) → Reads (read_segments (length ss)) (encode_segments h ss) ss
  unfolding read_segments encode_segments
  Reads-segments [] = Reads-ret []
  Reads-segments (s ∷ ss) = Reads-bind _ (Reads-string i s) (Reads-map _ (Reads-segments ss))

  pub read_path : Reader AstPath
  read_path = bind (bind read_byte read_anchor_after) (λ a. bind read_unsigned (λ n.
      bind (read_segments n) (λ ss. ret (record { anchor = a; segments = ss; span = default }))))

  pub Reads-path :
      (p : AstPath)
      → IsSizedAnchor p.anchor
      → Reads read_path (encode_path h p) (set_path default p)
  unfolding read_path encode_path set_path
  Reads-path p z = Reads-bind _ (Reads-anchor p.anchor z) (
      Reads-bind _ (reads (encode_unsigned_leb128-read (length p.segments)))
        (Reads-map _ (Reads-segments p.segments)))

  pub Reads-prefix : (p : Option Prefix) → Reads read_prefix (prefix_bytes p) p
  unfolding read_prefix read_prefix_after prefix_bytes
  Reads-prefix none = Reads-tagged i read_prefix_after 0 (Reads-ret none)
  Reads-prefix (some Prefix.plain) = Reads-tagged i read_prefix_after 1 (Reads-map _ (Reads-byte 0))
  Reads-prefix (some Prefix.private) =
      Reads-tagged i read_prefix_after 1 (Reads-map _ (Reads-byte 1))
  Reads-prefix (some Prefix.logic) = Reads-tagged i read_prefix_after 1 (Reads-map _ (Reads-byte 2))
  Reads-prefix (some Prefix.type) = Reads-tagged i read_prefix_after 1 (Reads-map _ (Reads-byte 3))
  Reads-prefix (some Prefix.meta) = Reads-tagged i read_prefix_after 1 (Reads-map _ (Reads-byte 4))
  Reads-prefix (some Prefix.system) =
      Reads-tagged i read_prefix_after 1 (Reads-map _ (Reads-byte 5))
  Reads-prefix (some Prefix.local) = Reads-tagged i read_prefix_after 1 (Reads-map _ (Reads-byte 6))

  unfoldable pub normal_relation : Relation → Relation
  normal_relation r = record {
    left = normal_atom i r.left;
    op = r.op;
    right = normal_atom i r.right;
    span = default;
  }

  unfoldable pub normal_relations : List Relation → List Relation
  unfolding normal_relation
  normal_relations [] = []
  normal_relations (r ∷ rs) = normal_relation r ∷ normal_relations rs

  read_relation : Reader Relation
  read_relation = bind (read_atom i) (λ l. bind read_byte (λ b.
      bind (read_atom i)
        (λ r. ret (record { left = l; op = relop_of b; right = r; span = default }))))

  Reads-relation : (r : Relation) → Reads read_relation (bytes_of_relation h r) (normal_relation r)
  unfolding read_relation normal_relation
  Reads-relation r =
      subst
        (λ op. Reads read_relation (bytes_of_relation h r) (record {
          left = normal_atom i r.left;
          op = op;
          right = normal_atom i r.right;
          span = default;
        }))
        (relop_of-relop_byte r.op)
        (Reads-bind _ (Reads-atom i r.left)
          (Reads-tagged i _ (relop_byte r.op) (Reads-map _ (Reads-atom i r.right))))

  pub read_relations : ℕ → Reader (List Relation)
  read_relations zero = ret []
  read_relations (suc n) = bind read_relation (λ r. bind (read_relations n) (λ rs. ret (r ∷ rs)))

  pub Reads-relations :
      (rs : List Relation)
      → Reads (read_relations (length rs)) (bytes_of_relations h rs) (normal_relations rs)
  unfolding read_relations bytes_of_relations normal_relations
  Reads-relations [] = Reads-ret []
  Reads-relations (r ∷ rs) = Reads-bind _ (Reads-relation r) (Reads-map _ (Reads-relations rs))
