-- ===== src/Canon/Encode/Reference.antt =====
-- crates/interpreter/src/bn_serial.rs: the bytes of an expression by recursion on the tree.
use nlang_tools.Prelude.{ℕ, if◌then◌else◌, List, [], ◌∷◌, ◌++◌, length}
use nlang_tools.Parser.Ast.{
  Relation, Expr, ExprKind, Exprs, RangeStep, Parts, StringPart, Fields, Field, FieldKey, node,
  atom, path, binary, morphism, combo, complement, ternary, unary, list, tuple, poset, anon_set,
  interpolated, range, context, spread, structural, no_exprs, and_expr, no_step, step, no_parts,
  and_part, literal, interpolation, no_fields, and_field, field, named, quoted, pattern_key,
  path_key,
}
use nlang_tools.Canon.Leb.{encode_unsigned_leb128}
use nlang_tools.Canon.Atoms.{Host, encode_string, encode_expr_atom, encode_path, relop_byte}
use nlang_tools.Canon.Encode.{len_items, len_fields, len_parts, op_byte, unary_byte, prefix_bytes}

-- the bytes of a relation
abbrev pub bytes_of_relation : Host → Relation → List ℕ
bytes_of_relation h r = encode_expr_atom h r.left ++ (relop_byte r.op ∷ encode_expr_atom h r.right)

unfoldable pub bytes_of_relations : Host → List Relation → List ℕ
unfolding encode_expr_atom relop_byte
bytes_of_relations h [] = []
bytes_of_relations h (r ∷ rs) = bytes_of_relation h r ++ bytes_of_relations h rs

module _ (h : Host) where
  unfoldable mutual
    unfolding encode_string encode_expr_atom encode_path op_byte unary_byte prefix_bytes len_items
        len_fields len_parts bytes_of_relations

    pub bytes_of : Expr → List ℕ
    bytes_of (node k _) = bytes_of_kind k

    pub bytes_of_kind : ExprKind → List ℕ
    bytes_of_kind (atom a) = 0x40 ∷ encode_expr_atom h a
    bytes_of_kind (path p) = 0x41 ∷ encode_path h p
    bytes_of_kind (binary op a b) = op_byte op ∷ (bytes_of a ++ bytes_of b)
    bytes_of_kind (morphism param body) = 0x44 ∷ (bytes_of param ++ bytes_of body)
    bytes_of_kind (combo fields relations closed) =
        0x45
        ∷ (if closed then 1 else 0)
        ∷ ((encode_unsigned_leb128 (len_fields fields) ++ encode_unsigned_leb128 (length relations))
            ++ (bytes_of_fields fields ++ bytes_of_relations h relations))
    bytes_of_kind (complement e) = 0x49 ∷ bytes_of e
    bytes_of_kind (ternary c a b) = 0x4a ∷ (bytes_of c ++ (bytes_of a ++ bytes_of b))
    bytes_of_kind (unary op e) = 0x59 ∷ unary_byte op ∷ bytes_of e
    bytes_of_kind (list items) =
        0x5a ∷ (encode_unsigned_leb128 (len_items items) ++ bytes_of_items items)
    bytes_of_kind (tuple items) =
        0x5b ∷ (encode_unsigned_leb128 (len_items items) ++ bytes_of_items items)
    bytes_of_kind (poset relations) =
        0x5c ∷ (encode_unsigned_leb128 (length relations) ++ bytes_of_relations h relations)
    bytes_of_kind (anon_set e) = 0x5e ∷ bytes_of e
    bytes_of_kind (interpolated parts) =
        0x5f ∷ (encode_unsigned_leb128 (len_parts parts) ++ bytes_of_parts parts)
    bytes_of_kind (range first last by) =
        0x60 ∷ (bytes_of first ++ (bytes_of last ++ bytes_of_step by))
    bytes_of_kind context = 0x61 ∷ []
    bytes_of_kind (spread e) = 0x62 ∷ bytes_of e
    bytes_of_kind (structural e) = 0x63 ∷ bytes_of e

    pub bytes_of_items : Exprs → List ℕ
    bytes_of_items no_exprs = []
    bytes_of_items (and_expr e es) = bytes_of e ++ bytes_of_items es

    pub bytes_of_step : RangeStep → List ℕ
    bytes_of_step no_step = 0 ∷ []
    bytes_of_step (step e) = 1 ∷ bytes_of e

    pub bytes_of_parts : Parts → List ℕ
    bytes_of_parts no_parts = []
    bytes_of_parts (and_part p ps) = bytes_of_part p ++ bytes_of_parts ps

    pub bytes_of_part : StringPart → List ℕ
    bytes_of_part (literal s) = 0 ∷ encode_string h s
    bytes_of_part (interpolation e) = 1 ∷ bytes_of e

    pub bytes_of_fields : Fields → List ℕ
    bytes_of_fields no_fields = []
    bytes_of_fields (and_field f fs) = bytes_of_field f ++ bytes_of_fields fs

    pub bytes_of_field : Field → List ℕ
    bytes_of_field (field key value _) = bytes_of_key key ++ bytes_of value

    pub bytes_of_key : FieldKey → List ℕ
    bytes_of_key (named prefix name) = 0 ∷ (prefix_bytes prefix ++ encode_string h name)
    bytes_of_key (quoted s) = 1 ∷ encode_string h s
    bytes_of_key (pattern_key e) = 2 ∷ bytes_of e
    bytes_of_key (path_key p) = 3 ∷ encode_path h p
