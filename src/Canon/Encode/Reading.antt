-- ===== src/Canon/Encode/Reading.antt =====
-- crates/interpreter/src/bn_serial.rs: a reader of the bytes of expressions, an independent
-- description of what they hold.
pub mod Injective
use nlang_tools.Prelude.{
  ℕ, zero, suc, ◌==◌, ◌+◌, ◌≤◌, String, Bool, true, false, if◌then◌else◌, Option, none, some, List,
  [], ◌∷◌, ◌++◌, length, ◌≡◌, refl, sym, ap, ◌∙◌, append_assoc, append-nil, arith,
}
use nlang_tools.Parser.Ast.{
  Prefix, AstPath, AtomKind, Relation, RelOp, UnaryOp, negation, neg, BinaryOp, Expr, ExprKind,
  Exprs, RangeStep, Parts, StringPart, Fields, Field, FieldKey, node, atom, path, binary, morphism,
  combo, complement, ternary, unary, list, tuple, poset, anon_set, interpolated, range, context,
  spread, structural, no_exprs, and_expr, no_step, step, no_parts, and_part, literal, interpolation,
  no_fields, and_field, field, named, quoted, pattern_key, path_key,
}
use nlang_tools.Canon.Leb.{encode_unsigned_leb128}
use nlang_tools.Canon.Atoms.{
  Host, encode_string, encode_expr_atom, encode_path, prefix_byte, relop_byte,
}
use nlang_tools.Parser.Spans.{default, set_path}
use nlang_tools.Canon.Leb.RoundTrip.{read_unsigned, encode_unsigned_leb128-read}
use nlang_tools.Canon.Reader.{
  Reader, bind, ret, read_byte, Reads, reads, Reads-ret, Reads-bind, Reads-map, Reads-byte,
  Reads-unique,
}
use nlang_tools.Canon.Atoms.Reading.{
  Inverse, normal_atom, read_string, Reads-string, read_atom, Reads-atom, Reads-tagged,
}
use nlang_tools.Canon.Atoms.Paths.{
  IsSizedAnchor, normal_relations, read_path, Reads-path, read_prefix, Reads-prefix, read_relations,
  Reads-relations,
}
use nlang_tools.Canon.Encode.{
  len_items, len_fields, len_parts, op_byte, unary_byte, prefix_bytes, encode_expr,
}
use nlang_tools.Canon.Encode.Normal.{
  normal, normal_items, normal_step, normal_parts, normal_part, normal_fields, normal_field,
  normal_key, IsSized, IsSizedItems, IsSizedStep, IsSizedParts, IsSizedPart, IsSizedFields,
  IsSizedField, IsSizedKey,
}

-- the shape that the first byte of an expression tells
pub data Form : Type 0 where
  f_binary : BinaryOp → Form
  f_atom : Form
  f_path : Form
  f_morphism : Form
  f_combo : Form
  f_complement : Form
  f_ternary : Form
  f_unary : Form
  f_list : Form
  f_tuple : Form
  f_poset : Form
  f_anon_set : Form
  f_interpolated : Form
  f_range : Form
  f_context : Form
  f_spread : Form
  f_structural : Form

pub form_of : ℕ → Form
form_of b =
    if b == 0x40
    then f_atom
    else if b == 0x41
    then f_path
    else if b == 0x44
    then f_morphism
    else if b == 0x45
    then f_combo
    else if b == 0x49
    then f_complement
    else if b == 0x4a
    then f_ternary
    else if b == 0x59
    then f_unary
    else if b == 0x5a
    then f_list
    else if b == 0x5b
    then f_tuple
    else if b == 0x5c
    then f_poset
    else if b == 0x5e
    then f_anon_set
    else if b == 0x5f
    then f_interpolated
    else if b == 0x60
    then f_range
    else if b == 0x61
    then f_context
    else if b == 0x62
    then f_spread
    else if b == 0x63
    then f_structural
    else if b == 0x42
    then f_binary BinaryOp.apply
    else if b == 0x43
    then f_binary BinaryOp.pipe
    else if b == 0x46
    then f_binary BinaryOp.meet
    else if b == 0x47
    then f_binary BinaryOp.join
    else if b == 0x48
    then f_binary BinaryOp.diff
    else if b == 0x4b
    then f_binary BinaryOp.add
    else if b == 0x4c
    then f_binary BinaryOp.sub
    else if b == 0x4d
    then f_binary BinaryOp.mul
    else if b == 0x4e
    then f_binary BinaryOp.div
    else if b == 0x4f
    then f_binary BinaryOp.rem
    else if b == 0x50
    then f_binary BinaryOp.eq
    else if b == 0x51
    then f_binary BinaryOp.ne
    else if b == 0x52
    then f_binary BinaryOp.lt
    else if b == 0x53
    then f_binary BinaryOp.gt
    else if b == 0x54
    then f_binary BinaryOp.lte
    else if b == 0x55
    then f_binary BinaryOp.gte
    else if b == 0x56
    then f_binary BinaryOp.lattice_eq
    else if b == 0x57
    then f_binary BinaryOp.probe
    else if b == 0x58
    then f_binary BinaryOp.type_annotation
    else f_binary BinaryOp.lens

pub form_of-op_byte : (op : BinaryOp) → form_of (op_byte op) ≡ f_binary op
unfolding form_of op_byte
form_of-op_byte BinaryOp.apply = refl
form_of-op_byte BinaryOp.pipe = refl
form_of-op_byte BinaryOp.meet = refl
form_of-op_byte BinaryOp.join = refl
form_of-op_byte BinaryOp.diff = refl
form_of-op_byte BinaryOp.add = refl
form_of-op_byte BinaryOp.sub = refl
form_of-op_byte BinaryOp.mul = refl
form_of-op_byte BinaryOp.div = refl
form_of-op_byte BinaryOp.rem = refl
form_of-op_byte BinaryOp.eq = refl
form_of-op_byte BinaryOp.ne = refl
form_of-op_byte BinaryOp.lt = refl
form_of-op_byte BinaryOp.gt = refl
form_of-op_byte BinaryOp.lte = refl
form_of-op_byte BinaryOp.gte = refl
form_of-op_byte BinaryOp.lattice_eq = refl
form_of-op_byte BinaryOp.probe = refl
form_of-op_byte BinaryOp.type_annotation = refl
form_of-op_byte BinaryOp.lens = refl

pub unary_of : ℕ → UnaryOp
unary_of b = if b == 0 then negation else neg

pub unary_of-unary_byte : (op : UnaryOp) → unary_of (unary_byte op) ≡ op
unfolding unary_of unary_byte
unary_of-unary_byte negation = refl
unary_of-unary_byte neg = refl

module _ {h : Host} (i : Inverse h) (rec : Reader Expr) where
  pub read_items : ℕ → Reader Exprs
  read_items zero = ret no_exprs
  read_items (suc n) = bind rec (λ e. bind (read_items n) (λ es. ret (and_expr e es)))

  pub read_part_after : ℕ → Reader StringPart
  read_part_after b =
      if b == 0
      then bind (read_string i) (λ s. ret (literal s))
      else bind rec (λ e. ret (interpolation e))

  pub read_parts : ℕ → Reader Parts
  read_parts zero = ret no_parts
  read_parts (suc n) =
      bind (bind read_byte read_part_after) (λ p. bind (read_parts n) (λ ps. ret (and_part p ps)))

  pub read_key_after : ℕ → Reader FieldKey
  read_key_after b =
      if b == 0
      then bind read_prefix (λ p. bind (read_string i) (λ s. ret (named p s)))
      else if b == 1
      then bind (read_string i) (λ s. ret (quoted s))
      else if b == 2
      then bind rec (λ e. ret (pattern_key e))
      else bind (read_path i) (λ p. ret (path_key p))

  pub read_field : Reader Field
  read_field = bind (bind read_byte read_key_after) (λ k. bind rec (λ v. ret (field k v default)))

  pub read_fields : ℕ → Reader Fields
  read_fields zero = ret no_fields
  read_fields (suc n) = bind read_field (λ f. bind (read_fields n) (λ fs. ret (and_field f fs)))

  pub read_step_after : ℕ → Reader RangeStep
  read_step_after b = if b == 0 then ret no_step else bind rec (λ e. ret (step e))

  pub read_form : Form → Reader Expr
  read_form (f_binary op) = bind rec (λ a. bind rec (λ b. ret (node (binary op a b) default)))
  read_form f_atom = bind (read_atom i) (λ a. ret (node (atom a) default))
  read_form f_path = bind (read_path i) (λ p. ret (node (path p) default))
  read_form f_morphism = bind rec (λ a. bind rec (λ b. ret (node (morphism a b) default)))
  read_form f_combo = bind read_byte (λ closed.
      bind (bind read_unsigned (λ n. bind read_unsigned (λ m. ret (n, m)))) (λ (nm : ℕ × ℕ).
        bind (read_fields nm.0) (λ fs.
          bind (read_relations i nm.1) (λ rs. ret (node (combo fs rs (closed == 1)) default)))))
  read_form f_complement = bind rec (λ e. ret (node (complement e) default))
  read_form f_ternary =
      bind rec (λ c. bind rec (λ a. bind rec (λ b. ret (node (ternary c a b) default))))
  read_form f_unary =
      bind read_byte (λ op. bind rec (λ e. ret (node (unary (unary_of op) e) default)))
  read_form f_list =
      bind read_unsigned (λ n. bind (read_items n) (λ es. ret (node (list es) default)))
  read_form f_tuple =
      bind read_unsigned (λ n. bind (read_items n) (λ es. ret (node (tuple es) default)))
  read_form f_poset =
      bind read_unsigned (λ n. bind (read_relations i n) (λ rs. ret (node (poset rs) default)))
  read_form f_anon_set = bind rec (λ e. ret (node (anon_set e) default))
  read_form f_interpolated =
      bind read_unsigned (λ n. bind (read_parts n) (λ ps. ret (node (interpolated ps) default)))
  read_form f_range = bind rec (λ a.
      bind rec
        (λ b. bind (bind read_byte read_step_after) (λ by. ret (node (range a b by) default))))
  read_form f_context = ret (node context default)
  read_form f_spread = bind rec (λ e. ret (node (spread e) default))
  read_form f_structural = bind rec (λ e. ret (node (structural e) default))

  pub read_after : ℕ → Reader Expr
  unfolding form_of
  read_after b = read_form (form_of b)

nothing : Reader Expr
nothing bs = none

pub read_expr : {h : Host} → Inverse h → ℕ → Reader Expr
read_expr i zero = nothing
read_expr i (suc fuel) = bind read_byte (read_after i (read_expr i fuel))
