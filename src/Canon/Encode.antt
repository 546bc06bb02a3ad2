-- ===== src/Canon/Encode.antt =====
-- crates/interpreter/src/bn_serial.rs: `encode_expr`, the walk that gives the bytes of an
-- expression. The stack is a list whose head is the end of the `Vec`.
pub mod Tasks
pub mod Reference
pub mod Refines
pub mod Normal
pub mod Reading
use nlang_tools.Prelude.{
  ℕ, zero, suc, ◌+◌, ◌≤◌, String, Bool, true, false, if◌then◌else◌, Option, none, some, List, [],
  ◌∷◌, ◌++◌, length, ◌≡◌, refl, sym, ap, ◌∙◌, append_assoc, append-nil, arith,
}
use nlang_tools.Parser.Ast.{
  Prefix, AstPath, AtomKind, Relation, RelOp, UnaryOp, negation, neg, BinaryOp, Expr, ExprKind,
  Exprs, RangeStep, Parts, StringPart, Fields, Field, FieldKey, node, atom, path, binary, morphism,
  combo, complement, ternary, unary, list, tuple, poset, anon_set, interpolated, range, context,
  spread, structural, no_exprs, and_expr, no_step, step, no_parts, and_part, literal, interpolation,
  no_fields, and_field, field, named, quoted, pattern_key, path_key,
}
use nlang_tools.Canon.Leb.{encode_unsigned_leb128}
use nlang_tools.Canon.Atoms.{
  Host, encode_string, encode_expr_atom, encode_path, prefix_byte, relop_byte,
}
use nlang_tools.Canon.Encode.Tasks.{tasks_of}

pub data ExprTask : Type 0 where
  expr_task : Expr → ExprTask
  atom_task : AtomKind → ExprTask
  path_task : AstPath → ExprTask
  field_task : Field → ExprTask
  field_key_task : FieldKey → ExprTask
  relation_task : Relation → ExprTask
  string_part_task : StringPart → ExprTask
  byte_task : ℕ → ExprTask

abbrev pub Stack : Type 0
Stack = List ExprTask

unfoldable pub len_items : Exprs → ℕ
len_items no_exprs = 0
len_items (and_expr _ es) = suc (len_items es)

unfoldable pub len_fields : Fields → ℕ
len_fields no_fields = 0
len_fields (and_field _ fs) = suc (len_fields fs)

unfoldable pub len_parts : Parts → ℕ
len_parts no_parts = 0
len_parts (and_part _ ps) = suc (len_parts ps)

-- The loops over `iter().rev()` leave the first element on top.
unfoldable pub push_exprs : Exprs → Stack → Stack
push_exprs no_exprs stack = stack
push_exprs (and_expr e es) stack = expr_task e ∷ push_exprs es stack

unfoldable pub push_relations : List Relation → Stack → Stack
push_relations [] stack = stack
push_relations (r ∷ rs) stack = relation_task r ∷ push_relations rs stack

unfoldable pub push_field_tasks : Fields → Stack → Stack
push_field_tasks no_fields stack = stack
push_field_tasks (and_field f fs) stack = field_task f ∷ push_field_tasks fs stack

unfoldable pub push_part_tasks : Parts → Stack → Stack
push_part_tasks no_parts stack = stack
push_part_tasks (and_part p ps) stack = string_part_task p ∷ push_part_tasks ps stack

unfoldable pub op_byte : BinaryOp → ℕ
op_byte BinaryOp.apply = 0x42
op_byte BinaryOp.pipe = 0x43
op_byte BinaryOp.meet = 0x46
op_byte BinaryOp.join = 0x47
op_byte BinaryOp.diff = 0x48
op_byte BinaryOp.add = 0x4b
op_byte BinaryOp.sub = 0x4c
op_byte BinaryOp.mul = 0x4d
op_byte BinaryOp.div = 0x4e
op_byte BinaryOp.rem = 0x4f
op_byte BinaryOp.eq = 0x50
op_byte BinaryOp.ne = 0x51
op_byte BinaryOp.lt = 0x52
op_byte BinaryOp.gt = 0x53
op_byte BinaryOp.lte = 0x54
op_byte BinaryOp.gte = 0x55
op_byte BinaryOp.lattice_eq = 0x56
op_byte BinaryOp.probe = 0x57
op_byte BinaryOp.type_annotation = 0x58
op_byte BinaryOp.lens = 0x5d

unfoldable pub unary_byte : UnaryOp → ℕ
unary_byte negation = 0
unary_byte neg = 1

unfoldable pub prefix_bytes : Option Prefix → List ℕ
unfolding prefix_byte
prefix_bytes none = 0 ∷ []
prefix_bytes (some p) = 1 ∷ prefix_byte p ∷ []

-- a task's work: the stack and the buffer after it
module _ (h : Host) where
  unfoldable pub run_key : FieldKey → Stack → List ℕ → Stack × List ℕ
  unfolding prefix_bytes encode_string
  run_key (named prefix name) stack buf =
      (stack, buf ++ (0 ∷ (prefix_bytes prefix ++ encode_string h name)))
  run_key (quoted s) stack buf = (stack, buf ++ (1 ∷ encode_string h s))
  run_key (pattern_key e) stack buf = (expr_task e ∷ stack, buf ++ (2 ∷ []))
  run_key (path_key p) stack buf = (path_task p ∷ stack, buf ++ (3 ∷ []))

  unfoldable pub run_part : StringPart → Stack → List ℕ → Stack × List ℕ
  unfolding encode_string
  run_part (literal s) stack buf = (stack, buf ++ (0 ∷ encode_string h s))
  run_part (interpolation e) stack buf = (expr_task e ∷ stack, buf ++ (1 ∷ []))

  unfoldable pub run_kind : ExprKind → Stack → List ℕ → Stack × List ℕ
  unfolding push_exprs push_relations push_field_tasks push_part_tasks op_byte unary_byte len_items
      len_fields len_parts
  run_kind (atom a) stack buf = (atom_task a ∷ stack, buf ++ (0x40 ∷ []))
  run_kind (path p) stack buf = (path_task p ∷ stack, buf ++ (0x41 ∷ []))
  run_kind (binary op a b) stack buf = (expr_task a ∷ expr_task b ∷ stack, buf ++ (op_byte op ∷ []))
  run_kind (morphism param body) stack buf =
      (expr_task param ∷ expr_task body ∷ stack, buf ++ (0x44 ∷ []))
  run_kind (combo fields relations closed) stack buf = (
    push_field_tasks fields (push_relations relations stack),
    buf
        ++ (0x45
            ∷ (if closed then 1 else 0)
            ∷ (encode_unsigned_leb128 (len_fields fields)
                ++ encode_unsigned_leb128 (length relations))),
  )
  run_kind (complement e) stack buf = (expr_task e ∷ stack, buf ++ (0x49 ∷ []))
  run_kind (ternary c a b) stack buf =
      (expr_task c ∷ expr_task a ∷ expr_task b ∷ stack, buf ++ (0x4a ∷ []))
  run_kind (unary op e) stack buf = (expr_task e ∷ stack, buf ++ (0x59 ∷ unary_byte op ∷ []))
  run_kind (list items) stack buf =
      (push_exprs items stack, buf ++ (0x5a ∷ encode_unsigned_leb128 (len_items items)))
  run_kind (tuple items) stack buf =
      (push_exprs items stack, buf ++ (0x5b ∷ encode_unsigned_leb128 (len_items items)))
  run_kind (poset relations) stack buf =
      (push_relations relations stack, buf ++ (0x5c ∷ encode_unsigned_leb128 (length relations)))
  run_kind (anon_set e) stack buf = (expr_task e ∷ stack, buf ++ (0x5e ∷ []))
  run_kind (interpolated parts) stack buf =
      (push_part_tasks parts stack, buf ++ (0x5f ∷ encode_unsigned_leb128 (len_parts parts)))
  run_kind (range first last no_step) stack buf =
      (expr_task first ∷ expr_task last ∷ byte_task 0 ∷ stack, buf ++ (0x60 ∷ []))
  run_kind (range first last (step s)) stack buf =
      (expr_task first ∷ expr_task last ∷ byte_task 1 ∷ expr_task s ∷ stack, buf ++ (0x60 ∷ []))
  run_kind context stack buf = (stack, buf ++ (0x61 ∷ []))
  run_kind (spread e) stack buf = (expr_task e ∷ stack, buf ++ (0x62 ∷ []))
  run_kind (structural e) stack buf = (expr_task e ∷ stack, buf ++ (0x63 ∷ []))

  unfoldable pub run_task : ExprTask → Stack → List ℕ → Stack × List ℕ
  unfolding run_key run_part run_kind encode_expr_atom encode_path relop_byte
  run_task (byte_task b) stack buf = (stack, buf ++ (b ∷ []))
  run_task (atom_task a) stack buf = (stack, buf ++ encode_expr_atom h a)
  run_task (path_task p) stack buf = (stack, buf ++ encode_path h p)
  run_task (field_task (field key value _)) stack buf =
      (field_key_task key ∷ expr_task value ∷ stack, buf)
  run_task (field_key_task key) stack buf = run_key key stack buf
  run_task (relation_task r) stack buf =
      (atom_task r.left ∷ byte_task (relop_byte r.op) ∷ atom_task r.right ∷ stack, buf)
  run_task (string_part_task part) stack buf = run_part part stack buf
  run_task (expr_task (node k _)) stack buf = run_kind k stack buf

  -- `none`: the fuel ran out
  unfoldable pub encode_loop : ℕ → Stack → List ℕ → Option (List ℕ)
  unfolding run_task
  encode_loop fuel [] buf = some buf
  encode_loop zero (task ∷ stack) buf = none
  encode_loop (suc fuel) (task ∷ stack) buf =
      encode_loop fuel (run_task task stack buf).0 (run_task task stack buf).1

  -- the bytes that the call appends to an empty buffer
  unfoldable pub encode_expr : Expr → Option (List ℕ)
  unfolding encode_loop tasks_of
  encode_expr root = encode_loop (tasks_of root) (expr_task root ∷ []) []
