-- ===== src/Canon/Encode/Refines.antt =====
-- crates/interpreter/src/bn_serial.rs: the walk gives the bytes of the recursion.
use nlang_tools.Prelude.{
  ℕ, suc, ◌+◌, some, List, [], ◌∷◌, ◌++◌, length, ◌≡◌, refl, sym, ap, ap₂, subst, ◌∙◌, append_assoc,
  append-nil, arith,
}
use nlang_tools.Parser.Ast.{
  AstPath, AtomKind, Relation, Expr, Exprs, Parts, Fields, FieldKey, node, atom, path, binary,
  morphism, combo, complement, ternary, unary, list, tuple, poset, anon_set, interpolated, range,
  context, spread, structural, no_exprs, and_expr, no_step, step, no_parts, and_part, literal,
  interpolation, no_fields, and_field, field, named, quoted, pattern_key, path_key,
}
use nlang_tools.Canon.Leb.{encode_unsigned_leb128}
use nlang_tools.Canon.Atoms.{Host, encode_expr_atom, encode_path, relop_byte}
use nlang_tools.Canon.Encode.{
  len_items, len_parts, op_byte, unary_byte, ExprTask, Stack, expr_task, atom_task, path_task,
  field_task, field_key_task, relation_task, string_part_task, byte_task, push_exprs,
  push_relations, push_field_tasks, push_part_tasks, run_task, encode_loop, encode_expr,
}
use nlang_tools.Canon.Encode.Tasks.{
  tasks_of, tasks_of_items, tasks_of_parts, tasks_of_fields, tasks_of_key, tasks_of_relations,
}
use nlang_tools.Canon.Encode.Reference.{
  bytes_of, bytes_of_items, bytes_of_parts, bytes_of_fields, bytes_of_key, bytes_of_relations,
  bytes_of_relation,
}

-- With `w` tasks to run the walk takes what `push` put on the stack off it and appends `c`.
data Runs (h : Host) (push : Stack → Stack) (w : ℕ) (c : List ℕ) : Type 0 where
  runs :
      ((fuel : ℕ) (stack : Stack) (buf : List ℕ)
        → encode_loop h (w + fuel) (push stack) buf ≡ encode_loop h fuel stack (buf ++ c))
      → Runs h push w c

the_sum : (w v fuel : ℕ) → w + v + fuel ≡ w + (v + fuel)
the_sum w v fuel = omega arith

the_suc : (w fuel : ℕ) → suc w + fuel ≡ suc (w + fuel)
the_suc w fuel = omega arith

module _ {h : Host} where
  Runs-none : Runs h (λ stack. stack) 0 []
  Runs-none =
      runs (λ fuel stack buf.
        ap₂ (λ f b. encode_loop h f stack b) (omega arith) (sym (append-nil buf)))

  Runs-then :
      {p q : Stack → Stack} {w v : ℕ} {c d : List ℕ}
      → Runs h p w c
      → Runs h q v d
      → Runs h (λ stack. p (q stack)) (w + v) (c ++ d)
  Runs-then {p} {q} {w} {v} {c} {d} (runs a) (runs b) = runs (λ fuel stack buf.
      ap (λ f. encode_loop h f (p (q stack)) buf) (the_sum w v fuel)
      ∙ a (v + fuel) (q stack) buf
      ∙ b fuel stack (buf ++ c)
      ∙ ap (encode_loop h fuel stack) (append_assoc buf c d))

  -- a task that appends `c₀` and puts others on the stack
  Runs-task :
      (task : ExprTask) {p : Stack → Stack} {w : ℕ} (c₀ : List ℕ) {c : List ℕ}
      → ((stack : Stack) (buf : List ℕ) → run_task h task stack buf ≡ (p stack, buf ++ c₀))
      → Runs h p w c
      → Runs h (λ stack. task ∷ stack) (suc w) (c₀ ++ c)
  unfolding encode_loop
  Runs-task task {p} {w} c₀ {c} ran (runs a) = runs (λ fuel stack buf.
      ap (λ f. encode_loop h f (task ∷ stack) buf) (the_suc w fuel)
      ∙ ap (λ (r : Stack × List ℕ). encode_loop h (w + fuel) r.0 r.1) (ran stack buf)
      ∙ a fuel stack (buf ++ c₀)
      ∙ ap (encode_loop h fuel stack) (append_assoc buf c₀ c))

  Runs-leaf :
      (task : ExprTask) (c : List ℕ)
      → ((stack : Stack) (buf : List ℕ) → run_task h task stack buf ≡ (stack, buf ++ c))
      → Runs h (λ stack. task ∷ stack) 1 c
  Runs-leaf task c ran = cast (append-nil c) (Runs-task task c ran Runs-none)
    where
      cast :
          {c c' : List ℕ}
          → c ≡ c'
          → Runs h (λ stack. task ∷ stack) 1 c
          → Runs h (λ stack. task ∷ stack) 1 c'
      cast e r = subst (λ x. Runs h (λ stack. task ∷ stack) 1 x) e r

  Runs-byte : (b : ℕ) → Runs h (λ stack. byte_task b ∷ stack) 1 (b ∷ [])
  unfolding run_task
  Runs-byte b = Runs-leaf (byte_task b) (b ∷ []) (λ stack buf. refl)

  Runs-atom : (a : AtomKind) → Runs h (λ stack. atom_task a ∷ stack) 1 (encode_expr_atom h a)
  unfolding run_task
  Runs-atom a = Runs-leaf (atom_task a) (encode_expr_atom h a) (λ stack buf. refl)

  Runs-path : (p : AstPath) → Runs h (λ stack. path_task p ∷ stack) 1 (encode_path h p)
  unfolding run_task
  Runs-path p = Runs-leaf (path_task p) (encode_path h p) (λ stack buf. refl)

  Runs-relation :
      (r : Relation) → Runs h (λ stack. relation_task r ∷ stack) 4 (bytes_of_relation h r)
  unfolding run_task
  Runs-relation r =
      Runs-task (relation_task r) [] (λ stack buf. ap (λ b. (_, b)) (sym (append-nil buf)))
        (Runs-then (Runs-atom r.left) (Runs-then (Runs-byte (relop_byte r.op)) (Runs-atom r.right)))

  Runs-relations :
      (rs : List Relation)
      → Runs h (push_relations rs) (tasks_of_relations rs) (bytes_of_relations h rs)
  unfolding push_relations tasks_of_relations bytes_of_relations
  Runs-relations [] = Runs-none
  Runs-relations (r ∷ rs) = Runs-then (Runs-relation r) (Runs-relations rs)

  mutual
    unfolding run_task tasks_of bytes_of push_exprs push_field_tasks push_part_tasks

    Runs-expr : (e : Expr) → Runs h (λ stack. expr_task e ∷ stack) (tasks_of e) (bytes_of h e)
    Runs-expr (node (atom a) s) = Runs-task _ (0x40 ∷ []) (λ stack buf. refl) (Runs-atom a)
    Runs-expr (node (path p) s) = Runs-task _ (0x41 ∷ []) (λ stack buf. refl) (Runs-path p)
    Runs-expr (node (binary op a b) s) =
        Runs-task _ (op_byte op ∷ []) (λ stack buf. refl) (Runs-then (Runs-expr a) (Runs-expr b))
    Runs-expr (node (morphism a b) s) =
        Runs-task _ (0x44 ∷ []) (λ stack buf. refl) (Runs-then (Runs-expr a) (Runs-expr b))
    Runs-expr (node (combo fields relations closed) s) =
        Runs-task _ _ (λ stack buf. refl)
          (Runs-then (Runs-fields fields) (Runs-relations relations))
    Runs-expr (node (complement e) s) = Runs-task _ (0x49 ∷ []) (λ stack buf. refl) (Runs-expr e)
    Runs-expr (node (ternary c a b) s) =
        Runs-task _ (0x4a ∷ []) (λ stack buf. refl)
          (Runs-then (Runs-expr c) (Runs-then (Runs-expr a) (Runs-expr b)))
    Runs-expr (node (unary op e) s) =
        Runs-task _ (0x59 ∷ unary_byte op ∷ []) (λ stack buf. refl) (Runs-expr e)
    Runs-expr (node (list items) s) =
        Runs-task _ (0x5a ∷ encode_unsigned_leb128 (len_items items)) (λ stack buf. refl)
          (Runs-items items)
    Runs-expr (node (tuple items) s) =
        Runs-task _ (0x5b ∷ encode_unsigned_leb128 (len_items items)) (λ stack buf. refl)
          (Runs-items items)
    Runs-expr (node (poset relations) s) =
        Runs-task _ (0x5c ∷ encode_unsigned_leb128 (length relations)) (λ stack buf. refl)
          (Runs-relations relations)
    Runs-expr (node (anon_set e) s) = Runs-task _ (0x5e ∷ []) (λ stack buf. refl) (Runs-expr e)
    Runs-expr (node (interpolated parts) s) =
        Runs-task _ (0x5f ∷ encode_unsigned_leb128 (len_parts parts)) (λ stack buf. refl)
          (Runs-parts parts)
    Runs-expr (node (range first last no_step) s) =
        Runs-task _ (0x60 ∷ []) (λ stack buf. refl)
          (Runs-then (Runs-expr first) (Runs-then (Runs-expr last) (Runs-byte 0)))
    Runs-expr (node (range first last (step e)) s) =
        Runs-task _ (0x60 ∷ []) (λ stack buf. refl)
          (Runs-then (Runs-expr first)
            (Runs-then (Runs-expr last) (Runs-then (Runs-byte 1) (Runs-expr e))))
    Runs-expr (node context s) = Runs-leaf _ (0x61 ∷ []) (λ stack buf. refl)
    Runs-expr (node (spread e) s) = Runs-task _ (0x62 ∷ []) (λ stack buf. refl) (Runs-expr e)
    Runs-expr (node (structural e) s) = Runs-task _ (0x63 ∷ []) (λ stack buf. refl) (Runs-expr e)

    Runs-items : (es : Exprs) → Runs h (push_exprs es) (tasks_of_items es) (bytes_of_items h es)
    Runs-items no_exprs = Runs-none
    Runs-items (and_expr e es) = Runs-then (Runs-expr e) (Runs-items es)

    Runs-parts :
        (ps : Parts) → Runs h (push_part_tasks ps) (tasks_of_parts ps) (bytes_of_parts h ps)
    Runs-parts no_parts = Runs-none
    Runs-parts (and_part (literal s) ps) =
        Runs-then (Runs-leaf (string_part_task (literal s)) _ (λ stack buf. refl)) (Runs-parts ps)
    Runs-parts (and_part (interpolation e) ps) =
        Runs-then
          (Runs-task (string_part_task (interpolation e)) (1 ∷ []) (λ stack buf. refl)
            (Runs-expr e))
          (Runs-parts ps)

    Runs-fields :
        (fs : Fields) → Runs h (push_field_tasks fs) (tasks_of_fields fs) (bytes_of_fields h fs)
    Runs-fields no_fields = Runs-none
    Runs-fields (and_field (field key value s) fs) =
        Runs-then
          (Runs-task (field_task (field key value s)) []
            (λ stack buf. ap (λ b. (_, b)) (sym (append-nil buf)))
            (Runs-then (Runs-key key) (Runs-expr value)))
          (Runs-fields fs)

    Runs-key :
        (key : FieldKey)
        → Runs h (λ stack. field_key_task key ∷ stack) (tasks_of_key key) (bytes_of_key h key)
    Runs-key (named prefix name) = Runs-leaf _ _ (λ stack buf. refl)
    Runs-key (quoted s) = Runs-leaf _ _ (λ stack buf. refl)
    Runs-key (pattern_key e) = Runs-task _ (2 ∷ []) (λ stack buf. refl) (Runs-expr e)
    Runs-key (path_key p) = Runs-task _ (3 ∷ []) (λ stack buf. refl) (Runs-path p)

-- The walk over a tree always ends, and it appends the bytes of the recursion on the tree.
pub encode_expr-bytes_of : (h : Host) (e : Expr) → encode_expr h e ≡ some (bytes_of h e)
unfolding encode_expr
encode_expr-bytes_of h e = from_runs (Runs-expr e)
  where
    from_runs :
        Runs h (λ stack. expr_task e ∷ stack) (tasks_of e) (bytes_of h e)
        → encode_loop h (tasks_of e) (expr_task e ∷ []) [] ≡ some (bytes_of h e)
    from_runs (runs a) = ap (λ f. encode_loop h f (expr_task e ∷ []) []) (omega arith) ∙ a 0 [] []
