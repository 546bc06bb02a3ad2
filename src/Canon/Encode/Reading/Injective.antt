-- ===== src/Canon/Encode/Reading/Injective.antt =====
-- crates/interpreter/src/bn_serial.rs: an expression is read back from its bytes, so different
-- expressions have different bytes.
use nlang_tools.Prelude.{
  ℕ, zero, suc, ◌+◌, ◌≤◌, true, false, some, List, ◌∷◌, ◌++◌, length, ◌≡◌, refl, subst, sym, ◌∙◌,
  arith,
}
use nlang_tools.Parser.Ast.{
  negation, neg, Expr, Exprs, RangeStep, Parts, Fields, FieldKey, node, atom, path, binary,
  morphism, combo, complement, ternary, unary, list, tuple, poset, anon_set, interpolated, range,
  context, spread, structural, no_exprs, and_expr, no_step, step, no_parts, and_part, literal,
  interpolation, no_fields, and_field, field, named, quoted, pattern_key, path_key,
}
use nlang_tools.Canon.Leb.{encode_unsigned_leb128}
use nlang_tools.Canon.Atoms.{Host}
use nlang_tools.Parser.Spans.{default}
use nlang_tools.Canon.Leb.RoundTrip.{read_unsigned, encode_unsigned_leb128-read}
use nlang_tools.Canon.Reader.{
  bind, ret, read_byte, Reads, reads, Reads-ret, Reads-bind, Reads-map, Reads-byte, Reads-unique,
}
use nlang_tools.Canon.Atoms.Reading.{Inverse, Reads-string, Reads-atom, Reads-tagged}
use nlang_tools.Canon.Atoms.Paths.{Reads-path, Reads-prefix, Reads-relations}
use nlang_tools.Canon.Encode.{len_items, len_fields, len_parts, op_byte, encode_expr}
use nlang_tools.Canon.Encode.Tasks.{
  tasks_of, tasks_of_items, tasks_of_step, tasks_of_parts, tasks_of_fields, tasks_of_key,
}
use nlang_tools.Canon.Encode.Reference.{
  bytes_of, bytes_of_items, bytes_of_step, bytes_of_parts, bytes_of_fields, bytes_of_key,
}
use nlang_tools.Canon.Encode.Refines.{encode_expr-bytes_of}
use nlang_tools.Canon.Encode.Reading.{
  Form, f_binary, f_atom, f_path, f_morphism, f_combo, f_complement, f_ternary, f_unary, f_list,
  f_tuple, f_poset, f_anon_set, f_interpolated, f_range, f_context, f_spread, f_structural, form_of,
  unary_of, form_of-op_byte, read_items, read_part_after, read_parts, read_key_after, read_field,
  read_fields, read_step_after, read_form, read_after, read_expr,
}
use nlang_tools.Canon.Encode.Normal.{
  normal, normal_items, normal_step, normal_parts, normal_fields, normal_key, IsSized, IsSizedItems,
  IsSizedStep, IsSizedParts, IsSizedFields, IsSizedKey,
}

module _ where
  Reads-count : (n : ℕ) → Reads read_unsigned (encode_unsigned_leb128 n) n
  Reads-count n = reads (encode_unsigned_leb128-read n)

  Reads-counts :
      (n m : ℕ)
      → Reads {A = ℕ × ℕ}
          (bind read_unsigned (λ n. bind read_unsigned (λ m. ret (n, m))))
          (encode_unsigned_leb128 n ++ encode_unsigned_leb128 m)
          (n, m)
  Reads-counts n m = Reads-bind _ (Reads-count n) (Reads-map _ (Reads-count m))

module _ {h : Host} (i : Inverse h) where
  Reads-expr-form :
      (fuel : ℕ) (b : ℕ) (f : Form) {c : List ℕ} {e : Expr}
      → form_of b ≡ f
      → Reads (read_form i (read_expr i fuel) f) c e
      → Reads (read_expr i (suc fuel)) (b ∷ c) e
  unfolding read_expr read_after
  Reads-expr-form fuel b f {c} {e} p r =
      Reads-tagged i (read_after i (read_expr i fuel)) b
        (subst (λ g. Reads (read_form i (read_expr i fuel) g) c e) (sym p) r)

  mutual
    unfolding form_of unary_of read_form read_items read_part_after read_parts read_key_after
        read_field read_fields read_step_after bytes_of normal IsSized tasks_of

    Reads-expr :
        (e : Expr) (fuel : ℕ)
        → tasks_of e ≤ fuel
        → IsSized e
        → Reads (read_expr i fuel) (bytes_of h e) (normal i e)
    Reads-expr (node k s) zero t z = absurd (omega arith)
    Reads-expr (node (atom a) s) (suc fuel) t z =
        Reads-expr-form fuel 0x40 f_atom refl (Reads-map _ (Reads-atom i a))
    Reads-expr (node (path p) s) (suc fuel) t z =
        Reads-expr-form fuel 0x41 f_path refl (Reads-map _ (Reads-path i p z))
    Reads-expr (node (binary op a b) s) (suc fuel) t z =
        Reads-expr-form fuel (op_byte op) (f_binary op) (form_of-op_byte op) (
          Reads-bind _ (Reads-expr a fuel (omega arith) z.0)
            (Reads-map _ (Reads-expr b fuel (omega arith) z.1)))
    Reads-expr (node (morphism a b) s) (suc fuel) t z = Reads-expr-form fuel 0x44 f_morphism refl (
        Reads-bind _ (Reads-expr a fuel (omega arith) z.0)
          (Reads-map _ (Reads-expr b fuel (omega arith) z.1)))
    Reads-expr (node (combo fields relations true) s) (suc fuel) t z =
        Reads-expr-form fuel 0x45 f_combo refl (
          Reads-bind _ (Reads-byte 1) (
            Reads-bind _ (Reads-counts (len_fields fields) (length relations)) (
              Reads-bind _ (Reads-fields fields fuel (omega arith) z)
                (Reads-map _ (Reads-relations i relations)))))
    Reads-expr (node (combo fields relations false) s) (suc fuel) t z =
        Reads-expr-form fuel 0x45 f_combo refl (
          Reads-bind _ (Reads-byte 0) (
            Reads-bind _ (Reads-counts (len_fields fields) (length relations)) (
              Reads-bind _ (Reads-fields fields fuel (omega arith) z)
                (Reads-map _ (Reads-relations i relations)))))
    Reads-expr (node (complement e) s) (suc fuel) t z =
        Reads-expr-form fuel 0x49 f_complement refl
          (Reads-map _ (Reads-expr e fuel (omega arith) z))
    Reads-expr (node (ternary c a b) s) (suc fuel) t z = Reads-expr-form fuel 0x4a f_ternary refl (
        Reads-bind _ (Reads-expr c fuel (omega arith) z.0) (
          Reads-bind _ (Reads-expr a fuel (omega arith) z.1.0)
            (Reads-map _ (Reads-expr b fuel (omega arith) z.1.1))))
    Reads-expr (node (unary negation e) s) (suc fuel) t z =
        Reads-expr-form fuel 0x59 f_unary refl
          (Reads-bind _ (Reads-byte 0) (Reads-map _ (Reads-expr e fuel (omega arith) z)))
    Reads-expr (node (unary neg e) s) (suc fuel) t z =
        Reads-expr-form fuel 0x59 f_unary refl
          (Reads-bind _ (Reads-byte 1) (Reads-map _ (Reads-expr e fuel (omega arith) z)))
    Reads-expr (node (list items) s) (suc fuel) t z = Reads-expr-form fuel 0x5a f_list refl (
        Reads-bind _ (Reads-count (len_items items))
          (Reads-map _ (Reads-items items fuel (omega arith) z)))
    Reads-expr (node (tuple items) s) (suc fuel) t z = Reads-expr-form fuel 0x5b f_tuple refl (
        Reads-bind _ (Reads-count (len_items items))
          (Reads-map _ (Reads-items items fuel (omega arith) z)))
    Reads-expr (node (poset relations) s) (suc fuel) t z =
        Reads-expr-form fuel 0x5c f_poset refl (
          Reads-bind _ (Reads-count (length relations)) (Reads-map _ (Reads-relations i relations)))
    Reads-expr (node (anon_set e) s) (suc fuel) t z =
        Reads-expr-form fuel 0x5e f_anon_set refl (Reads-map _ (Reads-expr e fuel (omega arith) z))
    Reads-expr (node (interpolated parts) s) (suc fuel) t z =
        Reads-expr-form fuel 0x5f f_interpolated refl (
          Reads-bind _ (Reads-count (len_parts parts))
            (Reads-map _ (Reads-parts parts fuel (omega arith) z)))
    Reads-expr (node (range a b by) s) (suc fuel) t z = Reads-expr-form fuel 0x60 f_range refl (
        Reads-bind _ (Reads-expr a fuel (omega arith) z.0) (
          Reads-bind _ (Reads-expr b fuel (omega arith) z.1.0)
            (Reads-map _ (Reads-step by fuel (omega arith) z.1.1))))
    Reads-expr (node context s) (suc fuel) t z =
        Reads-expr-form fuel 0x61 f_context refl (Reads-ret (node context default))
    Reads-expr (node (spread e) s) (suc fuel) t z =
        Reads-expr-form fuel 0x62 f_spread refl (Reads-map _ (Reads-expr e fuel (omega arith) z))
    Reads-expr (node (structural e) s) (suc fuel) t z =
        Reads-expr-form fuel 0x63 f_structural refl
          (Reads-map _ (Reads-expr e fuel (omega arith) z))

    Reads-step :
        (by : RangeStep) (fuel : ℕ)
        → tasks_of_step by ≤ fuel
        → IsSizedStep by
        → Reads
            (bind read_byte (read_step_after i (read_expr i fuel)))
            (bytes_of_step h by)
            (normal_step i by)
    Reads-step no_step fuel t z = Reads-tagged i _ 0 (Reads-ret no_step)
    Reads-step (step e) fuel t z =
        Reads-tagged i _ 1 (Reads-map _ (Reads-expr e fuel (omega arith) z))

    Reads-items :
        (es : Exprs) (fuel : ℕ)
        → tasks_of_items es ≤ fuel
        → IsSizedItems es
        → Reads
            (read_items i (read_expr i fuel) (len_items es))
            (bytes_of_items h es)
            (normal_items i es)
    Reads-items no_exprs fuel t z = Reads-ret no_exprs
    Reads-items (and_expr e es) fuel t z =
        Reads-bind _ (Reads-expr e fuel (omega arith) z.0)
          (Reads-map _ (Reads-items es fuel (omega arith) z.1))

    Reads-parts :
        (ps : Parts) (fuel : ℕ)
        → tasks_of_parts ps ≤ fuel
        → IsSizedParts ps
        → Reads
            (read_parts i (read_expr i fuel) (len_parts ps))
            (bytes_of_parts h ps)
            (normal_parts i ps)
    Reads-parts no_parts fuel t z = Reads-ret no_parts
    Reads-parts (and_part (literal s) ps) fuel t z =
        Reads-bind _ (Reads-tagged i _ 0 (Reads-map _ (Reads-string i s)))
          (Reads-map _ (Reads-parts ps fuel (omega arith) z.1))
    Reads-parts (and_part (interpolation e) ps) fuel t z =
        Reads-bind _ (Reads-tagged i _ 1 (Reads-map _ (Reads-expr e fuel (omega arith) z.0)))
          (Reads-map _ (Reads-parts ps fuel (omega arith) z.1))

    Reads-fields :
        (fs : Fields) (fuel : ℕ)
        → tasks_of_fields fs ≤ fuel
        → IsSizedFields fs
        → Reads
            (read_fields i (read_expr i fuel) (len_fields fs))
            (bytes_of_fields h fs)
            (normal_fields i fs)
    Reads-fields no_fields fuel t z = Reads-ret no_fields
    Reads-fields (and_field (field key value s) fs) fuel t z =
        Reads-bind _
          (Reads-bind _ (Reads-key key fuel (omega arith) z.0.0)
            (Reads-map _ (Reads-expr value fuel (omega arith) z.0.1)))
          (Reads-map _ (Reads-fields fs fuel (omega arith) z.1))

    Reads-key :
        (key : FieldKey) (fuel : ℕ)
        → tasks_of_key key ≤ fuel
        → IsSizedKey key
        → Reads
            (bind read_byte (read_key_after i (read_expr i fuel)))
            (bytes_of_key h key)
            (normal_key i key)
    Reads-key (named prefix name) fuel t z =
        Reads-tagged i _ 0
          (Reads-bind _ (Reads-prefix i prefix) (Reads-map _ (Reads-string i name)))
    Reads-key (quoted s) fuel t z = Reads-tagged i _ 1 (Reads-map _ (Reads-string i s))
    Reads-key (pattern_key e) fuel t z =
        Reads-tagged i _ 2 (Reads-map _ (Reads-expr e fuel (omega arith) z))
    Reads-key (path_key p) fuel t z = Reads-tagged i _ 3 (Reads-map _ (Reads-path i p z))

  bytes_of-injective :
      (a b : Expr) → IsSized a → IsSized b → bytes_of h a ≡ bytes_of h b → normal i a ≡ normal i b
  bytes_of-injective a b za zb e =
      Reads-unique (read_expr i (tasks_of a + tasks_of b)) (bytes_of h a) (bytes_of h b)
        (normal i a) (normal i b) (Reads-expr a (tasks_of a + tasks_of b) (omega arith) za)
        (Reads-expr b (tasks_of a + tasks_of b) (omega arith) zb) e

-- Expressions whose identity bytes agree are the same but for positions, for the bits of floats
-- beyond whole part and magnitude of fraction, for `#` before a tag, and for `_` and `_|_` as tags.
pub encode_expr-injective :
    {h : Host} (i : Inverse h) (a b : Expr)
    → IsSized a
    → IsSized b
    → encode_expr h a ≡ encode_expr h b
    → normal i a ≡ normal i b
encode_expr-injective {h} i a b za zb e =
    bytes_of-injective i a b za zb
      (some_eq (sym (encode_expr-bytes_of h a) ∙ e ∙ encode_expr-bytes_of h b))
  where
    some_eq : {c d : List ℕ} → some c ≡ some d → c ≡ d
    some_eq p = cc
