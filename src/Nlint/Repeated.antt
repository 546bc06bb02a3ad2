-- ===== src/Nlint/Repeated.antt =====
-- crates/oo/src/nlint.rs: the rule R6, keys that stand twice in one container literal. A table of
-- occurrences is the list of its entries, the oldest first.
pub mod Table
pub mod Places
pub mod Spread
pub mod Once
pub mod Walk
use text.Mathlib.Text.{◌==◌ as str_eq}
use nlang_tools.Prelude.{
  ℕ, String, Bool, true, false, ◌||◌, if◌then◌else◌, List, [], ◌∷◌, ◌++◌, Option, none, some,
  format,
}
use nlang_tools.Parser.Ast.{
  Span, AstPath, Expr, node, ExprKind, combo, spread, Fields, no_fields, and_field, Field, field,
  FieldKey, named, quoted, pattern_key, path_key, kind,
}
use nlang_tools.Parser.Tier.Form.{Tier}

pub data Severity : Type 0 where
  info warn error : Severity

pub record Loc : Type 0 where
  pub file : String
  pub span : ℕ × ℕ

pub record Diagnostic : Type 0 where
  pub rule : String
  pub severity : Severity
  pub loc : Loc
  pub tier : Option Tier
  pub demotion_reason : Option String
  pub msg : String

abbrev pub ends_of : Span → ℕ × ℕ
ends_of s = (s.start, s.end)

unfoldable pub r6_emit : String → ℕ × ℕ → String → Diagnostic
r6_emit file span key = record {
  rule = "R6";
  severity = warn;
  loc = record { file = file; span = span };
  tier = none;
  demotion_reason = none;
  msg = format (
      "repeated key `" ∷ key
      ∷ "` in one container literal merges (`&`), does not overwrite — distinct atoms collapse to ⊥ #conflict (SPEC_03 §1.1 / §3.1)"
      ∷ []);
}

-- an introduction of a key, with its place
abbrev pub Introduction : Type 0
Introduction = String × (ℕ × ℕ)

abbrev pub is_in : String → List Introduction → Bool
is_in k [] = false
is_in k (x ∷ xs) = str_eq x.0 k || is_in k xs

abbrev pub Occurrences : Type 0
Occurrences = List (String × List (ℕ × ℕ))

-- `occurrences.entry(k).or_default().push(span)`
unfoldable pub push_occurrence : String → ℕ × ℕ → Occurrences → Occurrences
push_occurrence k span [] = (k, span ∷ []) ∷ []
push_occurrence k span (entry ∷ rest) =
    let later = push_occurrence k span rest in
    if str_eq entry.0 k then (entry.0, entry.1 ++ (span ∷ [])) ∷ rest else entry ∷ later

unfoldable pub push_all : List Introduction → Occurrences → Occurrences
unfolding push_occurrence
push_all [] table = table
push_all (x ∷ xs) table = push_all xs (push_occurrence x.0 x.1 table)

-- a key with two introductions is reported where the second stands
abbrev pub emit_repeated : String → String → List (ℕ × ℕ) → List Diagnostic
emit_repeated file key [] = []
emit_repeated file key (a ∷ []) = []
emit_repeated file key (a ∷ (b ∷ spans)) = r6_emit file b key ∷ []

unfoldable pub emit_all : String → Occurrences → List Diagnostic
emit_all file [] = []
emit_all file (entry ∷ rest) = emit_repeated file entry.0 entry.1 ++ emit_all file rest

-- `canonical` is the text of a key, `to_key` that of a path, and `merges` says of a text that it is
-- `_` between spaces.
module _ (canonical : FieldKey → String) (to_key : AstPath → String) (merges : String → Bool) where
  abbrev plain_spelling : FieldKey → Option String
  plain_spelling key = if merges (canonical key) then none else some (canonical key)

  unfoldable pub r6_key_spelling : FieldKey → Option String
  r6_key_spelling (quoted s) = if str_eq s "..." then none else plain_spelling (quoted s)
  r6_key_spelling (named p name) = if merges name then none else plain_spelling (named p name)
  r6_key_spelling (path_key p) = if merges (to_key p) then none else plain_spelling (path_key p)
  r6_key_spelling (pattern_key e) = none

  -- the introduction of a spelling, if it is not seen yet
  abbrev pub first_introduction : Option String → Span → List Introduction → List Introduction
  first_introduction none span out = out
  first_introduction (some k) span out =
      if is_in k out then out else out ++ ((k, ends_of span) ∷ [])

  -- what is seen are the keys of `out`
  unfoldable pub literal_keys : Fields → List Introduction → List Introduction
  unfolding r6_key_spelling
  literal_keys no_fields out = out
  literal_keys (and_field (field key value span) fields) out =
      literal_keys fields (first_introduction (r6_key_spelling key) span out)

  abbrev pub keys_of_combo : ExprKind → Option (List Introduction)
  keys_of_combo (combo fields relations closed) = some (literal_keys fields [])
  keys_of_combo _ = none

  abbrev pub r6_literal_spread_keys : Expr → Option (List Introduction)
  r6_literal_spread_keys (node (spread e) s) = keys_of_combo (kind e)
  r6_literal_spread_keys (node k s) = keys_of_combo k

  abbrev is_spread_kind : ExprKind → Bool
  is_spread_kind (spread e) = true
  is_spread_kind _ = false

  abbrev pub is_spread : FieldKey → Expr → Bool
  is_spread (quoted t) (node k s) = str_eq t "..." || is_spread_kind k
  is_spread key (node k s) = is_spread_kind k

  abbrev pub introductions_of : Option (List Introduction) → List Introduction
  introductions_of none = []
  introductions_of (some keys) = keys

  abbrev pub introduction_of : Option String → Span → List Introduction
  introduction_of none span = []
  introduction_of (some k) span = (k, ends_of span) ∷ []

  -- what a field adds to the table
  unfoldable pub contributions : Field → List Introduction
  unfolding r6_key_spelling literal_keys
  contributions (field key value span) =
      if is_spread key value
      then introductions_of (r6_literal_spread_keys value)
      else introduction_of (r6_key_spelling key) span

  unfoldable pub collect_occurrences : Fields → Occurrences → Occurrences
  unfolding contributions push_all
  collect_occurrences no_fields table = table
  collect_occurrences (and_field f fields) table =
      collect_occurrences fields (push_all (contributions f) table)

  unfoldable pub check_r6_combo_fields : String → Fields → List Diagnostic
  unfolding collect_occurrences emit_all
  check_r6_combo_fields file fields = emit_all file (collect_occurrences fields [])
