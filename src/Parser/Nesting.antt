-- ===== src/Parser/Nesting.antt =====
-- crates/parser/src/lib.rs: the fence before the grammar, a scan of the bytes that counts how
-- deep the delimiters nest. Comments and the bodies of strings do not count; the code in an
-- interpolation does.
-- A state of the scan is its mode, the open delimiters (innermost first) and the bytes that are
-- left, so that `bytes[i..]` is that list. The loop takes fuel, and `none` says that it ran out.
pub mod Bound
pub mod Skip
use nlang_tools.Prelude.{
  ℕ, zero, suc, ◌+◌, Bool, true, false, ◌&&◌, ◌==◌, ltb, if◌then◌else◌, Option, none, some, List,
  [], ◌∷◌, length, drop,
}

abbrev pub parser_nesting_limit : ℕ
parser_nesting_limit = 256

pub data ScanMode : Type 0 where
  code comment quoted multiline_quoted interpolated : ScanMode

pub data Delimiter : Type 0 where
  paren bracket brace cocoon structural interpolation : Delimiter

abbrev pub Delimiters : Type 0
Delimiters = List Delimiter

-- a round of the loop: `return true`, or a new mode, new delimiters and the bytes consumed
pub data Round : Type 0 where
  exceeded : Round
  advance : ScanMode → Delimiters → ℕ → Round

abbrev pub starts_with : List ℕ → List ℕ → Bool
starts_with bytes [] = true
starts_with [] (p ∷ ps) = false
starts_with (b ∷ bs) (p ∷ ps) = b == p && starts_with bs ps

-- `push_delimiter`, and what its callers do with the answer
unfoldable pub push_delimiter : Delimiters → Delimiter → ScanMode → ℕ → Round
push_delimiter ds d m n =
    if ltb parser_nesting_limit (length (d ∷ ds)) then exceeded else advance m (d ∷ ds) n

abbrev pub is_paren : Delimiters → Bool
is_paren (paren ∷ _) = true
is_paren _ = false

abbrev pub is_bracket : Delimiters → Bool
is_bracket (bracket ∷ _) = true
is_bracket _ = false

abbrev pub is_cocoon : Delimiters → Bool
is_cocoon (cocoon ∷ _) = true
is_cocoon _ = false

abbrev pub is_structural : Delimiters → Bool
is_structural (structural ∷ _) = true
is_structural _ = false

abbrev pub pop : Delimiters → Delimiters
pop [] = []
pop (_ ∷ ds) = ds

-- a `}` that closes no cocoon
unfoldable pub close_brace : Delimiters → Round
close_brace (brace ∷ ds) = advance code ds 1
close_brace (interpolation ∷ ds) = advance interpolated ds 1
close_brace ds = advance code ds 1

-- a closing byte, or one that means nothing to the scan
unfoldable pub close_round : Delimiters → ℕ → List ℕ → Round
unfolding close_brace
close_round ds b bs =
    if b == b')'
    then advance code (if is_paren ds then pop ds else ds) 1
    else if b == b']'
    then advance code (if is_bracket ds then pop ds else ds) 1
    else if b == b'}' && (starts_with (b ∷ bs) (b'}' ∷ b'}' ∷ []) && is_cocoon ds)
    then advance code (pop ds) 2
    else if b == b'}'
    then close_brace ds
    else if b == b'>' && (starts_with (b ∷ bs) (b'>' ∷ b'>' ∷ []) && is_structural ds)
    then advance code (pop ds) 2
    else advance code ds 1

unfoldable pub open_round : Delimiters → ℕ → List ℕ → Round
unfolding push_delimiter close_round
open_round ds b bs =
    if starts_with (b ∷ bs) (b'{' ∷ b'{' ∷ [])
    then push_delimiter ds cocoon code 2
    else if starts_with (b ∷ bs) (b'<' ∷ b'<' ∷ [])
    then push_delimiter ds structural code 2
    else if b == b'('
    then push_delimiter ds paren code 1
    else if b == b'['
    then push_delimiter ds bracket code 1
    else if b == b'{'
    then push_delimiter ds brace code 1
    else close_round ds b bs

unfoldable pub code_round : Delimiters → ℕ → List ℕ → Round
unfolding open_round
code_round ds b bs =
    if starts_with (b ∷ bs) (b';' ∷ b';' ∷ [])
    then advance comment ds 2
    else if starts_with (b ∷ bs) (b'"' ∷ b'"' ∷ b'"' ∷ [])
    then advance multiline_quoted ds 3
    else if b == b'"'
    then advance quoted ds 1
    else if b == b'`'
    then advance interpolated ds 1
    else open_round ds b bs

-- the body of the loop at the byte `b`, which `bs` follow
unfoldable pub round : ScanMode → Delimiters → ℕ → List ℕ → Round
unfolding code_round
round comment ds b bs =
    if b == b'\n'
    then advance code ds 1
    else if b == b'\r'
    then advance code ds 1
    else advance comment ds 1
round quoted ds b bs = if b == b'"' then advance code ds 1 else advance quoted ds 1
round multiline_quoted ds b bs =
    if starts_with (b ∷ bs) (b'\\' ∷ b'"' ∷ b'"' ∷ b'"' ∷ [])
    then advance multiline_quoted ds 4
    else if starts_with (b ∷ bs) (b'"' ∷ b'"' ∷ b'"' ∷ [])
    then advance code ds 3
    else advance multiline_quoted ds 1
round interpolated ds b bs =
    if b == b'`'
    then advance code ds 1
    else if starts_with (b ∷ bs) (b'$' ∷ b'{' ∷ [])
    then push_delimiter ds interpolation code 2
    else advance interpolated ds 1
round code ds b bs = code_round ds b bs

unfoldable pub scan : ℕ → ScanMode → Delimiters → List ℕ → Option Bool
scan fuel m ds [] = some false
scan zero m ds (b ∷ bs) = none
scan (suc fuel) m ds (b ∷ bs) = elim (round m ds b bs) [
  | exceeded ↦ some true
  | advance m' ds' n ↦ scan fuel m' ds' (drop n (b ∷ bs))
]

unfoldable pub exceeds_parser_nesting_limit : List ℕ → Option Bool
unfolding scan round
exceeds_parser_nesting_limit bytes = scan (length bytes) code [] bytes

pub data NestingGate : Type 0 where
  within_limit parser_nesting_limit_exceeded : NestingGate

unfoldable pub parser_nesting_gate : List ℕ → Option NestingGate
unfolding exceeds_parser_nesting_limit
parser_nesting_gate bytes = elim (exceeds_parser_nesting_limit bytes) [
  | none ↦ none
  | some true ↦ some parser_nesting_limit_exceeded
  | some false ↦ some within_limit
]
