-- ===== src/Savepoint/Frame.antt =====
-- crates/interpreter/src/savepoint.rs: texts that are kept on one line. A text is the list of the
-- code points of its characters.
use nlang_tools.Prelude.{
  ℕ, false, ◌==◌, if◌then◌else◌, List, [], ◌∷◌, All, ◌≡◌, ◌≢◌, refl, inl, inr, arith, Bool-cases,
}

abbrev backslash : ℕ
backslash = 92

abbrev newline : ℕ
newline = 10

abbrev carriage_return : ℕ
carriage_return = 13

abbrev escaped_char : ℕ → List ℕ → List ℕ
escaped_char c out =
    if c == backslash
    then backslash ∷ backslash ∷ out
    else if c == newline
    then backslash ∷ b'n' ∷ out
    else if c == carriage_return
    then backslash ∷ b'r' ∷ out
    else c ∷ out

unfoldable pub escape_frame : List ℕ → List ℕ
escape_frame [] = []
escape_frame (c ∷ text) = escaped_char c (escape_frame text)

-- the character after a backslash
abbrev unescaped_char : ℕ → List ℕ → List ℕ
unescaped_char d out =
    if d == b'n'
    then newline ∷ out
    else if d == b'r'
    then carriage_return ∷ out
    else if d == backslash
    then backslash ∷ out
    else backslash ∷ d ∷ out

unfoldable pub unescape_frame : List ℕ → List ℕ
unescape_frame [] = []
unescape_frame (c ∷ []) = c ∷ []
unescape_frame (c ∷ d ∷ text) =
    let pair = unescaped_char d (unescape_frame text) in
    let one = c ∷ unescape_frame (d ∷ text) in if c == backslash then pair else one

abbrev pub StaysOnLine : ℕ → Type 0
StaysOnLine c = (c ≢ newline) × (c ≢ carriage_return)

unescape-plain :
    (c : ℕ) (text : List ℕ)
    → (c == backslash) ≡ false
    → unescape_frame (c ∷ text) ≡ c ∷ unescape_frame text
unfolding unescape_frame
unescape-plain c [] h = refl
unescape-plain c (d ∷ text) h = rw h refl

round_trip : (text : List ℕ) → unescape_frame (escape_frame text) ≡ text
unfolding escape_frame unescape_frame
round_trip [] = refl
round_trip (c ∷ text) = elim (Bool-cases (c == backslash)) [
  | inl same ↦ ground (arith, same, round_trip text)
  | inr other ↦ elim (Bool-cases (c == newline)) [
    | inl line ↦ ground (arith, other, line, round_trip text)
    | inr inline ↦ elim (Bool-cases (c == carriage_return)) [
      | inl back ↦ ground (arith, other, inline, back, round_trip text)
      | inr plain ↦
          rw other rw inline rw plain ground
            (arith, unescape-plain c (escape_frame text) other, round_trip text)
    ]
  ]
]

stays_pair :
    (d : ℕ) (out : List ℕ)
    → StaysOnLine d
    → All StaysOnLine out
    → All StaysOnLine (backslash ∷ d ∷ out)
stays_pair d out h k = ((ground arith, ground arith), (h, k))

one_line : (text : List ℕ) → All StaysOnLine (escape_frame text)
unfolding escape_frame
one_line [] = tt
one_line (c ∷ text) = elim (Bool-cases (c == backslash)) [
  | inl same ↦
      rw same
        (stays_pair backslash (escape_frame text) (ground arith, ground arith) (one_line text))
  | inr other ↦ elim (Bool-cases (c == newline)) [
    | inl line ↦
        rw other rw line
          (stays_pair b'n' (escape_frame text) (ground arith, ground arith) (one_line text))
    | inr inline ↦ elim (Bool-cases (c == carriage_return)) [
      | inl back ↦
          rw other rw inline rw back
            (stays_pair b'r' (escape_frame text) (ground arith, ground arith) (one_line text))
      | inr plain ↦
          rw other rw inline rw plain
            ((ground (arith, inline), ground (arith, plain)), one_line text)
    ]
  ]
]

-- A text that is escaped for a line of a savepoint is read back as it was, and in its escaped form
-- no character ends the line.
pub unescape-escape_frame :
    (text : List ℕ)
    → (unescape_frame (escape_frame text) ≡ text) × All StaysOnLine (escape_frame text)
unescape-escape_frame text = (round_trip text, one_line text)
