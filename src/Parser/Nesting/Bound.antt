-- ===== src/Parser/Nesting/Bound.antt =====
-- The scan ends, never holds more delimiters than the limit, and refuses no input that has fewer
-- opening bytes.
use nlang_tools.Prelude.{
  ℕ, zero, suc, ◌+◌, ◌≤◌, ◌<◌, ◌≡◌, refl, ◌≢◌, inl, inr, Bool, true, false, ◌==◌, ◌||◌, ◌&&◌,
  if◌then◌else◌, Option, none, some, List, [], ◌∷◌, length, drop, length-drop, arith, Bool-cases,
  ltb, ltb→lt, ltb_false→le,
}
use nlang_tools.Parser.Nesting.{
  parser_nesting_limit, ScanMode, Delimiter, Delimiters, Round, code, comment, quoted,
  multiline_quoted, interpolated, paren, bracket, cocoon, structural, brace, interpolation,
  exceeded, advance, push_delimiter, is_paren, is_bracket, is_cocoon, is_structural, starts_with,
  pop, close_brace, close_round, open_round, code_round, round, scan, exceeds_parser_nesting_limit,
}

-- the bytes with which a delimiter can open
abbrev pub opens : ℕ → Bool
opens b = b == b'(' || (b == b'[' || (b == b'{' || (b == b'<' || b == b'$')))

abbrev pub opening_bytes : List ℕ → ℕ
opening_bytes [] = 0
opening_bytes (b ∷ bs) = if opens b then suc (opening_bytes bs) else opening_bytes bs

opening_bytes-drop : (n : ℕ) (bs : List ℕ) → opening_bytes (drop n bs) ≤ opening_bytes bs
opening_bytes-drop zero bs = omega arith
opening_bytes-drop (suc n) [] = omega arith
opening_bytes-drop (suc n) (b ∷ bs) = ground (arith, opening_bytes-drop n bs)

-- What a round at `b` may do to the delimiters: it stops only if one more would be too many, and
-- then `b` opens one; it consumes a byte at least; it adds one delimiter at most, for a byte that
-- opens one, and then within the limit.
pub data Allowed (ds : Delimiters) (b : ℕ) : Round → Type 0 where
  stops : parser_nesting_limit ≤ length ds → opens b ≡ true → Allowed ds b exceeded
  keeps :
      {m : ScanMode} {ds' : Delimiters} {n : ℕ}
      → 0 < n
      → length ds' ≤ length ds
      → Allowed ds b (advance m ds' n)
  adds :
      {m : ScanMode} {ds' : Delimiters} {n : ℕ}
      → 0 < n
      → opens b ≡ true
      → length ds' ≡ suc (length ds)
      → length ds' ≤ parser_nesting_limit
      → Allowed ds b (advance m ds' n)

-- a test inside a round
by_test :
    {ds : Delimiters} {b : ℕ} (t : Bool) {x y : Round}
    → (t ≡ true → Allowed ds b x)
    → Allowed ds b y
    → Allowed ds b (if t then x else y)
by_test true f g = f refl
by_test false f g = g

Allowed-push :
    (ds : Delimiters) (d : Delimiter) (m : ScanMode) (b j : ℕ)
    → opens b ≡ true
    → Allowed ds b (push_delimiter ds d m (suc j))
unfolding push_delimiter
Allowed-push ds d m b j h = elim (Bool-cases (ltb parser_nesting_limit (length (d ∷ ds)))) [
  | inl over ↦ rw over (stops (omega (arith, ltb→lt _ _ over)) h)
  | inr under ↦ rw under (adds (omega arith) h refl (ltb_false→le _ _ under))
]

-- a round that stays with its delimiters
Allowed-stay :
    {ds : Delimiters} {b : ℕ} {m : ScanMode} (j : ℕ) → Allowed ds b (advance m ds (suc j))
Allowed-stay j = keeps (omega arith) (omega arith)

Allowed-close_brace : (ds : Delimiters) (b : ℕ) → Allowed ds b (close_brace ds)
unfolding close_brace
Allowed-close_brace (brace ∷ ds) b = keeps (omega arith) (omega arith)
Allowed-close_brace (interpolation ∷ ds) b = keeps (omega arith) (omega arith)
Allowed-close_brace _ b = keeps (omega arith) (omega arith)

length-pop_if : (t : Bool) (ds : Delimiters) → length (if t then pop ds else ds) ≤ length ds
length-pop_if true [] = omega arith
length-pop_if true (d ∷ ds) = omega arith
length-pop_if false ds = omega arith

Allowed-pop_if :
    {b : ℕ} {m : ScanMode} (t : Bool) (ds : Delimiters) (j : ℕ)
    → Allowed ds b (advance m (if t then pop ds else ds) (suc j))
Allowed-pop_if t ds j = keeps (omega arith) (length-pop_if t ds)

Allowed-close_round : (ds : Delimiters) (b : ℕ) (bs : List ℕ) → Allowed ds b (close_round ds b bs)
unfolding close_round
Allowed-close_round ds b bs =
    by_test (b == b')') (λ _. Allowed-pop_if (is_paren ds) ds 0)
      (by_test (b == b']') (λ _. Allowed-pop_if (is_bracket ds) ds 0)
        (by_test (b == b'}' && (starts_with (b ∷ bs) (b'}' ∷ b'}' ∷ []) && is_cocoon ds))
          (λ _. Allowed-pop_if true ds 1)
          (by_test (b == b'}') (λ _. Allowed-close_brace ds b)
            (by_test (b == b'>' && (starts_with (b ∷ bs) (b'>' ∷ b'>' ∷ []) && is_structural ds))
              (λ _. Allowed-pop_if true ds 1) (Allowed-stay 0)))))

Allowed-open_round : (ds : Delimiters) (b : ℕ) (bs : List ℕ) → Allowed ds b (open_round ds b bs)
unfolding open_round
Allowed-open_round ds b bs =
    by_test (starts_with (b ∷ bs) (b'{' ∷ b'{' ∷ []))
      (λ h. Allowed-push ds cocoon code b 1 (ground arith))
      (by_test (starts_with (b ∷ bs) (b'<' ∷ b'<' ∷ []))
        (λ h. Allowed-push ds structural code b 1 (ground arith))
        (by_test (b == b'(') (λ h. Allowed-push ds paren code b 0 (ground arith))
          (by_test (b == b'[') (λ h. Allowed-push ds bracket code b 0 (ground arith))
            (by_test (b == b'{') (λ h. Allowed-push ds brace code b 0 (ground arith))
              (Allowed-close_round ds b bs)))))

Allowed-code_round : (ds : Delimiters) (b : ℕ) (bs : List ℕ) → Allowed ds b (code_round ds b bs)
unfolding code_round
Allowed-code_round ds b bs =
    by_test (starts_with (b ∷ bs) (b';' ∷ b';' ∷ [])) (λ _. Allowed-stay 1)
      (by_test (starts_with (b ∷ bs) (b'"' ∷ b'"' ∷ b'"' ∷ [])) (λ _. Allowed-stay 2)
        (by_test (b == b'"') (λ _. Allowed-stay 0)
          (by_test (b == b'`') (λ _. Allowed-stay 0) (Allowed-open_round ds b bs))))

pub Allowed-round :
    (m : ScanMode) (ds : Delimiters) (b : ℕ) (bs : List ℕ) → Allowed ds b (round m ds b bs)
unfolding round
Allowed-round comment ds b bs =
    by_test (b == b'\n') (λ _. Allowed-stay 0)
      (by_test (b == b'\r') (λ _. Allowed-stay 0) (Allowed-stay 0))
Allowed-round quoted ds b bs = by_test (b == b'"') (λ _. Allowed-stay 0) (Allowed-stay 0)
Allowed-round multiline_quoted ds b bs =
    by_test (starts_with (b ∷ bs) (b'\\' ∷ b'"' ∷ b'"' ∷ b'"' ∷ [])) (λ _. Allowed-stay 3)
      (by_test (starts_with (b ∷ bs) (b'"' ∷ b'"' ∷ b'"' ∷ [])) (λ _. Allowed-stay 2)
        (Allowed-stay 0))
Allowed-round interpolated ds b bs =
    by_test (b == b'`') (λ _. Allowed-stay 0)
      (by_test (starts_with (b ∷ bs) (b'$' ∷ b'{' ∷ []))
        (λ h. Allowed-push ds interpolation code b 1 (ground arith)) (Allowed-stay 0))
Allowed-round code ds b bs = Allowed-code_round ds b bs

pub shorter : (n b : ℕ) (bs : List ℕ) → 0 < n → length (drop n (b ∷ bs)) ≤ length bs
shorter zero b bs h = absurd (omega arith)
shorter (suc n) b bs h = length-drop n bs

fewer : (n b : ℕ) (bs : List ℕ) → 0 < n → opening_bytes (drop n (b ∷ bs)) ≤ opening_bytes bs
fewer zero b bs h = absurd (omega arith)
fewer (suc n) b bs h = opening_bytes-drop n bs

-- With a unit of fuel for each byte the scan answers, and it refuses only if the open delimiters
-- and the opening bytes that are left are together more than the limit.
abbrev Answers : Delimiters → List ℕ → Option Bool → Type 0
Answers ds bs none = ⊥
Answers ds bs (some true) = parser_nesting_limit < length ds + opening_bytes bs
Answers ds bs (some false) = Unit {0}

Answers-mono :
    (ds ds' : Delimiters) (bs bs' : List ℕ) (o : Option Bool)
    → length ds' + opening_bytes bs' ≤ length ds + opening_bytes bs
    → Answers ds' bs' o
    → Answers ds bs o
Answers-mono ds ds' bs bs' none h a = a
Answers-mono ds ds' bs bs' (some true) h a = omega arith
Answers-mono ds ds' bs bs' (some false) h a = tt

opening_bytes-cons :
    (b : ℕ) (bs : List ℕ) → opens b ≡ true → opening_bytes (b ∷ bs) ≡ suc (opening_bytes bs)
opening_bytes-cons b bs h = rw h

opening_bytes-le_cons : (b : ℕ) (bs : List ℕ) → opening_bytes bs ≤ opening_bytes (b ∷ bs)
opening_bytes-le_cons b bs = ground arith

scan-Answers :
    (fuel : ℕ) (m : ScanMode) (ds : Delimiters) (bs : List ℕ)
    → length bs ≤ fuel
    → Answers ds bs (scan fuel m ds bs)
unfolding scan
scan-Answers zero m ds [] h = tt
scan-Answers zero m ds (b ∷ bs) h = absurd (omega arith)
scan-Answers (suc fuel) m ds [] h = tt
scan-Answers (suc fuel) m ds (b ∷ bs) h =
    go (round m ds b bs) (Allowed-round m ds b bs)
      λ m' ds' n pos. scan-Answers fuel m' ds' (drop n (b ∷ bs)) (omega (arith, shorter n b bs pos))
  where
    go :
        (r : Round)
        → Allowed ds b r
        → ((m' : ScanMode) (ds' : Delimiters) (n : ℕ)
            → 0 < n
            → Answers ds' (drop n (b ∷ bs)) (scan fuel m' ds' (drop n (b ∷ bs))))
        → Answers ds (b ∷ bs) (elim r [
          | exceeded ↦ some true
          | advance m' ds' n ↦ scan fuel m' ds' (drop n (b ∷ bs))
        ])
    go exceeded (stops full open_b) ih = omega (arith, opening_bytes-cons b bs open_b)
    go (advance m' ds' n) (keeps pos no_more) ih =
        Answers-mono ds ds' (b ∷ bs) (drop n (b ∷ bs)) _
          (omega (arith, fewer n b bs pos, opening_bytes-le_cons b bs)) (ih m' ds' n pos)
    go (advance m' ds' n) (adds pos open_b one_more _) ih =
        Answers-mono ds ds' (b ∷ bs) (drop n (b ∷ bs)) _
          (omega (arith, fewer n b bs pos, opening_bytes-cons b bs open_b)) (ih m' ds' n pos)

-- The scan of any input ends with an answer.
pub exceeds-answers : (bytes : List ℕ) → exceeds_parser_nesting_limit bytes ≢ none
unfolding exceeds_parser_nesting_limit
exceeds-answers bytes =
    go (scan (length bytes) code [] bytes) (scan-Answers (length bytes) code [] bytes (omega arith))
  where
    go : (o : Option Bool) → Answers [] bytes o → o ≢ none
    go none a = absurd a
    go (some over) a = cc

-- An input with at most as many opening bytes (`(`, `[`, `{`, `<`, `$`) as the limit is never
-- refused, whatever else it holds.
pub exceeds-opening_bytes :
    (bytes : List ℕ)
    → opening_bytes bytes ≤ parser_nesting_limit
    → exceeds_parser_nesting_limit bytes ≡ some false
unfolding exceeds_parser_nesting_limit
exceeds-opening_bytes bytes few =
    go (scan (length bytes) code [] bytes) (scan-Answers (length bytes) code [] bytes (omega arith))
  where
    go : (o : Option Bool) → Answers [] bytes o → o ≡ some false
    go none a = absurd a
    go (some true) a = absurd (omega arith)
    go (some false) a = refl
