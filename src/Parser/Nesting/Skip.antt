-- ===== src/Parser/Nesting/Skip.antt =====
-- crates/parser/src/lib.rs: how the nesting scan counts comments and runs of parentheses.
use nlang_tools.Prelude.{
  ℕ, zero, suc, ◌+◌, ◌≤◌, ◌<◌, ◌≡◌, refl, inl, inr, ap, ◌∙◌, ◌≢◌, Bool, true, false, ◌==◌, Option,
  some, List, [], ◌∷◌, ◌++◌, length, length-append, drop, replicate, length-replicate, All, arith,
  Bool-cases, ltb, ltb_false→le,
}
use nlang_tools.Parser.Nesting.{
  parser_nesting_limit, ScanMode, Delimiters, Round, code, comment, paren, exceeded, advance, round,
  scan, exceeds_parser_nesting_limit,
}
use nlang_tools.Parser.Nesting.Bound.{Allowed, stops, keeps, adds, Allowed-round, shorter}

-- Fuel that is not needed is not spent.
scan_fuel :
    (f g : ℕ) (m : ScanMode) (ds : Delimiters) (bs : List ℕ)
    → length bs ≤ f
    → length bs ≤ g
    → scan f m ds bs ≡ scan g m ds bs
unfolding scan
scan_fuel zero zero m ds bs h k = refl
scan_fuel zero (suc g) m ds [] h k = refl
scan_fuel zero (suc g) m ds (b ∷ bs) h k = absurd (omega arith)
scan_fuel (suc f) zero m ds [] h k = refl
scan_fuel (suc f) zero m ds (b ∷ bs) h k = absurd (omega arith)
scan_fuel (suc f) (suc g) m ds [] h k = refl
scan_fuel (suc f) (suc g) m ds (b ∷ bs) h k =
    go (round m ds b bs) (Allowed-round m ds b bs) λ m' ds' n pos.
      scan_fuel f g m' ds' (drop n (b ∷ bs)) (omega (arith, shorter n b bs pos))
        (omega (arith, shorter n b bs pos))
  where
    go :
        (r : Round)
        → Allowed ds b r
        → ((m' : ScanMode) (ds' : Delimiters) (n : ℕ)
            → 0 < n
            → scan f m' ds' (drop n (b ∷ bs)) ≡ scan g m' ds' (drop n (b ∷ bs)))
        → ◌≡◌ {A = Option Bool}
            (elim r [ exceeded ↦ some true | advance m' ds' n ↦ scan f m' ds' (drop n (b ∷ bs)) ])
            (elim r [ exceeded ↦ some true | advance m' ds' n ↦ scan g m' ds' (drop n (b ∷ bs)) ])
    go exceeded (stops _ _) ih = refl
    go (advance m' ds' n) (keeps pos _) ih = ih m' ds' n pos
    go (advance m' ds' n) (adds pos _ _ _) ih = ih m' ds' n pos

ne→==_false : (a b : ℕ) → a ≢ b → (a == b) ≡ false
ne→==_false a b h = ground arith

-- the fuel for a round at each byte of a body and one at the byte that ends it
abbrev fuel_after : List ℕ → ℕ → ℕ
fuel_after [] f = suc f
fuel_after (b ∷ body) f = suc (fuel_after body f)

le-fuel_after : (body : List ℕ) (f : ℕ) → fuel_after body f ≡ suc (length body + f)
le-fuel_after [] f = omega arith
le-fuel_after (b ∷ body) f = omega (arith, le-fuel_after body f)

abbrev pub EndsNoLine : ℕ → Type 0
EndsNoLine b = (b ≢ b'\n') × (b ≢ b'\r')

module _ (ds : Delimiters) (rest : List ℕ) where
  in_comment :
      (body : List ℕ) (f : ℕ)
      → All EndsNoLine body
      → scan (fuel_after body f) comment ds (body ++ b'\n' ∷ rest) ≡ scan f code ds rest
  unfolding scan round
  in_comment [] f h = refl
  in_comment (b ∷ body) f ((n, r), hs) =
      rw (ne→==_false b b'\n' n, ne→==_false b b'\r' r, scan) (in_comment body f hs)

length_body :
    (body rest : List ℕ) (b f : ℕ)
    → f ≡ suc (length rest)
    → suc (length (body ++ b ∷ rest)) ≤ fuel_after body f
length_body body rest b f h = omega (arith, length-append body (b ∷ rest), le-fuel_after body f)

-- A comment, with the line break that ends it, changes nothing of the answer for what follows.
pub exceeds-comment :
    (body rest : List ℕ)
    → All EndsNoLine body
    → exceeds_parser_nesting_limit (b';' ∷ b';' ∷ (body ++ b'\n' ∷ rest))
      ≡ exceeds_parser_nesting_limit rest
unfolding exceeds_parser_nesting_limit
exceeds-comment body rest h =
    let bytes : List ℕ = b';' ∷ b';' ∷ (body ++ b'\n' ∷ rest) in
    let f : ℕ = suc (length rest) in
    scan_fuel (length bytes) (suc (fuel_after body f)) code [] bytes (omega arith)
      (omega (arith, length_body body rest b'\n' f refl))
    ∙ unfold scan round in
      in_comment [] rest body f h
      ∙ scan_fuel f (length rest) code [] rest (omega arith) (omega arith)

open_parens :
    (n f : ℕ) (ds : Delimiters)
    → n ≤ f
    → length ds ≤ parser_nesting_limit
    → scan f code ds (replicate n b'(') ≡ some (ltb parser_nesting_limit (n + length ds))
unfolding scan round
open_parens zero zero ds h k = ap some (ground arith)
open_parens zero (suc f) ds h k = ap some (ground arith)
open_parens (suc n) zero ds h k = absurd (omega arith)
open_parens (suc n) (suc f) ds h k =
    elim (Bool-cases (ltb parser_nesting_limit (suc (length ds)))) [
      | inl over ↦ rw (over, scan) (ap some (ground arith))
      | inr under ↦
          rw (under, scan)
            (open_parens n f (paren ∷ ds) (omega arith) (ltb_false→le _ _ under)
              ∙ ap some (ground arith))
    ]

-- A run of opening parentheses is refused exactly if it is longer than the limit.
pub exceeds-parens :
    (n : ℕ) → exceeds_parser_nesting_limit (replicate n b'(') ≡ some (ltb parser_nesting_limit n)
unfolding exceeds_parser_nesting_limit
exceeds-parens n =
    open_parens n (length (replicate n b'(')) [] (omega (arith, length-replicate {A = ℕ} n b'('))
      (omega arith)
    ∙ ap some (ground arith)
