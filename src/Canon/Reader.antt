-- ===== src/Canon/Reader.antt =====
-- Readers of bytes, as the independent description of what an encoding means: a reader gives a
-- value and the bytes after it.
use nlang_tools.Prelude.{
  ℕ, zero, suc, none, some, List, [], ◌∷◌, ◌++◌, length, ◌≡◌, refl, sym, ap, ◌∙◌, append_assoc,
}
use nlang_tools.Canon.Leb.RoundTrip.{Read}

abbrev pub Reader : Type 0 → Type 0
Reader A = List ℕ → Read A

unfoldable pub bind : {A B : Type 0} → Reader A → (A → Reader B) → Reader B
bind m f bs = elim (m bs) [ none ↦ none | some (a, rest) ↦ f a rest ]

unfoldable pub ret : {A : Type 0} → A → Reader A
ret a bs = some (a, bs)

-- so many bytes
unfoldable pub read_bytes : ℕ → Reader (List ℕ)
read_bytes zero bs = some ([], bs)
read_bytes (suc n) [] = none
read_bytes (suc n) (b ∷ bs) = elim (read_bytes n bs) [
  | none ↦ none
  | some (read, rest) ↦ some (b ∷ read, rest)
]

-- one byte
unfoldable pub read_byte : Reader ℕ
read_byte [] = none
read_byte (b ∷ bs) = some (b, bs)

-- The reader takes exactly these bytes and gives this value, whatever follows.
pub data Reads {A : Type 0} (m : Reader A) (c : List ℕ) (a : A) : Type 0 where
  reads : ((rest : List ℕ) → m (c ++ rest) ≡ some (a, rest)) → Reads m c a

pub Reads-ret : {A : Type 0} (a : A) → Reads (ret a) [] a
unfolding ret
Reads-ret a = reads (λ rest. refl)

pub Reads-bind :
    {A B : Type 0} {m : Reader A} (f : A → Reader B) {c d : List ℕ} {a : A} {b : B}
    → Reads m c a
    → Reads (f a) d b
    → Reads (bind m f) (c ++ d) b
unfolding bind
Reads-bind {m} f {c} {d} (reads p) (reads q) =
    reads (λ rest. rw (append_assoc c d rest) (rw (p (d ++ rest), bind) (q rest)))

-- a last step that gives a value
pub Reads-map :
    {A B : Type 0} {m : Reader A} (g : A → B) {c : List ℕ} {a : A}
    → Reads m c a
    → Reads (bind m (λ x. ret (g x))) c (g a)
unfolding bind ret
Reads-map {m} g {c} (reads p) = reads (λ rest. rw (p rest, bind))

pub Reads-byte : (b : ℕ) → Reads read_byte (b ∷ []) b
unfolding read_byte
Reads-byte b = reads (λ rest. refl)

read_bytes-all : (bs rest : List ℕ) → read_bytes (length bs) (bs ++ rest) ≡ some (bs, rest)
unfolding read_bytes
read_bytes-all [] rest = refl
read_bytes-all (b ∷ bs) rest = rw (read_bytes-all bs rest)

pub Reads-bytes : (bs : List ℕ) → Reads (read_bytes (length bs)) bs bs
Reads-bytes bs = reads (read_bytes-all bs)

value_or : {A : Type 0} → A → Read A → A
value_or d none = d
value_or d (some (a, rest)) = a

-- What is read is determined by the bytes.
pub Reads-unique :
    {A : Type 0} (m : Reader A) (c c' : List ℕ) (a a' : A)
    → Reads m c a
    → Reads m c' a'
    → c ≡ c'
    → a ≡ a'
unfolding value_or
Reads-unique m c c' a a' (reads p) (reads q) e =
    ap (value_or a) (sym (p [])) ∙ ap (λ bs. value_or a (m (bs ++ []))) e ∙ ap (value_or a) (q [])
