-- ===== src/Routing/Distance/Bits.antt =====
-- crates/interpreter/src/routing.rs: the bucket of a peer is the length of the prefix of bits that
-- its id shares with this node's.
use Prim.Native.Nat.{bit_xor}
use nlang_tools.Prelude.{
  ℕ, zero, suc, ◌+◌, ◌*◌, ◌/◌, ◌%◌, ◌≤◌, ◌<◌, ◌==◌, if◌then◌else◌, Bool, true, false, List, [], ◌∷◌,
  ◌++◌, length, length-append, All, ◌≡◌, refl, arith, sym, ◌∙◌, inl, ◌⊎◌, ==_iff, test_under,
  under_elim₂,
}
use nlang_tools.Routing.Distance.{
  id_bytes, n_buckets, xor_id, leading_zeros, count_zeros, bucket_index,
}

unfoldable pub bits_of : ℕ → ℕ → List ℕ
bits_of zero x = []
bits_of (suc n) x = bits_of n (x / 2) ++ x % 2 ∷ []

abbrev pub IsByte : ℕ → Type 0
IsByte b = b < 256

-- the bits of an id, the highest of each byte first
unfoldable pub bits : List ℕ → List ℕ
unfolding bits_of
bits [] = []
bits (x ∷ a) = bits_of 8 x ++ bits a

-- how many numbers two lists have in common at the front
unfoldable pub shared : List ℕ → List ℕ → ℕ
shared [] b = 0
shared (x ∷ a) [] = 0
shared (x ∷ a) (y ∷ b) = if x == y then suc (shared a b) else 0

abbrev byte_law : ℕ → ℕ → Bool
byte_law x y = leading_zeros (bit_xor x y) == shared (bits_of 8 x) (bits_of 8 y)

byte_table : test_under 256 (λ x. test_under 256 (byte_law x)) ≡ true
unfolding test_under leading_zeros shared bits_of
byte_table = refl

leading_zeros-cases :
    (z : ℕ)
    → (((z == 0) ≡ true) × (leading_zeros z ≡ 8)) ⊎ (((z == 0) ≡ false) × (leading_zeros z < 8))
unfolding leading_zeros
leading_zeros-cases z = ground arith

length-bits_of : (x : ℕ) → length (bits_of 8 x) ≡ 8
unfolding bits_of
length-bits_of x = refl

leading_zeros-xor :
    (x y : ℕ) → x < 256 → y < 256 → leading_zeros (bit_xor x y) ≡ shared (bits_of 8 x) (bits_of 8 y)
leading_zeros-xor x y hx hy = (==_iff _ _).0 (under_elim₂ 256 256 byte_law x y byte_table hx hy)

shared-append :
    (xs ys a b : List ℕ)
    → length xs ≡ length ys
    → ((shared xs ys ≡ length xs) × (shared (xs ++ a) (ys ++ b) ≡ length xs + shared a b))
      ⊎ ((shared xs ys < length xs) × (shared (xs ++ a) (ys ++ b) ≡ shared xs ys))
unfolding shared
shared-append [] [] a b h = inl (refl, omega arith)
shared-append [] (y ∷ ys) a b h = absurd (omega arith)
shared-append (x ∷ xs) [] a b h = absurd (omega arith)
shared-append (x ∷ xs) (y ∷ ys) a b h = ground (arith, shared-append xs ys a b)

-- a byte of the distance, and then the others
count-byte :
    (x y : ℕ) (a b : List ℕ) (n : ℕ)
    → x < 256
    → y < 256
    → count_zeros (xor_id a b) (n + 8) ≡ n + 8 + shared (bits a) (bits b)
    → count_zeros (xor_id (x ∷ a) (y ∷ b)) n ≡ n + shared (bits (x ∷ a)) (bits (y ∷ b))
unfolding xor_id count_zeros bits
count-byte x y a b n hx hy ih = ground (
  arith,
  ih,
  leading_zeros-xor x y hx hy,
  leading_zeros-cases (bit_xor x y),
  length-bits_of x,
  shared-append (bits_of 8 x) (bits_of 8 y) (bits a) (bits b)
      (length-bits_of x ∙ sym (length-bits_of y)),
)

count_zeros-shared :
    (a b : List ℕ) (n : ℕ)
    → length a ≡ length b
    → All IsByte a
    → All IsByte b
    → count_zeros (xor_id a b) n ≡ n + shared (bits a) (bits b)
unfolding xor_id count_zeros bits shared
count_zeros-shared [] [] n h ha hb = omega arith
count_zeros-shared [] (y ∷ b) n h ha hb = absurd (omega arith)
count_zeros-shared (x ∷ a) [] n h ha hb = absurd (omega arith)
count_zeros-shared (x ∷ a) (y ∷ b) n h ha hb =
    count-byte x y a b n ha.0 hb.0 (count_zeros-shared a b (n + 8) (omega arith) ha.1 hb.1)

shared-le : (a b : List ℕ) → shared a b ≤ length a
unfolding shared
shared-le [] b = omega arith
shared-le (x ∷ a) [] = omega arith
shared-le (x ∷ a) (y ∷ b) = ground (arith, shared-le a b)

length-bits : (a : List ℕ) → length (bits a) ≡ length a * 8
unfolding bits
length-bits [] = refl
length-bits (x ∷ a) =
    omega (arith, length-append (bits_of 8 x) (bits a), length-bits_of x, length-bits a)

-- The bucket of a peer is the number of leading bits its id shares with this node's own id.
pub bucket_index-shared :
    (own peer : List ℕ)
    → length own ≡ id_bytes
    → length peer ≡ id_bytes
    → All IsByte own
    → All IsByte peer
    → bucket_index own peer ≡ shared (bits own) (bits peer)
unfolding bucket_index
bucket_index-shared own peer hl kl hb kb = omega (
  arith,
  count_zeros-shared own peer 0 (hl ∙ sym kl) hb kb,
  shared-le (bits own) (bits peer),
  length-bits own,
)

shared_self : (a : List ℕ) → shared a a ≡ length a
unfolding shared
shared_self [] = refl
shared_self (x ∷ a) = ground (arith, shared_self a)

pub bucket_index_self :
    (own : List ℕ) → length own ≡ id_bytes → All IsByte own → bucket_index own own ≡ n_buckets
bucket_index_self own h hb =
    omega (arith, bucket_index-shared own own h h hb hb, shared_self (bits own), length-bits own)
