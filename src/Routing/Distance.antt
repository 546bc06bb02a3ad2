-- ===== src/Routing/Distance.antt =====
-- crates/interpreter/src/routing.rs: routing ids, their distance, and the bucket of a peer.
pub mod Bits
use Prim.Native.Nat.{bit_xor}
use nlang_tools.Prelude.{
  ℕ, ◌+◌, ◌*◌, min, ltb, ◌==◌, if◌then◌else◌, List, [], ◌∷◌, ◌++◌, length, take, drop, replicate,
}

abbrev pub id_bytes : ℕ
id_bytes = 20

abbrev pub n_buckets : ℕ
n_buckets = id_bytes * 8

-- The first bytes are copied over an id of zeros.
unfoldable pub routing_id_from_digest : List ℕ → List ℕ
routing_id_from_digest digest =
    take (min (length digest) id_bytes) digest
    ++ drop (min (length digest) id_bytes) (replicate id_bytes 0)

-- of two ids of the same length
unfoldable pub xor_id : List ℕ → List ℕ → List ℕ
xor_id [] b = []
xor_id (x ∷ a) [] = []
xor_id (x ∷ a) (y ∷ b) = bit_xor x y ∷ xor_id a b

-- `u8::leading_zeros`
unfoldable pub leading_zeros : ℕ → ℕ
leading_zeros b =
    if ltb b 1
    then 8
    else if ltb b 2
    then 7
    else if ltb b 4
    then 6
    else if ltb b 8
    then 5
    else if ltb b 16
    then 4
    else if ltb b 32
    then 3
    else if ltb b 64
    then 2
    else if ltb b 128
    then 1
    else 0

-- the loop, with the zeros counted so far
unfoldable pub count_zeros : List ℕ → ℕ → ℕ
unfolding leading_zeros
count_zeros [] n = n
count_zeros (b ∷ x) n = if b == 0 then count_zeros x (n + 8) else n + leading_zeros b

unfoldable pub bucket_index : List ℕ → List ℕ → ℕ
unfolding xor_id count_zeros
bucket_index own peer = min (count_zeros (xor_id own peer) 0) n_buckets
