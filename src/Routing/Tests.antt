-- ===== src/Routing/Tests.antt =====
-- The routing index at concrete ids, and the theorems applied to them.
use nlang_tools.Prelude.{
  ℕ, String, Option, some, List, [], ◌∷◌, suc, replicate, All, ◌<◌, zero, ◌≡◌, refl, arith,
}
use nlang_tools.Routing.Distance.{routing_id_from_digest, bucket_index}
use nlang_tools.Routing.Distance.Bits.{IsByte, bits, shared, bucket_index-shared}
use nlang_tools.Routing.Table.{new, self_id, slot_at, any_holds, total, insert}
use nlang_tools.Routing.Table.Laws.{IsTable, inserts, new-inserts-IsTable}

abbrev own : List ℕ
own = replicate 20 0

abbrev near : List ℕ
near = 0 ∷ 0x13 ∷ replicate 18 7

abbrev far : List ℕ
far = replicate 20 0xff

-- `hex` where this node's id is concerned
abbrev hex_encode : List ℕ → String
hex_encode b = "0000000000000000000000000000000000000000"

abbrev hex_decode : String → Option (List ℕ)
hex_decode s = some own

abbrev offers : List (String × List ℕ)
offers = ("a", near) ∷ ("b", far) ∷ ("a", far) ∷ ("me", own) ∷ ("c", near) ∷ []

repeated-IsByte : (n b : ℕ) → b < 256 → All IsByte (replicate n b)
repeated-IsByte zero b h = tt
repeated-IsByte (suc n) b h = (h, repeated-IsByte n b h)

own_bytes : All IsByte own
own_bytes = repeated-IsByte 20 0 (omega arith)

near_bytes : All IsByte near
near_bytes = (omega arith, (omega arith, repeated-IsByte 18 7 (omega arith)))

buckets-offers :
    (slot_at 11 (inserts hex_decode offers (new hex_encode own)).buckets ≡ "a" ∷ "c" ∷ [])
    × (slot_at 0 (inserts hex_decode offers (new hex_encode own)).buckets ≡ "b" ∷ [])
    × (total (inserts hex_decode offers (new hex_encode own)) ≡ 3)
unfolding inserts insert new slot_at bucket_index self_id routing_id_from_digest any_holds total
buckets-offers = (refl, refl, refl)

bucket_index-shared_example : bucket_index own near ≡ shared (bits own) (bits near)
bucket_index-shared_example = bucket_index-shared own near refl refl own_bytes near_bytes

new-inserts-IsTable_example : IsTable (inserts hex_decode offers (new hex_encode own)).buckets
new-inserts-IsTable_example = new-inserts-IsTable hex_encode hex_decode own offers
