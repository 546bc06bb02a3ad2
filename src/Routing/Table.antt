-- ===== src/Routing/Table.antt =====
-- crates/interpreter/src/routing.rs: `RoutingIndex`, a list of names for each bucket. `hex::encode`
-- and `hex::decode` are arguments.
pub mod Slots
pub mod Laws
pub mod Placement
use text.Mathlib.Text.{◌==◌ as str_eq}
use nlang_tools.Prelude.{
  ℕ, zero, suc, ◌+◌, leb, if◌then◌else◌, String, Bool, true, false, ◌||◌, Option, none, some, List,
  [], ◌∷◌, ◌++◌, length, replicate, format, decimal,
}
use nlang_tools.Routing.Distance.{n_buckets, routing_id_from_digest, bucket_index}

abbrev pub k : ℕ
k = 20

pub record RoutingIndex : Type 0 where
  pub self_id_hex : String
  pub buckets : List (List String)
  pub dropped_full : ℕ

unfoldable pub new : (List ℕ → String) → List ℕ → RoutingIndex
new hex_encode own = record {
  self_id_hex = hex_encode own;
  buckets = replicate n_buckets [];
  dropped_full = 0;
}

abbrev pub unwrap_or_default : Option (List ℕ) → List ℕ
unwrap_or_default none = []
unwrap_or_default (some b) = b

unfoldable pub self_id : (String → Option (List ℕ)) → RoutingIndex → List ℕ
self_id hex_decode r = routing_id_from_digest (unwrap_or_default (hex_decode r.self_id_hex))

unfoldable pub total_of : List (List String) → ℕ
total_of [] = 0
total_of (slot ∷ slots) = length slot + total_of slots

unfoldable pub total : RoutingIndex → ℕ
unfolding total_of
total r = total_of r.buckets

unfoldable pub holds : String → List String → Bool
holds node_id [] = false
holds node_id (id ∷ slot) = str_eq id node_id || holds node_id slot

unfoldable pub any_holds : String → List (List String) → Bool
unfolding holds
any_holds node_id [] = false
any_holds node_id (slot ∷ slots) = holds node_id slot || any_holds node_id slots

-- `self.buckets[b]`, which is in range where it is read
unfoldable pub slot_at : ℕ → List (List String) → List String
slot_at b [] = []
slot_at zero (slot ∷ slots) = slot
slot_at (suc b) (slot ∷ slots) = slot_at b slots

-- `slot.push`
unfoldable pub push_at : ℕ → String → List (List String) → List (List String)
push_at b node_id [] = []
push_at zero node_id (slot ∷ slots) = (slot ++ node_id ∷ []) ∷ slots
push_at (suc b) node_id (slot ∷ slots) = slot ∷ push_at b node_id slots

unfoldable pub full_line : ℕ → String → String
full_line b node_id =
    format ("OODP Routing: bucket " ∷ decimal b ∷ " full, incumbent kept, dropped " ∷ node_id ∷ [])

unfoldable pub added_line : ℕ → String → ℕ → String
added_line b node_id n = format (
    "OODP Routing: +"
    ∷ node_id
    ∷ " bucket="
    ∷ decimal b
    ∷ " occupancy="
    ∷ decimal n
    ∷ "/"
    ∷ decimal k
    ∷ [])

unfoldable pub insert_at : ℕ → String → RoutingIndex → RoutingIndex × List String
unfolding slot_at push_at full_line added_line
insert_at b node_id r =
    if leb k (length (slot_at b r.buckets))
    then (
      record {
        self_id_hex = r.self_id_hex;
        buckets = r.buckets;
        dropped_full = r.dropped_full + 1;
      },
      full_line b node_id ∷ [],
    )
    else (
      record {
        self_id_hex = r.self_id_hex;
        buckets = push_at b node_id r.buckets;
        dropped_full = r.dropped_full;
      },
      added_line b node_id (length (slot_at b (push_at b node_id r.buckets))) ∷ [],
    )

-- The index after, and the lines of the log.
unfoldable pub insert :
    (String → Option (List ℕ)) → String → List ℕ → RoutingIndex → RoutingIndex × List String
unfolding self_id any_holds insert_at
insert hex_decode node_id peer_rid r =
    let b = bucket_index (self_id hex_decode r) peer_rid in
    if leb n_buckets b
    then (r, [])
    else if any_holds node_id r.buckets
    then (r, [])
    else insert_at b node_id r
