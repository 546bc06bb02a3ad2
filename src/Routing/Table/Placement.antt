-- ===== src/Routing/Table/Placement.antt =====
-- crates/interpreter/src/routing.rs: where insertions put a name, and what they count.
use text.Mathlib.Text.{◌==◌ as str_eq}
use nlang_tools.Prelude.{
  ℕ, zero, suc, ◌+◌, ◌<◌, min, String, Bool, true, false, ◌||◌, ◌&&◌, ◌==◌, Option, some, List, [],
  ◌∷◌, ◌++◌, length, length-append, take, drop, replicate, ◌≡◌, refl, ap, ◌∙◌, ◌⊎◌, inl, inr, arith,
  append-nil, subst,
}
use nlang_tools.Routing.Distance.{id_bytes, n_buckets, bucket_index, routing_id_from_digest}
use nlang_tools.Routing.Table.{
  RoutingIndex, new, self_id, holds, any_holds, unwrap_or_default, slot_at, push_at, insert_at,
  insert, total_of, total,
}
use nlang_tools.Routing.Table.Laws.{inserts, Change, kept, pushed, insert-Change}

total_of-push :
    (b : ℕ) (id : String) (slots : List (List String))
    → b < length slots
    → total_of (push_at b id slots) ≡ suc (total_of slots)
unfolding total_of push_at
total_of-push b id [] h = absurd (omega arith)
total_of-push zero id (slot ∷ slots) h = omega (arith, length-append slot (id ∷ []))
total_of-push (suc b) id (slot ∷ slots) h = omega (arith, total_of-push b id slots (omega arith))

-- The offer of a name that is in no bucket yet, with an id that is not this node's, is accounted
-- for: one more name is stored or one more drop is counted, and never both.
pub insert-total :
    (hex_decode : String → Option (List ℕ)) (id : String) (rid : List ℕ) (r : RoutingIndex)
    → length r.buckets ≡ n_buckets
    → any_holds id r.buckets ≡ false
    → bucket_index (self_id hex_decode r) rid < n_buckets
    → total (insert hex_decode id rid r).0 + ((insert hex_decode id rid r).0).dropped_full
      ≡ suc (total r + r.dropped_full)
unfolding insert insert_at total
insert-total hex_decode id rid r slots_len absent inside = ground (
  arith,
  total_of-push (bucket_index (self_id hex_decode r) rid) id r.buckets
      (omega (arith, inside, slots_len)),
)

-- an offer of this name with an id that belongs in this bucket
unfoldable pub offered : List ℕ → String → ℕ → List (String × List ℕ) → Bool
offered own m i [] = false
offered own m i (offer ∷ offers) =
    (str_eq offer.0 m && bucket_index own offer.1 == i) || offered own m i offers

holds-append :
    (m id : String) (slot : List String) → holds m (slot ++ id ∷ []) ≡ (holds m slot || str_eq id m)
unfolding holds
holds-append m id [] = ground arith
holds-append m id (x ∷ slot) = ground (arith, holds-append m id slot)

holds-push :
    (b i : ℕ) (m id : String) (slots : List (List String))
    → holds m (slot_at i (push_at b id slots)) ≡ true
    → (holds m (slot_at i slots) ≡ true) ⊎ ((str_eq id m && b == i) ≡ true)
unfolding slot_at push_at
holds-push b i m id [] h = inl h
holds-push zero zero m id (slot ∷ slots) h = ground (arith, holds-append m id slot)
holds-push zero (suc i) m id (slot ∷ slots) h = inl h
holds-push (suc b) zero m id (slot ∷ slots) h = inl h
holds-push (suc b) (suc i) m id (slot ∷ slots) h = ground (arith, holds-push b i m id slots h)

holds-Change :
    {b : ℕ} {id : String} {s s' : List (List String)} (i : ℕ) (m : String)
    → Change b id s s'
    → holds m (slot_at i s') ≡ true
    → (holds m (slot_at i s) ≡ true) ⊎ ((str_eq id m && b == i) ≡ true)
holds-Change i m kept h = inl h
holds-Change {b} {id} {s} i m (pushed inside absent room) h = holds-push b i m id s h

self_id-insert :
    (hex_decode : String → Option (List ℕ)) (id : String) (rid : List ℕ) (r : RoutingIndex)
    → self_id hex_decode (insert hex_decode id rid r).0 ≡ self_id hex_decode r
unfolding insert insert_at self_id
self_id-insert hex_decode id rid r = ground arith

inserts-offered :
    (hex_decode : String → Option (List ℕ)) (offers : List (String × List ℕ)) (r : RoutingIndex)
    (i : ℕ) (m : String)
    → holds m (slot_at i (inserts hex_decode offers r).buckets) ≡ true
    → (holds m (slot_at i r.buckets) ≡ true) ⊎ (offered (self_id hex_decode r) m i offers ≡ true)
unfolding inserts offered
inserts-offered hex_decode [] r i m h = inl h
inserts-offered hex_decode (offer ∷ offers) r i m h = ground (
  arith,
  subst
      (λ own.
        (holds m (slot_at i ((insert hex_decode offer.0 offer.1 r).0).buckets) ≡ true)
        ⊎ (offered own m i offers ≡ true))
      (self_id-insert hex_decode offer.0 offer.1 r)
      (inserts-offered hex_decode offers (insert hex_decode offer.0 offer.1 r).0 i m h),
  holds-Change i m (insert-Change hex_decode offer.0 offer.1 r),
)

holds-empty : (n i : ℕ) (m : String) → ¬ (holds m (slot_at i (replicate n [])) ≡ true)
unfolding slot_at holds
holds-empty zero i m h = ground arith
holds-empty (suc n) zero m h = ground arith
holds-empty (suc n) (suc i) m h = holds-empty n i m h

take-all : (n : ℕ) (xs : List ℕ) → length xs ≡ n → take n xs ≡ xs
take-all zero [] h = refl
take-all zero (x ∷ xs) h = absurd (omega arith)
take-all (suc n) [] h = absurd (omega arith)
take-all (suc n) (x ∷ xs) h = ap (λ ys. x ∷ ys) (take-all n xs (omega arith))

routing_id-whole : (own : List ℕ) → length own ≡ id_bytes → routing_id_from_digest own ≡ own
unfolding routing_id_from_digest
routing_id-whole own h =
    let whole : id_bytes ≡ min (length own) id_bytes = omega (arith, h) in
    subst (λ n. take n own ++ drop n (replicate id_bytes 0) ≡ own) whole
      (append-nil (take id_bytes own) ∙ take-all id_bytes own h)

self_id-new :
    (hex_encode : List ℕ → String) (hex_decode : String → Option (List ℕ)) (own : List ℕ)
    → length own ≡ id_bytes
    → hex_decode (hex_encode own) ≡ some own
    → self_id hex_decode (new hex_encode own) ≡ own
unfolding self_id new
self_id-new hex_encode hex_decode own own_len round_trip =
    ap (λ o. routing_id_from_digest (unwrap_or_default o)) round_trip ∙ routing_id-whole own own_len

-- A name that stands in a bucket after insertions into a new index was offered, with an id whose
-- distance from this node's own belongs in that bucket.
pub new-inserts-offered :
    (hex_encode : List ℕ → String) (hex_decode : String → Option (List ℕ)) (own : List ℕ)
    (offers : List (String × List ℕ)) (i : ℕ) (m : String)
    → length own ≡ id_bytes
    → hex_decode (hex_encode own) ≡ some own
    → holds m (slot_at i (inserts hex_decode offers (new hex_encode own)).buckets) ≡ true
    → offered own m i offers ≡ true
unfolding new
new-inserts-offered hex_encode hex_decode own offers i m own_len round_trip h =
    elim (inserts-offered hex_decode offers (new hex_encode own) i m h) [
      | inl empty ↦ absurd (holds-empty n_buckets i m empty)
      | inr found ↦
          subst (λ x. offered x m i offers ≡ true)
            (self_id-new hex_encode hex_decode own own_len round_trip) found
    ]
