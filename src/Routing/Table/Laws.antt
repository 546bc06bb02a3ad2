-- ===== src/Routing/Table/Laws.antt =====
-- crates/interpreter/src/routing.rs: what insertions do to the index.
use nlang_tools.Prelude.{
  ℕ, ◌≤◌, ◌<◌, leb, if◌then◌else◌, String, Bool, true, false, Option, List, [], ◌∷◌, length,
  length-replicate, All, ◌≡◌, refl, ◌∙◌, arith,
}
use nlang_tools.Routing.Distance.{n_buckets, bucket_index}
use nlang_tools.Routing.Table.{
  RoutingIndex, k, new, self_id, any_holds, slot_at, push_at, insert_at, insert,
}
use nlang_tools.Routing.Table.Slots.{
  count_all, Extends, once-push, length-push_at, capacity-push, Extends-refl, Extends-trans,
  Extends-push, count_all-empty, All-empty,
}

-- as many slots as buckets, none over its capacity, and no name twice
pub record IsTable (slots : List (List String)) : Type 0 where
  pub slots_len : length slots ≡ n_buckets
  pub capacity : All (λ slot. length slot ≤ k) slots
  pub once : (m : String) → count_all m slots ≤ 1

-- insertions one after the other
unfoldable pub inserts :
    (String → Option (List ℕ)) → List (String × List ℕ) → RoutingIndex → RoutingIndex
inserts hex_decode [] r = r
inserts hex_decode (offer ∷ offers) r =
    inserts hex_decode offers (insert hex_decode offer.0 offer.1 r).0

-- What an insertion does to the slots: nothing, or one push of an absent name where there is room.
pub data Change (b : ℕ) (id : String) (s : List (List String)) : List (List String) → Type 0 where
  kept : Change b id s s
  pushed :
      b < n_buckets
      → any_holds id s ≡ false
      → length (slot_at b s) < k
      → Change b id s (push_at b id s)

by_test :
    {b : ℕ} {id : String} {s : List (List String)} (t : Bool) (x y : RoutingIndex × List String)
    → (t ≡ true → Change b id s (x.0).buckets)
    → (t ≡ false → Change b id s (y.0).buckets)
    → Change b id s ((if t then x else y).0).buckets
by_test true x y f g = f refl
by_test false x y f g = g refl

module _ (hex_decode : String → Option (List ℕ)) where
  pub insert-Change :
      (id : String) (rid : List ℕ) (r : RoutingIndex)
      → Change
          (bucket_index (self_id hex_decode r) rid)
          id
          r.buckets
          ((insert hex_decode id rid r).0).buckets
  unfolding insert insert_at
  insert-Change id rid r =
      by_test (leb n_buckets (bucket_index (self_id hex_decode r) rid)) _ _ (λ _. kept)
        (λ inside.
          by_test (any_holds id r.buckets) _ _ (λ _. kept)
            (λ absent.
              by_test (leb k (length (slot_at (bucket_index (self_id hex_decode r) rid) r.buckets)))
                _ _ (λ _. kept) (λ room. pushed (ground arith) absent (ground arith))))

Change-IsTable :
    {b : ℕ} {id : String} {s s' : List (List String)} → Change b id s s' → IsTable s → IsTable s'
Change-IsTable kept w = w
Change-IsTable {b} {id} {s} (pushed inside absent room) w = record {
  slots_len = length-push_at b id s ∙ w.slots_len;
  capacity = capacity-push b id s room w.capacity;
  once = once-push b id s absent w.once;
}

Change-Extends : {b : ℕ} {id : String} {s s' : List (List String)} → Change b id s s' → Extends s s'
Change-Extends {b} {id} {s} kept = Extends-refl s
Change-Extends {b} {id} {s} (pushed inside absent room) = Extends-push b id s

-- Insertions keep a table a table.
inserts-IsTable :
    (hex_decode : String → Option (List ℕ)) (offers : List (String × List ℕ)) (r : RoutingIndex)
    → IsTable r.buckets
    → IsTable (inserts hex_decode offers r).buckets
unfolding inserts
inserts-IsTable hex_decode [] r w = w
inserts-IsTable hex_decode (offer ∷ offers) r w =
    inserts-IsTable hex_decode offers _
      (Change-IsTable (insert-Change hex_decode offer.0 offer.1 r) w)

-- Whatever is inserted into a new index, in any order: it has its 160 buckets, none holds more
-- than 20 names, and no name is in the index twice.
pub new-inserts-IsTable :
    (hex_encode : List ℕ → String) (hex_decode : String → Option (List ℕ)) (own : List ℕ)
    (offers : List (String × List ℕ))
    → IsTable (inserts hex_decode offers (new hex_encode own)).buckets
unfolding new
new-inserts-IsTable hex_encode hex_decode own offers = inserts-IsTable hex_decode offers _ (record {
  slots_len = length-replicate {A = List String} n_buckets [];
  capacity = All-empty n_buckets;
  once = λ m. omega (arith, count_all-empty n_buckets m);
})

-- Insertions keep the incumbents: each bucket is afterwards what it was, in the same order, with
-- newcomers at its end.
pub inserts-Extends :
    (hex_decode : String → Option (List ℕ)) (offers : List (String × List ℕ)) (r : RoutingIndex)
    → Extends r.buckets (inserts hex_decode offers r).buckets
unfolding inserts
inserts-Extends hex_decode [] r = Extends-refl r.buckets
inserts-Extends hex_decode (offer ∷ offers) r =
    Extends-trans (Change-Extends (insert-Change hex_decode offer.0 offer.1 r))
      (inserts-Extends hex_decode offers _)
