-- ===== src/Horizon/RecordSet.antt =====
-- crates/interpreter/src/value.rs: the records of a blur as a set, and the merge of two blurs. The
-- 32 bytes of a record's `chs_digest` are compared as a number, most significant byte first.
pub mod Ordered
pub mod Merge
use Prim.Native.Nat.{Ordering}
use Prim.Native.String.{compare}
use nlang_tools.Prelude.{
  ℕ, String, Bool, true, false, not, if◌then◌else◌, ◌==◌, ltb, leb, Option, none, some, List, [],
  ◌∷◌, ◌++◌, map,
}
use nlang_tools.Effects.Tag.{EffectTag, union}
use nlang_tools.Horizon.Blur.{
  BlurCause, fuel_exhausted, timeout, stack_overflow, math_singularity, max_depth_exceeded,
  cause_str, HorizonRecord, BlurDetail, primary_record,
}

abbrev rank_of : BlurCause → ℕ
rank_of stack_overflow = 0
rank_of fuel_exhausted = 1
rank_of timeout = 1
rank_of max_depth_exceeded = 1
rank_of (math_singularity s) = 2

abbrev str_leb : String → String → Bool
str_leb s t = elim (compare s t) [ Ordering.gt ↦ false | _ ↦ true ]

-- the order of `blur_cause_primary_key`: by rank, and then by name
unfoldable pub key_leb : BlurCause → BlurCause → Bool
unfolding cause_str
key_leb c e =
    if ltb (rank_of c) (rank_of e)
    then true
    else if ltb (rank_of e) (rank_of c)
    then false
    else str_leb (cause_str c) (cause_str e)

module _ {V H : Type 0} (chs_digest : HorizonRecord V H → ℕ) where
  unfoldable pub insert_record :
      HorizonRecord V H → List (HorizonRecord V H) → List (HorizonRecord V H)
  insert_record r [] = r ∷ []
  insert_record r (x ∷ recs) =
      if leb (chs_digest r) (chs_digest x) then r ∷ x ∷ recs else x ∷ insert_record r recs

  -- the stable `sort_by`
  unfoldable pub sort_records : List (HorizonRecord V H) → List (HorizonRecord V H)
  unfolding insert_record
  sort_records [] = []
  sort_records (r ∷ recs) = insert_record r (sort_records recs)

  -- `dedup_by` after a record that is kept
  unfoldable pub dedup_after :
      HorizonRecord V H → List (HorizonRecord V H) → List (HorizonRecord V H)
  dedup_after r [] = []
  dedup_after r (x ∷ recs) =
      if chs_digest x == chs_digest r then dedup_after r recs else x ∷ dedup_after x recs

  unfoldable pub dedup_records : List (HorizonRecord V H) → List (HorizonRecord V H)
  unfolding dedup_after
  dedup_records [] = []
  dedup_records (r ∷ recs) = r ∷ dedup_after r recs

  unfoldable pub record_set : BlurDetail V H → List (HorizonRecord V H)
  unfolding sort_records dedup_records
  record_set b = dedup_records (sort_records (primary_record b ∷ b.co_horizons))

  -- the content address of a blur, where `hash` frames and hashes the digests of its records
  unfoldable pub blur_caid : {C : Type 0} → (List ℕ → C) → BlurDetail V H → C
  unfolding record_set
  blur_caid hash b = hash (map chs_digest (record_set b))

  -- the first record whose cause has the least key, and the others in their order
  unfoldable pub remove_primary :
      HorizonRecord V H → List (HorizonRecord V H) → HorizonRecord V H × List (HorizonRecord V H)
  remove_primary x [] = (x, [])
  remove_primary x (y ∷ recs) =
      let later = remove_primary y recs in
      if key_leb x.cause (later.0).cause then (x, y ∷ recs) else (later.0, x ∷ later.1)

  abbrev pub merged : EffectTag → HorizonRecord V H × List (HorizonRecord V H) → BlurDetail V H
  merged effect split = record {
    cause = (split.0).cause;
    horizon = (split.0).horizon;
    partial_hash = (split.0).partial_hash;
    partial_body = (split.0).partial_body;
    effect = effect;
    co_horizons = split.1;
  }

  -- `none`: the removal of a record from none, a panic
  abbrev pub with_primary : EffectTag → List (HorizonRecord V H) → Option (BlurDetail V H)
  with_primary effect [] = none
  with_primary effect (r ∷ recs) = some (merged effect (remove_primary r recs))

  unfoldable pub merge_set : BlurDetail V H → BlurDetail V H → Option (BlurDetail V H)
  unfolding record_set remove_primary
  merge_set a b =
      with_primary (union a.effect b.effect)
        (dedup_records (sort_records (record_set a ++ record_set b)))
