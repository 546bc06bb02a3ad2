-- ===== src/Horizon/RecordSet/Merge.antt =====
-- crates/interpreter/src/value.rs: the content address of a merged blur.
use nlang_tools.Prelude.{
  ℕ, Bool, true, ◌||◌, some, List, [], ◌∷◌, ◌++◌, ◌≡◌, refl, sym, ap, ◌∙◌, inl, inr, subst, arith,
  Bool-cases,
}
use nlang_tools.Effects.Tag.{EffectTag, union}
use nlang_tools.Horizon.Blur.{HorizonRecord, BlurDetail, primary_record}
use nlang_tools.Horizon.RecordSet.{
  sort_records, dedup_records, key_leb, remove_primary, record_set, blur_caid, merged, with_primary,
  merge_set,
}
use nlang_tools.Horizon.RecordSet.Ordered.{
  has, has-append, has-set, set-IsAscending, digests_unique,
}

some_inj : {A : Type 0} (x y : A) → some x ≡ some y → x ≡ y
some_inj x y h = ground arith

module _ {V H : Type 0} (chs_digest : HorizonRecord V H → ℕ) where
  has-remove_primary :
      (x : HorizonRecord V H) (recs : List (HorizonRecord V H)) (e : ℕ)
      → has chs_digest
          ((remove_primary chs_digest x recs).0 ∷ (remove_primary chs_digest x recs).1)
          e
        ≡ has chs_digest (x ∷ recs) e
  unfolding remove_primary
  has-remove_primary x [] e = refl
  has-remove_primary x (y ∷ recs) e =
      elim (Bool-cases (key_leb x.cause ((remove_primary chs_digest y recs).0).cause)) [
        | inl first ↦ rw first refl
        | inr later ↦ rw later ground (arith, has-remove_primary y recs e)
      ]

  -- the digests of a blur's records
  unfoldable pub members : BlurDetail V H → ℕ → Bool
  members b = has chs_digest (record_set chs_digest b)

  with_primary-members :
      (effect : EffectTag) (recs : List (HorizonRecord V H)) (d : ℕ)
      → has chs_digest recs d ≡ true
      → (m : BlurDetail V H) × (with_primary chs_digest effect recs ≡ some m)
        × (m.effect ≡ effect)
        × ((e : ℕ) → members m e ≡ has chs_digest recs e)
  unfolding members record_set primary_record
  with_primary-members effect [] d h = absurd (ground arith)
  with_primary-members effect (r ∷ recs) d h =
      let m = merged chs_digest effect (remove_primary chs_digest r recs) in
      (
        m,
        refl,
        refl,
        λ e. has-set chs_digest (primary_record m ∷ m.co_horizons) e ∙ has-remove_primary r recs e,
      )

  primary-members : (b : BlurDetail V H) → members b (chs_digest (primary_record b)) ≡ true
  unfolding members record_set
  primary-members b =
      has-set chs_digest (primary_record b ∷ b.co_horizons) (chs_digest (primary_record b))
      ∙ ground arith

  -- A merge of two blurs always gives a blur, with the effects of both, whose records have exactly
  -- the digests of the two blurs' records.
  pub merge_set-members :
      (a b : BlurDetail V H)
      → (m : BlurDetail V H) × (merge_set chs_digest a b ≡ some m)
        × (m.effect ≡ union a.effect b.effect)
        × ((e : ℕ) → members m e ≡ (members a e || members b e))
  unfolding merge_set members
  merge_set-members a b =
      let both = record_set chs_digest a ++ record_set chs_digest b in
      let set_both : (e : ℕ)
          → has chs_digest (dedup_records chs_digest (sort_records chs_digest both)) e ≡ (
              has chs_digest (record_set chs_digest a) e
              || has chs_digest (record_set chs_digest b) e) =
        λ e.
          has-set chs_digest both e
          ∙ has-append chs_digest (record_set chs_digest a) (record_set chs_digest b) e in
      let given =
        with_primary-members (union a.effect b.effect)
          (dedup_records chs_digest (sort_records chs_digest both)) (chs_digest (primary_record a))
          (set_both (chs_digest (primary_record a)) ∙ ground (arith, primary-members a)) in
      (given.0, given.1, given.2, λ e. given.3 e ∙ set_both e)

  -- blurs with the same digests have the same content address
  blur_caid-members :
      {C : Type 0} (hash : List ℕ → C) (a b : BlurDetail V H)
      → ((e : ℕ) → members a e ≡ members b e)
      → blur_caid chs_digest hash a ≡ blur_caid chs_digest hash b
  unfolding blur_caid members record_set
  blur_caid-members hash a b same = ap hash (
      digests_unique chs_digest (record_set chs_digest a) (record_set chs_digest b)
        (set-IsAscending chs_digest (primary_record a ∷ a.co_horizons))
        (set-IsAscending chs_digest (primary_record b ∷ b.co_horizons)) same)

  merged_members :
      (a b m : BlurDetail V H)
      → merge_set chs_digest a b ≡ some m
      → (e : ℕ) → members m e ≡ (members a e || members b e)
  merged_members a b m h e =
      let given = merge_set-members a b in
      subst (λ x. members x e ≡ (members a e || members b e)) (some_inj given.0 m (sym given.1 ∙ h))
        (given.3 e)

  -- The content address of a merge depends neither on the order of the two blurs nor on how three
  -- are grouped, and a blur merged with itself keeps its address.
  pub blur_caid-merge_set :
      {C : Type 0} (hash : List ℕ → C) (a b c ab ba bc ab_c a_bc aa : BlurDetail V H)
      → merge_set chs_digest a b ≡ some ab
      → merge_set chs_digest b a ≡ some ba
      → merge_set chs_digest b c ≡ some bc
      → merge_set chs_digest ab c ≡ some ab_c
      → merge_set chs_digest a bc ≡ some a_bc
      → merge_set chs_digest a a ≡ some aa
      → (blur_caid chs_digest hash ab ≡ blur_caid chs_digest hash ba)
        × (blur_caid chs_digest hash ab_c ≡ blur_caid chs_digest hash a_bc)
        × (blur_caid chs_digest hash aa ≡ blur_caid chs_digest hash a)
  blur_caid-merge_set hash a b c ab ba bc ab_c a_bc aa h_ab h_ba h_bc h_ab_c h_a_bc h_aa = (
    blur_caid-members hash ab ba
        (λ e. ground (arith, merged_members a b ab h_ab e, merged_members b a ba h_ba e)),
    blur_caid-members hash ab_c a_bc (λ e. ground (
      arith,
      merged_members a b ab h_ab e,
      merged_members b c bc h_bc e,
      merged_members ab c ab_c h_ab_c e,
      merged_members a bc a_bc h_a_bc e,
    )),
    blur_caid-members hash aa a (λ e. ground (arith, merged_members a a aa h_aa e)),
  )
