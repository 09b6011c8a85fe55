-- ===== src/Runtime/Genesis.antt =====
-- The runtime's state at block 0, from the list of keys in its genesis configuration.
use madara_hotstuff.Base.{◌<◌, ◌≤◌, ◌≡◌, ◌⊎◌, refl, inl, inr, List, [], ◌∷◌, arith, length}
use native.Mathlib.Decide.{dec_le}
use madara_hotstuff.Primitives.{AuthorityId, ok, panicked}
use madara_hotstuff.Pallet.{
  build, initialize_authorities, empty_storage, put_authorities,
  slot_duration as pallet_slot_duration,
}
use madara_hotstuff.Runtime.{
  Frame, hotstuff_config, api_authorities, api_slot_duration, slot_duration,
}

module _ (f : Frame) where
  -- The pallet takes up to 32 keys: the runtime then answers them, in their order and each with its
  -- repetitions, to `HotstuffApi_authorities`; an empty list is ignored and a longer one panics.
  -- Every slot lasts as long as a block.
  pub build_branches :
      (ids : List AuthorityId)
      → ((ids ≡ [])
          × (build (hotstuff_config f) (record { authorities = ids }) empty_storage
              ≡ (ok tt, empty_storage))
          × (api_authorities empty_storage ≡ []))
        ⊎ (((0 < length ids)
              × (length ids ≤ 32)
              × (build (hotstuff_config f) (record { authorities = ids }) empty_storage
                  ≡ (ok tt, put_authorities ids empty_storage))
              × (api_authorities (put_authorities ids empty_storage) ≡ ids))
            ⊎ ((32 < length ids)
                × (build (hotstuff_config f) (record { authorities = ids }) empty_storage
                    ≡ (panicked, empty_storage))))
  unfolding build initialize_authorities api_authorities
  build_branches [] = inl (refl, refl, refl)
  build_branches (id ∷ ids) = elim (dec_le (length (id ∷ ids)) 32) [
    | yes few ↦ inr (inl (omega arith, few, ground arith, refl))
    | no many ↦ inr (inr (omega arith, ground arith))
  ]

  pub api_slot_duration-eq : api_slot_duration f ≡ slot_duration
  unfolding api_slot_duration pallet_slot_duration
  api_slot_duration-eq = refl
