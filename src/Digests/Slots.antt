-- ===== src/Digests/Slots.antt =====
-- A slot on its way into the pallet: the inherent data provider (inherents.rs) takes it from the
-- time, the pre-digest (digests.rs) carries it, `on_initialize` stores it and `on_timestamp_set`
-- checks it (hotstuff/pallets/hotstuff/src/lib.rs).
use madara_hotstuff.Base.{
  ℕ, ◌/◌, ◌≡◌, ◌≢◌, refl, Bool, false, List, [], ◌∷◌, ◌++◌, none, some, All, ◌==◌,
}
use madara_hotstuff.Primitives.{ok}
use madara_hotstuff.Action.{◌>>◌}
use madara_hotstuff.Pallet.{
  Config, Storage, Slot, DigestItem, pre_runtime, consensus, seal, other_item, hotstuff_engine_id,
  slot_from_digests, current_slot_from_digests, on_initialize, on_timestamp_set, slot_duration,
}
use madara_hotstuff.Pallet.Slots.{
  Follows, MayAuthor, on_initialize_cases, on_timestamp_set_branches,
}
use madara_hotstuff.Digests.{
  DigestOps, DigestLaws, hotstuff_pre_digest, as_hotstuff_pre_digest, as_hotstuff_seal,
}
use madara_hotstuff.Inherents.{InherentOps, from_timestamp_and_slot_duration}

-- A pre-runtime item of this engine.
abbrev pub is_ours : DigestItem → Bool
is_ours (pre_runtime id bytes) = id == hotstuff_engine_id
is_ours (consensus id bytes) = false
is_ours (seal id bytes) = false
is_ours (other_item bytes) = false

module _ (g : Config) (o : DigestOps)
    (decodes : (s : Slot) → g.decode_slot (o.encode_slot s) ≡ some s) where
  slot_from_digests-pre_digest :
      (slot : Slot) (before after : List DigestItem)
      → All (λ i. is_ours i ≡ false) before
      → slot_from_digests g.decode_slot (before ++ hotstuff_pre_digest o slot ∷ after) ≡ some slot
  unfolding hotstuff_pre_digest
  slot_from_digests-pre_digest slot [] after h = decodes slot
  slot_from_digests-pre_digest slot (pre_runtime id bytes ∷ before) after h =
      rw h.0 (slot_from_digests-pre_digest slot before after h.1)
  slot_from_digests-pre_digest slot (consensus id bytes ∷ before) after h =
      slot_from_digests-pre_digest slot before after h.1
  slot_from_digests-pre_digest slot (seal id bytes ∷ before) after h =
      slot_from_digests-pre_digest slot before after h.1
  slot_from_digests-pre_digest slot (other_item bytes ∷ before) after h =
      slot_from_digests-pre_digest slot before after h.1

  current_slot-pre_digest :
      (s : Storage) (slot : Slot) (before after : List DigestItem)
      → All (λ i. is_ours i ≡ false) before
      → s.digest ≡ before ++ hotstuff_pre_digest o slot ∷ after
      → current_slot_from_digests g s ≡ some slot
  unfolding current_slot_from_digests
  current_slot-pre_digest s slot before after h e =
      rw e (slot_from_digests-pre_digest slot before after h)

  -- Let the codec read back the slots that it wrote, and let a block be made at some time: its
  -- provider divides the time by the pallet's slot duration, and its digest has the pre-digest of
  -- that slot, before any other pre-runtime item of this engine. Where the slot may follow the
  -- stored one, its author may author and the minimum period is not 0, `on_initialize` stores the
  -- slot and nothing else, and `on_timestamp_set` accepts that time after it; the item reads back as
  -- a pre-digest of the slot, and not as a seal.
  pub authored_block :
      {D : Type 0} (i : InherentOps D) (time : ℕ) (s : Storage) (before after : List DigestItem)
      → DigestLaws o
      → ((t d : ℕ) → i.from_timestamp t d ≡ t / d)
      → g.minimum_period ≢ 0
      → All (λ item. is_ours item ≡ false) before
      → let slot = (from_timestamp_and_slot_duration i time (slot_duration g)).slot in
        s.digest ≡ before ++ hotstuff_pre_digest o slot ∷ after
        → Follows g s.current_slot slot
        → MayAuthor g s.stored_authorities slot
        → ((on_initialize g >> on_timestamp_set g time) s
            ≡ (ok tt, record s { current_slot = slot }))
          × (as_hotstuff_pre_digest o (hotstuff_pre_digest o slot) ≡ some slot)
          × (as_hotstuff_seal o (hotstuff_pre_digest o slot) ≡ none)
  unfolding as_hotstuff_pre_digest as_hotstuff_seal hotstuff_pre_digest
      from_timestamp_and_slot_duration
  authored_block i time s before after laws divides period early carried follows may =
      let slot = i.from_timestamp time (slot_duration g) in
      let there = current_slot-pre_digest s slot before after early carried in
      let initialized = (on_initialize_cases g s slot).1 there follows may in
      let accepted =
        (on_timestamp_set_branches g time (record s { current_slot = slot })).0.1
          (period, divides time (slot_duration g)) in
      (
        rw (initialized, accepted) refl,
        laws.slot_found hotstuff_engine_id slot,
        laws.seal_other hotstuff_engine_id slot,
      )
