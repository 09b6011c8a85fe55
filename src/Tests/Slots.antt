-- ===== src/Tests/Slots.antt =====
-- The theorem about slots on their way into the pallet: a slot is encoded as a text of one byte.
use madara_hotstuff.Base.{
  ℕ, ◌/◌, ◌≡◌, refl, inr, false, List, [], ◌∷◌, Option, none, some, arith, head?, ◌==◌,
  if◌then◌else◌,
}
use madara_hotstuff.Primitives.{success, ok}
use madara_hotstuff.Action.{◌>>◌}
use madara_hotstuff.Pallet.{
  Config, Storage, Slot, DigestItem, pre_runtime, consensus, seal, other_item, hotstuff_engine_id,
  on_initialize, on_timestamp_set, slot_duration,
}
use madara_hotstuff.Digests.{
  DigestOps, DigestLaws, hotstuff_pre_digest, as_hotstuff_pre_digest, as_hotstuff_seal,
}
use madara_hotstuff.Digests.Slots.{authored_block}
use madara_hotstuff.Inherents.{InherentOps, from_timestamp_and_slot_duration}

abbrev config : Config
config = record {
  max_authorities = 4;
  is_disabled = λ i. false;
  allow_multiple_blocks_per_slot = false;
  minimum_period = 3000;
  decode_slot = λ bytes. head? bytes;
  encode_log = λ log. [];
}

-- The content of an item of the asked kind and engine.
abbrev sealed : DigestItem → ℕ → Option ℕ
sealed (seal engine bytes) id = if engine == id then head? bytes else none
sealed (pre_runtime engine bytes) id = none
sealed (consensus engine bytes) id = none
sealed (other_item bytes) id = none

abbrev slot_of : DigestItem → ℕ → Option ℕ
slot_of (pre_runtime engine bytes) id = if engine == id then head? bytes else none
slot_of (seal engine bytes) id = none
slot_of (consensus engine bytes) id = none
slot_of (other_item bytes) id = none

abbrev ops : DigestOps
ops = record {
  encode_signature = λ s. s ∷ [];
  encode_slot = λ s. s ∷ [];
  seal_try_to = sealed;
  pre_runtime_try_to = slot_of;
}

laws : DigestLaws ops
laws = record {
  seal_found = λ id s. ground arith;
  slot_found = λ id s. ground arith;
  seal_other = λ id s. refl;
  slot_other = λ id s. refl;
}

abbrev inherents : InherentOps (List Slot)
inherents = record {
  get_data = λ d id. success (head? d);
  put_data = λ id slot d. (success tt, slot ∷ d);
  replace_data = λ id slot d. slot ∷ [];
  from_timestamp = λ t d. t / d;
}

-- Slot 7 comes after slot 6; another engine's item stands before the pre-digest.
abbrev storage : Storage
storage = record {
  stored_authorities = some (1 ∷ 2 ∷ []);
  current_slot = 6;
  digest = pre_runtime 5 (9 ∷ []) ∷ pre_runtime hotstuff_engine_id (7 ∷ []) ∷ [];
}

authored_block_example :
    ((on_initialize config >> on_timestamp_set config 43000) storage
      ≡ (ok tt, record storage { current_slot = 7 }))
    × (as_hotstuff_pre_digest ops (hotstuff_pre_digest ops 7) ≡ some 7)
    × (as_hotstuff_seal ops (hotstuff_pre_digest ops 7) ≡ none)
unfolding hotstuff_pre_digest from_timestamp_and_slot_duration slot_duration
authored_block_example =
    authored_block config ops (λ s. refl) inherents 43000 storage (pre_runtime 5 (9 ∷ []) ∷ []) []
      laws (λ t d. refl) (omega arith) (refl, tt) refl (inr (refl, omega arith)) (omega arith, refl)
