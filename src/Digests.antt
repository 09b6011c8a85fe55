-- ===== src/Digests.antt =====
-- hotstuff/primitives/src/digests.rs: the digest items by which a block carries its slot and its seal.
-- A trait's method takes the codec of its type as a parameter.
pub mod Slots
use madara_hotstuff.Base.{ℕ, ◌≡◌, ◌≢◌, Option, none, some}
use madara_hotstuff.Primitives.{AuthoritySignature, Bytes}
use madara_hotstuff.Pallet.{Slot, DigestItem, pre_runtime, seal, hotstuff_engine_id}

-- `DigestItem::seal_try_to` and `DigestItem::pre_runtime_try_to`, which decode the content of an item
-- of the asked kind and engine, and the codecs of the two types: code outside the repository.
pub record DigestOps : Type 0 where
  pub encode_signature : AuthoritySignature → Bytes
  pub encode_slot : Slot → Bytes
  pub seal_try_to : DigestItem → ℕ → Option AuthoritySignature
  pub pre_runtime_try_to : DigestItem → ℕ → Option Slot

module _ (o : DigestOps) where
  unfoldable pub hotstuff_seal : AuthoritySignature → DigestItem
  hotstuff_seal signature = seal hotstuff_engine_id (o.encode_signature signature)

  unfoldable pub as_hotstuff_seal : DigestItem → Option AuthoritySignature
  as_hotstuff_seal item = o.seal_try_to item hotstuff_engine_id

  unfoldable pub hotstuff_pre_digest : Slot → DigestItem
  hotstuff_pre_digest slot = pre_runtime hotstuff_engine_id (o.encode_slot slot)

  unfoldable pub as_hotstuff_pre_digest : DigestItem → Option Slot
  as_hotstuff_pre_digest item = o.pre_runtime_try_to item hotstuff_engine_id

-- What `sp_runtime` documents of the two, and a codec that reads what it wrote.
pub record DigestLaws (o : DigestOps) : Type 0 where
  pub seal_found :
      (id : ℕ) (s : AuthoritySignature) → o.seal_try_to (seal id (o.encode_signature s)) id ≡ some s
  pub slot_found :
      (id : ℕ) (s : Slot) → o.pre_runtime_try_to (pre_runtime id (o.encode_slot s)) id ≡ some s
  pub seal_other : (id : ℕ) (s : Slot) → o.seal_try_to (pre_runtime id (o.encode_slot s)) id ≡ none
  pub slot_other :
      (id : ℕ) (s : AuthoritySignature)
      → o.pre_runtime_try_to (seal id (o.encode_signature s)) id ≡ none
