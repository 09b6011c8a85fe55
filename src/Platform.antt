-- ===== src/Platform.antt =====
-- What the worker takes from Substrate (a client of the chain and its auxiliary store) and from
-- the SCALE codec: operations of code outside the repository, as parameters. `C` is the state of
-- the client.
use madara_hotstuff.Base.{ℕ, ◌≡◌, Option, some, ◌≢◌}
use madara_hotstuff.Primitives.{Hash, Bytes, External, success}
use madara_hotstuff.Crypto.{Crypto}
use madara_hotstuff.Message.Proposal.{Proposal}
use madara_hotstuff.Message.Consensus.{ConsensusMessage}

-- `sp_blockchain::BlockStatus`.
pub data BlockStatus : Type 0 where
  in_chain unknown : BlockStatus

-- The fields of `sp_blockchain::Info` that the code reads; a block number is a `u32`.
pub record ChainInfo : Type 0 where
  pub best_number : ℕ
  pub finalized_hash : Hash
  pub finalized_number : ℕ

pub record Client (C : Type 0) : Type 0 where
  pub status : C → Hash → External BlockStatus
  pub info : C → ChainInfo
  pub block_hash_from_id : C → ℕ → External (Option Hash)
  -- `finalize_block(hash, None, true)`.
  pub finalize_block : C → Hash → External (Unit {0}) × C
  pub get_aux : C → Bytes → External (Option Bytes)
  -- `insert_aux(&[(key, value)], &[])`.
  pub insert_aux : C → Bytes → Bytes → External (Unit {0}) × C

pub record Codec : Type 0 where
  -- `hash.as_ref()`, the bytes of a hash.
  pub as_ref : Hash → Bytes
  pub encode_proposal : Proposal → Bytes
  pub decode_proposal : Bytes → External Proposal
  pub encode_message : ConsensusMessage → Bytes
  pub decode_message : Bytes → External ConsensusMessage

pub record Platform (C : Type 0) : Type 0 where
  pub crypto : Crypto
  pub codec : Codec
  pub client : Client C

-- What `AuxStore` documents: a successful insertion is read back under its key, and leaves the
-- values of the other keys.
pub record StoreLaws {C : Type 0} (client : Client C) : Type 0 where
  pub get-insert_self :
      (s s' : C) (key value : Bytes)
      → client.insert_aux s key value ≡ (success tt, s')
      → client.get_aux s' key ≡ success (some value)
  pub get-insert_ne :
      (s s' : C) (key value other : Bytes)
      → other ≢ key
      → client.insert_aux s key value ≡ (success tt, s')
      → client.get_aux s' other ≡ client.get_aux s other
