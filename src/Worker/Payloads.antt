-- ===== src/Worker/Payloads.antt =====
-- `get_proposal_payload` and `empty_payload_hash` of consensus.rs.
use madara_hotstuff.Base.{ℕ, List, [], ◌∷◌, Option, none, some, ltb, if◌then◌else◌, find}
use madara_hotstuff.Primitives.{Hash}
use madara_hotstuff.Platform.{Platform}
use madara_hotstuff.Message.Payload.{Payload}
use madara_hotstuff.Import.{BlockInfo}
use madara_hotstuff.Worker.{ConsensusWorker, empty_payload}

-- `hash.unwrap_or(other)`.
abbrev pub unwrap_or : Option Hash → Hash → Hash
unwrap_or none other = other
unwrap_or (some hash) other = hash

module _ {C : Type 0} (e : Platform C) where
  abbrev pub empty_payload_hash : Hash
  empty_payload_hash = e.crypto.hash empty_payload

  abbrev pub empty_at : ℕ → Payload
  empty_at number = record { block_hash = empty_payload_hash; block_number = number }

  abbrev pub payload_of : BlockInfo → Payload
  payload_of info = record {
    block_hash = unwrap_or info.hash empty_payload_hash;
    block_number = info.number;
  }

  -- With a block in process: an empty payload until it is final; then the first block of the
  -- queue above the last final one, or an empty payload if there is none.
  payload_after :
      ConsensusWorker C → BlockInfo → List BlockInfo → Option Payload × ConsensusWorker C
  payload_after w processing queue =
      let finalized = (e.client.info w.client).finalized_number in
      if ltb finalized processing.number
      then (some (empty_at processing.number), w)
      else elim (find (λ block. ltb finalized block.number) queue) [
        | some block ↦ (some (payload_of block), record w { processing_block = some block })
        | none ↦ (some (empty_at processing.number), w)
      ]

  -- With no block in process: the front of the queue.
  payload_first : ConsensusWorker C → List BlockInfo → Option Payload × ConsensusWorker C
  payload_first w [] = (none, w)
  payload_first w (block ∷ queue) =
      (some (payload_of block), record w { processing_block = some block })

  payload_from : ConsensusWorker C → List BlockInfo → Option Payload × ConsensusWorker C
  unfolding payload_after payload_first
  payload_from w queue = elim w.processing_block [
    | some processing ↦ payload_after w processing queue
    | none ↦ payload_first w queue
  ]

  unfoldable pub get_proposal_payload : ConsensusWorker C → Option Payload × ConsensusWorker C
  unfolding payload_from
  get_proposal_payload w = elim w.pending_finalize_queue [
    | none ↦ (none, w)
    | some queue ↦ payload_from w queue
  ]
