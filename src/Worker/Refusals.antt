-- ===== src/Worker/Refusals.antt =====
-- The messages that the handlers of proposals and votes (consensus.rs) refuse.
use madara_hotstuff.Base.{
  ℕ, suc, ◌≡◌, ◌⊎◌, inl, inr, ◌≢◌, refl, ◌∷◌, arith, Bool, Bool-cases, ◌==◌, ==_iff,
}
use madara_hotstuff.Primitives.{
  Bytes, HotstuffError, External, success, failure, client_error, ok, err,
}
use madara_hotstuff.Platform.{Platform, BlockStatus, in_chain, unknown}
use madara_hotstuff.Message.Proposal.{Proposal}
use madara_hotstuff.State
use madara_hotstuff.Worker.{ConsensusWorker}
use madara_hotstuff.Worker.Payloads.{empty_payload_hash}
use madara_hotstuff.Worker.Guards.{IsKnown}
use madara_hotstuff.Worker.Handlers.{
  accept, on_status, handle_proposal_with, handle_proposal, handle_vote,
}

module _ {C : Type 0} (e : Platform C) where
  -- The payload is not empty, and the client answers the status for its block.
  abbrev pub Answers : ConsensusWorker C → Proposal → External BlockStatus → Type 0
  Answers w p status =
      (p.payload.block_hash ≢ empty_payload_hash e)
      × (e.client.status w.client p.payload.block_hash ≡ status)

  -- Of a proposal that `verify_proposal` refuses: if its payload is empty or its block in the chain,
  -- it is answered with that error and changes nothing. If its block is unknown, the block is
  -- requested and nothing else changes. If the client cannot tell, the answer is a `client_error`
  -- with the client's text and nothing changes.
  pub handle_proposal-refused :
      (fuel : ℕ) (p : Proposal) (w : ConsensusWorker C) (x : HotstuffError)
      → State.verify_proposal e.crypto w.state p ≡ err x
      → (IsKnown e w p × (handle_proposal e (suc fuel) p w ≡ (err x, w)))
        ⊎ ((Answers w p (success unknown)
              × (handle_proposal e (suc fuel) p w ≡ (
                ok tt,
                record w {
                  sync_requests = (p.payload.block_hash, p.payload.block_number) ∷ w.sync_requests;
                },
              )))
            ⊎ ((text : Bytes) × Answers w p (failure text)
                × (handle_proposal e (suc fuel) p w ≡ (err (client_error text), w))))
  unfolding handle_proposal handle_proposal_with accept on_status handle_vote
  handle_proposal-refused fuel p w x h =
      elim (Bool-cases (p.payload.block_hash == empty_payload_hash e)) [
        | inl empty ↦ inl (inl ((==_iff _ _).0 empty), rw empty refused)
        | inr block ↦ known block (e.client.status w.client p.payload.block_hash) refl
      ]
    where
      refused : accept e (handle_vote e fuel) p w ≡ (err x, w)
      refused = rw h

      differs :
          (p.payload.block_hash == empty_payload_hash e) ≡ Bool.false
          → p.payload.block_hash ≢ empty_payload_hash e
      differs block same = ground arith

      known :
          (p.payload.block_hash == empty_payload_hash e) ≡ Bool.false
          → (status : External BlockStatus) → e.client.status w.client p.payload.block_hash ≡ status
          → (IsKnown e w p × (handle_proposal e (suc fuel) p w ≡ (err x, w)))
            ⊎ ((Answers w p (success unknown)
                  × (handle_proposal e (suc fuel) p w ≡ (
                    ok tt,
                    record w {
                      sync_requests =
                          (p.payload.block_hash, p.payload.block_number) ∷ w.sync_requests;
                    },
                  )))
                ⊎ ((text : Bytes) × Answers w p (failure text)
                    × (handle_proposal e (suc fuel) p w ≡ (err (client_error text), w))))
      known block (success in_chain) s = inl (inr s, rw (block, s) refused)
      known block (success unknown) s = inr (inl ((differs block, s), rw (block, s)))
      known block (failure text) s = inr (inr (text, (differs block, s), rw (block, s)))
