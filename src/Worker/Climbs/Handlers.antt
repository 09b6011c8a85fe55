-- ===== src/Worker/Climbs/Handlers.antt =====
-- How far the handlers of proposals and votes (consensus.rs) move the view.
use madara_hotstuff.Base.{
  ℕ, zero, suc, ◌+◌, ◌*◌, ◌≡◌, refl, inl, inr, false, ◌==◌, Option, none, Option-cases, subst, some,
  arith, Bool-cases, wrap64, reverse,
}
use madara_hotstuff.Primitives.{External, success, failure}
use madara_hotstuff.Action.{pure, modify}
use madara_hotstuff.Platform.{Platform, BlockStatus, in_chain, unknown}
use madara_hotstuff.Message.Qc.{Qc}
use madara_hotstuff.Message.Tc.{Tc}
use madara_hotstuff.Message.Payload.{Payload}
use madara_hotstuff.Message.Vote.{Vote}
use madara_hotstuff.Message.Proposal.{Proposal}
use madara_hotstuff.Message.Consensus
use madara_hotstuff.State
use madara_hotstuff.Worker.{ConsensusWorker, gossip}
use madara_hotstuff.Worker.Payloads.{empty_payload_hash, get_proposal_payload}
use madara_hotstuff.Worker.Handlers.{
  Handler, handle_qc, use_tc, propose, propose_next, lead_on, on_qc, handle_vote_with, try_finalize,
  deliver, vote_for, store, accept, on_status, handle_proposal_with, handle_proposal, withholds,
  push_cleared, on_state,
}
use madara_hotstuff.Worker.Steps.{enqueue}
use madara_hotstuff.Worker.Climbs.{
  Rises, Rises-here, Rises-more, Within, within, Within-Rises, Within-then, Within-modify,
  Within-check, Within-gets, Within-if,
}
use madara_hotstuff.Worker.Climbs.Views.{
  handle_qc-Rises, use_tc-view, get_proposal_payload-view, make_vote-view, add_vote-view,
  try_finalize-view,
}

module _ {C : Type 0} (e : Platform C) where
  module _ (n : ℕ) (hp : Proposal → Handler e)
      (k : (p : Proposal) (u : ConsensusWorker C) → Within n (hp p) u) where
    pub propose-Within :
        (payload : Payload) (tc : Option Tc) (w : ConsensusWorker C)
        → Within n (propose e hp payload tc) w
    unfolding propose
    propose-Within payload tc w =
        Within-check (λ u. State.make_proposal e.crypto u.state payload tc)
          (λ p.
            Within-modify (gossip (Consensus.propose p) false) (Rises-here 0) (λ _. k p _)
              (omega arith))

    lead_on-Within : (w : ConsensusWorker C) → Within n (lead_on e hp) w
    unfolding lead_on propose_next
    lead_on-Within w = within (go (get_proposal_payload e w).0 refl)
      where
        next_from :
            (payload : Payload) (u : ConsensusWorker C)
            → Rises n u.state.view (propose_next e hp payload u).1.state.view
        next_from payload u =
            elim (Bool-cases (
              withholds (empty_payload_hash e) (payload.block_hash == empty_payload_hash e) 0
                (reverse u.proposal_hash_queue))) [
                  | inl held ↦ rw held (Rises-here n)
                  | inr free ↦ rw free (
                      Within-Rises (
                        propose-Within payload none (record u {
                          proposal_hash_queue =
                              push_cleared payload.block_hash u.proposal_hash_queue;
                        })))
                ]

        go :
            (found : Option Payload)
            → (get_proposal_payload e w).0 ≡ found
            → Rises n w.state.view (lead_on e hp w).1.state.view
        go none h = rw (h, lead_on, get_proposal_payload-view e w) (Rises-here n)
        go (some payload) h =
            rw (h, lead_on)
              (subst
                (λ s.
                  Rises n s.view
                    (propose_next e hp payload (get_proposal_payload e w).1).1.state.view)
                (get_proposal_payload-view e w) (next_from payload (get_proposal_payload e w).1))

    pub handle_vote_with-Within :
        (v : Vote) (w : ConsensusWorker C) → Within (suc n) (handle_vote_with e hp v) w
    unfolding handle_vote_with on_qc
    handle_vote_with-Within v w =
        Within-check (λ u. State.verify_vote e.crypto u.state v)
          (λ _.
            Within-then {i = 0} {j = suc n} (on_state (λ s. State.add_vote e.crypto s v))
              (within (rw (add_vote-view e w v) (Rises-here 0))) (λ made _. counted made _)
              (omega arith))
      where
        counted :
            (made : Option Qc) (u : ConsensusWorker C)
            → Within (suc n) (elim made [ none ↦ pure tt | some qc ↦ on_qc e hp qc ]) u
        counted none u = within (Rises-here (suc n))
        counted (some qc) u =
            Within-modify {i = 1} {j = n} (handle_qc qc) (handle_qc-Rises qc u)
              (λ _.
                Within-check (λ u. State.view_leader u.state u.state.view)
                  (λ leader.
                    Within-gets (λ u. State.is_local u.state leader)
                      (λ local.
                        Within-if local {m' = pure tt} (lead_on-Within _) (within (Rises-here n)))))
              (omega arith)

  module _ (n : ℕ) (hv : Vote → Handler e)
      (k : (v : Vote) (u : ConsensusWorker C) → Within n (hv v) u) where
    deliver-Within :
        (p : Proposal) (v : Vote) (w : ConsensusWorker C) → Within n (deliver e hv p v) w
    unfolding deliver
    deliver-Within p v w =
        Within-modify {i = 0} (enqueue p) (Rises-here 0)
          (λ _.
            Within-check (λ u. State.view_leader u.state (wrap64 (u.state.view + 1)))
              (λ leader.
                Within-gets (λ u. State.is_local u.state leader)
                  (λ local.
                    Within-if local {m' = modify (gossip (Consensus.vote v) false)} (k v _)
                      (within (Rises-here n)))))
          (omega arith)

    vote_for-Within : (p : Proposal) (w : ConsensusWorker C) → Within n (vote_for e hv p) w
    unfolding vote_for
    vote_for-Within p w = elim (Bool-cases (p.view == w.state.view)) [
      | inl same ↦ elim (Option-cases (State.make_vote e.crypto w.state p).0) [
        | inl none_made ↦ within (rw (same, none_made) (rw (make_vote-view e w p) (Rises-here n)))
        | inr (v, made) ↦ within (rw (same, made) (sent v))
      ]
      | inr differs ↦ within (rw differs (Rises-here n))
    ]
      where
        sent :
            (v : Vote)
            → Rises n w.state.view
                (deliver e hv p v
                  (record w { state = (State.make_vote e.crypto w.state p).1 })).1.state.view
        sent v =
            subst
              (λ view.
                Rises n view
                  (deliver e hv p v
                    (record w { state = (State.make_vote e.crypto w.state p).1 })).1.state.view)
              (make_vote-view e w p) (Within-Rises (deliver-Within p v _))

    accept-Within : (p : Proposal) (w : ConsensusWorker C) → Within (suc n) (accept e hv p) w
    unfolding accept store
    accept-Within p w =
        Within-check (λ u. State.verify_proposal e.crypto u.state p)
          (λ _.
            Within-modify {i = 1} {j = n} (handle_qc p.qc) (handle_qc-Rises p.qc w)
              (λ _.
                Within-modify {i = 0} {j = n} (use_tc p.tc)
                  (rw (use_tc-view p.tc (handle_qc p.qc w)) (Rises-here 0))
                  (λ _.
                    Within-then {i = 0} {j = n} (store e p) (within (Rises-here 0))
                      (λ _ _.
                        Within-then {i = 0} {j = n} (try_finalize e p)
                          (within (rw (try_finalize-view e p _) (Rises-here 0)))
                          (λ _ _. vote_for-Within p _) (omega arith))
                      (omega arith))
                  (omega arith))
              (omega arith))

    pub handle_proposal_with-Within :
        (p : Proposal) (w : ConsensusWorker C) → Within (suc n) (handle_proposal_with e hv p) w
    unfolding handle_proposal_with on_status
    handle_proposal_with-Within p w =
        elim (Bool-cases (p.payload.block_hash == empty_payload_hash e)) [
          | inl empty ↦ within (rw empty (Within-Rises (accept-Within p w)))
          | inr full ↦ within (rw full (answered (e.client.status w.client p.payload.block_hash)))
        ]
      where
        answered :
            (status : External BlockStatus)
            → Rises (suc n) w.state.view (on_status e hv p status w).1.state.view
        answered (success in_chain) = Within-Rises (accept-Within p w)
        answered (success unknown) = Rises-here (suc n)
        answered (failure text) = Rises-here (suc n)

  -- A call of `handle_proposal` adds at most two to the view for each level of calls.
  pub handle_proposal-Within :
      (fuel : ℕ) (p : Proposal) (w : ConsensusWorker C)
      → Within (2 * fuel) (handle_proposal e fuel p) w
  unfolding handle_proposal
  handle_proposal-Within zero p w = within (Rises-here (2 * 0))
  handle_proposal-Within (suc fuel) p w = within (
      Rises-more
        (Within-Rises (
          handle_proposal_with-Within (suc (2 * fuel)) (handle_vote_with e (handle_proposal e fuel))
            (handle_vote_with-Within (2 * fuel) (handle_proposal e fuel)
              (handle_proposal-Within fuel))
            p w))
        (omega arith))
