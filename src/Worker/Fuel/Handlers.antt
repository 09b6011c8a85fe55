-- ===== src/Worker/Fuel/Handlers.antt =====
-- The handlers of proposals and votes (consensus.rs) on more fuel.
use madara_hotstuff.Base.{
  ℕ, zero, suc, ◌+◌, ◌≤◌, refl, inl, inr, false, Option, none, some, arith, ◌==◌, wrap64, reverse,
  Bool-cases, Option-cases,
}
use madara_hotstuff.Primitives.{External, success, failure}
use madara_hotstuff.Action.{pure, lift, gets, modify}
use madara_hotstuff.Platform.{Platform, BlockStatus, in_chain, unknown}
use madara_hotstuff.Message.Qc.{Qc}
use madara_hotstuff.Message.Tc.{Tc}
use madara_hotstuff.Message.Payload.{Payload}
use madara_hotstuff.Message.Vote.{Vote}
use madara_hotstuff.Message.Proposal.{Proposal}
use madara_hotstuff.Message.Consensus.{ConsensusMessage}
use madara_hotstuff.State
use madara_hotstuff.Worker.{ConsensusWorker, gossip}
use madara_hotstuff.Worker.Payloads.{empty_payload_hash, get_proposal_payload}
use madara_hotstuff.Worker.Handlers.{
  Handler, on_state, handle_qc, use_tc, propose, propose_next, lead_on, on_qc, handle_vote_with,
  try_finalize, deliver, vote_for, store, accept, on_status, handle_proposal_with, handle_proposal,
  handle_vote, push_cleared, withholds,
}
use madara_hotstuff.Worker.Steps.{enqueue}
use madara_hotstuff.Worker.Fuel.{Agrees, agrees, Agrees-refl, Agrees-by, Agrees-if, Agrees-after}

module _ {C : Type 0} (e : Platform C) where
  module _ (hv hv' : Vote → Handler e)
      (same : (v : Vote) (w : ConsensusWorker C) → Agrees (hv v) (hv' v) w) where
    deliver-Agrees :
        (p : Proposal) (v : Vote) (w : ConsensusWorker C)
        → Agrees (deliver e hv p v) (deliver e hv' p v) w
    unfolding deliver
    deliver-Agrees p v w = Agrees-after (modify (enqueue p)) (λ _ _.
        Agrees-after (λ u. lift (State.view_leader u.state (wrap64 (u.state.view + 1))) u)
          (λ leader _. Agrees-after (gets (λ u. State.is_local u.state leader)) (λ local _.
            Agrees-if local (same v _)
              (Agrees-refl {m = modify (gossip (ConsensusMessage.vote v) false)}))))

    vote_for-Agrees :
        (p : Proposal) (w : ConsensusWorker C) → Agrees (vote_for e hv p) (vote_for e hv' p) w
    unfolding vote_for
    vote_for-Agrees p w = elim (Bool-cases (p.view == w.state.view)) [
      | inl here ↦
          let u = record w { state = (State.make_vote e.crypto w.state p).1 } in
          elim (Option-cases (State.make_vote e.crypto w.state p).0) [
            | inl none_made ↦ agrees (λ _. rw (here, none_made) refl)
            | inr (v, made) ↦
                Agrees-by (deliver e hv p v) (deliver e hv' p v) u (rw (here, made) refl)
                  (rw (here, made) refl) (deliver-Agrees p v u)
          ]
      | inr differs ↦ agrees (λ _. rw differs refl)
    ]

    accept-Agrees :
        (p : Proposal) (w : ConsensusWorker C) → Agrees (accept e hv p) (accept e hv' p) w
    unfolding accept
    accept-Agrees p w =
        Agrees-after (λ u. lift (State.verify_proposal e.crypto u.state p) u)
          (λ _ _. Agrees-after (modify (handle_qc p.qc)) (λ _ _.
            Agrees-after (modify (use_tc p.tc)) (λ _ _.
              Agrees-after (store e p)
                (λ _ _. Agrees-after (try_finalize e p) (λ _ _. vote_for-Agrees p _)))))

    on_status-Agrees :
        (p : Proposal) (status : External BlockStatus) (w : ConsensusWorker C)
        → Agrees (on_status e hv p status) (on_status e hv' p status) w
    unfolding on_status
    on_status-Agrees p (success in_chain) w = accept-Agrees p w
    on_status-Agrees p (success unknown) w = Agrees-refl
    on_status-Agrees p (failure text) w = Agrees-refl

    handle_proposal_with-Agrees :
        (p : Proposal) (w : ConsensusWorker C)
        → Agrees (handle_proposal_with e hv p) (handle_proposal_with e hv' p) w
    unfolding handle_proposal_with
    handle_proposal_with-Agrees p w =
        elim (Bool-cases (p.payload.block_hash == empty_payload_hash e)) [
          | inl empty ↦
              Agrees-by (accept e hv p) (accept e hv' p) w (rw empty refl) (rw empty refl)
                (accept-Agrees p w)
          | inr full ↦
              let status = e.client.status w.client p.payload.block_hash in
              Agrees-by (on_status e hv p status) (on_status e hv' p status) w (rw full refl)
                (rw full refl) (on_status-Agrees p status w)
        ]

  module _ (hp hp' : Proposal → Handler e)
      (same : (p : Proposal) (w : ConsensusWorker C) → Agrees (hp p) (hp' p) w) where
    pub propose-Agrees :
        (payload : Payload) (tc : Option Tc) (w : ConsensusWorker C)
        → Agrees (propose e hp payload tc) (propose e hp' payload tc) w
    unfolding propose
    propose-Agrees payload tc w =
        Agrees-after (λ u. lift (State.make_proposal e.crypto u.state payload tc) u)
          (λ p _.
            Agrees-after (modify (gossip (ConsensusMessage.propose p) false)) (λ _ _. same p _))

    propose_next-Agrees :
        (payload : Payload) (w : ConsensusWorker C)
        → Agrees (propose_next e hp payload) (propose_next e hp' payload) w
    unfolding propose_next
    propose_next-Agrees payload w =
        elim (Bool-cases (
          withholds (empty_payload_hash e) (payload.block_hash == empty_payload_hash e) 0
            (reverse w.proposal_hash_queue))) [
              | inl held ↦ agrees (λ _. rw held refl)
              | inr free ↦
                  Agrees-by (propose e hp payload none) (propose e hp' payload none)
                    (record w {
                      proposal_hash_queue = push_cleared payload.block_hash w.proposal_hash_queue;
                    })
                    (rw free refl) (rw free refl) (propose-Agrees payload none _)
            ]

    lead_on-Agrees : (w : ConsensusWorker C) → Agrees (lead_on e hp) (lead_on e hp') w
    unfolding lead_on
    lead_on-Agrees w =
        let u = (get_proposal_payload e w).1 in
        elim (Option-cases (get_proposal_payload e w).0) [
          | inl nothing ↦ agrees (λ _. rw (nothing, lead_on) refl)
          | inr (payload, found) ↦
              Agrees-by (propose_next e hp payload) (propose_next e hp' payload) u
                (rw (found, lead_on) refl) (rw (found, lead_on) refl)
                (propose_next-Agrees payload u)
        ]

    on_qc-Agrees : (qc : Qc) (w : ConsensusWorker C) → Agrees (on_qc e hp qc) (on_qc e hp' qc) w
    unfolding on_qc
    on_qc-Agrees qc w = Agrees-after (modify (handle_qc qc)) (λ _ _.
        Agrees-after (λ u. lift (State.view_leader u.state u.state.view) u)
          (λ leader _.
            Agrees-after (gets (λ u. State.is_local u.state leader))
              (λ local _. Agrees-if local (lead_on-Agrees _) (Agrees-refl {m = pure tt}))))

    made-Agrees :
        (made : Option Qc) (w : ConsensusWorker C)
        → Agrees
            (elim made [ none ↦ pure tt | some qc ↦ on_qc e hp qc ])
            (elim made [ none ↦ pure tt | some qc ↦ on_qc e hp' qc ])
            w
    made-Agrees none w = Agrees-refl
    made-Agrees (some qc) w = on_qc-Agrees qc w

    handle_vote_with-Agrees :
        (v : Vote) (w : ConsensusWorker C)
        → Agrees (handle_vote_with e hp v) (handle_vote_with e hp' v) w
    unfolding handle_vote_with
    handle_vote_with-Agrees v w =
        Agrees-after (λ u. lift (State.verify_vote e.crypto u.state v) u)
          (λ _ _.
            Agrees-after (on_state (λ s. State.add_vote e.crypto s v))
              (λ made _. made-Agrees made _))

  -- A run on some fuel that was enough is the run on any more.
  pub handle_proposal-Agrees :
      (fuel more : ℕ) (p : Proposal) (w : ConsensusWorker C)
      → fuel ≤ more
      → Agrees (handle_proposal e fuel p) (handle_proposal e more p) w
  unfolding handle_proposal
  handle_proposal-Agrees zero more p w le = agrees (λ enough. absurd (enough refl))
  handle_proposal-Agrees (suc fuel) zero p w le = absurd (omega arith)
  handle_proposal-Agrees (suc fuel) (suc more) p w le =
      handle_proposal_with-Agrees (handle_vote_with e (handle_proposal e fuel))
        (handle_vote_with e (handle_proposal e more))
        (handle_vote_with-Agrees (handle_proposal e fuel) (handle_proposal e more)
          (λ q u. handle_proposal-Agrees fuel more q u (omega arith)))
        p w

  pub handle_vote-Agrees :
      (fuel more : ℕ) (v : Vote) (w : ConsensusWorker C)
      → fuel ≤ more
      → Agrees (handle_vote e fuel v) (handle_vote e more v) w
  unfolding handle_vote
  handle_vote-Agrees fuel more v w le =
      handle_vote_with-Agrees (handle_proposal e fuel) (handle_proposal e more)
        (λ p u. handle_proposal-Agrees fuel more p u le) v w
