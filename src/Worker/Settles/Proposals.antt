-- ===== src/Worker/Settles/Proposals.antt =====
-- The handler of a proposal (consensus.rs, `handle_proposal`) answers if the handler of votes does for
-- a vote that the node makes and keeps itself.
use madara_hotstuff.Base.{
  ◌+◌, ◌<◌, ◌≡◌, refl, ◌∙◌, sym, inl, inr, false, arith, length, ◌==◌, wrap64, Bool-cases,
  Option-cases, ==_iff,
}
use madara_hotstuff.Primitives.{AuthorityList, External, success, failure, client_error}
use madara_hotstuff.Crypto.{Keystore}
use madara_hotstuff.Action.{pure}
use madara_hotstuff.Platform.{Platform, BlockStatus, in_chain, unknown}
use madara_hotstuff.Message.Vote.{Vote}
use madara_hotstuff.Message.Proposal.{Proposal}
use madara_hotstuff.Message.Consensus.{ConsensusMessage}
use madara_hotstuff.Message.Answers.{value, error, neither-IsAnswer, map_err-IsAnswer}
use madara_hotstuff.Synchronizer
use madara_hotstuff.State
use madara_hotstuff.State.Voting.{make_vote_lem}
use madara_hotstuff.State.Turns.{view_leader-IsAnswer, is_local-eq, verify_proposal-IsAnswer}
use madara_hotstuff.Worker.{ConsensusWorker, gossip}
use madara_hotstuff.Worker.Payloads.{empty_payload_hash}
use madara_hotstuff.Worker.Handlers.{
  Handler, handle_qc, use_tc, finalize, try_finalize, deliver, vote_for, store, accept, on_status,
  handle_proposal_with,
}
use madara_hotstuff.Worker.Steps.{enqueue}
use madara_hotstuff.Worker.Settles.{
  IsNode, Settles, settles, Led, Leads-Led, handle_qc-IsNode, use_tc-IsNode, same_state-IsNode,
  Settles-then, Settles-modify, Settles-check, Settles-gets, Settles-pure, Settles-last, Settles-by,
  Settles-if,
}

module _ {C : Type 0} (e : Platform C) (k : Keystore) (authorities : AuthorityList)
    (some_one : 0 < length authorities) where
  staffed : (w : ConsensusWorker C) → IsNode k authorities w → 0 < length w.state.authorities
  staffed w n = rw n.list some_one

  -- A vote that is kept goes to the node's own handler only where it leads the next view.
  deliver-Settles :
      (hv : Vote → Handler e) (p : Proposal) (v : Vote) (w : ConsensusWorker C)
      → IsNode k authorities w
      → (Led k authorities (wrap64 (w.state.view + 1)) → Settles k authorities (hv v) (enqueue p w))
      → Settles k authorities (deliver e hv p v) w
  unfolding deliver
  deliver-Settles hv p v w n own = Settles-modify k authorities (enqueue p) (λ _.
      Settles-check k authorities (λ u. State.view_leader u.state (wrap64 (u.state.view + 1)))
        (same_state-IsNode k authorities w (enqueue p w) refl n)
        (view_leader-IsAnswer _ _ (staffed w n))
        (λ leader leads.
          Settles-gets k authorities (λ u. State.is_local u.state leader)
            (λ local is.
              Settles-if k authorities local
                (λ yes_local. own (
                  Leads-Led k authorities w _ n
                    (leader, leads, is_local-eq w.state leader (is ∙ yes_local))))
                (λ other. Settles-last k authorities (gossip (ConsensusMessage.vote v) false) (
                  same_state-IsNode k authorities w
                    (gossip (ConsensusMessage.vote v) false (enqueue p w)) refl n)))))

  -- What a handler of votes must do for the votes that a proposal may hand to it.
  abbrev pub Takes : (Vote → Handler e) → Proposal → Type 0
  Takes hv p =
      (v : Vote) (u : ConsensusWorker C)
      → IsNode k authorities u
      → v.view ≡ p.view
      → p.view ≡ u.state.view
      → 0 < p.view
      → Led k authorities (wrap64 (p.view + 1))
      → Settles k authorities (hv v) u

  -- The worker after `make_vote`.
  voted : Proposal → ConsensusWorker C → ConsensusWorker C
  voted p w = record w { state = (State.make_vote e.crypto w.state p).1 }

  voted-IsNode :
      (p : Proposal) (w : ConsensusWorker C)
      → IsNode k authorities w
      → IsNode k authorities (voted p w) × ((voted p w).state.view ≡ w.state.view)
  unfolding State.make_vote voted
  voted-IsNode p w n = (
    record {
      keystore = ground (arith, n.keystore);
      list = ground (arith, n.list);
      bound = ground (arith, n.bound);
    },
    ground arith,
  )

  vote_for-Settles :
      (hv : Vote → Handler e) (p : Proposal) (w : ConsensusWorker C)
      → IsNode k authorities w
      → Takes hv p
      → Settles k authorities (vote_for e hv p) w
  unfolding vote_for voted
  vote_for-Settles hv p w n takes = elim (Bool-cases (p.view == w.state.view)) [
    | inl same ↦
        let here : p.view ≡ w.state.view = (==_iff p.view w.state.view).0 same in
        elim (Option-cases (State.make_vote e.crypto w.state p).0) [
          | inl none_made ↦
              Settles-by k authorities (pure tt) (voted p w) (rw (same, none_made) refl)
                (Settles-pure k authorities tt n')
          | inr (v, made) ↦
              let (mine, above, of_view, _, _) = (make_vote_lem e.crypto w.state p).0 v made in
              Settles-by k authorities (deliver e hv p v) (voted p w) (rw (same, made) refl) (
                deliver-Settles hv p v (voted p w) n' (λ leads.
                  takes v (enqueue p (voted p w))
                    (same_state-IsNode k authorities (voted p w) (enqueue p (voted p w)) refl n')
                    of_view (here ∙ sym moved) (omega (arith, above, of_view))
                    (rw (here ∙ sym moved) leads)))
        ]
    | inr differs ↦
        Settles-by k authorities (pure tt) w (rw differs refl) (Settles-pure k authorities tt n)
  ]
    where
      n' : IsNode k authorities (voted p w)
      n' = (voted-IsNode p w n).0

      moved : (voted p w).state.view ≡ w.state.view
      moved = (voted-IsNode p w n).1

  store-Settles :
      (p : Proposal) (w : ConsensusWorker C)
      → IsNode k authorities w
      → Settles k authorities (store e p) w
  unfolding store Synchronizer.save_proposal
  store-Settles p w n = settles (map_err-IsAnswer _ _) (same_state-IsNode k authorities w _ refl n)

  try_finalize-Settles :
      (p : Proposal) (w : ConsensusWorker C)
      → IsNode k authorities w
      → Settles k authorities (try_finalize e p) w
  unfolding try_finalize finalize Synchronizer.get_proposal_ancestors
      Synchronizer.get_proposal_parent
  try_finalize-Settles p w n =
      settles (neither-IsAnswer _ (λ h. ground arith) (λ h. ground arith))
        (same_state-IsNode k authorities w _ (ground arith) n)

  accept-Settles :
      (hv : Vote → Handler e) (p : Proposal) (w : ConsensusWorker C)
      → IsNode k authorities w
      → Takes hv p
      → Settles k authorities (accept e hv p) w
  unfolding accept
  accept-Settles hv p w n takes =
      Settles-check k authorities (λ u. State.verify_proposal e.crypto u.state p) n
        (verify_proposal-IsAnswer e.crypto w.state p (staffed w n))
        (λ _ valid. Settles-modify k authorities (handle_qc p.qc) (λ _.
          Settles-modify k authorities (use_tc p.tc) (λ _.
            Settles-then k authorities (store e p)
              (store-Settles p _
                (use_tc-IsNode k authorities p.tc _ (handle_qc-IsNode k authorities p.qc w n)))
              (λ _ saved n1.
                Settles-then k authorities (try_finalize e p) (try_finalize-Settles p _ n1)
                  (λ _ tried n2. vote_for-Settles hv p _ n2 takes)))))

  on_status-Settles :
      (hv : Vote → Handler e) (p : Proposal) (status : External BlockStatus) (w : ConsensusWorker C)
      → IsNode k authorities w
      → Takes hv p
      → Settles k authorities (on_status e hv p status) w
  unfolding on_status
  on_status-Settles hv p (success in_chain) w n takes =
      Settles-by k authorities (accept e hv p) w refl (accept-Settles hv p w n takes)
  on_status-Settles hv p (success unknown) w n takes =
      settles (value tt) (same_state-IsNode k authorities w _ refl n)
  on_status-Settles hv p (failure text) w n takes = settles (error (client_error text)) n

  pub handle_proposal_with-Settles :
      (hv : Vote → Handler e) (p : Proposal) (w : ConsensusWorker C)
      → IsNode k authorities w
      → Takes hv p
      → Settles k authorities (handle_proposal_with e hv p) w
  unfolding handle_proposal_with
  handle_proposal_with-Settles hv p w n takes =
      elim (Bool-cases (p.payload.block_hash == empty_payload_hash e)) [
        | inl empty ↦
            Settles-by k authorities (accept e hv p) w (rw empty refl)
              (accept-Settles hv p w n takes)
        | inr full ↦
            Settles-by k authorities
              (on_status e hv p (e.client.status w.client p.payload.block_hash)) w (rw full refl)
              (on_status-Settles hv p (e.client.status w.client p.payload.block_hash) w n takes)
      ]
