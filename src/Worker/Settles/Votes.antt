-- ===== src/Worker/Settles/Votes.antt =====
-- The handlers of a vote (consensus.rs, `handle_vote`) answer if the handler of proposals does for a
-- proposal that the node makes itself.
use madara_hotstuff.Base.{
  ◌+◌, ◌<◌, ◌≡◌, refl, ◌∙◌, inl, inr, false, Option, none, some, arith, length, reverse, ◌==◌,
  wrap64, u64_mod, Bool-cases, Option-cases,
}
use madara_hotstuff.Primitives.{AuthorityList, ViewNumber, ok}
use madara_hotstuff.Crypto.{Keystore}
use madara_hotstuff.Action.{pure}
use madara_hotstuff.Platform.{Platform}
use madara_hotstuff.Message.Qc.{Qc}
use madara_hotstuff.Message.Tc.{Tc}
use madara_hotstuff.Message.Payload.{Payload}
use madara_hotstuff.Message.Vote.{Vote}
use madara_hotstuff.Message.Proposal.{Proposal}
use madara_hotstuff.Message.Consensus.{ConsensusMessage}
use madara_hotstuff.State
use madara_hotstuff.State.Turns.{
  view_leader-IsAnswer, is_local-eq, verify_vote-IsAnswer, make_proposal-IsAnswer,
  make_proposal-view, add_vote-IsAnswer, add_vote-view,
}
use madara_hotstuff.Worker.{ConsensusWorker, gossip, advance_view}
use madara_hotstuff.Worker.Payloads.{empty_payload_hash, get_proposal_payload}
use madara_hotstuff.Worker.Handlers.{
  Handler, on_state, handle_qc, propose, propose_next, lead_on, on_qc, handle_vote_with,
  push_cleared, withholds,
}
use madara_hotstuff.Worker.Settles.{
  IsNode, Settles, settles, Led, Leads-Led, handle_qc-IsNode, same_state-IsNode, Settles-then,
  Settles-modify, Settles-check, Settles-gets, Settles-pure, Settles-by, Settles-if,
}

module _ {C : Type 0} (e : Platform C) (k : Keystore) (authorities : AuthorityList)
    (some_one : 0 < length authorities) where
  -- The handler of proposals answers for the proposals of a view.
  abbrev pub Proposes : (Proposal → Handler e) → ViewNumber → Type 0
  Proposes hp view =
      (p : Proposal) (u : ConsensusWorker C)
      → IsNode k authorities u
      → p.view ≡ view
      → Settles k authorities (hp p) u

  pub propose-Settles :
      (hp : Proposal → Handler e) (payload : Payload) (tc : Option Tc) (w : ConsensusWorker C)
      → IsNode k authorities w
      → Proposes hp w.state.view
      → Settles k authorities (propose e hp payload tc) w
  unfolding propose
  propose-Settles hp payload tc w n own =
      Settles-check k authorities (λ u. State.make_proposal e.crypto u.state payload tc) n
        (make_proposal-IsAnswer e.crypto w.state payload tc)
        (λ p made. Settles-modify k authorities (gossip (ConsensusMessage.propose p) false) (λ _.
          own p _ (same_state-IsNode k authorities w _ refl n)
            (make_proposal-view e.crypto w.state payload tc made)))

  pub get_proposal_payload-IsNode :
      (w : ConsensusWorker C)
      → IsNode k authorities w
      → IsNode k authorities (get_proposal_payload e w).1
        × ((get_proposal_payload e w).1.state ≡ w.state)
  unfolding get_proposal_payload
  get_proposal_payload-IsNode w n =
      let same : (get_proposal_payload e w).1.state ≡ w.state = ground arith in
      (same_state-IsNode k authorities w _ same n, same)

  propose_next-Settles :
      (hp : Proposal → Handler e) (payload : Payload) (w : ConsensusWorker C)
      → IsNode k authorities w
      → Proposes hp w.state.view
      → Settles k authorities (propose_next e hp payload) w
  unfolding propose_next
  propose_next-Settles hp payload w n own =
      elim (Bool-cases (
        withholds (empty_payload_hash e) (payload.block_hash == empty_payload_hash e) 0
          (reverse w.proposal_hash_queue))) [
            | inl held ↦
                Settles-by k authorities (pure tt) w (rw held refl)
                  (Settles-pure k authorities tt n)
            | inr free ↦
                let u = record w {
                  proposal_hash_queue = push_cleared payload.block_hash w.proposal_hash_queue;
                } in
                Settles-by k authorities (propose e hp payload none) u (rw free refl) (
                  propose-Settles hp payload none u (same_state-IsNode k authorities w u refl n)
                    own)
          ]

  lead_on-Settles :
      (hp : Proposal → Handler e) (w : ConsensusWorker C)
      → IsNode k authorities w
      → Proposes hp w.state.view
      → Settles k authorities (lead_on e hp) w
  unfolding lead_on
  lead_on-Settles hp w n own =
      let (n', same) = get_proposal_payload-IsNode w n in
      let u = (get_proposal_payload e w).1 in
      elim (Option-cases (get_proposal_payload e w).0) [
        | inl nothing ↦
            Settles-by k authorities (pure tt) u (rw (nothing, lead_on) refl)
              (Settles-pure k authorities tt n')
        | inr (payload, found) ↦
            Settles-by k authorities (propose_next e hp payload) u (rw (found, lead_on) refl)
              (propose_next-Settles hp payload u n' (rw same own))
      ]

  -- The view that the certificate leads to is the only one that a proposal may have.
  on_qc-Settles :
      (hp : Proposal → Handler e) (qc : Qc) (w : ConsensusWorker C)
      → IsNode k authorities w
      → (Led k authorities (handle_qc qc w).state.view → Proposes hp (handle_qc qc w).state.view)
      → Settles k authorities (on_qc e hp qc) w
  unfolding on_qc
  on_qc-Settles hp qc w n own =
      let n' = handle_qc-IsNode k authorities qc w n in
      let u = handle_qc qc w in
      Settles-modify k authorities (handle_qc qc) (λ _.
        Settles-check k authorities (λ u. State.view_leader u.state u.state.view) n'
          (view_leader-IsAnswer u.state u.state.view (rw n'.list some_one))
          (λ leader leads.
            Settles-gets k authorities (λ u. State.is_local u.state leader)
              (λ local is.
                Settles-if k authorities local
                  (λ mine. lead_on-Settles hp u n' (
                    own (
                      Leads-Led k authorities u _ n'
                        (leader, leads, is_local-eq u.state leader (is ∙ mine)))))
                  (λ other. Settles-pure k authorities tt n'))))

  -- The view after the certificate of a vote for the node's own view.
  abbrev pub After : Vote → ConsensusWorker C → ViewNumber → Type 0
  After v w view = v.view ≡ w.state.view → view ≡ wrap64 (v.view + 1)

  handle_qc-After :
      (v : Vote) (qc : Qc) (w : ConsensusWorker C)
      → qc.view ≡ v.view
      → After v w (handle_qc qc w).state.view
  unfolding handle_qc advance_view State.advance_view_from_target State.update_high_qc
  handle_qc-After v qc w same = ground arith

  -- A proposal of the node's own comes of a vote only if the node leads the view that it is for,
  -- which is the next one where the vote is for the node's view.
  pub handle_vote_with-Settles :
      (hp : Proposal → Handler e) (v : Vote) (w : ConsensusWorker C)
      → IsNode k authorities w
      → ((view : ViewNumber)
          → view < u64_mod
          → Led k authorities view
          → After v w view
          → Proposes hp view)
      → Settles k authorities (handle_vote_with e hp v) w
  unfolding handle_vote_with State.add_vote
  handle_vote_with-Settles hp v w n own =
      Settles-check k authorities (λ u. State.verify_vote e.crypto u.state v) n
        (verify_vote-IsAnswer e.crypto w.state v)
        (λ _ valid.
          Settles-then k authorities (on_state (λ s. State.add_vote e.crypto s v))
            (settles (add_vote-IsAnswer e.crypto w.state v) n') (λ made is _. after made is))
    where
      u : ConsensusWorker C
      u = record w { state = (State.add_vote e.crypto w.state v).1 }

      n' : IsNode k authorities u
      n' = record { keystore = n.keystore; list = n.list; bound = n.bound }

      after :
          (made : Option Qc)
          → (State.add_vote e.crypto w.state v).0 ≡ ok made
          → Settles k authorities (elim made [ none ↦ pure tt | some qc ↦ on_qc e hp qc ]) u
      after none is = Settles-pure k authorities tt n'
      after (some qc) is =
          let moved = handle_qc-IsNode k authorities qc u n' in
          on_qc-Settles hp qc u n' (λ led.
            own _ moved.bound led (handle_qc-After v qc u (add_vote-view e.crypto w.state v is)))
