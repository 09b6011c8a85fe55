-- ===== src/Worker/Leading.antt =====
-- What makes a leader propose (consensus.rs, `handle_vote`): a vote that completes a certificate.
use madara_hotstuff.Base.{
  ℕ, ◌+◌, ◌≤◌, ◌≡◌, refl, sym, ◌∙◌, ap, Bool, true, false, List, ◌∷◌, ◌++◌, Option, none, some,
  arith, reverse, ◌==◌, wrap64,
}
use madara_hotstuff.Primitives.{AuthorityId, AuthoritySignature, Hash, success, ok}
use madara_hotstuff.Platform.{Platform}
use madara_hotstuff.Message.Qc.{Qc}
use madara_hotstuff.Message.Payload.{Payload}
use madara_hotstuff.Message.Vote.{Vote}
use madara_hotstuff.Message.Proposal
use madara_hotstuff.Message.Proposal.{Proposal}
use madara_hotstuff.Message.Consensus.{ConsensusMessage}
use madara_hotstuff.State
use madara_hotstuff.State.{local_authority_id}
use madara_hotstuff.State.Turns.{Leads, add_vote-view}
use madara_hotstuff.Worker.{ConsensusWorker, gossip, advance_view}
use madara_hotstuff.Worker.Payloads.{empty_payload_hash, get_proposal_payload}
use madara_hotstuff.Worker.Handlers.{
  Handler, handle_qc, propose, propose_next, lead_on, on_qc, handle_vote_with, handle_proposal,
  handle_vote, push_cleared, withholds,
}
use madara_hotstuff.Worker.Steps.{Runs-Reach}
use madara_hotstuff.Worker.Progress.{Reach-gossip}
use madara_hotstuff.Worker.Refines.Proposals.{handle_proposal-Runs}

module _ {C : Type 0} (e : Platform C) where
  -- The worker that has counted a vote and used the certificate that it completed.
  abbrev pub certified : Vote → Qc → ConsensusWorker C → ConsensusWorker C
  certified v qc w = handle_qc qc (record w { state = (State.add_vote e.crypto w.state v).1 })

  -- The payload is not withheld.
  abbrev pub Goes : Payload → ConsensusWorker C → Type 0
  Goes payload w =
      withholds (empty_payload_hash e) (payload.block_hash == empty_payload_hash e) 0
        (reverse w.proposal_hash_queue)
      ≡ false

  -- The keystore signs with the key of an authority.
  abbrev pub Signs : AuthorityId → ConsensusWorker C → Type 0
  Signs id w =
      (d : Hash) → (g : Option AuthoritySignature) × (State.sign w.state.keystore id d ≡ success g)

  is_local-true :
      (s : State.ConsensusState) (id : AuthorityId)
      → local_authority_id s ≡ some id
      → State.is_local s id ≡ true
  is_local-true s id mine = ground arith

  -- The proposal that the local authority makes.
  abbrev pub proposal_of :
      ConsensusWorker C → AuthorityId → Payload → Option AuthoritySignature → Proposal
  proposal_of w id payload g = Proposal.new w.state.high_qc none payload w.state.view id g

  make_proposal-proposal_of :
      (w : ConsensusWorker C) (id : AuthorityId) (payload : Payload)
      → local_authority_id w.state ≡ some id
      → Signs id w
      → (g : Option AuthoritySignature) × (State.make_proposal e.crypto w.state payload none
          ≡ ok (proposal_of w id payload g))
  unfolding State.make_proposal
  make_proposal-proposal_of w id payload mine signs =
      let (g, signed) = signs (Proposal.digest e.crypto (proposal_of w id payload none)) in
      (g, rw (mine, signed) refl)

  module _ (hp : Proposal → Handler e) where
    on_qc-lead_on :
        (qc : Qc) (w : ConsensusWorker C)
        → Leads (handle_qc qc w).state (handle_qc qc w).state.view
        → on_qc e hp qc w ≡ lead_on e hp (handle_qc qc w)
    unfolding on_qc
    on_qc-lead_on qc w (id, leads, mine) =
        rw (leads, is_local-true (handle_qc qc w).state id mine) refl

    lead_on-propose :
        (payload : Payload) (w : ConsensusWorker C)
        → (get_proposal_payload e w).0 ≡ some payload
        → Goes payload (get_proposal_payload e w).1
        → let u = (get_proposal_payload e w).1 in
          lead_on e hp w
          ≡ propose e hp payload none (record u {
            proposal_hash_queue = push_cleared payload.block_hash u.proposal_hash_queue;
          })
    unfolding lead_on propose_next
    lead_on-propose payload w found goes = rw (found, lead_on, goes) refl

    propose-hp :
        (payload : Payload) (p : Proposal) (w : ConsensusWorker C)
        → State.make_proposal e.crypto w.state payload none ≡ ok p
        → propose e hp payload none w ≡ hp p (gossip (ConsensusMessage.propose p) false w)
    unfolding propose
    propose-hp payload p w made = rw made refl

    handle_vote-on_qc :
        (v : Vote) (qc : Qc) (w : ConsensusWorker C)
        → State.verify_vote e.crypto w.state v ≡ ok tt
        → (State.add_vote e.crypto w.state v).0 ≡ ok (some qc)
        → handle_vote_with e hp v w
          ≡ on_qc e hp qc (record w { state = (State.add_vote e.crypto w.state v).1 })
    unfolding handle_vote_with
    handle_vote-on_qc v qc w verified made = rw (verified, made) refl

  payload-state :
      (w : ConsensusWorker C)
      → ((get_proposal_payload e w).1.state ≡ w.state)
        × ((get_proposal_payload e w).1.gossiped ≡ w.gossiped)
  unfolding get_proposal_payload
  payload-state w = (ground arith, ground arith)

  certified-gossiped :
      (v : Vote) (qc : Qc) (w : ConsensusWorker C) → (certified v qc w).gossiped ≡ w.gossiped
  unfolding handle_qc advance_view
  certified-gossiped v qc w = ground arith

  certified-view :
      (v : Vote) (qc : Qc) (w : ConsensusWorker C)
      → qc.view ≡ w.state.view
      → ((certified v qc w).state.view ≡ wrap64 (w.state.view + 1))
        × (qc.view ≤ (certified v qc w).state.high_qc.view)
  unfolding handle_qc advance_view State.advance_view_from_target State.update_high_qc
      State.add_vote
  certified-view v qc w same = (ground arith, ground arith)

  -- What the handlers read of the worker is as it was.
  certified-same :
      (v : Vote) (qc : Qc) (w : ConsensusWorker C)
      → ((certified v qc w).state.authorities ≡ w.state.authorities)
        × ((certified v qc w).state.keystore ≡ w.state.keystore)
        × ((certified v qc w).proposal_hash_queue ≡ w.proposal_hash_queue)
  unfolding handle_qc advance_view State.advance_view_from_target State.update_high_qc
      State.add_vote
  certified-same v qc w = (ground arith, ground arith, ground arith)

  certified-payload :
      (v : Vote) (qc : Qc) (w : ConsensusWorker C)
      → (get_proposal_payload e (certified v qc w)).0 ≡ (get_proposal_payload e w).0
  unfolding handle_qc advance_view get_proposal_payload
  certified-payload v qc w = ground arith

  payload-hashes :
      (w : ConsensusWorker C)
      → (get_proposal_payload e w).1.proposal_hash_queue ≡ w.proposal_hash_queue
  unfolding get_proposal_payload
  payload-hashes w = ground arith

  certified-Leads :
      (v : Vote) (qc : Qc) (id : AuthorityId) (w : ConsensusWorker C)
      → qc.view ≡ w.state.view
      → State.view_leader w.state (wrap64 (w.state.view + 1)) ≡ ok id
      → local_authority_id w.state ≡ some id
      → (State.view_leader (certified v qc w).state (certified v qc w).state.view ≡ ok id)
        × (local_authority_id (certified v qc w).state ≡ some id)
  unfolding State.view_leader local_authority_id
  certified-Leads v qc id w same leads mine =
      let (list, keystore, _) = certified-same v qc w in
      (rw (list, (certified-view v qc w same).0) leads, rw (list, keystore) mine)

  -- A verified vote for the worker's view that completes a certificate makes the worker propose, if it
  -- leads the next view, has a payload that it does not withhold, and its keystore signs: the first
  -- message that it sends is a proposal of its own for the next view (zero where the view wraps), with
  -- that payload and a certificate of the vote's view or a later one.
  pub leader_proposes :
      (fuel : ℕ) (v : Vote) (qc : Qc) (id : AuthorityId) (payload : Payload) (w : ConsensusWorker C)
      → State.verify_vote e.crypto w.state v ≡ ok tt
      → (State.add_vote e.crypto w.state v).0 ≡ ok (some qc)
      → v.view ≡ w.state.view
      → State.view_leader w.state (wrap64 (w.state.view + 1)) ≡ ok id
      → local_authority_id w.state ≡ some id
      → (get_proposal_payload e w).0 ≡ some payload
      → Goes payload w
      → Signs id w
      → (p : Proposal) × (sent : List (ConsensusMessage × Bool)) × ((handle_vote e fuel v
            w).1.gossiped
          ≡ sent ++ (ConsensusMessage.propose p, false) ∷ w.gossiped)
        × (p.view ≡ wrap64 (v.view + 1))
        × (p.payload ≡ payload)
        × (p.author ≡ id)
        × (v.view ≤ p.qc.view)
  unfolding handle_vote
  leader_proposes fuel v qc id payload w verified made same leads mine found goes signs =
      let hp = handle_proposal e fuel in
      let of_view : qc.view ≡ v.view = add_vote-view e.crypto w.state v made in
      let u = certified v qc w in
      let (next, high) = certified-view v qc w (of_view ∙ same) in
      let (list, keystore, hashes) = certified-same v qc w in
      let (leads', mine') = certified-Leads v qc id w (of_view ∙ same) leads mine in
      let (state, gossiped) = payload-state u in
      let u1 = (get_proposal_payload e u).1 in
      let u2 = record u1 {
        proposal_hash_queue = push_cleared payload.block_hash u1.proposal_hash_queue;
      } in
      let (g, proposed) =
        make_proposal-proposal_of u2 id payload (rw state mine')
          (λ d. rw (state, keystore) (signs d)) in
      let p = proposal_of u2 id payload g in
      let u3 = gossip (ConsensusMessage.propose p) false u2 in
      let handled : handle_vote_with e hp v w ≡ hp p u3 =
        handle_vote-on_qc hp v qc w verified made
        ∙ (on_qc-lead_on hp qc _ (id, leads', mine')
            ∙ (lead_on-propose hp payload u (certified-payload v qc w ∙ found)
                  (rw (payload-hashes u, hashes) goes)
                ∙ propose-hp hp payload p u2 proposed)) in
      let (sent, new, _) = Reach-gossip e (Runs-Reach e (handle_proposal-Runs e fuel p u3)) in
      (
        p,
        sent,
        ap (λ r. r.1.gossiped) handled
            ∙ (new
                ∙ ap (λ l. sent ++ (ConsensusMessage.propose p, false) ∷ l)
                    (gossiped ∙ certified-gossiped v qc w)),
        ap (λ s. s.view) state ∙ (next ∙ ap (λ n. wrap64 (n + 1)) (sym same)),
        refl,
        refl,
        omega (arith, high, of_view, ap (λ s. s.high_qc.view) state),
      )
