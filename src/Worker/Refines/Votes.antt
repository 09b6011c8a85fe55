-- ===== src/Worker/Refines/Votes.antt =====
-- Every handler of the worker (consensus.rs) is a sequence of the steps of `Worker/Steps.antt`.
use madara_hotstuff.Base.{
  ℕ, ◌+◌, ◌≡◌, refl, sym, ap, subst, ◌∙◌, inl, inr, false, not, ◌&&◌, List, Option, none, some,
  arith, Bool-cases, ◌==◌, wrap64, reverse,
}
use madara_hotstuff.Primitives.{Hash, Outcome, ok, err, panicked, out_of_fuel}
use madara_hotstuff.Action.{and_then, pure}
use madara_hotstuff.Platform.{Platform}
use madara_hotstuff.Message.Qc.{Qc}
use madara_hotstuff.Message.Tc.{Tc}
use madara_hotstuff.Message.Payload.{Payload}
use madara_hotstuff.Message.Vote.{Vote}
use madara_hotstuff.Message.Proposal.{Proposal}
use madara_hotstuff.Message.Consensus
use madara_hotstuff.Synchronizer
use madara_hotstuff.State
use madara_hotstuff.Import.{BlockInfo}
use madara_hotstuff.Worker.{ConsensusWorker, gossip}
use madara_hotstuff.Worker.Payloads.{empty_payload_hash, get_proposal_payload}
use madara_hotstuff.Worker.Guards.{Leads, IsVote, verify_vote-IsVote}
use madara_hotstuff.Worker.Handlers.{
  Handler, handle_qc, propose, propose_next, lead_on, on_qc, handle_vote_with, finalize, drop_error,
  try_finalize, withholds, push_cleared,
}
use madara_hotstuff.Worker.Steps.{
  count, certify, send_proposal, finalized, tidy, Reach, here, one, Reach-trans, Runs, runs,
  Runs-Reach, Runs-modify, Runs-check, Runs-gets, Runs-pure, Runs-if,
}

module _ {C : Type 0} (e : Platform C) where
  -- The fields that no guard reads, changed at will.
  pub tidied :
      (w : ConsensusWorker C) (requests : List (Hash × ℕ)) (resets : ℕ)
      (processing : Option BlockInfo) (pending : Option (List BlockInfo)) (hashes : List Hash)
      → Reach e w (record w {
        sync_requests = requests;
        timer_resets = resets;
        processing_block = processing;
        pending_finalize_queue = pending;
        proposal_hash_queue = hashes;
      })
  tidied w requests resets processing pending hashes =
      one e (tidy w requests resets processing pending hashes)

  get_proposal_payload_lem :
      (w : ConsensusWorker C)
      → (get_proposal_payload e w).1
        ≡ record w { processing_block = (get_proposal_payload e w).1.processing_block }
  unfolding get_proposal_payload
  get_proposal_payload_lem w = ground arith

  pub get_proposal_payload-Reach : (w : ConsensusWorker C) → Reach e w (get_proposal_payload e w).1
  get_proposal_payload-Reach w = rw (get_proposal_payload_lem w) (
      tidied w w.sync_requests w.timer_resets (get_proposal_payload e w).1.processing_block
        w.pending_finalize_queue w.proposal_hash_queue)

  pub propose-Runs :
      (hp : Proposal → Handler e) (payload : Payload) (tc : Option Tc) (w : ConsensusWorker C)
      → Leads e w.state
      → ((p : Proposal) (u : ConsensusWorker C) → Runs e (hp p) u)
      → Runs e (propose e hp payload tc) w
  unfolding propose
  propose-Runs hp payload tc w leads k =
      Runs-check e (λ u. State.make_proposal e.crypto u.state payload tc)
        (λ p made.
          Runs-modify e (gossip (Consensus.propose p) false)
            (one e (send_proposal w p payload tc (leads, made)))
            (λ _. k p (gossip (Consensus.propose p) false w)))

  finalize-Runs :
      (p parent grandpa : Proposal) (w : ConsensusWorker C)
      → Synchronizer.get_proposal_ancestors e w.client p ≡ ok (parent, grandpa)
      → Runs e (finalize e (parent, grandpa)) w
  unfolding finalize
  finalize-Runs p parent grandpa w found =
      elim (Bool-cases (
        parent.view == wrap64 (grandpa.view + 1)
        && (not (grandpa.payload.block_hash == empty_payload_hash e)
            && not (grandpa.payload.block_hash == (e.client.info w.client).finalized_hash)))) [
              | inl deep ↦ runs (
                  rw deep (
                    one e (
                      finalized w p parent grandpa found (ground arith)
                        (ground arith, ground arith))))
              | inr shallow ↦ runs (rw shallow here)
            ]

  pub drop_error-Reach :
      {w : ConsensusWorker C} (r : Outcome (Unit {0}) × ConsensusWorker C)
      → Reach e w r.1
      → Reach e w (drop_error r).1
  drop_error-Reach (ok tt, u) h = h
  drop_error-Reach (err x, u) h = h
  drop_error-Reach (panicked, u) h = h
  drop_error-Reach (out_of_fuel, u) h = h

  pub try_finalize-Runs : (p : Proposal) (w : ConsensusWorker C) → Runs e (try_finalize e p) w
  unfolding try_finalize
  try_finalize-Runs p w = runs (
      drop_error-Reach _ (
        Runs-Reach e (
          Runs-check e {w = w} (λ u. Synchronizer.get_proposal_ancestors e u.client p)
            {f = finalize e} (λ (parent, grandpa) found. finalize-Runs p parent grandpa w found))))

  -- Looking for a payload leaves the leader.
  pub get_proposal_payload-Leads :
      (w : ConsensusWorker C) → Leads e w.state → Leads e (get_proposal_payload e w).1.state
  get_proposal_payload-Leads w leads =
      subst (λ s. Leads e s)
        (sym (ap (λ (u : ConsensusWorker C). u.state) (get_proposal_payload_lem w))) leads

  lead_on-Runs :
      (hp : Proposal → Handler e) (w : ConsensusWorker C)
      → Leads e w.state
      → ((p : Proposal) (u : ConsensusWorker C) → Runs e (hp p) u)
      → Runs e (lead_on e hp) w
  unfolding lead_on propose_next
  lead_on-Runs hp w leads k =
      runs (go (get_proposal_payload e w).0 refl (get_proposal_payload-Reach w))
    where
      next_from :
          (payload : Payload) (u : ConsensusWorker C)
          → Leads e u.state
          → Reach e u (propose_next e hp payload u).1
      next_from payload u leads =
          elim (Bool-cases (
            withholds (empty_payload_hash e) (payload.block_hash == empty_payload_hash e) 0
              (reverse u.proposal_hash_queue))) [
                | inl held ↦ rw held here
                | inr free ↦ rw free (
                    Reach-trans e
                      (tidied u u.sync_requests u.timer_resets u.processing_block
                        u.pending_finalize_queue
                        (push_cleared payload.block_hash u.proposal_hash_queue))
                      (Runs-Reach e (propose-Runs hp payload none _ leads k)))
              ]

      go :
          (found : Option Payload)
          → (get_proposal_payload e w).0 ≡ found
          → Reach e w (get_proposal_payload e w).1
          → Reach e w (lead_on e hp w).1
      go none h r = rw (h, lead_on) r
      go (some payload) h r =
          rw (h, lead_on)
            (Reach-trans e r (next_from payload _ (get_proposal_payload-Leads w leads)))

  on_qc-Runs :
      (hp : Proposal → Handler e) (qc : Qc) (w u : ConsensusWorker C)
      → ((p : Proposal) (u : ConsensusWorker C) → Runs e (hp p) u)
      → Reach e u (handle_qc qc w)
      → Reach e u (on_qc e hp qc w).1
  unfolding on_qc
  on_qc-Runs hp qc w u k r = Reach-trans e r (
      Runs-Reach e (
        Runs-check e {w = handle_qc qc w} (λ u. State.view_leader u.state u.state.view)
          (λ leader found.
            Runs-gets e (λ u. State.is_local u.state leader)
              (λ local here.
                Runs-if e local
                  (λ mine. lead_on-Runs hp (handle_qc qc w) (leader, found, here ∙ mine) k)
                  (λ _. Runs-pure e tt)))))

  -- The vote is counted, and its certificate, if there is one, is used.
  pub handle_vote_with-Runs :
      (hp : Proposal → Handler e) (v : Vote) (w : ConsensusWorker C)
      → ((p : Proposal) (u : ConsensusWorker C) → Runs e (hp p) u)
      → Runs e (handle_vote_with e hp v) w
  unfolding handle_vote_with
  handle_vote_with-Runs hp v w k =
      Runs-check e (λ u. State.verify_vote e.crypto u.state v)
        (λ _ verified. runs (
          counted (verify_vote-IsVote e w.state v verified) (State.add_vote e.crypto w.state v).0
            refl))
    where
      added : ConsensusWorker C
      added = record w { state = (State.add_vote e.crypto w.state v).1 }

      counted :
          IsVote e w.state v
          → (made : Outcome (Option Qc)) → (State.add_vote e.crypto w.state v).0 ≡ made
          → Reach e w
              (and_then {B = Unit {0}}
                (made, added)
                (λ o. elim o [ none ↦ pure tt | some qc ↦ on_qc e hp qc ])).1
      counted valid (ok none) h = one e (count w v valid)
      counted valid (ok (some qc)) h = on_qc-Runs hp qc added w k (one e (certify w v qc valid h))
      counted valid (err x) h = one e (count w v valid)
      counted valid panicked h = one e (count w v valid)
      counted valid out_of_fuel h = one e (count w v valid)
