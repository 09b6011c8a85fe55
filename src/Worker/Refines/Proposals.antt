-- ===== src/Worker/Refines/Proposals.antt =====
-- The handling of a proposal (consensus.rs, `handle_proposal`) as steps.
use madara_hotstuff.Base.{
  ℕ, zero, suc, ◌+◌, ◌≡◌, refl, inl, inr, Bool, true, false, ◌∷◌, Option, none, some, arith,
  Bool-cases, Option-cases, ◌==◌, ==_iff, ltb, wrap64, if◌then◌else◌,
}
use madara_hotstuff.Primitives.{
  AuthorityId, Outcome, ok, err, panicked, out_of_fuel, External, success, failure,
}
use madara_hotstuff.Action.{and_then, ◌>>=◌, gets, modify}
use madara_hotstuff.Platform.{Platform, BlockStatus, in_chain, unknown}
use madara_hotstuff.Message.Tc.{Tc}
use madara_hotstuff.Message.Vote.{Vote}
use madara_hotstuff.Message.Proposal.{Proposal}
use madara_hotstuff.Message.Consensus
use madara_hotstuff.State
use madara_hotstuff.Worker.{ConsensusWorker, gossip, advance_view}
use madara_hotstuff.Worker.Payloads.{empty_payload_hash}
use madara_hotstuff.Worker.Guards.{IsKnown, IsProposal, IsProposal-same, verify_proposal-IsProposal}
use madara_hotstuff.Worker.Progress.{Reach-Advances}
use madara_hotstuff.Worker.Handlers.{
  Handler, handle_qc, store, deliver, vote_for, use_tc, try_finalize, accept, on_status,
  handle_proposal_with, handle_proposal, handle_vote_with,
}
use madara_hotstuff.Worker.Steps.{
  learn, follow, ballot, cast, save, Reach, here, one, Reach-trans, enqueue, Runs, runs, Runs-Reach,
  Runs-modify, Runs-check, Runs-then,
}
use madara_hotstuff.Worker.Refines.Votes.{tidied, try_finalize-Runs, handle_vote_with-Runs}

module _ {C : Type 0} (e : Platform C) where
  use_tc-Reach :
      (p : Proposal) (tc : Option Tc) (w : ConsensusWorker C)
      → p.tc ≡ tc
      → IsProposal e w.state p
      → Reach e w (use_tc tc w)
  unfolding use_tc advance_view
  use_tc-Reach p none w has valid = here
  use_tc-Reach p (some tc) w has valid = elim (Bool-cases (ltb w.state.view tc.view)) [
    | inl above ↦ rw above (
        Reach-trans e (one e (follow w tc (inr (p, has, ground arith, valid)))) (
          tidied e (advance_view tc.view w) w.sync_requests (suc w.timer_resets) w.processing_block
            w.pending_finalize_queue w.proposal_hash_queue))
    | inr not_above ↦ rw not_above here
  ]

  -- Steps leave the authorities, and so what a valid proposal is.
  Reach-IsProposal :
      {w u : ConsensusWorker C} (p : Proposal)
      → Reach e w u
      → IsProposal e w.state p
      → IsProposal e u.state p
  Reach-IsProposal {w} {u} p r valid =
      IsProposal-same e w.state u.state p (Reach-Advances e r).authorities valid

  -- A vote that was made is kept back until the next leader is known.
  deliver-Reach :
      (hv : Vote → Handler e) (p : Proposal) (v : Vote) (w : ConsensusWorker C)
      → ((v : Vote) (u : ConsensusWorker C) → Runs e (hv v) u)
      → (p.view ≡ w.state.view) × IsProposal e w.state p
      → (State.make_vote e.crypto w.state p).0 ≡ some v
      → Reach e w (deliver e hv p v (record w { state = (State.make_vote e.crypto w.state p).1 })).1
  unfolding deliver
  deliver-Reach hv p v w k same made =
      go (State.view_leader u.state (wrap64 (u.state.view + 1))) refl
    where
      s : State.ConsensusState
      s = (State.make_vote e.crypto w.state p).1

      u : ConsensusWorker C
      u = enqueue p (record w { state = s })

      held : Reach e w u
      held = Reach-trans e (one e (ballot w p same)) (
          tidied e (record w { state = s }) w.sync_requests w.timer_resets u.processing_block
            w.pending_finalize_queue u.proposal_hash_queue)

      told :
          (leader : AuthorityId)
          → State.view_leader s (wrap64 (s.view + 1)) ≡ ok leader
          → (local : Bool) → State.is_local s leader ≡ local
          → Reach e w ((if local then hv v else modify (gossip (Consensus.vote v) false)) u).1
      told leader found true is = Reach-trans e held (Runs-Reach e (k v u))
      told leader found false is = one e (cast w p v same (made, (leader, found, is)))

      go :
          (leader : Outcome AuthorityId)
          → State.view_leader u.state (wrap64 (u.state.view + 1)) ≡ leader
          → Reach e w
              (and_then {B = Unit {0}}
                (leader, u)
                (λ next_leader. gets (λ w. State.is_local w.state next_leader) >>= λ local.
                  if local then hv v else modify (gossip (Consensus.vote v) false))).1
      go (ok leader) h = told leader h (State.is_local u.state leader) refl
      go (err x) h = held
      go panicked h = held
      go out_of_fuel h = held

  vote_for-Runs :
      (hv : Vote → Handler e) (p : Proposal) (w : ConsensusWorker C)
      → IsProposal e w.state p
      → ((v : Vote) (u : ConsensusWorker C) → Runs e (hv v) u)
      → Runs e (vote_for e hv p) w
  unfolding vote_for
  vote_for-Runs hv p w valid k = elim (Bool-cases (p.view == w.state.view)) [
    | inl same ↦
        let e' : p.view ≡ w.state.view = (==_iff p.view w.state.view).0 same in
        elim (Option-cases (State.make_vote e.crypto w.state p).0) [
          | inl none_made ↦ runs (rw (same, none_made) (one e (ballot w p (e', valid))))
          | inr (v, made) ↦ runs (rw (same, made) (deliver-Reach hv p v w k (e', valid) made))
        ]
    | inr differs ↦ runs (rw differs here)
  ]

  store-Runs :
      (p : Proposal) (w : ConsensusWorker C) → IsProposal e w.state p → Runs e (store e p) w
  unfolding store
  store-Runs p w h = runs (one e (save w p h))

  accept-Runs :
      (hv : Vote → Handler e) (p : Proposal) (w : ConsensusWorker C)
      → IsKnown e w p
      → ((v : Vote) (u : ConsensusWorker C) → Runs e (hv v) u)
      → Runs e (accept e hv p) w
  unfolding accept
  accept-Runs hv p w known k =
      Runs-check e (λ u. State.verify_proposal e.crypto u.state p)
        (λ _ verified.
          let valid = verify_proposal-IsProposal e w.state p verified in
          let learned = one e (learn w p.qc (inl (p, refl, known, valid))) in
          let followed = use_tc-Reach p p.tc learning refl (Reach-IsProposal p learned valid) in
          let valid' = Reach-IsProposal p (Reach-trans e learned followed) valid in
          let stored = store-Runs p moved valid' in
          let tried = try_finalize-Runs e p (store e p moved).1 in
          Runs-modify e (handle_qc p.qc) learned (λ _. Runs-modify e (use_tc p.tc) followed (λ _.
            Runs-then e (store e p) stored (λ _ _. Runs-then e (try_finalize e p) tried (λ _ _.
              vote_for-Runs hv p _
                (Reach-IsProposal p (Reach-trans e (Runs-Reach e stored) (Runs-Reach e tried))
                  valid')
                k)))))
    where
      learning : ConsensusWorker C
      learning = handle_qc p.qc w

      moved : ConsensusWorker C
      moved = use_tc p.tc learning

  on_status-Reach :
      (hv : Vote → Handler e) (p : Proposal) (status : External BlockStatus) (w : ConsensusWorker C)
      → e.client.status w.client p.payload.block_hash ≡ status
      → ((v : Vote) (u : ConsensusWorker C) → Runs e (hv v) u)
      → Reach e w (on_status e hv p status w).1
  unfolding on_status
  on_status-Reach hv p (success in_chain) w h k = Runs-Reach e (accept-Runs hv p w (inr h) k)
  on_status-Reach hv p (success unknown) w h k =
      tidied e w ((p.payload.block_hash, p.payload.block_number) ∷ w.sync_requests) w.timer_resets
        w.processing_block w.pending_finalize_queue w.proposal_hash_queue
  on_status-Reach hv p (failure text) w h k = here

  handle_proposal_with-Runs :
      (hv : Vote → Handler e) (p : Proposal) (w : ConsensusWorker C)
      → ((v : Vote) (u : ConsensusWorker C) → Runs e (hv v) u)
      → Runs e (handle_proposal_with e hv p) w
  unfolding handle_proposal_with
  handle_proposal_with-Runs hv p w k =
      elim (Bool-cases (p.payload.block_hash == empty_payload_hash e)) [
        | inl empty ↦
            runs (rw empty (Runs-Reach e (accept-Runs hv p w (inl ((==_iff _ _).0 empty)) k)))
        | inr full ↦ runs (
            rw full (on_status-Reach hv p (e.client.status w.client p.payload.block_hash) w refl k))
      ]

  -- Every handling of a proposal is a sequence of steps, however deep it calls.
  pub handle_proposal-Runs :
      (fuel : ℕ) (p : Proposal) (w : ConsensusWorker C) → Runs e (handle_proposal e fuel p) w
  unfolding handle_proposal
  handle_proposal-Runs zero p w = runs here
  handle_proposal-Runs (suc fuel) p w =
      handle_proposal_with-Runs (handle_vote_with e (handle_proposal e fuel)) p w
        (λ v u. handle_vote_with-Runs e (handle_proposal e fuel) v u (handle_proposal-Runs fuel))
