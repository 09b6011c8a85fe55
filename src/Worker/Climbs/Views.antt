-- ===== src/Worker/Climbs/Views.antt =====
-- What the parts of the handlers (consensus.rs) do to the view.
use madara_hotstuff.Base.{
  ◌+◌, ◌≡◌, refl, inl, inr, not, ◌&&◌, ◌==◌, Option, none, ◌∙◌, some, arith, Bool-cases, wrap64,
  leb,
}
use madara_hotstuff.Primitives.{Outcome, ok, err, panicked, out_of_fuel}
use madara_hotstuff.Action.{and_then, lift}
use madara_hotstuff.Platform.{Platform}
use madara_hotstuff.Message.Qc.{Qc}
use madara_hotstuff.Message.Tc.{Tc}
use madara_hotstuff.Message.Vote.{Vote}
use madara_hotstuff.Message.Proposal.{Proposal}
use madara_hotstuff.Synchronizer
use madara_hotstuff.State
use madara_hotstuff.Worker.{ConsensusWorker, advance_view}
use madara_hotstuff.Worker.Payloads.{empty_payload_hash, get_proposal_payload}
use madara_hotstuff.Worker.Handlers.{handle_qc, use_tc, finalize, try_finalize, drop_error}
use madara_hotstuff.Worker.Climbs.{Rises, Rises-here}

module _ {C : Type 0} where
  pub handle_qc-Rises :
      (qc : Qc) (w : ConsensusWorker C) → Rises 1 w.state.view (handle_qc qc w).state.view
  unfolding handle_qc advance_view State.advance_view_from_target State.update_high_qc
  handle_qc-Rises qc w = elim (Bool-cases (leb w.state.view qc.view)) [
    | inr old ↦ rw old (Rises-here 1)
    | inl new ↦ elim (Bool-cases (leb qc.view w.state.view)) [
      | inl same ↦
          let e : qc.view ≡ w.state.view = ground arith in (1, omega arith, ground (arith, e))
      | inr later ↦ (0, omega arith, ground arith)
    ]
  ]

  -- A proposal's timeout certificate leaves the view.
  pub use_tc-view :
      (tc : Option Tc) (w : ConsensusWorker C) → (use_tc tc w).state.view ≡ w.state.view
  unfolding use_tc advance_view State.advance_view_from_target
  use_tc-view none w = refl
  use_tc-view (some tc) w = ground arith

  pub drop_error-view :
      (r : Outcome (Unit {0}) × ConsensusWorker C) → (drop_error r).1.state ≡ r.1.state
  drop_error-view (ok tt, u) = refl
  drop_error-view (err x, u) = refl
  drop_error-view (panicked, u) = refl
  drop_error-view (out_of_fuel, u) = refl

module _ {C : Type 0} (e : Platform C) where
  pub get_proposal_payload-view :
      (w : ConsensusWorker C) → (get_proposal_payload e w).1.state ≡ w.state
  unfolding get_proposal_payload
  get_proposal_payload-view w = ground arith

  pub make_vote-view :
      (w : ConsensusWorker C) (p : Proposal)
      → (State.make_vote e.crypto w.state p).1.view ≡ w.state.view
  unfolding State.make_vote
  make_vote-view w p = ground arith

  pub add_vote-view :
      (w : ConsensusWorker C) (v : Vote) → (State.add_vote e.crypto w.state v).1.view ≡ w.state.view
  unfolding State.add_vote
  add_vote-view w v = refl

  pub finalize-view :
      (parent grandpa : Proposal) (w : ConsensusWorker C)
      → (finalize e (parent, grandpa) w).1.state ≡ w.state
  unfolding finalize
  finalize-view parent grandpa w =
      elim (Bool-cases (
        parent.view == wrap64 (grandpa.view + 1)
        && (not (grandpa.payload.block_hash == empty_payload_hash e)
            && not (grandpa.payload.block_hash == (e.client.info w.client).finalized_hash)))) [
              | inl deep ↦ rw deep refl
              | inr shallow ↦ rw shallow refl
            ]

  pub try_finalize-view :
      (p : Proposal) (w : ConsensusWorker C) → (try_finalize e p w).1.state ≡ w.state
  unfolding try_finalize
  try_finalize-view p w = go (Synchronizer.get_proposal_ancestors e w.client p)
    where
      go :
          (found : Outcome (Proposal × Proposal))
          → (drop_error (and_then (lift found w) (finalize e))).1.state ≡ w.state
      go (ok (parent, grandpa)) = drop_error-view _ ∙ finalize-view parent grandpa w
      go (err x) = refl
      go panicked = refl
      go out_of_fuel = refl
