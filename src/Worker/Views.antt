-- ===== src/Worker/Views.antt =====
-- What `handle_qc`, the timeout certificate of a proposal and the finalization of a grandparent do to
-- a worker (consensus.rs).
use madara_hotstuff.Base.{
  suc, ◌+◌, ◌<◌, ◌≤◌, ◌≡◌, ◌≢◌, refl, ◌⊎◌, inl, inr, Option, none, some, arith, Bool-cases, ◌==◌,
  wrap64, if◌then◌else◌, ltb,
}
use madara_hotstuff.Primitives.{
  ok, map_err, External, success, failure, finalize_block as finalize_failed,
}
use madara_hotstuff.Platform.{Platform}
use madara_hotstuff.Message.Qc.{Qc}
use madara_hotstuff.Message.Tc.{Tc}
use madara_hotstuff.Message.Proposal.{Proposal}
use madara_hotstuff.Synchronizer
use madara_hotstuff.State
use madara_hotstuff.Worker.{ConsensusWorker, advance_view}
use madara_hotstuff.Worker.Payloads.{empty_payload_hash}
use madara_hotstuff.Worker.Handlers.{drop_error, handle_qc, use_tc, finalize, try_finalize}

-- A certificate of an earlier view changes nothing. One of the worker's view moves the view on by
-- one, wrapping at 2^64; one of a later view leaves the view. Both reset the timer, and both become
-- the high certificate exactly when their view is above that of the present one.
pub handle_qc_branches :
    {C : Type 0} (qc : Qc) (w : ConsensusWorker C)
    → ((qc.view < w.state.view) × (handle_qc qc w ≡ w))
      ⊎ ((w.state.view ≤ qc.view)
          × ((handle_qc qc w).timer_resets ≡ suc w.timer_resets)
          × ((handle_qc qc w).state.high_qc
              ≡ (if ltb w.state.high_qc.view qc.view then qc else w.state.high_qc))
          × (((qc.view ≡ w.state.view) × ((handle_qc qc w).state.view ≡ wrap64 (w.state.view + 1)))
              ⊎ ((w.state.view < qc.view) × ((handle_qc qc w).state.view ≡ w.state.view))))
unfolding handle_qc advance_view State.advance_view_from_target State.update_high_qc
handle_qc_branches qc w = elim (Bool-cases (ltb qc.view w.state.view)) [
  | inl old ↦ inl (ground arith, ground arith)
  | inr new ↦ elim (Bool-cases (qc.view == w.state.view)) [
    | inl same ↦ inr (ground arith, ground arith, ground arith, inl (ground arith, ground arith))
    | inr later ↦ inr (ground arith, ground arith, ground arith, inr (ground arith, ground arith))
  ]
]

-- The timeout certificate that a proposal carries changes nothing of the protocol state: neither the
-- view nor any other field of it.
pub use_tc-state :
    {C : Type 0} (tc : Option Tc) (w : ConsensusWorker C) → (use_tc tc w).state ≡ w.state
unfolding use_tc advance_view State.advance_view_from_target
use_tc-state none w = refl
use_tc-state (some tc) w = ground arith

module _ {C : Type 0} (e : Platform C) where
  -- Whether the block of a grandparent is to be finalized.
  abbrev pub IsFinal : ConsensusWorker C → Proposal → Proposal → Type 0
  IsFinal w parent grandpa =
      (parent.view ≡ wrap64 (grandpa.view + 1))
      × (grandpa.payload.block_hash ≢ empty_payload_hash e)
      × (grandpa.payload.block_hash ≢ (e.client.info w.client).finalized_hash)

  -- With both ancestors of a proposal in the store, an error of the finalization never fails the
  -- handler. If the grandparent is final, its block is given to `finalize_block` and only the
  -- client changes; else nothing changes.
  pub try_finalize_branches :
      (w : ConsensusWorker C) (p parent grandpa : Proposal)
      → Synchronizer.get_proposal_ancestors e w.client p ≡ ok (parent, grandpa)
      → (IsFinal w parent grandpa
          × (try_finalize e p w ≡ (
            ok tt,
            record w { client = (e.client.finalize_block w.client grandpa.payload.block_hash).1 },
          )))
        ⊎ ((¬ IsFinal w parent grandpa) × (try_finalize e p w ≡ (ok tt, w)))
  unfolding try_finalize finalize
  try_finalize_branches w p parent grandpa found =
      elim (Bool-cases (parent.view == wrap64 (grandpa.view + 1))) [
        | inr apart ↦ inr (λ f. ground (arith, f.0), rw found (ground arith))
        | inl next ↦ elim (Bool-cases (grandpa.payload.block_hash == empty_payload_hash e)) [
          | inl empty ↦ inr (λ f. ground (arith, f.1), rw found (ground arith))
          | inr block ↦
              elim (Bool-cases
                (grandpa.payload.block_hash == (e.client.info w.client).finalized_hash)) [
                  | inl done ↦ inr (λ f. ground (arith, f.2), rw found (ground arith))
                  | inr new ↦ inl (
                    (ground arith, ground arith, ground arith),
                    rw (found, next, block, new)
                        (dropped (e.client.finalize_block w.client grandpa.payload.block_hash)),
                  )
                ]
        ]
      ]
    where
      dropped :
          (r : External (Unit {0}) × C)
          → drop_error (map_err r.0 finalize_failed, record w { client = r.1 })
            ≡ (ok tt, record w { client = r.1 })
      dropped (success tt, c) = refl
      dropped (failure text, c) = refl
