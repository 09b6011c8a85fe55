-- ===== src/Worker/Refines/Timeouts.antt =====
-- Timeouts, timeout certificates and the timer (consensus.rs) as steps.
use madara_hotstuff.Base.{
  ℕ, suc, ◌≤◌, ◌≡◌, refl, ap, ◌∙◌, ◌⊎◌, inl, inr, true, false, Option, none, some, arith,
  Bool-cases, leb, ltb, if◌then◌else◌,
}
use madara_hotstuff.Primitives.{Outcome, ok, err, panicked, out_of_fuel}
use madara_hotstuff.Action.{and_then, ◌>>=◌, pure}
use madara_hotstuff.Platform.{Platform}
use madara_hotstuff.Message.Tc.{Tc}
use madara_hotstuff.Message.Payload.{Payload}
use madara_hotstuff.Message.Timeout.{Timeout}
use madara_hotstuff.Message.Consensus
use madara_hotstuff.Message.Consensus.{ConsensusMessage}
use madara_hotstuff.Message.Checked.{verify_timeout_iff}
use madara_hotstuff.State
use madara_hotstuff.Worker.{ConsensusWorker, reset_timer, gossip, advance_view}
use madara_hotstuff.Worker.Guards.{IsTimeout, Leads, is_leader-Leads, verify_tc-Followed}
use madara_hotstuff.Worker.Progress.{handle_qc-Advances}
use madara_hotstuff.Worker.Payloads.{get_proposal_payload}
use madara_hotstuff.Worker.Handlers.{on_state, handle_qc, handle_proposal}
use madara_hotstuff.Worker.Loop.{
  generate_proposal, lead_from_tc, on_tc, count_timeout, handle_timeout, handle_local_timer,
  handle_tc,
}
use madara_hotstuff.Worker.Steps.{
  learn, count_timeout as step_timeout, expire, follow, give_up, send_timeout, reach_view, Reach,
  here, one, Reach-trans, Runs, runs, Runs-Reach, Runs-modify, Runs-check, Runs-if, Runs-pure,
}
use madara_hotstuff.Worker.Refines.Votes.{
  tidied, get_proposal_payload-Reach, get_proposal_payload-Leads, propose-Runs,
}
use madara_hotstuff.Worker.Refines.Proposals.{handle_proposal-Runs}

-- The first act of `on_tc`: a certificate that is not behind is followed and resets the timer.
abbrev timed : {C : Type 0} → Tc → ConsensusWorker C → ConsensusWorker C
timed tc w = if leb w.state.view tc.view then reset_timer (advance_view tc.view w) else w

module _ {C : Type 0} where
  -- The worker once the timer has been reset and voting in the current view given up.
  abbrev pub given_up : ConsensusWorker C → ConsensusWorker C
  given_up u = reset_timer (record u { state = State.increase_last_voted_view u.state })

  -- The worker once it has followed a certificate, with the timer reset and no block in process.
  abbrev followed : Tc → ConsensusWorker C → ConsensusWorker C
  followed tc w =
      let u = reset_timer (advance_view tc.view w) in record u { processing_block = none }

module _ {C : Type 0} (e : Platform C) where
  pub generate_proposal-Runs :
      (fuel : ℕ) (tc : Option Tc) (w : ConsensusWorker C)
      → Leads e w.state
      → Runs e (generate_proposal e fuel tc) w
  unfolding generate_proposal
  generate_proposal-Runs fuel tc w leads =
      runs (go (get_proposal_payload e w).0 refl (get_proposal_payload-Reach e w))
    where
      go :
          (found : Option Payload)
          → (get_proposal_payload e w).0 ≡ found
          → Reach e w (get_proposal_payload e w).1
          → Reach e w (generate_proposal e fuel tc w).1
      go none h r = rw (h, generate_proposal) r
      go (some payload) h r =
          rw (h, generate_proposal)
            (Reach-trans e r (
              Runs-Reach e (
                propose-Runs e (handle_proposal e fuel) payload tc _
                  (get_proposal_payload-Leads e w leads) (handle_proposal-Runs e fuel))))

  pub lead_from_tc-Runs :
      (fuel : ℕ) (tc : Option Tc) (w : ConsensusWorker C)
      → Leads e w.state
      → Runs e (lead_from_tc e fuel tc) w
  unfolding lead_from_tc
  lead_from_tc-Runs fuel tc w leads =
      Runs-modify e (λ u. record u { processing_block = none })
        (tidied e w w.sync_requests w.timer_resets none w.pending_finalize_queue
          w.proposal_hash_queue)
        (λ _. generate_proposal-Runs fuel tc _ leads)

  -- A counted timeout whose certificate is followed and sent, and the timer reset.
  pub expire-Reach :
      (t : Timeout) (tc : Tc) (w : ConsensusWorker C)
      → IsTimeout e w.state t
      → (State.add_timeout w.state t).0 ≡ ok (some tc)
      → Reach e w (
          gossip
            (Consensus.tc tc)
            true
            (timed tc (record w { state = (State.add_timeout w.state t).1 })))
  expire-Reach t tc w valid made =
      Reach-trans e (one e (expire w t tc valid made)) (go (Bool-cases (leb u.state.view tc.view)))
    where
      u : ConsensusWorker C
      u = record w { state = (State.add_timeout w.state t).1 }

      sent : ConsensusWorker C
      sent = gossip (Consensus.tc tc) true (reach_view tc.view u)

      go :
          (leb u.state.view tc.view ≡ true) ⊎ (leb u.state.view tc.view ≡ false)
          → Reach e sent (gossip (Consensus.tc tc) true (timed tc u))
      go (inl fits) = rw fits (
          let v = gossip (Consensus.tc tc) true (advance_view tc.view u) in
          tidied e v v.sync_requests (suc v.timer_resets) v.processing_block
            v.pending_finalize_queue v.proposal_hash_queue)
      go (inr behind) = rw behind here

  pub on_tc-Reach :
      (fuel : ℕ) (t : Timeout) (tc : Tc) (w : ConsensusWorker C)
      → IsTimeout e w.state t
      → (State.add_timeout w.state t).0 ≡ ok (some tc)
      → Reach e w (on_tc e fuel tc (record w { state = (State.add_timeout w.state t).1 })).1
  unfolding on_tc
  on_tc-Reach fuel t tc w valid made = Reach-trans e (expire-Reach t tc w valid made) (
      Runs-Reach e (
        Runs-check e (λ u. State.is_leader u.state)
          {f = λ leads. if leads then lead_from_tc e fuel (some tc) else pure tt}
          (λ leads h.
            Runs-if e leads
              (λ yes. lead_from_tc-Runs fuel (some tc) _ (is_leader-Leads e _ (h ∙ ap ok yes)))
              (λ _. Runs-pure e tt))))

  pub count_timeout-Runs :
      (fuel : ℕ) (t : Timeout) (w : ConsensusWorker C)
      → w.state.view ≤ t.view
      → Runs e (count_timeout e fuel t) w
  unfolding count_timeout
  count_timeout-Runs fuel t w live =
      Runs-check e (λ u. State.verify_timeout e.crypto u.state t)
        (λ _ verified.
          let valid = (verify_timeout_iff e.crypto t w.state.authorities).0 verified in
          Runs-modify e (handle_qc t.high_qc)
            {f = λ _. on_state (λ s. State.add_timeout s t) >>= λ made. elim made [
              | none ↦ pure tt
              | some tc ↦ on_tc e fuel tc
            ]}
            (one e (learn w t.high_qc (inr (t, refl, live, valid))))
            (λ _. runs (
              counted learned (rw (handle_qc-Advances e t.high_qc w).authorities valid)
                (State.add_timeout learned.state t).0 refl)))
    where
      learned : ConsensusWorker C
      learned = handle_qc t.high_qc w

      counted :
          (u : ConsensusWorker C)
          → IsTimeout e u.state t
          → (made : Outcome (Option Tc)) → (State.add_timeout u.state t).0 ≡ made
          → Reach e u
              (and_then {B = Unit {0}}
                (made, record u { state = (State.add_timeout u.state t).1 })
                (λ o. elim o [ none ↦ pure tt | some tc ↦ on_tc e fuel tc ])).1
      counted u valid (ok none) h = one e (step_timeout u t valid)
      counted u valid (ok (some tc)) h = on_tc-Reach fuel t tc u valid h
      counted u valid (err x) h = one e (step_timeout u t valid)
      counted u valid panicked h = one e (step_timeout u t valid)
      counted u valid out_of_fuel h = one e (step_timeout u t valid)

  pub handle_timeout-Runs :
      (fuel : ℕ) (t : Timeout) (w : ConsensusWorker C) → Runs e (handle_timeout e fuel t) w
  unfolding handle_timeout
  handle_timeout-Runs fuel t w = elim (Bool-cases (ltb t.view w.state.view)) [
    | inl old ↦ runs (rw old here)
    | inr live ↦ runs (rw live (Runs-Reach e (count_timeout-Runs fuel t w (ground arith))))
  ]

  pub given_up-Reach : (w : ConsensusWorker C) → Reach e w (given_up w)
  given_up-Reach w = Reach-trans e (one e (give_up w)) (
      tidied e (record w { state = State.increase_last_voted_view w.state }) w.sync_requests
        (suc w.timer_resets) w.processing_block w.pending_finalize_queue w.proposal_hash_queue)

  -- All that the timer's handler does after that.
  pub handle_local_timer-after :
      (fuel : ℕ) (w : ConsensusWorker C) → Reach e (given_up w) (handle_local_timer e fuel w).1
  unfolding handle_local_timer
  handle_local_timer-after fuel w = Runs-Reach e (
      Runs-check e {w = given_up w} (λ u. State.make_timeout e.crypto u.state)
        (λ t made.
          Runs-modify e (gossip (Consensus.timeout t) true)
            (one e (send_timeout (given_up w) t made)) (λ _. handle_timeout-Runs fuel t _)))

  pub handle_local_timer-Runs :
      (fuel : ℕ) (w : ConsensusWorker C) → Runs e (handle_local_timer e fuel) w
  handle_local_timer-Runs fuel w =
      runs (Reach-trans e (given_up-Reach w) (handle_local_timer-after fuel w))

  pub handle_tc-Runs : (fuel : ℕ) (tc : Tc) (w : ConsensusWorker C) → Runs e (handle_tc e fuel tc) w
  unfolding handle_tc
  handle_tc-Runs fuel tc w =
      Runs-check e (λ u. State.verify_tc e.crypto u.state tc)
        (λ _ verified.
          Runs-modify e (followed tc)
            (Reach-trans e (one e (follow w tc (inl (verify_tc-Followed e w tc verified)))) (
              let u = reset_timer (advance_view tc.view w) in
              tidied e (advance_view tc.view w) u.sync_requests u.timer_resets none
                u.pending_finalize_queue u.proposal_hash_queue))
            (λ _.
              Runs-check e (λ u. State.is_leader u.state)
                (λ leads h.
                  Runs-if e leads
                    (λ yes.
                      generate_proposal-Runs fuel none _ (is_leader-Leads e _ (h ∙ ap ok yes)))
                    (λ _. Runs-pure e tt))))
