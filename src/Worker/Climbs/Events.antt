-- ===== src/Worker/Climbs/Events.antt =====
-- How far the handlers of timeouts, of timeout certificates and of the timer (consensus.rs), and a
-- run of the event loop, move the view.
use madara_hotstuff.Base.{
  ℕ, suc, ◌+◌, ◌*◌, ◌≤◌, ◌≡◌, refl, subst, inl, inr, true, List, [], ◌∷◌, Option, none, some, arith,
  Bool-cases, leb, ltb, length, if◌then◌else◌,
}
use madara_hotstuff.Primitives.{ok, ViewNumber}
use madara_hotstuff.Action.{pure, lift}
use madara_hotstuff.Platform.{Platform}
use madara_hotstuff.Message.Tc.{Tc}
use madara_hotstuff.Message.Payload.{Payload}
use madara_hotstuff.Message.Timeout.{Timeout}
use madara_hotstuff.Message.Consensus
use madara_hotstuff.Message.Consensus.{ConsensusMessage}
use madara_hotstuff.State
use madara_hotstuff.Worker.{ConsensusWorker, reset_timer, gossip, advance_view}
use madara_hotstuff.Worker.Payloads.{get_proposal_payload}
use madara_hotstuff.Worker.Handlers.{
  on_state, handle_qc, propose, drop_error, handle_proposal, handle_vote,
}
use madara_hotstuff.Worker.Loop.{
  generate_proposal, lead_from_tc, on_tc, count_timeout, handle_timeout, handle_local_timer,
  handle_tc, handle_message, Event, timer, message, queue, handle_event, run,
}
use madara_hotstuff.Worker.Climbs.{
  Rises, Rises-here, Rises-more, Within, within, Within-Rises, Within-then, Within-modify,
  Within-check, Within-if,
}
use madara_hotstuff.Worker.Climbs.Views.{
  handle_qc-Rises, get_proposal_payload-view, drop_error-view,
}
use madara_hotstuff.Worker.Climbs.Handlers.{
  propose-Within, handle_vote_with-Within, handle_proposal-Within,
}

module _ {C : Type 0} (e : Platform C) (fuel : ℕ) where
  generate_proposal-Within :
      (tc : Option Tc) (w : ConsensusWorker C) → Within (2 * fuel) (generate_proposal e fuel tc) w
  unfolding generate_proposal
  generate_proposal-Within tc w = within (go (get_proposal_payload e w).0 refl)
    where
      go :
          (found : Option Payload)
          → (get_proposal_payload e w).0 ≡ found
          → Rises (2 * fuel) w.state.view (generate_proposal e fuel tc w).1.state.view
      go none h = rw (h, generate_proposal, get_proposal_payload-view e w) (Rises-here (2 * fuel))
      go (some payload) h =
          let u = (get_proposal_payload e w).1 in
          rw (h, generate_proposal)
            (subst
              (λ s.
                Rises (2 * fuel) s.view
                  (propose e (handle_proposal e fuel) payload tc u).1.state.view)
              (get_proposal_payload-view e w)
              (Within-Rises (
                propose-Within e (2 * fuel) (handle_proposal e fuel) (handle_proposal-Within e fuel)
                  payload tc u)))

  -- A certificate moves the view by one, or leaves it.
  advance-Rises :
      (view : ViewNumber) (w : ConsensusWorker C)
      → w.state.view ≤ view
      → Rises 1 w.state.view (advance_view view w).state.view
  unfolding advance_view State.advance_view_from_target
  advance-Rises view w fits = elim (Bool-cases (leb view w.state.view)) [
    | inl same ↦ let e : view ≡ w.state.view = ground arith in (1, omega arith, ground (arith, e))
    | inr later ↦ (0, omega arith, ground arith)
  ]

  on_tc-Within : (tc : Tc) (w : ConsensusWorker C) → Within (suc (2 * fuel)) (on_tc e fuel tc) w
  unfolding on_tc lead_from_tc
  on_tc-Within tc w =
      Within-modify {i = 1} {j = 2 * fuel}
        (λ u. if leb u.state.view tc.view then reset_timer (advance_view tc.view u) else u)
        (elim (Bool-cases (leb w.state.view tc.view)) [
          | inl fits ↦ rw fits (advance-Rises tc.view w (ground arith))
          | inr behind ↦ rw behind (Rises-here 1)
        ])
        (λ _.
          Within-modify {i = 0} {j = 2 * fuel} (gossip (Consensus.tc tc) true) (Rises-here 0)
            (λ _.
              Within-check (λ u. State.is_leader u.state)
                (λ leads.
                  Within-if leads {m' = pure tt}
                    (Within-modify {i = 0} {j = 2 * fuel}
                      (λ u. record u { processing_block = none }) (Rises-here 0)
                      (λ _. generate_proposal-Within (some tc) _) (omega arith))
                    (within (Rises-here (2 * fuel)))))
            (omega arith))
        (omega arith)

  count_timeout-Within :
      (t : Timeout) (w : ConsensusWorker C) → Within (2 * fuel + 2) (count_timeout e fuel t) w
  unfolding count_timeout State.add_timeout
  count_timeout-Within t w =
      Within-check (λ u. State.verify_timeout e.crypto u.state t)
        (λ _.
          Within-modify {i = 1} {j = suc (2 * fuel)} (handle_qc t.high_qc)
            (handle_qc-Rises t.high_qc w)
            (λ _.
              Within-then {i = 0} {j = suc (2 * fuel)} (on_state (λ s. State.add_timeout s t))
                (within (Rises-here 0)) (λ made _. counted made _) (omega arith))
            (omega arith))
    where
      counted :
          (made : Option Tc) (u : ConsensusWorker C)
          → Within (suc (2 * fuel)) (elim made [ none ↦ pure tt | some tc ↦ on_tc e fuel tc ]) u
      counted none u = within (Rises-here (suc (2 * fuel)))
      counted (some tc) u = on_tc-Within tc u

  handle_timeout-Within :
      (t : Timeout) (w : ConsensusWorker C) → Within (2 * fuel + 2) (handle_timeout e fuel t) w
  unfolding handle_timeout
  handle_timeout-Within t w = elim (Bool-cases (ltb t.view w.state.view)) [
    | inl old ↦ within (rw old (Rises-here (2 * fuel + 2)))
    | inr live ↦ within (rw live (Within-Rises (count_timeout-Within t w)))
  ]

  handle_local_timer-Within :
      (w : ConsensusWorker C) → Within (2 * fuel + 2) (handle_local_timer e fuel) w
  unfolding handle_local_timer
  handle_local_timer-Within w =
      Within-modify {i = 0} {j = 2 * fuel + 2}
        (λ u. reset_timer (record u { state = State.increase_last_voted_view u.state }))
        (Rises-here 0)
        (λ _.
          Within-check (λ u. State.make_timeout e.crypto u.state)
            (λ t.
              Within-modify {i = 0} {j = 2 * fuel + 2} (gossip (Consensus.timeout t) true)
                (Rises-here 0) (λ _. handle_timeout-Within t _) (omega arith)))
        (omega arith)

  verified-le :
      (w : ConsensusWorker C) (tc : Tc)
      → State.verify_tc e.crypto w.state tc ≡ ok tt
      → w.state.view ≤ tc.view
  unfolding State.verify_tc
  verified-le w tc h = ground arith

  handle_tc-Within :
      (tc : Tc) (w : ConsensusWorker C) → Within (2 * fuel + 2) (handle_tc e fuel tc) w
  unfolding handle_tc
  handle_tc-Within tc w =
      Within-then {i = 0} {j = suc (2 * fuel)} (λ u. lift (State.verify_tc e.crypto u.state tc) u)
        (within (Rises-here 0))
        (λ _ verified.
          Within-modify {i = 1} {j = 2 * fuel}
            (λ u.
              let u' = reset_timer (advance_view tc.view u) in
              record u' { processing_block = none })
            (advance-Rises tc.view w (verified-le w tc verified))
            (λ _.
              Within-check (λ u. State.is_leader u.state)
                (λ leads.
                  Within-if leads {m' = pure tt} (generate_proposal-Within none _)
                    (within (Rises-here (2 * fuel)))))
            (omega arith))
        (omega arith)

  handle_event-Within :
      (event : Event) (w : ConsensusWorker C) → Within (2 * fuel + 2) (handle_event e fuel event) w
  unfolding handle_event handle_message handle_vote
  handle_event-Within timer w = within (Within-Rises (handle_local_timer-Within w))
  handle_event-Within (message (ConsensusMessage.propose p)) w =
      within (Rises-more (Within-Rises (handle_proposal-Within e fuel p w)) (omega arith))
  handle_event-Within (message (ConsensusMessage.vote v)) w = within (
      Rises-more
        (Within-Rises (
          handle_vote_with-Within e (2 * fuel) (handle_proposal e fuel)
            (handle_proposal-Within e fuel) v w))
        (omega arith))
  handle_event-Within (message (ConsensusMessage.timeout t)) w =
      within (Within-Rises (handle_timeout-Within t w))
  handle_event-Within (message (ConsensusMessage.tc tc)) w =
      within (Within-Rises (handle_tc-Within tc w))
  handle_event-Within (message (ConsensusMessage.sync_request hash id)) w =
      within (Rises-here (2 * fuel + 2))
  handle_event-Within (message ConsensusMessage.phantom) w = within (Rises-here (2 * fuel + 2))
  handle_event-Within (queue q) w = within (Rises-here (2 * fuel + 2))

  -- A run of the loop makes at most `2 * fuel + 2` increments of the view for each event.
  pub run-Within :
      (events : List Event) (w : ConsensusWorker C)
      → Within (length events * (2 * fuel + 2)) (run e fuel events) w
  unfolding run
  run-Within [] w = within (Rises-here (0 * (2 * fuel + 2)))
  run-Within (event ∷ events) w =
      Within-then {i = 2 * fuel + 2} {j = length events * (2 * fuel + 2)}
        (λ u. drop_error (handle_event e fuel event u))
        (within (
          rw (drop_error-view (handle_event e fuel event w))
            (Within-Rises (handle_event-Within event w))))
        (λ _ _. run-Within events _) (grind arith)
