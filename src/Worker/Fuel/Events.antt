-- ===== src/Worker/Fuel/Events.antt =====
-- The event loop (consensus.rs, `run`) on more fuel.
use madara_hotstuff.Base.{
  ℕ, ◌≤◌, ◌<◌, ◌≡◌, ◌≢◌, refl, sym, ◌∙◌, ap, inl, inr, true, List, [], ◌∷◌, Option, none, some,
  arith, Bool-cases, Option-cases, leb, ltb, if◌then◌else◌, Distinct, length, u64_mod,
}
use madara_hotstuff.Primitives.{Outcome, ok, err, panicked, out_of_fuel}
use madara_hotstuff.Action.{pure, lift, modify}
use madara_hotstuff.Platform.{Platform}
use madara_hotstuff.Message.Tc.{Tc}
use madara_hotstuff.Message.Timeout.{Timeout}
use madara_hotstuff.Message.Consensus.{ConsensusMessage}
use madara_hotstuff.Message.Checked.{ids}
use madara_hotstuff.State
use madara_hotstuff.Worker.{ConsensusWorker, reset_timer, gossip, advance_view}
use madara_hotstuff.Worker.Payloads.{get_proposal_payload}
use madara_hotstuff.Worker.Handlers.{on_state, handle_qc, propose, handle_proposal}
use madara_hotstuff.Worker.Loop.{
  generate_proposal, lead_from_tc, on_tc, count_timeout, handle_timeout, handle_local_timer,
  handle_tc, handle_message, Event, timer, message, queue, handle_event, run,
}
use madara_hotstuff.Worker.Settles.Events.{run-ok}
use madara_hotstuff.Worker.Fuel.{
  Agrees, agrees, Agrees-eq, Agrees-refl, Agrees-by, Agrees-if, Agrees-after,
}
use madara_hotstuff.Worker.Fuel.Handlers.{
  propose-Agrees, handle_proposal-Agrees, handle_vote-Agrees,
}

module _ {C : Type 0} (e : Platform C) (fuel more : ℕ) (le : fuel ≤ more) where
  generate_proposal-Agrees :
      (tc : Option Tc) (w : ConsensusWorker C)
      → Agrees (generate_proposal e fuel tc) (generate_proposal e more tc) w
  unfolding generate_proposal
  generate_proposal-Agrees tc w =
      let u = (get_proposal_payload e w).1 in
      elim (Option-cases (get_proposal_payload e w).0) [
        | inl nothing ↦ agrees (λ _. rw (nothing, generate_proposal) refl)
        | inr (payload, found) ↦
            Agrees-by (propose e (handle_proposal e fuel) payload tc)
              (propose e (handle_proposal e more) payload tc) u (rw (found, generate_proposal) refl)
              (rw (found, generate_proposal) refl)
              (propose-Agrees e (handle_proposal e fuel) (handle_proposal e more)
                (λ p v. handle_proposal-Agrees e fuel more p v le) payload tc u)
      ]

  lead_from_tc-Agrees :
      (tc : Option Tc) (w : ConsensusWorker C)
      → Agrees (lead_from_tc e fuel tc) (lead_from_tc e more tc) w
  unfolding lead_from_tc
  lead_from_tc-Agrees tc w =
      Agrees-after (modify (λ u. record u { processing_block = none }))
        (λ _ _. generate_proposal-Agrees tc _)

  on_tc-Agrees : (tc : Tc) (w : ConsensusWorker C) → Agrees (on_tc e fuel tc) (on_tc e more tc) w
  unfolding on_tc
  on_tc-Agrees tc w =
      Agrees-after
        (modify (λ w. if leb w.state.view tc.view then reset_timer (advance_view tc.view w) else w))
        (λ _ _. Agrees-after (modify (gossip (ConsensusMessage.tc tc) true)) (λ _ _.
          Agrees-after (λ u. lift (State.is_leader u.state) u)
            (λ leads _.
              Agrees-if leads (lead_from_tc-Agrees (some tc) _) (Agrees-refl {m = pure tt}))))

  made-Agrees :
      (made : Option Tc) (w : ConsensusWorker C)
      → Agrees
          (elim made [ none ↦ pure tt | some tc ↦ on_tc e fuel tc ])
          (elim made [ none ↦ pure tt | some tc ↦ on_tc e more tc ])
          w
  made-Agrees none w = Agrees-refl
  made-Agrees (some tc) w = on_tc-Agrees tc w

  handle_timeout-Agrees :
      (t : Timeout) (w : ConsensusWorker C)
      → Agrees (handle_timeout e fuel t) (handle_timeout e more t) w
  unfolding handle_timeout count_timeout
  handle_timeout-Agrees t w = elim (Bool-cases (ltb t.view w.state.view)) [
    | inl old ↦ agrees (λ _. rw old refl)
    | inr live ↦
        Agrees-by (count_timeout e fuel t) (count_timeout e more t) w (rw live refl) (rw live refl)
          (Agrees-after (λ u. lift (State.verify_timeout e.crypto u.state t) u)
            (λ _ _. Agrees-after (modify (handle_qc t.high_qc)) (λ _ _.
              Agrees-after (on_state (λ s. State.add_timeout s t)) (λ made _. made-Agrees made _))))
  ]

  handle_local_timer-Agrees :
      (w : ConsensusWorker C) → Agrees (handle_local_timer e fuel) (handle_local_timer e more) w
  unfolding handle_local_timer
  handle_local_timer-Agrees w =
      Agrees-after
        (modify (λ w. reset_timer (record w { state = State.increase_last_voted_view w.state })))
        (λ _ _.
          Agrees-after (λ u. lift (State.make_timeout e.crypto u.state) u)
            (λ t _.
              Agrees-after (modify (gossip (ConsensusMessage.timeout t) true))
                (λ _ _. handle_timeout-Agrees t _)))

  handle_tc-Agrees :
      (tc : Tc) (w : ConsensusWorker C) → Agrees (handle_tc e fuel tc) (handle_tc e more tc) w
  unfolding handle_tc
  handle_tc-Agrees tc w =
      Agrees-after (λ u. lift (State.verify_tc e.crypto u.state tc) u)
        (λ _ _.
          Agrees-after
            (modify (λ w.
              let w' = reset_timer (advance_view tc.view w) in
              record w' { processing_block = none }))
            (λ _ _.
              Agrees-after (λ u. lift (State.is_leader u.state) u)
                (λ leads _.
                  Agrees-if leads (generate_proposal-Agrees none _) (Agrees-refl {m = pure tt}))))

  handle_event-Agrees :
      (event : Event) (w : ConsensusWorker C)
      → Agrees (handle_event e fuel event) (handle_event e more event) w
  unfolding handle_event handle_message
  handle_event-Agrees timer w = handle_local_timer-Agrees w
  handle_event-Agrees (message (ConsensusMessage.propose p)) w =
      handle_proposal-Agrees e fuel more p w le
  handle_event-Agrees (message (ConsensusMessage.vote v)) w = handle_vote-Agrees e fuel more v w le
  handle_event-Agrees (message (ConsensusMessage.timeout t)) w = handle_timeout-Agrees t w
  handle_event-Agrees (message (ConsensusMessage.tc tc)) w = handle_tc-Agrees tc w
  handle_event-Agrees (message (ConsensusMessage.sync_request hash id)) w = Agrees-refl
  handle_event-Agrees (message ConsensusMessage.phantom) w = Agrees-refl
  handle_event-Agrees (queue q) w = Agrees-refl

  more-eq :
      (event : Event) (w : ConsensusWorker C) (r : Outcome (Unit {0}) × ConsensusWorker C)
      → handle_event e fuel event w ≡ r
      → r.0 ≢ out_of_fuel
      → handle_event e more event w ≡ r
  more-eq event w r h enough =
      sym (Agrees-eq (handle_event-Agrees event w) (λ out. enough (sym (ap (λ r. r.0) h) ∙ out)))
      ∙ h

  -- The loop after an event that ended the same way.
  run-after :
      (event : Event) (events : List Event) (w : ConsensusWorker C)
      (r : Outcome (Unit {0}) × ConsensusWorker C)
      → handle_event e fuel event w ≡ r
      → ((u : ConsensusWorker C) → Agrees (run e fuel events) (run e more events) u)
      → Agrees (run e fuel (event ∷ events)) (run e more (event ∷ events)) w
  unfolding run
  run-after event events w (out_of_fuel, u) h rest = agrees (λ enough. absurd (enough (rw h refl)))
  run-after event events w (ok tt, u) h rest =
      Agrees-by (run e fuel events) (run e more events) u (rw h refl)
        (rw (more-eq event w _ h (λ out. cc)) refl) (rest u)
  run-after event events w (err x, u) h rest =
      Agrees-by (run e fuel events) (run e more events) u (rw h refl)
        (rw (more-eq event w _ h (λ out. cc)) refl) (rest u)
  run-after event events w (panicked, u) h rest =
      agrees (λ _. rw (h, more-eq event w _ h (λ out. cc)) refl)

  run-Agrees :
      (events : List Event) (w : ConsensusWorker C)
      → Agrees (run e fuel events) (run e more events) w
  unfolding run
  run-Agrees [] w = Agrees-refl
  run-Agrees (event ∷ events) w = run-after event events w _ refl (run-Agrees events)

-- With at least two authorities, all of them distinct, and a view below 2^64, the event loop never
-- panics and never runs out of fuel, whatever events it meets: fuel of three is enough for all calls
-- that the handlers of proposals and votes make of one another, so that every handler ends with a
-- value or with an error that the loop drops, and on more fuel the loop leaves the same worker.
pub run-enough :
    {C : Type 0} (e : Platform C) (fuel : ℕ) (events : List Event) (w : ConsensusWorker C)
    → 3 ≤ fuel
    → 1 < length w.state.authorities
    → Distinct (ids w.state.authorities)
    → w.state.view < u64_mod
    → run e fuel events w ≡ (ok tt, (run e 3 events w).1)
run-enough e fuel events w enough two distinct bound =
    let answers = run-ok e 3 events w (omega arith) two distinct bound in
    let same =
      Agrees-eq (run-Agrees e 3 fuel enough events w) (λ out. contradiction (sym answers ∙ out)) in
    sym same ∙ ap (λ o. (o, (run e 3 events w).1)) answers
  where
    contradiction : ok tt ≡ out_of_fuel → ⊥
    contradiction h = cc
