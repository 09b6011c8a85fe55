-- ===== src/Worker/Settles/Events.antt =====
-- The event loop (consensus.rs, `run`) answers on fuel of three.
use madara_hotstuff.Base.{
  ℕ, ◌<◌, ◌≤◌, ◌≡◌, refl, inl, inr, true, List, [], ◌∷◌, none, arith, Bool-cases, ltb, Distinct,
  length, u64_mod,
}
use madara_hotstuff.Primitives.{AuthorityList, Outcome, ok, err, panicked, out_of_fuel}
use madara_hotstuff.Crypto.{Keystore}
use madara_hotstuff.Action.{pure}
use madara_hotstuff.Platform.{Platform}
use madara_hotstuff.Message.Tc.{Tc}
use madara_hotstuff.Message.Timeout.{Timeout}
use madara_hotstuff.Message.Consensus.{ConsensusMessage}
use madara_hotstuff.Message.Checked.{ids}
use madara_hotstuff.Message.Answers.{IsAnswer}
use madara_hotstuff.State
use madara_hotstuff.State.Turns.{is_leader-IsAnswer, verify_tc-IsAnswer, make_timeout-IsAnswer}
use madara_hotstuff.Worker.{ConsensusWorker, reset_timer, gossip, advance_view}
use madara_hotstuff.Worker.Handlers.{drop_error, handle_proposal, handle_vote}
use madara_hotstuff.Worker.Loop.{
  count_timeout, handle_timeout, handle_local_timer, handle_tc, handle_message, Event, timer,
  message, queue, handle_event, run,
}
use madara_hotstuff.Worker.Settles.{
  IsNode, Settles, Settles-IsAnswer, Settles-IsNode, advance_view-IsNode, same_state-IsNode,
  Settles-modify, Settles-check, Settles-pure, Settles-last, Settles-by, Settles-if,
}
use madara_hotstuff.Worker.Settles.Timeouts.{generate_proposal-Settles, count_timeout-Settles}
use madara_hotstuff.Worker.Settles.Depth.{handle_vote-Settles, handle_proposal-Settles}

module _ {C : Type 0} (e : Platform C) (k : Keystore) (authorities : AuthorityList)
    (two : 1 < length authorities) (distinct : Distinct (ids authorities)) (fuel : ℕ)
    (enough : 3 ≤ fuel) where
  some_one : 0 < length authorities
  some_one = omega arith

  handle_timeout-Settles :
      (t : Timeout) (w : ConsensusWorker C)
      → IsNode k authorities w
      → Settles k authorities (handle_timeout e fuel t) w
  unfolding handle_timeout
  handle_timeout-Settles t w n = elim (Bool-cases (ltb t.view w.state.view)) [
    | inl old ↦ Settles-by k authorities (pure tt) w (rw old refl) (Settles-pure k authorities tt n)
    | inr live ↦
        Settles-by k authorities (count_timeout e fuel t) w (rw live refl)
          (count_timeout-Settles e k authorities two distinct fuel enough t w n)
  ]

  -- The worker once the timer has been reset and voting in the current view given up.
  given_up : ConsensusWorker C → ConsensusWorker C
  given_up w = reset_timer (record w { state = State.increase_last_voted_view w.state })

  given_up-IsNode :
      (w : ConsensusWorker C) → IsNode k authorities w → IsNode k authorities (given_up w)
  unfolding given_up
  given_up-IsNode w n = record { keystore = n.keystore; list = n.list; bound = n.bound }

  handle_local_timer-Settles :
      (w : ConsensusWorker C)
      → IsNode k authorities w
      → Settles k authorities (handle_local_timer e fuel) w
  unfolding handle_local_timer given_up
  handle_local_timer-Settles w n =
      let n' = given_up-IsNode w n in
      Settles-modify k authorities given_up (λ _.
        Settles-check k authorities (λ u. State.make_timeout e.crypto u.state) n'
          (make_timeout-IsAnswer e.crypto (given_up w).state)
          (λ t made. Settles-modify k authorities (gossip (ConsensusMessage.timeout t) true) (λ _.
            handle_timeout-Settles t _ (
              same_state-IsNode k authorities (given_up w)
                (gossip (ConsensusMessage.timeout t) true (given_up w)) refl n'))))

  -- The worker that a timeout certificate from the network has moved.
  moved : Tc → ConsensusWorker C → ConsensusWorker C
  moved tc w =
      let w' = reset_timer (advance_view tc.view w) in record w' { processing_block = none }

  moved-IsNode :
      (tc : Tc) (w : ConsensusWorker C) → IsNode k authorities w → IsNode k authorities (moved tc w)
  unfolding moved
  moved-IsNode tc w n =
      same_state-IsNode k authorities (advance_view tc.view w) (moved tc w) refl
        (advance_view-IsNode k authorities tc.view w n)

  handle_tc-Settles :
      (tc : Tc) (w : ConsensusWorker C)
      → IsNode k authorities w
      → Settles k authorities (handle_tc e fuel tc) w
  unfolding handle_tc moved
  handle_tc-Settles tc w n =
      let n' = moved-IsNode tc w n in
      Settles-check k authorities (λ u. State.verify_tc e.crypto u.state tc) n
        (verify_tc-IsAnswer e.crypto w.state tc)
        (λ _ valid. Settles-modify k authorities (moved tc) (λ _.
          Settles-check k authorities (λ u. State.is_leader u.state) n'
            (is_leader-IsAnswer (moved tc w).state (rw n'.list some_one))
            (λ leads _.
              Settles-if k authorities leads
                (λ _. generate_proposal-Settles e k authorities two distinct fuel enough none _ n')
                (λ _. Settles-pure k authorities tt n'))))

  -- A handler that settles may stand for its event.
  handle_event-Settles :
      (event : Event) (w : ConsensusWorker C)
      → IsNode k authorities w
      → Settles k authorities (handle_event e fuel event) w
  unfolding handle_event handle_message
  handle_event-Settles timer w n =
      Settles-by k authorities (handle_local_timer e fuel) w refl (handle_local_timer-Settles w n)
  handle_event-Settles (message (ConsensusMessage.propose p)) w n =
      Settles-by k authorities (handle_proposal e fuel p) w refl
        (handle_proposal-Settles e k authorities two distinct fuel p w enough n)
  handle_event-Settles (message (ConsensusMessage.vote v)) w n =
      Settles-by k authorities (handle_vote e fuel v) w refl
        (handle_vote-Settles e k authorities two distinct fuel v w (omega arith) n)
  handle_event-Settles (message (ConsensusMessage.timeout t)) w n =
      Settles-by k authorities (handle_timeout e fuel t) w refl (handle_timeout-Settles t w n)
  handle_event-Settles (message (ConsensusMessage.tc tc)) w n =
      Settles-by k authorities (handle_tc e fuel tc) w refl (handle_tc-Settles tc w n)
  handle_event-Settles (message (ConsensusMessage.sync_request hash id)) w n =
      Settles-pure k authorities tt n
  handle_event-Settles (message ConsensusMessage.phantom) w n = Settles-pure k authorities tt n
  handle_event-Settles (queue q) w n =
      Settles-last k authorities (λ w. record w { pending_finalize_queue = q })
        (same_state-IsNode k authorities w (record w { pending_finalize_queue = q }) refl n)

  -- What the loop makes of a handler that answers.
  drop_error-ok :
      (r : Outcome (Unit {0}) × ConsensusWorker C) → IsAnswer r.0 → drop_error r ≡ (ok tt, r.1)
  drop_error-ok (ok tt, u) a = refl
  drop_error-ok (err x, u) a = refl
  drop_error-ok (panicked, u) a = elim a [ ]
  drop_error-ok (out_of_fuel, u) a = elim a [ ]

  run-IsNode :
      (events : List Event) (w : ConsensusWorker C)
      → IsNode k authorities w
      → ((run e fuel events w).0 ≡ ok tt) × IsNode k authorities (run e fuel events w).1
  unfolding run
  run-IsNode [] w n = (refl, n)
  run-IsNode (event ∷ events) w n =
      let s = handle_event-Settles event w n in
      let dropped =
        drop_error-ok (handle_event e fuel event w) (Settles-IsAnswer k authorities s) in
      rw dropped
        (run-IsNode events (handle_event e fuel event w).1 (Settles-IsNode k authorities s))

-- With at least two authorities, all of them distinct, and a view below 2^64, the event loop never
-- panics and never runs out of fuel, whatever events it meets: fuel of three is enough for all calls
-- that the handlers of proposals and votes make of one another, and every handler ends with a value
-- or with an error that the loop drops.
pub run-ok :
    {C : Type 0} (e : Platform C) (fuel : ℕ) (events : List Event) (w : ConsensusWorker C)
    → 3 ≤ fuel
    → 1 < length w.state.authorities
    → Distinct (ids w.state.authorities)
    → w.state.view < u64_mod
    → (run e fuel events w).0 ≡ ok tt
run-ok e fuel events w enough two distinct bound =
    (run-IsNode e w.state.keystore w.state.authorities two distinct fuel enough events w
      (record { keystore = refl; list = refl; bound = bound })).0
