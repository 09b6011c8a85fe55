-- ===== src/Worker/Loop.antt =====
-- Timeouts, timeout certificates and the event loop of `ConsensusWorker` (consensus.rs). `fuel`
-- bounds how deep the handlers of proposals and votes call one another.
use madara_hotstuff.Base.{ℕ, true, List, [], ◌∷◌, Option, none, some, ltb, leb, if◌then◌else◌}
use madara_hotstuff.Primitives.{ok}
use madara_hotstuff.Action.{◌>>=◌, ◌>>◌, pure, lift, modify}
use madara_hotstuff.Platform.{Platform}
use madara_hotstuff.Message.Tc.{Tc}
use madara_hotstuff.Message.Timeout.{Timeout}
use madara_hotstuff.Message.Consensus.{ConsensusMessage}
use madara_hotstuff.State
use madara_hotstuff.Import.{BlockInfo}
use madara_hotstuff.Worker.{reset_timer, gossip, advance_view}
use madara_hotstuff.Worker.Payloads.{get_proposal_payload}
use madara_hotstuff.Worker.Handlers.{
  Handler, on_state, handle_qc, propose, drop_error, handle_proposal, handle_vote,
}

module _ {C : Type 0} (e : Platform C) where
  unfoldable pub generate_proposal : ℕ → Option Tc → Handler e
  generate_proposal fuel tc w =
      let (found, w') = get_proposal_payload e w in
      elim found [
        | none ↦ (ok tt, w')
        | some payload ↦ propose e (handle_proposal e fuel) payload tc w'
      ]

  -- A leader proposes, after it has dropped the block in process.
  unfoldable pub lead_from_tc : ℕ → Option Tc → Handler e
  lead_from_tc fuel tc = do
    modify (λ w. record w { processing_block = none })
    generate_proposal fuel tc

  -- `handle_timeout` once the timeouts have made a certificate.
  unfoldable pub on_tc : ℕ → Tc → Handler e
  on_tc fuel tc = do
    modify (λ w. if leb w.state.view tc.view then reset_timer (advance_view tc.view w) else w)
    modify (gossip (ConsensusMessage.tc tc) true)
    leads ← (λ w. lift (State.is_leader w.state) w)
    (if leads then lead_from_tc fuel (some tc) else pure tt)

  unfoldable pub count_timeout : ℕ → Timeout → Handler e
  count_timeout fuel t = do
    (λ w. lift (State.verify_timeout e.crypto w.state t) w)
    modify (handle_qc t.high_qc)
    made ← on_state (λ s. State.add_timeout s t)
    elim made [ none ↦ pure tt | some tc ↦ on_tc fuel tc ]

  unfoldable pub handle_timeout : ℕ → Timeout → Handler e
  handle_timeout fuel t w = if ltb t.view w.state.view then (ok tt, w) else count_timeout fuel t w

  unfoldable pub handle_local_timer : ℕ → Handler e
  handle_local_timer fuel = do
    modify (λ w. reset_timer (record w { state = State.increase_last_voted_view w.state }))
    t ← (λ w. lift (State.make_timeout e.crypto w.state) w)
    modify (gossip (ConsensusMessage.timeout t) true)
    handle_timeout fuel t

  unfoldable pub handle_tc : ℕ → Tc → Handler e
  handle_tc fuel tc = do
    (λ w. lift (State.verify_tc e.crypto w.state tc) w)
    modify (λ w.
        let w' = reset_timer (advance_view tc.view w) in record w' { processing_block = none })
    leads ← (λ w. lift (State.is_leader w.state) w)
    (if leads then generate_proposal fuel none else pure tt)

  -- What the loop of `run` waits for: the timer, or a message of the channel.
  unfoldable pub handle_message : ℕ → ConsensusMessage → Handler e
  handle_message fuel (ConsensusMessage.propose p) = handle_proposal e fuel p
  handle_message fuel (ConsensusMessage.vote v) = handle_vote e fuel v
  handle_message fuel (ConsensusMessage.timeout t) = handle_timeout fuel t
  handle_message fuel (ConsensusMessage.tc tc) = handle_tc fuel tc
  handle_message fuel (ConsensusMessage.sync_request hash id) = pure tt
  handle_message fuel ConsensusMessage.phantom = pure tt

-- An event of the loop.
pub data Event : Type 0 where
  timer : Event
  message : ConsensusMessage → Event
  -- The other task, or the network behind the client, changes the queue.
  queue : Option (List BlockInfo) → Event

module _ {C : Type 0} (e : Platform C) where
  unfoldable pub handle_event : ℕ → Event → Handler e
  handle_event fuel timer = handle_local_timer e fuel
  handle_event fuel (message m) = handle_message e fuel m
  handle_event fuel (queue q) = modify (λ w. record w { pending_finalize_queue = q })

  -- `run`: an error is logged and dropped, a panic ends the task.
  unfoldable pub run : ℕ → List Event → Handler e
  run fuel [] = pure tt
  run fuel (event ∷ events) = do (λ w. drop_error (handle_event fuel event w)); run fuel events
