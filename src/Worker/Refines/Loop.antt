-- ===== src/Worker/Refines/Loop.antt =====
-- The event loop (consensus.rs) as steps.
use madara_hotstuff.Base.{ℕ, List, [], ◌∷◌}
use madara_hotstuff.Platform.{Platform}
use madara_hotstuff.Message.Consensus.{ConsensusMessage}
use madara_hotstuff.Worker.{ConsensusWorker}
use madara_hotstuff.Worker.Handlers.{drop_error, handle_proposal, handle_vote}
use madara_hotstuff.Worker.Loop.{
  handle_local_timer, handle_message, Event, timer, message, queue, handle_event, run,
}
use madara_hotstuff.Worker.Steps.{Reach, here, Runs, runs, Runs-Reach, Runs-then, and_then-Reach}
use madara_hotstuff.Worker.Refines.Votes.{tidied, handle_vote_with-Runs, drop_error-Reach}
use madara_hotstuff.Worker.Refines.Proposals.{handle_proposal-Runs}
use madara_hotstuff.Worker.Refines.Timeouts.{
  handle_timeout-Runs, given_up, handle_local_timer-after, handle_local_timer-Runs, handle_tc-Runs,
}

module _ {C : Type 0} (e : Platform C) where
  handle_event-Runs :
      (fuel : ℕ) (event : Event) (w : ConsensusWorker C) → Runs e (handle_event e fuel event) w
  unfolding handle_event handle_message handle_vote
  handle_event-Runs fuel timer w = runs (Runs-Reach e (handle_local_timer-Runs e fuel w))
  handle_event-Runs fuel (message (ConsensusMessage.propose p)) w =
      runs (Runs-Reach e (handle_proposal-Runs e fuel p w))
  handle_event-Runs fuel (message (ConsensusMessage.vote v)) w = runs (
      Runs-Reach e
        (handle_vote_with-Runs e (handle_proposal e fuel) v w (handle_proposal-Runs e fuel)))
  handle_event-Runs fuel (message (ConsensusMessage.timeout t)) w =
      runs (Runs-Reach e (handle_timeout-Runs e fuel t w))
  handle_event-Runs fuel (message (ConsensusMessage.tc tc)) w =
      runs (Runs-Reach e (handle_tc-Runs e fuel tc w))
  handle_event-Runs fuel (message (ConsensusMessage.sync_request hash id)) w = runs here
  handle_event-Runs fuel (message ConsensusMessage.phantom) w = runs here
  handle_event-Runs fuel (queue q) w =
      runs (tidied e w w.sync_requests w.timer_resets w.processing_block q w.proposal_hash_queue)

  run-Runs : (fuel : ℕ) (events : List Event) (w : ConsensusWorker C) → Runs e (run e fuel events) w
  unfolding run
  run-Runs fuel [] w = runs here
  run-Runs fuel (event ∷ events) w =
      Runs-then e (λ u. drop_error (handle_event e fuel event u))
        (runs (drop_error-Reach e _ (Runs-Reach e (handle_event-Runs fuel event w))))
        (λ _ _. run-Runs fuel events _)

  -- Whatever events the loop of `run` meets, and however deep its handlers call one another, the
  -- worker goes through a sequence of the steps that the step relation allows. A proposal is acted on
  -- only if the leader of its view signed it with the default certificate or a valid one, and voted
  -- for only in its view; a vote is counted only if an authority signed it for a view that is not
  -- behind; a timeout only if an authority signed it with such a certificate; a timeout certificate
  -- is followed only if it is valid and not behind, or carried by such a proposal; and only the
  -- leader of its view proposes.
  pub run-Reach :
      (fuel : ℕ) (events : List Event) (w : ConsensusWorker C) → Reach e w (run e fuel events w).1
  run-Reach fuel events w = Runs-Reach e (run-Runs fuel events w)

  -- The same after the timer's first act: voting in the current view is given up.
  pub timer-Reach :
      (fuel : ℕ) (events : List Event) (w : ConsensusWorker C)
      → Reach e (given_up w) (run e fuel (timer ∷ events) w).1
  unfolding run handle_event
  timer-Reach fuel events w =
      and_then-Reach e (drop_error (handle_local_timer e fuel w)) (λ _. run e fuel events)
        (drop_error-Reach e _ (handle_local_timer-after e fuel w)) (λ _ _. run-Reach fuel events _)
