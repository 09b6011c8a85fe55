-- ===== src/Tests/Runs.antt =====
-- The theorems about the worker, at runs of a timer and a proposal.
use madara_hotstuff.Base.{
  refl, u64_mod, ◌<◌, ◌≤◌, ◌≡◌, ◌⊎◌, List, [], ◌∷◌, ◌++◌, Bool, Option, some, arith, wrap64, All,
  if◌then◌else◌, ltb, none,
}
use madara_hotstuff.Primitives.{Bytes, ok, err, success, failure, null_signature, client_error}
use madara_hotstuff.Platform.{unknown}
use madara_hotstuff.Message.Vote
use madara_hotstuff.Message.Proposal
use madara_hotstuff.Synchronizer
use madara_hotstuff.Worker.Payloads.{get_proposal_payload}
use madara_hotstuff.Worker.Guards.{IsKnown}
use madara_hotstuff.Worker.Refusals.{Answers, handle_proposal-refused}
use madara_hotstuff.Message.Qc
use madara_hotstuff.Message.Qc.{Qc}
use madara_hotstuff.Message.Consensus.{ConsensusMessage}
use madara_hotstuff.State
use madara_hotstuff.Import.{BlockInfo}
use madara_hotstuff.Worker.{ConsensusWorker, new}
use madara_hotstuff.Worker.Handlers.{handle_qc, handle_proposal, try_finalize}
use madara_hotstuff.Worker.Loop.{Event, timer, message, run}
use madara_hotstuff.Worker.Steps.{Reach}
use madara_hotstuff.Worker.Refines.Loop.{run-Reach}
use madara_hotstuff.Worker.Fuel.Events.{run-enough}
use madara_hotstuff.Worker.Progress.{Advances, ballots}
use madara_hotstuff.Worker.Safety.{IsSafe}
use madara_hotstuff.Worker.Safety.Run.{run-IsSafe, run-Advances, timer_silences}
use madara_hotstuff.Worker.Views.{handle_qc_branches, IsFinal, try_finalize_branches}
use madara_hotstuff.Worker.Choices.{Starts, Continues, get_proposal_payload_branches}
use madara_hotstuff.Tests.Sample.{
  Store, platform, keystore, authorities, grandpa, parent, child, saved_both,
}

abbrev events : List Event
events = timer ∷ message (ConsensusMessage.propose grandpa) ∷ []

abbrev pending : Option (List BlockInfo)
pending = some (record { hash = some 5; number = 2 } ∷ [])

abbrev worker : ConsensusWorker Store
worker = new (State.new keystore authorities) [] pending

run-IsSafe_example : IsSafe platform (run platform 5 events worker).1
run-IsSafe_example = run-IsSafe platform keystore authorities [] pending 5 events

run-enough_example : run platform 7 events worker ≡ (ok tt, (run platform 3 events worker).1)
run-enough_example =
    run-enough platform 7 events worker (omega arith) (omega arith)
      (refl, (refl, (refl, (refl, tt)))) (omega arith)

run-Reach_example : Reach platform worker (run platform 5 events worker).1
run-Reach_example = run-Reach platform 5 events worker

timer_silences_example :
    (sent : List (ConsensusMessage × Bool)) × ((run platform 5 (timer ∷ events) worker).1.gossiped
      ≡ sent ++ [])
    × All (λ view. 0 < view) (ballots sent)
timer_silences_example = timer_silences platform 5 events worker

run-Advances_example :
    Advances worker (run platform 5 events worker).1
    × ((run platform 5 events worker).1.state.view < u64_mod)
    × (((0 ≤ (run platform 5 events worker).1.state.view)
          × ((run platform 5 events worker).1.state.view ≤ 24))
        ⊎ (u64_mod ≤ 24))
    × ((sent : List (ConsensusMessage × Bool)) × ((run platform 5 events worker).1.gossiped
          ≡ sent ++ [])
        × All (λ view. 0 < view) (ballots sent))
run-Advances_example = run-Advances platform 5 events worker (omega arith)

abbrev later : Qc
later = record { proposal_hash = 4; view = 3; votes = [] }

handle_qc_branches_example :
    ((3 < 0) × (handle_qc later worker ≡ worker))
    ⊎ ((0 ≤ 3)
        × ((handle_qc later worker).timer_resets ≡ 1)
        × ((handle_qc later worker).state.high_qc ≡ (if ltb 0 3 then later else Qc.default))
        × (((later.view ≡ worker.state.view) × ((handle_qc later worker).state.view ≡ wrap64 1))
            ⊎ ((0 < 3) × ((handle_qc later worker).state.view ≡ 0))))
handle_qc_branches_example = handle_qc_branches later worker

get_proposal_payload_branches_example :
    ((worker.pending_finalize_queue ≡ none)
      × (get_proposal_payload platform worker ≡ (none, worker)))
    ⊎ ((queue : List BlockInfo) × (worker.pending_finalize_queue ≡ some queue)
        × (((worker.processing_block ≡ none)
              × Starts platform worker queue (get_proposal_payload platform worker))
            ⊎ ((processing : BlockInfo) × (worker.processing_block ≡ some processing)
                × Continues platform worker queue processing 1
                    (get_proposal_payload platform worker))))
get_proposal_payload_branches_example = get_proposal_payload_branches platform worker

unsigned : State.verify_proposal platform.crypto worker.state grandpa ≡ err null_signature
unfolding State.verify_proposal State.view_leader Proposal.verify Vote.check_member
    Vote.check_signature
unsigned = refl

handle_proposal-refused_example :
    (IsKnown platform worker grandpa
      × (handle_proposal platform 4 grandpa worker ≡ (err null_signature, worker)))
    ⊎ ((Answers platform worker grandpa (success unknown)
          × (handle_proposal platform 4 grandpa worker
              ≡ (ok tt, record worker { sync_requests = (5, 2) ∷ [] })))
        ⊎ ((text : Bytes) × Answers platform worker grandpa (failure text)
            × (handle_proposal platform 4 grandpa worker ≡ (err (client_error text), worker))))
handle_proposal-refused_example =
    handle_proposal-refused platform 3 grandpa worker null_signature unsigned

abbrev supplied : ConsensusWorker Store
supplied = record worker { client = saved_both }

ancestors : Synchronizer.get_proposal_ancestors platform saved_both child ≡ ok (parent, grandpa)
unfolding Synchronizer.get_proposal_ancestors Synchronizer.get_proposal_parent
ancestors = refl

try_finalize_branches_example :
    (IsFinal platform supplied parent grandpa
      × (try_finalize platform child supplied ≡ (ok tt, supplied)))
    ⊎ ((¬ IsFinal platform supplied parent grandpa)
        × (try_finalize platform child supplied ≡ (ok tt, supplied)))
try_finalize_branches_example =
    try_finalize_branches platform supplied child parent grandpa ancestors
