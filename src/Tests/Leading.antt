-- ===== src/Tests/Leading.antt =====
-- The theorem on a leader that proposes, at authority 1, which leads view 4 of four authorities, with
-- the third vote of view 3.
use madara_hotstuff.Base.{ℕ, ◌≤◌, ◌≡◌, refl, Bool, false, List, [], ◌∷◌, ◌++◌, some, wrap64}
use madara_hotstuff.Primitives.{ok}
use madara_hotstuff.Message.Qc.{Qc}
use madara_hotstuff.Message.Vote
use madara_hotstuff.Message.Vote.{Vote}
use madara_hotstuff.Message.Proposal.{Proposal}
use madara_hotstuff.Message.Consensus.{ConsensusMessage}
use madara_hotstuff.Aggregator
use madara_hotstuff.Aggregator.{Aggregator}
use madara_hotstuff.State
use madara_hotstuff.Worker.{ConsensusWorker, new}
use madara_hotstuff.Worker.Payloads.{empty_at, get_proposal_payload}
use madara_hotstuff.Worker.Handlers.{handle_vote, withholds}
use madara_hotstuff.Worker.Leading.{Goes, Signs, leader_proposes}
use madara_hotstuff.Tests.Sample.{Store, platform, keystore, authorities}

-- The digest of (4, 3) is 34.
abbrev vote_of : ℕ → ℕ → Vote
vote_of voter s = record { proposal_hash = 4; view = 3; voter = voter; signature = some s }

abbrev two_votes : Aggregator
two_votes =
    (Aggregator.add_vote platform.crypto
      (Aggregator.add_vote platform.crypto Aggregator.new (vote_of 1 41) authorities).1
      (vote_of 2 75) authorities).1

abbrev worker : ConsensusWorker Store
worker =
    new (record (State.new keystore authorities) { view = 3; aggregator = two_votes }) []
      (some (record { hash = some 5; number = 2 } ∷ []))

abbrev qc : Qc
qc = record { proposal_hash = 4; view = 3; votes = (1, 41) ∷ (2, 75) ∷ (3, 109) ∷ [] }

verified : State.verify_vote platform.crypto worker.state (vote_of 3 109) ≡ ok tt
unfolding State.verify_vote Vote.verify Vote.check_member Vote.check_signature Vote.digest
verified = refl

made : (State.add_vote platform.crypto worker.state (vote_of 3 109)).0 ≡ ok (some qc)
unfolding State.add_vote Aggregator.add_vote Aggregator.append_vote Vote.digest
made = refl

leads : State.view_leader worker.state (wrap64 4) ≡ ok 1
unfolding State.view_leader
leads = refl

mine : State.local_authority_id worker.state ≡ some 1
unfolding State.local_authority_id
mine = refl

found : (get_proposal_payload platform worker).0 ≡ some (empty_at platform 2)
unfolding get_proposal_payload
found = refl

goes : Goes platform (empty_at platform 2) worker
unfolding withholds
goes = refl

signs : Signs platform 1 worker
signs d = (some _, refl)

leader_proposes_example :
    (p : Proposal) × (sent : List (ConsensusMessage × Bool)) × ((handle_vote platform 3
        (vote_of 3 109)
        worker).1.gossiped
      ≡ sent ++ (ConsensusMessage.propose p, false) ∷ [])
    × (p.view ≡ wrap64 4)
    × (p.payload ≡ empty_at platform 2)
    × (p.author ≡ 1)
    × (3 ≤ p.qc.view)
leader_proposes_example =
    leader_proposes platform 3 (vote_of 3 109) qc 1 (empty_at platform 2) worker verified made refl
      leads mine found goes signs
