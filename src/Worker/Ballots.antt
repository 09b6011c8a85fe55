-- ===== src/Worker/Ballots.antt =====
-- The votes that a worker (consensus.rs) makes along its steps: those that it sends and those that it
-- keeps for itself as the next leader.
pub mod OneView
use madara_hotstuff.Base.{◌<◌, ◌≤◌, ◌≡◌, refl, sym, ◌∙◌, ◌⊎◌, inl, inr, Option, none, some, arith}
use madara_hotstuff.Platform.{Platform}
use madara_hotstuff.Message.Vote.{Vote}
use madara_hotstuff.Message.Proposal.{Proposal}
use madara_hotstuff.State
use madara_hotstuff.State.Voting.{make_vote_lem}
use madara_hotstuff.Worker.{ConsensusWorker}
use madara_hotstuff.Worker.Progress.{Step-Advances, Reach-Advances}
use madara_hotstuff.Worker.Steps.{
  Step, learn, count, certify, count_timeout, follow, ballot, cast, give_up, send_proposal,
  send_timeout, expire, save, finalized, tidy, Reach, here, next,
}

module _ {C : Type 0} (e : Platform C) where
  -- The vote that a step makes, kept back or sent.
  abbrev pub vote_of : {w u : ConsensusWorker C} → Step e w u → Option Vote
  vote_of (learn w qc a) = none
  vote_of (count w v a) = none
  vote_of (certify w v qc a b) = none
  vote_of (count_timeout w t a) = none
  vote_of (follow w tc a) = none
  vote_of (give_up w) = none
  vote_of (send_proposal w p payload tc a) = none
  vote_of (send_timeout w t a) = none
  vote_of (expire w t tc a b) = none
  vote_of (save w p a) = none
  vote_of (finalized w p parent grandpa a b c) = none
  vote_of (tidy w requests resets processing pending hashes) = none
  vote_of (ballot w p a) = (State.make_vote e.crypto w.state p).0
  vote_of (cast w p v a b) = (State.make_vote e.crypto w.state p).0

  -- One of the steps makes the vote.
  abbrev pub Made : {w u : ConsensusWorker C} → Reach e w u → Vote → Type 0
  Made here vote = ⊥
  Made (next r s) vote = Made r vote ⊎ (vote_of s ≡ some vote)

  -- The vote of a step is above the last voted view, which becomes its view.
  vote_of-view :
      {w u : ConsensusWorker C} (s : Step e w u) (vote : Vote)
      → vote_of s ≡ some vote
      → (w.state.last_voted_view < vote.view) × (vote.view ≤ u.state.last_voted_view)
  vote_of-view (learn w qc a) vote made = cc
  vote_of-view (count w v a) vote made = cc
  vote_of-view (certify w v qc a b) vote made = cc
  vote_of-view (count_timeout w t a) vote made = cc
  vote_of-view (follow w tc a) vote made = cc
  vote_of-view (give_up w) vote made = cc
  vote_of-view (send_proposal w p payload tc a) vote made = cc
  vote_of-view (send_timeout w t a) vote made = cc
  vote_of-view (expire w t tc a b) vote made = cc
  vote_of-view (save w p a) vote made = cc
  vote_of-view (finalized w p parent grandpa a b c) vote made = cc
  vote_of-view (tidy w requests resets processing pending hashes) vote made = cc
  vote_of-view (ballot w p a) vote made =
      let (_, above, _, _, last) = (make_vote_lem e.crypto w.state p).0 vote made in
      (above, omega (arith, last))
  vote_of-view (cast w p v a b) vote made =
      let (_, above, _, _, last) = (make_vote_lem e.crypto w.state p).0 vote made in
      (above, omega (arith, last))

  pub Made-view :
      {w u : ConsensusWorker C} (r : Reach e w u) (vote : Vote)
      → Made r vote
      → (w.state.last_voted_view < vote.view) × (vote.view ≤ u.state.last_voted_view)
  Made-view here vote m = elim m [ ]
  Made-view (next r s) vote (inl before) =
      let (above, last) = Made-view r vote before in
      (above, omega (arith, last, (Step-Advances e s).voted))
  Made-view (next r s) vote (inr now) =
      let (above, last) = vote_of-view s vote now in
      (omega (arith, above, (Reach-Advances e r).voted), last)

  -- Two votes of one view that a worker makes, whether it sends them or keeps them, are the same.
  pub Made-unique :
      {w u : ConsensusWorker C} (r : Reach e w u) (a b : Vote)
      → Made r a
      → Made r b
      → a.view ≡ b.view
      → a ≡ b
  Made-unique here a b m m' same = elim m [ ]
  Made-unique (next r s) a b (inl before) (inl before') same = Made-unique r a b before before' same
  Made-unique (next r s) a b (inl before) (inr now) same =
      absurd (omega (arith, same, (Made-view r a before).1, (vote_of-view s b now).0))
  Made-unique (next r s) a b (inr now) (inl before) same =
      absurd (omega (arith, same, (Made-view r b before).1, (vote_of-view s a now).0))
  Made-unique (next r s) a b (inr now) (inr now') same = cc
