-- ===== src/Worker/Safety.antt =====
-- The invariant of a worker (consensus.rs): what it has counted is verified, its high certificate
-- is certified, it votes at most once per view, and the gossip validator has its view.
pub mod Steps
pub mod Run
use madara_hotstuff.Base.{
  ℕ, suc, ◌+◌, ◌<◌, ◌≤◌, ◌≡◌, ◌≢◌, refl, sym, ◌∙◌, subst, ◌⊎◌, inl, inr, Bool, true, false, List,
  [], ◌∷◌, ◌++◌, Option, none, some, arith, All, Bool-cases, leb,
}
use madara_hotstuff.Primitives.{AuthorityList, ViewNumber, ok}
use madara_hotstuff.Crypto.{Crypto, Keystore}
use madara_hotstuff.Platform.{Platform}
use madara_hotstuff.Message.Qc
use madara_hotstuff.Message.Qc.{Qc}
use madara_hotstuff.Message.Vote
use madara_hotstuff.Message.Vote.{Vote}
use madara_hotstuff.Message.Quorum.{IsCertificate, verify-iff-IsCertificate}
use madara_hotstuff.Message.Checked.{IsAccepted}
use madara_hotstuff.Message.Certificates.{IsLocal}
use madara_hotstuff.Message.Timeout.{Timeout}
use madara_hotstuff.Message.Proposal.{Proposal}
use madara_hotstuff.Message.Consensus
use madara_hotstuff.Message.Consensus.{ConsensusMessage}
use madara_hotstuff.Aggregator
use madara_hotstuff.Aggregator.Certified.{
  AllSound, new-AllSound, add_vote-AllSound, add_vote-certificate,
}
use madara_hotstuff.Aggregator.Timeouts.{AllTimely, new-AllTimely, add_timeout-AllTimely}
use madara_hotstuff.State
use madara_hotstuff.State.{ConsensusState}
use madara_hotstuff.State.Voting.{make_vote_lem}
use madara_hotstuff.Import.{BlockInfo}
use madara_hotstuff.Worker.{ConsensusWorker, advance_view, new}
use madara_hotstuff.Worker.Handlers.{handle_qc}
use madara_hotstuff.Worker.Loop.{Event, run}
use madara_hotstuff.Worker.Steps.{
  Step, learn, count, certify, count_timeout, follow, ballot, cast, give_up, send_proposal,
  send_timeout, expire, save, finalized, tidy, Reach, here, next,
}
use madara_hotstuff.Worker.Progress.{ballots}
use madara_hotstuff.Worker.Refines.Loop.{run-Reach}

-- Strictly falling from below a bound.
abbrev pub Falls : ViewNumber → List ViewNumber → Type 0
Falls bound [] = Unit
Falls bound (view ∷ views) = (view < bound) × Falls view views

-- The default certificate, or a verified one.
abbrev pub IsCertified : Crypto → AuthorityList → Qc → Type 0
IsCertified c authorities qc = (qc ≡ Qc.default) ⊎ IsCertificate c qc authorities

module _ {C : Type 0} (e : Platform C) where
  pub record IsSafe (w : ConsensusWorker C) : Type 0 where
    pub sound : AllSound e.crypto w.state.authorities w.state.aggregator
    pub timely : AllTimely w.state.aggregator
    pub certified : IsCertified e.crypto w.state.authorities w.state.high_qc
    pub ballots_fall : Falls (suc w.state.last_voted_view) (ballots w.gossiped)
    pub in_step : w.network_view ≡ w.state.view

  pub new-IsSafe :
      (k : Keystore) (authorities : AuthorityList) (c : C) (q : Option (List BlockInfo))
      → IsSafe (new (State.new k authorities) c q)
  new-IsSafe k authorities c q = record {
    sound = new-AllSound e.crypto authorities;
    timely = new-AllTimely;
    certified = inl refl;
    ballots_fall = tt;
    in_step = refl;
  }
