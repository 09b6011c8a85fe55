-- ===== src/Worker/Safety/Run.antt =====
-- What holds of a worker (consensus.rs) after any run of its event loop.
use madara_hotstuff.Base.{
  ℕ, ◌+◌, ◌*◌, ◌<◌, ◌≤◌, ◌⊎◌, inl, inr, length, ◌≡◌, Bool, List, ◌∷◌, ◌++◌, Option, arith, u64_mod,
  All, All-map,
}
use native.Mathlib.Decide.{dec_lt}
use madara_hotstuff.Primitives.{AuthorityList}
use madara_hotstuff.Crypto.{Keystore}
use madara_hotstuff.Platform.{Platform}
use madara_hotstuff.Message.Consensus.{ConsensusMessage}
use madara_hotstuff.State
use madara_hotstuff.Import.{BlockInfo}
use madara_hotstuff.Worker.{ConsensusWorker, new}
use madara_hotstuff.Worker.Loop.{Event, timer, run}
use madara_hotstuff.Worker.Climbs.{Within-Rises, Rises-u64, Rises-bounds}
use madara_hotstuff.Worker.Climbs.Events.{run-Within}
use madara_hotstuff.Worker.Progress.{ballots, Advances, Reach-Advances, Reach-gossip}
use madara_hotstuff.Worker.Refines.Loop.{run-Reach, timer-Reach}
use madara_hotstuff.Worker.Safety.{IsSafe, new-IsSafe}
use madara_hotstuff.Worker.Safety.Steps.{Reach-IsSafe}

module _ {C : Type 0} (e : Platform C) where
  -- From its start, after any events, a worker is safe: every vote that its aggregator holds is
  -- from a distinct authority with a valid signature for the proposal and view it is filed under;
  -- every timeout is filed under its view; the high certificate is the default one or satisfies the
  -- meaning of a quorum certificate; the views of the votes that it sent strictly rise and the last
  -- is at most `last_voted_view`; and the gossip validator has the view of the state.
  pub run-IsSafe :
      (k : Keystore) (authorities : AuthorityList) (c : C) (q : Option (List BlockInfo)) (fuel : ℕ)
      (events : List Event)
      → IsSafe e (run e fuel events (new (State.new k authorities) c q)).1
  run-IsSafe k authorities c q fuel events =
      Reach-IsSafe e (run-Reach e fuel events _) (new-IsSafe e k authorities c q)

  -- Over any events, from any worker whose view is a `u64`: the authorities and the keystore stay,
  -- the view of the high certificate and `last_voted_view` do not fall, and the votes that were sent
  -- are for views above the first `last_voted_view`. The view stays a `u64`; each event adds at most
  -- twice the fuel and two to it, and it does not fall, unless so many events are enough to take it
  -- past 2^64 - 1.
  pub run-Advances :
      (fuel : ℕ) (events : List Event) (w : ConsensusWorker C)
      → w.state.view < u64_mod
      → let u = (run e fuel events w).1 in
        let most = length events * (2 * fuel + 2) in
        Advances w u
        × (u.state.view < u64_mod)
        × (((w.state.view ≤ u.state.view) × (u.state.view ≤ w.state.view + most))
            ⊎ (u64_mod ≤ w.state.view + most))
        × ((new : List (ConsensusMessage × Bool)) × (u.gossiped ≡ new ++ w.gossiped)
            × All (λ view. w.state.last_voted_view < view) (ballots new))
  run-Advances fuel events w h =
      let r = run-Reach e fuel events w in
      let climb = Within-Rises (run-Within e fuel events w) in
      (
        Reach-Advances e r,
        Rises-u64 climb h,
        elim (dec_lt (w.state.view + length events * (2 * fuel + 2)) u64_mod) [
          | yes small ↦ inl (Rises-bounds climb small)
          | no far ↦ inr (omega arith)
        ],
        Reach-gossip e r,
      )

  -- Once the local timer has fired in a view, no vote is sent for that view or an earlier one:
  -- over the timer's own handling and any later events, each vote sent is for a later view.
  pub timer_silences :
      (fuel : ℕ) (events : List Event) (w : ConsensusWorker C)
      → (new : List (ConsensusMessage × Bool)) × ((run e fuel (timer ∷ events) w).1.gossiped
          ≡ new ++ w.gossiped)
        × All (λ view. w.state.view < view) (ballots new)
  timer_silences fuel events w =
      let (new, sent, above) = Reach-gossip e (timer-Reach e fuel events w) in
      (new, sent, All-map _ _ (ballots new) (λ x h. omega arith) above)
