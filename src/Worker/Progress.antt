-- ===== src/Worker/Progress.antt =====
-- What every step of a worker (consensus.rs) respects between two states: the configuration stays,
-- and the high certificate and the last vote never go back.
use madara_hotstuff.Base.{
  ◌<◌, ◌≤◌, ◌≡◌, refl, sym, ◌∙◌, Bool, true, false, List, [], ◌∷◌, ◌++◌, arith, All, All-append,
  All-map, ap,
}
use mathlib.Core.List.{append_assoc}
use madara_hotstuff.Primitives.{ViewNumber}
use madara_hotstuff.Platform.{Platform}
use madara_hotstuff.Message.Qc.{Qc}
use madara_hotstuff.Message.Consensus.{ConsensusMessage}
use madara_hotstuff.State
use madara_hotstuff.State.{ConsensusState}
use madara_hotstuff.Worker.{ConsensusWorker, advance_view}
use madara_hotstuff.Worker.Handlers.{handle_qc}
use madara_hotstuff.Worker.Steps.{
  Step, learn, count, certify, count_timeout, follow, ballot, cast, give_up, send_proposal,
  send_timeout, expire, save, finalized, tidy, Reach, here, next,
}

-- The views of the votes among gossiped messages, the latest first.
abbrev pub ballots : List (ConsensusMessage × Bool) → List ViewNumber
ballots [] = []
ballots ((ConsensusMessage.propose p, _) ∷ messages) = ballots messages
ballots ((ConsensusMessage.vote v, _) ∷ messages) = v.view ∷ ballots messages
ballots ((ConsensusMessage.timeout t, _) ∷ messages) = ballots messages
ballots ((ConsensusMessage.tc tc, _) ∷ messages) = ballots messages
ballots ((ConsensusMessage.sync_request h id, _) ∷ messages) = ballots messages
ballots ((ConsensusMessage.phantom, _) ∷ messages) = ballots messages

-- Between two states of one worker.
pub record Advances {C : Type 0} (w u : ConsensusWorker C) : Type 0 where
  pub authorities : u.state.authorities ≡ w.state.authorities
  pub keystore : u.state.keystore ≡ w.state.keystore
  pub high : w.state.high_qc.view ≤ u.state.high_qc.view
  pub voted : w.state.last_voted_view ≤ u.state.last_voted_view

module _ {C : Type 0} (e : Platform C) where
  pub handle_qc-Advances : (qc : Qc) (w : ConsensusWorker C) → Advances w (handle_qc qc w)
  unfolding handle_qc advance_view State.advance_view_from_target State.update_high_qc
  handle_qc-Advances qc w = ground arith

  pub Step-Advances : {w u : ConsensusWorker C} → Step e w u → Advances w u
  unfolding State.add_vote State.add_timeout State.make_vote advance_view
      State.advance_view_from_target handle_qc State.update_high_qc
  Step-Advances (learn w qc a) = ground arith
  Step-Advances (count w v a) = ground arith
  Step-Advances (certify w v qc a b) = ground arith
  Step-Advances (count_timeout w t a) = ground arith
  Step-Advances (follow w tc a) = ground arith
  Step-Advances (ballot w p a) = ground arith
  Step-Advances (cast w p v a b) = ground arith
  Step-Advances (give_up w) = ground arith
  Step-Advances (send_proposal w p payload tc a) = ground arith
  Step-Advances (send_timeout w t a) = ground arith
  Step-Advances (expire w t tc a b) = ground arith
  Step-Advances (save w p a) = ground arith
  Step-Advances (finalized w p parent grandpa a b c) = ground arith
  Step-Advances (tidy w requests resets processing pending hashes) = ground arith

  pub Reach-Advances : {w u : ConsensusWorker C} → Reach e w u → Advances w u
  Reach-Advances here = record {
    authorities = refl;
    keystore = refl;
    high = omega arith;
    voted = omega arith;
  }
  Reach-Advances (next r s) =
      let a = Reach-Advances r in
      let b = Step-Advances s in
      record {
        authorities = b.authorities ∙ a.authorities;
        keystore = b.keystore ∙ a.keystore;
        high = omega (arith, a.high, b.high);
        voted = omega (arith, a.voted, b.voted);
      }

  -- The messages of a step: at most one, and a vote is above the last vote before it.
  Step-gossip :
      {w u : ConsensusWorker C}
      → Step e w u
      → (new : List (ConsensusMessage × Bool)) × (u.gossiped ≡ new ++ w.gossiped)
        × All (λ view. w.state.last_voted_view < view) (ballots new)
  unfolding State.make_vote advance_view handle_qc
  Step-gossip (learn w qc a) = ([], ground arith, tt)
  Step-gossip (count w v a) = ([], refl, tt)
  Step-gossip (certify w v qc a b) = ([], ground arith, tt)
  Step-gossip (count_timeout w t a) = ([], refl, tt)
  Step-gossip (follow w tc a) = ([], refl, tt)
  Step-gossip (ballot w p a) = ([], refl, tt)
  Step-gossip (cast w p v a b) = ((ConsensusMessage.vote v, false) ∷ [], refl, (ground arith, tt))
  Step-gossip (give_up w) = ([], refl, tt)
  Step-gossip (send_proposal w p payload tc a) =
      ((ConsensusMessage.propose p, false) ∷ [], refl, tt)
  Step-gossip (send_timeout w t a) = ((ConsensusMessage.timeout t, true) ∷ [], refl, tt)
  Step-gossip (expire w t tc a b) = ((ConsensusMessage.tc tc, true) ∷ [], ground arith, tt)
  Step-gossip (save w p a) = ([], refl, tt)
  Step-gossip (finalized w p parent grandpa a b c) = ([], refl, tt)
  Step-gossip (tidy w requests resets processing pending hashes) = ([], refl, tt)

  ballots-append :
      (xs ys : List (ConsensusMessage × Bool)) → ballots (xs ++ ys) ≡ ballots xs ++ ballots ys
  ballots-append [] ys = refl
  ballots-append ((ConsensusMessage.propose p, f) ∷ xs) ys = ballots-append xs ys
  ballots-append ((ConsensusMessage.vote v, f) ∷ xs) ys = rw (ballots-append xs ys)
  ballots-append ((ConsensusMessage.timeout t, f) ∷ xs) ys = ballots-append xs ys
  ballots-append ((ConsensusMessage.tc tc, f) ∷ xs) ys = ballots-append xs ys
  ballots-append ((ConsensusMessage.sync_request h id, f) ∷ xs) ys = ballots-append xs ys
  ballots-append ((ConsensusMessage.phantom, f) ∷ xs) ys = ballots-append xs ys

  -- The messages of any steps follow the earlier ones, and their votes are above the last vote.
  pub Reach-gossip :
      {w u : ConsensusWorker C}
      → Reach e w u
      → (new : List (ConsensusMessage × Bool)) × (u.gossiped ≡ new ++ w.gossiped)
        × All (λ view. w.state.last_voted_view < view) (ballots new)
  Reach-gossip here = ([], refl, tt)
  Reach-gossip {w} (next r s) =
      let (old, sent, above) = Reach-gossip r in
      let (new, sent', above') = Step-gossip s in
      let a = Reach-Advances r in
      (
        new ++ old,
        sent' ∙ (ap (λ l. new ++ l) sent ∙ sym (append_assoc new old w.gossiped)),
        rw (ballots-append new old) (
            All-append _ (ballots new) (ballots old)
              (All-map _ _ (ballots new) (λ x h. omega (arith, a.voted, h)) above') above),
      )
