-- ===== src/Worker/Safety/Steps.antt =====
-- Every step of a worker (consensus.rs) keeps the invariant.
use madara_hotstuff.Base.{
  ℕ, suc, ◌<◌, ◌≤◌, ◌≡◌, refl, sym, subst, ◌⊎◌, inl, inr, List, [], ◌∷◌, some, arith, Bool-cases,
  leb,
}
use madara_hotstuff.Primitives.{ViewNumber, ok}
use madara_hotstuff.Platform.{Platform}
use madara_hotstuff.Message.Qc.{Qc}
use madara_hotstuff.Message.Vote
use madara_hotstuff.Message.Vote.{Vote}
use madara_hotstuff.Message.Quorum.{verify-iff-IsCertificate}
use madara_hotstuff.Message.Checked.{IsAccepted}
use madara_hotstuff.Message.Timeout.{Timeout}
use madara_hotstuff.Message.Proposal.{Proposal}
use madara_hotstuff.Aggregator
use madara_hotstuff.Aggregator.Certified.{add_vote-AllSound, add_vote-certificate}
use madara_hotstuff.Aggregator.Timeouts.{add_timeout-AllTimely}
use madara_hotstuff.State
use madara_hotstuff.State.{ConsensusState}
use madara_hotstuff.State.Voting.{make_vote_lem}
use madara_hotstuff.Worker.{ConsensusWorker, advance_view}
use madara_hotstuff.Worker.Handlers.{handle_qc}
use madara_hotstuff.Worker.Steps.{
  Step, learn, count, certify, count_timeout, follow, ballot, cast, give_up, send_proposal,
  send_timeout, expire, save, finalized, tidy, Reach, here, next, reach_view,
}
use madara_hotstuff.Worker.Guards.{Carried-IsAccepted, IsVote-verify}
use madara_hotstuff.Worker.Progress.{ballots}
use madara_hotstuff.Worker.Safety.{Falls, IsCertified, IsSafe}

Falls-mono : (a b : ℕ) (views : List ℕ) → a ≤ b → Falls a views → Falls b views
Falls-mono a b [] h f = tt
Falls-mono a b (view ∷ views) h f = (omega arith, f.1)

module _ {C : Type 0} (e : Platform C) where
  -- A certificate is taken up only if it is newer than the high certificate.
  handle_qc-high :
      (qc : Qc) (w : ConsensusWorker C)
      → ((handle_qc qc w).state.high_qc ≡ w.state.high_qc)
        ⊎ (((handle_qc qc w).state.high_qc ≡ qc) × (w.state.high_qc.view < qc.view))
  unfolding handle_qc advance_view State.advance_view_from_target State.update_high_qc
  handle_qc-high qc w = ground arith

  -- What `handle_qc` leaves alone.
  handle_qc-rest :
      (qc : Qc) (w : ConsensusWorker C)
      → ((handle_qc qc w).state.aggregator ≡ w.state.aggregator)
        × ((handle_qc qc w).state.authorities ≡ w.state.authorities)
        × ((handle_qc qc w).state.last_voted_view ≡ w.state.last_voted_view)
        × ((handle_qc qc w).gossiped ≡ w.gossiped)
        × (w.network_view ≡ w.state.view
            → (handle_qc qc w).network_view ≡ (handle_qc qc w).state.view)
  unfolding handle_qc advance_view State.advance_view_from_target State.update_high_qc
  handle_qc-rest qc w = ground arith

  handle_qc-IsSafe :
      (qc : Qc) (w : ConsensusWorker C)
      → IsAccepted e.crypto qc w.state.authorities
      → IsSafe e w
      → IsSafe e (handle_qc qc w)
  handle_qc-IsSafe qc w a h =
      let (aggregator, authorities, voted, gossiped, in_step) = handle_qc-rest qc w in
      record {
        sound = rw (aggregator, authorities) h.sound;
        timely = rw aggregator h.timely;
        certified = rw authorities (high (handle_qc-high qc w) a);
        ballots_fall = rw (voted, gossiped) h.ballots_fall;
        in_step = in_step h.in_step;
      }
    where
      high :
          ((handle_qc qc w).state.high_qc ≡ w.state.high_qc)
            ⊎ (((handle_qc qc w).state.high_qc ≡ qc) × (w.state.high_qc.view < qc.view))
          → IsAccepted e.crypto qc w.state.authorities
          → IsCertified e.crypto w.state.authorities (handle_qc qc w).state.high_qc
      high (inl same) a = rw same h.certified
      high (inr (taken, newer)) (inl default) = absurd (ground arith)
      high (inr (taken, newer)) (inr valid) = rw taken (inr valid)

  -- A counted vote keeps the invariant.
  add_vote-IsSafe :
      (w : ConsensusWorker C) (v : Vote)
      → Vote.verify e.crypto v w.state.authorities ≡ ok tt
      → IsSafe e w
      → IsSafe e (record w { state = (State.add_vote e.crypto w.state v).1 })
  unfolding State.add_vote Aggregator.add_vote
  add_vote-IsSafe w v valid h = record {
    sound = add_vote-AllSound e.crypto w.state.authorities w.state.aggregator v h.sound valid;
    timely = h.timely;
    certified = h.certified;
    ballots_fall = h.ballots_fall;
    in_step = h.in_step;
  }

  add_timeout-IsSafe :
      (w : ConsensusWorker C) (t : Timeout)
      → IsSafe e w
      → IsSafe e (record w { state = (State.add_timeout w.state t).1 })
  unfolding State.add_timeout Aggregator.add_timeout
  add_timeout-IsSafe w t h = record {
    sound = h.sound;
    timely = add_timeout-AllTimely w.state.aggregator t w.state.authorities h.timely;
    certified = h.certified;
    ballots_fall = h.ballots_fall;
    in_step = h.in_step;
  }

  -- The certificate that a counted vote makes is accepted.
  made-IsAccepted :
      (w : ConsensusWorker C) (v : Vote) (qc : Qc)
      → Vote.verify e.crypto v w.state.authorities ≡ ok tt
      → (State.add_vote e.crypto w.state v).0 ≡ ok (some qc)
      → IsSafe e w
      → IsAccepted e.crypto qc (State.add_vote e.crypto w.state v).1.authorities
  unfolding State.add_vote
  made-IsAccepted w v qc valid made h =
      let checked =
        add_vote-certificate e.crypto w.state.authorities w.state.aggregator v qc h.sound valid
          made in
      inr ((verify-iff-IsCertificate e.crypto qc w.state.authorities).0 checked.3)

  voted-IsSafe :
      (w : ConsensusWorker C) (s : ConsensusState)
      → IsSafe e w
      → w.state.last_voted_view ≤ s.last_voted_view
      → s ≡ record w.state { last_voted_view = s.last_voted_view }
      → IsSafe e (record w { state = s })
  voted-IsSafe w s h grows same =
      subst (λ t. IsSafe e (record w { state = t })) (sym same)
        (record {
          sound = h.sound;
          timely = h.timely;
          certified = h.certified;
          ballots_fall =
              Falls-mono (suc w.state.last_voted_view) (suc s.last_voted_view) (ballots w.gossiped)
                (omega arith) h.ballots_fall;
          in_step = h.in_step;
        })

  cast-Falls :
      (w : ConsensusWorker C) (p : Proposal) (v : Vote)
      → (State.make_vote e.crypto w.state p).0 ≡ some v
      → IsSafe e w
      → Falls
          (suc (State.make_vote e.crypto w.state p).1.last_voted_view)
          (v.view ∷ ballots w.gossiped)
  cast-Falls w p v made h =
      let (votes, grows, same) = make_vote_lem e.crypto w.state p in
      let (mine, newer, view, hash, last) = votes v made in
      (
        omega (arith, last),
        Falls-mono (suc w.state.last_voted_view) v.view (ballots w.gossiped) newer h.ballots_fall,
      )

  follow-IsSafe :
      (w : ConsensusWorker C) (view : ViewNumber) → IsSafe e w → IsSafe e (advance_view view w)
  unfolding advance_view State.advance_view_from_target
  follow-IsSafe w view h = elim (Bool-cases (leb view w.state.view)) [
    | inl behind ↦ rw behind (record {
      sound = h.sound;
      timely = h.timely;
      certified = h.certified;
      ballots_fall = h.ballots_fall;
      in_step = refl;
    })
    | inr ahead ↦ rw ahead (record {
      sound = h.sound;
      timely = h.timely;
      certified = h.certified;
      ballots_fall = h.ballots_fall;
      in_step = refl;
    })
  ]

  reach_view-IsSafe :
      (view : ViewNumber) (w : ConsensusWorker C) → IsSafe e w → IsSafe e (reach_view view w)
  reach_view-IsSafe view w h = elim (Bool-cases (leb w.state.view view)) [
    | inl fits ↦ rw fits (follow-IsSafe w view h)
    | inr behind ↦ rw behind h
  ]

  same_state-IsSafe :
      (w u : ConsensusWorker C)
      → IsSafe e w
      → u.state ≡ w.state
      → u.network_view ≡ w.network_view
      → ballots u.gossiped ≡ ballots w.gossiped
      → IsSafe e u
  same_state-IsSafe w u h s n g = record {
    sound = rw s h.sound;
    timely = rw s h.timely;
    certified = rw s h.certified;
    ballots_fall = rw (s, g) h.ballots_fall;
    in_step = rw (s, n) h.in_step;
  }

  -- Every step keeps the invariant.
  pub Step-IsSafe : {w u : ConsensusWorker C} → Step e w u → IsSafe e w → IsSafe e u
  Step-IsSafe (learn w qc a) h = handle_qc-IsSafe qc w (Carried-IsAccepted e w qc a) h
  Step-IsSafe (count w v a) h = add_vote-IsSafe w v (IsVote-verify e w.state v a) h
  Step-IsSafe (certify w v qc a b) h =
      handle_qc-IsSafe qc (record w { state = (State.add_vote e.crypto w.state v).1 })
        (made-IsAccepted w v qc (IsVote-verify e w.state v a) b h)
        (add_vote-IsSafe w v (IsVote-verify e w.state v a) h)
  Step-IsSafe (count_timeout w t a) h = add_timeout-IsSafe w t h
  Step-IsSafe (follow w tc a) h = follow-IsSafe w tc.view h
  Step-IsSafe (ballot w p a) h =
      let (votes, grows, same) = make_vote_lem e.crypto w.state p in
      voted-IsSafe w (State.make_vote e.crypto w.state p).1 h grows same
  Step-IsSafe (cast w p v a b) h =
      let (votes, grows, same) = make_vote_lem e.crypto w.state p in
      let held = voted-IsSafe w (State.make_vote e.crypto w.state p).1 h grows same in
      record {
        sound = held.sound;
        timely = held.timely;
        certified = held.certified;
        ballots_fall = cast-Falls w p v b.0 h;
        in_step = held.in_step;
      }
  Step-IsSafe (give_up w) h =
      voted-IsSafe w (State.increase_last_voted_view w.state) h (omega arith) refl
  Step-IsSafe (send_proposal w p payload tc a) h = same_state-IsSafe w _ h refl refl refl
  Step-IsSafe (send_timeout w t a) h = same_state-IsSafe w _ h refl refl refl
  Step-IsSafe (expire w t tc a b) h =
      let u = record w { state = (State.add_timeout w.state t).1 } in
      same_state-IsSafe (reach_view tc.view u) _
        (reach_view-IsSafe tc.view u (add_timeout-IsSafe w t h)) refl refl refl
  Step-IsSafe (save w p a) h = same_state-IsSafe w _ h refl refl refl
  Step-IsSafe (finalized w p parent grandpa a b c) h = same_state-IsSafe w _ h refl refl refl
  Step-IsSafe (tidy w requests resets processing pending hashes) h =
      same_state-IsSafe w _ h refl refl refl

  pub Reach-IsSafe : {w u : ConsensusWorker C} → Reach e w u → IsSafe e w → IsSafe e u
  Reach-IsSafe here h = h
  Reach-IsSafe (next r s) h = Step-IsSafe s (Reach-IsSafe r h)
