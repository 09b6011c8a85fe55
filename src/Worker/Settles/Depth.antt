-- ===== src/Worker/Settles/Depth.antt =====
-- How deep `handle_proposal` and `handle_vote` (consensus.rs) call one another: a proposal that the
-- node makes is of a view that it leads, and it does not lead the next one.
use madara_hotstuff.Base.{
  ℕ, suc, ◌+◌, ◌-◌, ◌<◌, ◌≤◌, ◌≡◌, ◌∙◌, subst, arith, Distinct, length, wrap64, u64_mod,
}
use native.Mathlib.Decide.{dec_lt}
use madara_hotstuff.Primitives.{AuthorityList, ViewNumber}
use madara_hotstuff.Crypto.{Keystore}
use madara_hotstuff.Platform.{Platform}
use madara_hotstuff.Message.Vote.{Vote}
use madara_hotstuff.Message.Proposal.{Proposal}
use madara_hotstuff.Message.Checked.{ids}
use madara_hotstuff.State
use madara_hotstuff.State.Turns.{Leads-next}
use madara_hotstuff.Worker.{ConsensusWorker}
use madara_hotstuff.Worker.Handlers.{handle_vote_with, handle_proposal, handle_vote}
use madara_hotstuff.Worker.Settles.{IsNode, Settles, Led}
use madara_hotstuff.Worker.Settles.Votes.{Proposes, handle_vote_with-Settles}
use madara_hotstuff.Worker.Settles.Proposals.{handle_proposal_with-Settles}

module _ {C : Type 0} (e : Platform C) (k : Keystore) (authorities : AuthorityList)
    (two : 1 < length authorities) (distinct : Distinct (ids authorities)) where
  some_one : 0 < length authorities
  some_one = omega arith

  -- Where the node does not lead the next view, its vote goes to the network.
  quiet :
      (fuel : ℕ) (p : Proposal) (w : ConsensusWorker C)
      → IsNode k authorities w
      → ((0 < p.view) → ¬ Led k authorities (wrap64 (p.view + 1)))
      → Settles k authorities (handle_proposal e (suc fuel) p) w
  unfolding handle_proposal
  quiet fuel p w n last =
      handle_proposal_with-Settles e k authorities some_one
        (handle_vote_with e (handle_proposal e fuel)) p w n
        (λ v u nu of_view here above led. absurd (last above led))

  not_both :
      (view : ViewNumber)
      → view + 1 < u64_mod
      → Led k authorities view
      → ¬ Led k authorities (wrap64 (view + 1))
  not_both view small led = Leads-next (State.new k authorities) view distinct two small led

  -- The node's own proposal: it does not lead the next view, unless the view wraps to zero.
  own :
      (fuel : ℕ) (view : ViewNumber)
      → view < u64_mod
      → Led k authorities view
      → Proposes e k authorities some_one (handle_proposal e (suc (suc fuel))) view
  unfolding handle_proposal
  own fuel view bound led p u n same = elim (dec_lt (view + 1) u64_mod) [
    | yes small ↦ quiet (suc fuel) p u n (λ _. rw same (not_both view small led))
    | no last ↦
        handle_proposal_with-Settles e k authorities some_one
          (handle_vote_with e (handle_proposal e (suc fuel))) p u n
          (λ v u' nu of_view here above led'.
            handle_vote_with-Settles e k authorities some_one (handle_proposal e (suc fuel)) v u' nu
              (λ view' _ _ after p' u'' n' same'. quiet fuel p' u'' n' (λ above'. absurd (
                omega (arith, same, last, bound, of_view, same', above', after (of_view ∙ here))))))
  ]

  two_deep :
      (fuel : ℕ) (v : Vote) (w : ConsensusWorker C)
      → IsNode k authorities w
      → Settles k authorities (handle_vote e (suc (suc fuel)) v) w
  unfolding handle_vote
  two_deep fuel v w n =
      handle_vote_with-Settles e k authorities some_one (handle_proposal e (suc (suc fuel))) v w n
        (λ view bound led _. own fuel view bound led)

  three_deep :
      (fuel : ℕ) (p : Proposal) (w : ConsensusWorker C)
      → IsNode k authorities w
      → Settles k authorities (handle_proposal e (suc (suc (suc fuel))) p) w
  unfolding handle_proposal
  three_deep fuel p w n =
      handle_proposal_with-Settles e k authorities some_one
        (handle_vote_with e (handle_proposal e (suc (suc fuel)))) p w n
        (λ v u nu _ _ _ _.
          handle_vote_with-Settles e k authorities some_one (handle_proposal e (suc (suc fuel))) v u
            nu (λ view bound led _. own fuel view bound led))

  pub handle_vote-Settles :
      (fuel : ℕ) (v : Vote) (w : ConsensusWorker C)
      → 2 ≤ fuel
      → IsNode k authorities w
      → Settles k authorities (handle_vote e fuel v) w
  handle_vote-Settles fuel v w enough n =
      let f : suc (suc (fuel - 2)) ≡ fuel = omega arith in
      subst (λ f. Settles k authorities (handle_vote e f v) w) f (two_deep (fuel - 2) v w n)

  pub handle_proposal-Settles :
      (fuel : ℕ) (p : Proposal) (w : ConsensusWorker C)
      → 3 ≤ fuel
      → IsNode k authorities w
      → Settles k authorities (handle_proposal e fuel p) w
  handle_proposal-Settles fuel p w enough n =
      let f : suc (suc (suc (fuel - 3))) ≡ fuel = omega arith in
      subst (λ f. Settles k authorities (handle_proposal e f p) w) f (three_deep (fuel - 3) p w n)
