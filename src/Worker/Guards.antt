-- ===== src/Worker/Guards.antt =====
-- What the handlers of a worker (consensus.rs) demand of a message before they act on it, by the
-- meaning of the checks and not by their code.
use madara_hotstuff.Base.{
  ◌+◌, ◌<◌, ◌≤◌, ◌≡◌, ◌⊎◌, inl, inr, true, false, some, arith, wrap64, Bool-cases, ◌==◌, ==_iff,
  subst,
}
use madara_hotstuff.Primitives.{AuthorityId, success, ok, >>=-eq-ok}
use madara_hotstuff.Platform.{Platform, in_chain}
use madara_hotstuff.Message.Qc.{Qc}
use madara_hotstuff.Message.Tc.{Tc}
use madara_hotstuff.Message.Vote
use madara_hotstuff.Message.Vote.{Vote}
use madara_hotstuff.Message.Timeout
use madara_hotstuff.Message.Timeout.{Timeout}
use madara_hotstuff.Message.Proposal
use madara_hotstuff.Message.Proposal.{Proposal}
use madara_hotstuff.Message.Checked.{
  IsAuthority, IsSigned, IsAccepted, IsEndorsed, verify_vote_branches, verify_proposal_iff,
}
use madara_hotstuff.Message.Certificates.{IsTimeoutCertificate, verify-iff-IsTimeoutCertificate}
use madara_hotstuff.State
use madara_hotstuff.State.{ConsensusState}
use madara_hotstuff.Worker.{ConsensusWorker}
use madara_hotstuff.Worker.Payloads.{empty_payload_hash}

module _ {C : Type 0} (e : Platform C) where
  -- The payload is empty, or the client has its block in the chain.
  abbrev pub IsKnown : ConsensusWorker C → Proposal → Type 0
  IsKnown w p =
      (p.payload.block_hash ≡ empty_payload_hash e)
      ⊎ (e.client.status w.client p.payload.block_hash ≡ success in_chain)

  -- A proposal of the leader of its view, who is an authority and signed it, with the default
  -- certificate or a valid one.
  abbrev pub IsProposal : ConsensusState → Proposal → Type 0
  IsProposal s p =
      (State.view_leader s p.view ≡ ok p.author)
      × IsEndorsed e.crypto s.authorities p.qc p.author p.signature (Proposal.digest e.crypto p)

  -- A timeout that an authority signed, with the default certificate or a valid one.
  abbrev pub IsTimeout : ConsensusState → Timeout → Type 0
  IsTimeout s t =
      IsEndorsed e.crypto s.authorities t.high_qc t.voter t.signature (Timeout.digest e.crypto t)

  -- A vote that an authority signed, for the view of the worker or a later one.
  abbrev pub IsVote : ConsensusState → Vote → Type 0
  IsVote s v =
      (s.view ≤ v.view)
      × IsAuthority s.authorities v.voter
      × IsSigned e.crypto v.signature (Vote.digest e.crypto v) v.voter

  -- The certificate of such a proposal, whose block is known, or of such a timeout, for the view of
  -- the worker or a later one.
  abbrev pub Carried : ConsensusWorker C → Qc → Type 0
  Carried w qc =
      ((p : Proposal) × (p.qc ≡ qc) × IsKnown w p × IsProposal w.state p)
      ⊎ ((t : Timeout) × (t.high_qc ≡ qc) × (w.state.view ≤ t.view) × IsTimeout w.state t)

  -- A valid timeout certificate for the view of the worker or a later one, or the one that such a
  -- proposal has, for a later view.
  abbrev pub Followed : ConsensusWorker C → Tc → Type 0
  Followed w tc =
      ((w.state.view ≤ tc.view) × IsTimeoutCertificate e.crypto tc w.state.authorities)
      ⊎ ((p : Proposal) × (p.tc ≡ some tc) × (w.state.view < tc.view) × IsProposal w.state p)

  -- The vote that the state makes for a proposal, with a leader of the next view to send it to.
  abbrev pub Sent : ConsensusWorker C → Proposal → Vote → Type 0
  Sent w p v =
      let (made, s) = State.make_vote e.crypto w.state p in
      (made ≡ some v)
      × ((leader : AuthorityId) × (State.view_leader s (wrap64 (s.view + 1)) ≡ ok leader)
          × (State.is_local s leader ≡ false))

  -- The local authority leads the view of the state.
  abbrev pub Leads : ConsensusState → Type 0
  Leads s =
      (leader : AuthorityId) × (State.view_leader s s.view ≡ ok leader)
      × (State.is_local s leader ≡ true)

  pub is_leader-Leads : (s : ConsensusState) → State.is_leader s ≡ ok true → Leads s
  unfolding State.is_leader
  is_leader-Leads s h =
      let (leader, found, rest) = >>=-eq-ok (State.view_leader s s.view) _ h in (leader, found, cc)

  pub verify_proposal-IsProposal :
      (s : ConsensusState) (p : Proposal)
      → State.verify_proposal e.crypto s p ≡ ok tt
      → IsProposal s p
  unfolding State.verify_proposal
  verify_proposal-IsProposal s p h =
      let (leader, found, rest) = >>=-eq-ok (State.view_leader s p.view) _ h in
      elim (Bool-cases (p.author == leader)) [
        | inl same ↦ (
          rw ((==_iff _ _).0 same) found,
          (verify_proposal_iff e.crypto p s.authorities).0 (rw same at rest),
        )
        | inr differs ↦ absurd (ground arith)
      ]

  pub IsProposal-same :
      (s t : ConsensusState) (p : Proposal)
      → t.authorities ≡ s.authorities
      → IsProposal s p
      → IsProposal t p
  unfolding State.view_leader
  IsProposal-same s t p same (leader, endorsed) = (rw same leader, rw same endorsed)

  pub verify_vote-IsVote :
      (s : ConsensusState) (v : Vote) → State.verify_vote e.crypto s v ≡ ok tt → IsVote s v
  unfolding State.verify_vote
  verify_vote-IsVote s v h = (
    ground arith,
    ((verify_vote_branches e.crypto v s.authorities).0.0 (ground arith)).0,
    ((verify_vote_branches e.crypto v s.authorities).0.0 (ground arith)).1,
  )

  pub IsVote-verify :
      (s : ConsensusState) (v : Vote) → IsVote s v → Vote.verify e.crypto v s.authorities ≡ ok tt
  IsVote-verify s v (_, member, signed) =
      (verify_vote_branches e.crypto v s.authorities).0.1 (member, signed)

  pub verify_tc-Followed :
      (w : ConsensusWorker C) (tc : Tc)
      → State.verify_tc e.crypto w.state tc ≡ ok tt
      → (w.state.view ≤ tc.view) × IsTimeoutCertificate e.crypto tc w.state.authorities
  unfolding State.verify_tc
  verify_tc-Followed w tc h = (
    ground arith,
    (verify-iff-IsTimeoutCertificate e.crypto tc w.state.authorities).0 (ground arith),
  )

  pub Carried-IsAccepted :
      (w : ConsensusWorker C) (qc : Qc) → Carried w qc → IsAccepted e.crypto qc w.state.authorities
  Carried-IsAccepted w qc (inl (p, same, known, (leader, endorsed))) =
      subst (λ q. IsAccepted e.crypto q w.state.authorities) same endorsed.2
  Carried-IsAccepted w qc (inr (t, same, live, endorsed)) =
      subst (λ q. IsAccepted e.crypto q w.state.authorities) same endorsed.2
