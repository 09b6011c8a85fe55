-- ===== src/State/Voting.antt =====
-- The votes that the state makes (consensus.rs, `make_vote`).
use madara_hotstuff.Base.{
  ℕ, ◌<◌, ◌≤◌, ◌≡◌, refl, inl, inr, true, [], ◌∷◌, some, arith, Bool-cases, find,
}
use madara_hotstuff.Primitives.{AuthorityId, AuthoritySignature, AuthorityList, success, ok}
use madara_hotstuff.Crypto.{Crypto, Keystore}
use madara_hotstuff.Message.Vote
use madara_hotstuff.Message.Vote.{Vote}
use madara_hotstuff.Message.Proposal
use madara_hotstuff.Message.Proposal.{Proposal}
use madara_hotstuff.Message.Checked.{IsAuthority, verify_vote_branches}
use madara_hotstuff.State.{ConsensusState, local_authority_id, first_id, make_vote, sign}

-- A vote is made only by an authority, for a view above every earlier vote's; it names the
-- proposal's digest and view, and `last_voted_view` becomes its view. Without a vote
-- `last_voted_view` does not fall. Nothing else of the state changes.
pub make_vote_lem :
    (c : Crypto) (s : ConsensusState) (p : Proposal)
    → ((v : Vote)
        → (make_vote c s p).0 ≡ some v
        → (local_authority_id s ≡ some v.voter)
          × (s.last_voted_view < v.view)
          × (v.view ≡ p.view)
          × (v.proposal_hash ≡ Proposal.digest c p)
          × ((make_vote c s p).1.last_voted_view ≡ v.view))
      × (s.last_voted_view ≤ (make_vote c s p).1.last_voted_view)
      × ((make_vote c s p).1 ≡ record s { last_voted_view = (make_vote c s p).1.last_voted_view })
unfolding make_vote
make_vote_lem c s p = (λ v h. ground arith, ground arith, ground arith)

local-IsAuthority :
    (k : Keystore) (authorities : AuthorityList) {id : AuthorityId}
    → first_id (find (λ a. k.has_keys a.0) authorities) ≡ some id
    → IsAuthority authorities id
local-IsAuthority k [] h = cc
local-IsAuthority k ((i, w) ∷ authorities) h = elim (Bool-cases (k.has_keys i)) [
  | inl mine ↦ ground arith
  | inr other ↦ ground (arith, local-IsAuthority k authorities (rw other at h))
]

-- The local authority is one of the authorities.
pub local_authority_id-IsAuthority :
    (s : ConsensusState) {id : AuthorityId}
    → local_authority_id s ≡ some id
    → IsAuthority s.authorities id
unfolding local_authority_id
local_authority_id-IsAuthority s h = local-IsAuthority s.keystore s.authorities h

-- Where the keystore signs with the local key and the signature verifies under it, a vote is made
-- for every proposal of a view above the last vote's: it is the local authority's, for that
-- proposal's digest and view, other nodes with the same authorities accept it, and the view becomes
-- the last vote's.
pub make_vote-verify :
    (c : Crypto) (s : ConsensusState) (p : Proposal) (id : AuthorityId)
    → local_authority_id s ≡ some id
    → s.last_voted_view < p.view
    → ((d : ℕ)
        → (g : AuthoritySignature) × (sign s.keystore id d ≡ success (some g))
          × (c.verify g d id ≡ true))
    → (v : Vote) × ((make_vote c s p).0 ≡ some v)
      × (v.voter ≡ id)
      × (v.view ≡ p.view)
      × (v.proposal_hash ≡ Proposal.digest c p)
      × (Vote.verify c v s.authorities ≡ ok tt)
      × ((make_vote c s p).1 ≡ record s { last_voted_view = p.view })
unfolding make_vote Vote.digest
make_vote-verify c s p id e newer signs =
    let v : Vote = Vote.new (Proposal.digest c p) p.view id in
    let (g, signed, valid) = signs (Vote.digest c v) in
    let w : Vote = record v { signature = some g } in
    (
      w,
      ground (arith, signed),
      refl,
      refl,
      refl,
      (verify_vote_branches c w s.authorities).0.1
          (local_authority_id-IsAuthority s e, (g, refl, valid)),
      ground arith,
    )
