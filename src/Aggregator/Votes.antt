-- ===== src/Aggregator/Votes.antt =====
-- The vote side of aggregator.rs: what a maker holds, and that its certificates verify.
use madara_hotstuff.Base.{
  ℕ, ◌+◌, ◌*◌, ◌<◌, ◌≤◌, ◌≡◌, refl, inl, inr, true, false, List, [], ◌∷◌, ◌++◌, none, some, arith,
  contains, Distinct, Distinct-append_one, All, All-append, length, length-append, any, ltb, ◌==◌,
  Bool-cases, wrap64, u64_mod, length-le_of_Distinct,
}
use madara_hotstuff.Primitives.{AuthorityId, AuthoritySignature, AuthorityList, Hash, ok}
use madara_hotstuff.Crypto.{Crypto}
use madara_hotstuff.Message.Qc.{Qc}
use madara_hotstuff.Message.Vote
use madara_hotstuff.Message.Vote.{Vote}
use madara_hotstuff.Message.Quorum.{voters, Signed, length-voters}
use madara_hotstuff.Message.Checked.{ids, IsAuthority, IsSigned}
use madara_hotstuff.Message.Certificates.{length-ids}
use madara_hotstuff.Aggregator.{QcMaker, append_vote, new_qc_maker, threshold}

pub any-eq-contains :
    (votes : List (AuthorityId × AuthoritySignature)) (id : AuthorityId)
    → any (λ v. v.0 == id) votes ≡ contains (voters votes) id
any-eq-contains [] id = refl
any-eq-contains ((i, s) ∷ votes) id = rw (any-eq-contains votes id)

pub voters-append :
    (votes : List (AuthorityId × AuthoritySignature)) (id : AuthorityId) (s : AuthoritySignature)
    → voters (votes ++ (id, s) ∷ []) ≡ voters votes ++ id ∷ []
voters-append [] id s = refl
voters-append ((i, t) ∷ votes) id s = rw (voters-append votes id s)

-- What a maker holds under the digest `d`: distinct voters who are authorities, each with a valid
-- signature, and their number as its weight.
pub record IsSound (c : Crypto) (authorities : AuthorityList) (d : Hash) (m : QcMaker)
    : Type 0 where
  pub distinct : Distinct (voters m.votes)
  pub members : All (λ id. contains (ids authorities) id ≡ true) (voters m.votes)
  pub signed : Signed c d m.votes
  pub weighed : m.weight ≡ wrap64 (length m.votes)

pub new-IsSound :
    (c : Crypto) (authorities : AuthorityList) (d : Hash) → IsSound c authorities d new_qc_maker
new-IsSound c authorities d = record { distinct = tt; members = tt; signed = tt; weighed = refl }

module _ (c : Crypto) (authorities : AuthorityList) where
  -- The maker after a verified vote of a new voter.
  pushed-IsSound :
      (m : QcMaker) (v : Vote) (s : AuthoritySignature) {w : ℕ}
      → IsSound c authorities (Vote.digest c v) m
      → contains (voters m.votes) v.voter ≡ false
      → IsAuthority authorities v.voter
      → c.verify s (Vote.digest c v) v.voter ≡ true
      → w ≡ wrap64 (m.weight + 1)
      → IsSound c authorities
          (Vote.digest c v)
          (record { weight = w; votes = m.votes ++ (v.voter, s) ∷ [] })
  pushed-IsSound m v s h fresh known valid e = record {
    distinct =
        rw (voters-append m.votes v.voter s) (Distinct-append_one _ v.voter h.distinct fresh);
    members =
        rw (voters-append m.votes v.voter s)
          (All-append _ (voters m.votes) (v.voter ∷ []) h.members (known, tt));
    signed = All-append _ m.votes ((v.voter, s) ∷ []) h.signed (valid, tt);
    weighed = omega (arith, h.weighed, length-append m.votes ((v.voter, s) ∷ []));
  }

  pub append_vote-IsSound :
      (m : QcMaker) (v : Vote)
      → IsSound c authorities (Vote.digest c v) m
      → IsAuthority authorities v.voter
      → IsSigned c v.signature (Vote.digest c v) v.voter
      → IsSound c authorities (Vote.digest c v) (append_vote m v authorities).1
  unfolding append_vote Vote.digest
  append_vote-IsSound m v h known (s, e, valid) =
      elim (Bool-cases (contains (voters m.votes) v.voter)) [
        | inl old ↦ rw (any-eq-contains m.votes v.voter, old) h
        | inr fresh ↦
            rw (any-eq-contains m.votes v.voter, fresh, e)
              (elim (Bool-cases (ltb (wrap64 (m.weight + 1)) (threshold authorities))) [
                | inl low ↦ rw low (pushed-IsSound m v s h fresh known valid refl)
                | inr enough ↦ rw enough (pushed-IsSound m v s h fresh known valid refl)
              ])
      ]

  -- How `append` ends on a verified vote, and the votes that it leaves.
  pub append_vote_branches :
      (m : QcMaker) (v : Vote) (s : AuthoritySignature)
      → length authorities < u64_mod
      → IsSound c authorities (Vote.digest c v) m
      → v.signature ≡ some s
      → (contains (voters m.votes) v.voter ≡ true → append_vote m v authorities ≡ (ok none, m))
        × (contains (voters m.votes) v.voter ≡ false
            → IsAuthority authorities v.voter
            → 3 * (length m.votes + 1) ≤ 2 * length authorities
            → ((append_vote m v authorities).0 ≡ ok none)
              × ((append_vote m v authorities).1.votes ≡ m.votes ++ (v.voter, s) ∷ []))
        × (contains (voters m.votes) v.voter ≡ false
            → IsAuthority authorities v.voter
            → 2 * length authorities < 3 * (length m.votes + 1)
            → ((append_vote m v authorities).0
                ≡ ok (
                    some (record {
                      proposal_hash = v.proposal_hash;
                      view = v.view;
                      votes = m.votes ++ (v.voter, s) ∷ [];
                    })))
              × ((append_vote m v authorities).1.votes ≡ m.votes ++ (v.voter, s) ∷ []))
  unfolding append_vote
  append_vote_branches m v s fit h e = (
    λ old. rw (any-eq-contains m.votes v.voter, old),
    λ fresh known few.
        rw (any-eq-contains m.votes v.voter, fresh, e)
          (ground (arith, room fresh known, h.weighed)),
    λ fresh known enough.
        rw (any-eq-contains m.votes v.voter, fresh, e)
          (ground (arith, room fresh known, h.weighed)),
  )
    where
      room :
          contains (voters m.votes) v.voter ≡ false
          → IsAuthority authorities v.voter
          → length m.votes + 1 ≤ length authorities
      room fresh known = omega (
        arith,
        length-voters m.votes,
        length-ids authorities,
        length-le_of_Distinct (v.voter ∷ voters m.votes) (ids authorities) (fresh, h.distinct)
            (known, h.members),
      )

  -- A maker that returns a certificate holds its votes.
  pub append_vote-some :
      (m : QcMaker) (v : Vote) {qc : Qc}
      → (append_vote m v authorities).0 ≡ ok (some qc)
      → (qc.proposal_hash ≡ v.proposal_hash)
        × (qc.view ≡ v.view)
        × (qc.votes ≡ (append_vote m v authorities).1.votes)
        × (threshold authorities ≤ (append_vote m v authorities).1.weight)
  unfolding append_vote
  append_vote-some m v h = ground arith
