-- ===== src/Tests/Votes.antt =====
-- The theorems about messages and certificates, for four authorities.
use madara_hotstuff.Base.{
  ℕ, ◌+◌, ◌*◌, ◌<◌, ◌≡◌, ◌≢◌, ◌⊎◌, ◌↔◌, refl, List, [], ◌∷◌, false, none, some, arith, length,
  contains,
}
use madara_hotstuff.Primitives.{
  AuthorityId, AuthoritySignature, ok, err, null_signature, unknown_authority, invalid_signature,
}
use madara_hotstuff.Message.Qc
use madara_hotstuff.Message.Qc.{Qc}
use madara_hotstuff.Message.Tc
use madara_hotstuff.Message.Tc.{Tc}
use madara_hotstuff.Message.Vote
use madara_hotstuff.Message.Vote.{Vote, check_member, check_signature}
use madara_hotstuff.Message.Timeout
use madara_hotstuff.Message.Timeout.{Timeout}
use madara_hotstuff.Message.Proposal
use madara_hotstuff.Message.Quorum.{voters, Signed, IsCertificate, verify-iff-IsCertificate}
use madara_hotstuff.Message.Certificates.{
  IsLocal, common, pairs, IsTimeoutCertificate, quorums_intersect, verify-iff-IsTimeoutCertificate,
}
use madara_hotstuff.Message.Checked.{
  ids, IsAuthority, IsSigned, IsEndorsed, verify_vote_answers, verify_timeout_iff,
  verify_proposal_iff,
}
use madara_hotstuff.Aggregator
use madara_hotstuff.Aggregator.{
  Aggregator, add_vote, add_timeout, qc_maker, append_vote, append_timeout,
}
use madara_hotstuff.Aggregator.Certified.{
  AllSound, new-AllSound, add_vote-AllSound, add_vote-certificate,
}
use madara_hotstuff.Aggregator.Timeouts.{
  AllTimely, new-AllTimely, add_timeout-AllTimely, add_timeout-certificate, add_timeout-refused,
}
use madara_hotstuff.State
use madara_hotstuff.State.{local_authority_id, make_vote, view_leader, sign}
use madara_hotstuff.State.Voting.{make_vote-verify}
use madara_hotstuff.Tests.Sample.{crypto, keystore, authorities, grandpa}

-- Signed by three of the four authorities; the digest of (4, 1) is 14.
abbrev qc : Qc
qc = record { proposal_hash = 4; view = 1; votes = (1, 21) ∷ (2, 35) ∷ (3, 49) ∷ [] }

abbrev other_qc : Qc
other_qc = record { proposal_hash = 4; view = 1; votes = (4, 63) ∷ (2, 35) ∷ (3, 49) ∷ [] }

verify-iff-IsCertificate_example :
    (Qc.verify crypto qc authorities ≡ ok tt) ↔ IsCertificate crypto qc authorities
verify-iff-IsCertificate_example = verify-iff-IsCertificate crypto qc authorities

verified : Qc.verify crypto qc authorities ≡ ok tt
unfolding Qc.verify Qc.count_votes Qc.check_quorum Qc.check_signatures Qc.digest
verified = refl

other_verified : Qc.verify crypto other_qc authorities ≡ ok tt
unfolding Qc.verify Qc.count_votes Qc.check_quorum Qc.check_signatures Qc.digest
other_verified = refl

quorums_intersect_example : 4 < 3 * length (common (voters qc.votes) (voters other_qc.votes))
quorums_intersect_example =
    quorums_intersect crypto authorities qc other_qc verified other_verified
      (refl, (refl, (refl, tt))) (refl, (refl, (refl, tt)))

abbrev tc : Tc
tc = record { view = 4; votes = (1, 21, 1) ∷ (2, 35, 1) ∷ (3, 49, 1) ∷ [] }

verify-iff-IsTimeoutCertificate_example :
    (Tc.verify crypto tc authorities ≡ ok tt) ↔ IsTimeoutCertificate crypto tc authorities
verify-iff-IsTimeoutCertificate_example = verify-iff-IsTimeoutCertificate crypto tc authorities

abbrev vote_of : ℕ → ℕ → Vote
vote_of voter s = record { proposal_hash = 4; view = 1; voter = voter; signature = some s }

vote_verified : Vote.verify crypto (vote_of 1 21) authorities ≡ ok tt
unfolding Vote.verify Vote.check_member Vote.check_signature Vote.digest
vote_verified = refl

second_verified : Vote.verify crypto (vote_of 2 35) authorities ≡ ok tt
unfolding Vote.verify Vote.check_member Vote.check_signature Vote.digest
second_verified = refl

third_verified : Vote.verify crypto (vote_of 3 49) authorities ≡ ok tt
unfolding Vote.verify Vote.check_member Vote.check_signature Vote.digest
third_verified = refl

abbrev one_vote : Aggregator
one_vote = (add_vote crypto Aggregator.new (vote_of 1 21) authorities).1

abbrev two_votes : Aggregator
two_votes = (add_vote crypto one_vote (vote_of 2 35) authorities).1

one-AllSound : AllSound crypto authorities one_vote
one-AllSound =
    add_vote-AllSound crypto authorities Aggregator.new (vote_of 1 21)
      (new-AllSound crypto authorities) vote_verified

two-AllSound : AllSound crypto authorities two_votes
two-AllSound =
    add_vote-AllSound crypto authorities one_vote (vote_of 2 35) one-AllSound second_verified

made : (add_vote crypto two_votes (vote_of 3 49) authorities).0 ≡ ok (some qc)
unfolding add_vote append_vote Vote.digest
made = refl

add_vote-certificate_example :
    (qc.proposal_hash ≡ 4)
    × (qc.view ≡ 1)
    × IsLocal authorities qc
    × (Qc.verify crypto qc authorities ≡ ok tt)
add_vote-certificate_example =
    add_vote-certificate crypto authorities two_votes (vote_of 3 49) qc two-AllSound third_verified
      made

abbrev target : List (AuthorityId × AuthoritySignature)
target = (qc_maker two_votes 1 (Vote.digest crypto (vote_of 3 49))).votes

-- In view 1 with the default certificate; the digest is 1.
abbrev timeout_of : ℕ → ℕ → Timeout
timeout_of voter s = record { high_qc = Qc.default; view = 1; voter = voter; signature = some s }

abbrev two_timeouts : Aggregator
two_timeouts =
    (add_timeout (add_timeout Aggregator.new (timeout_of 1 8) authorities).1 (timeout_of 2 9)
      authorities).1

two-AllTimely : AllTimely two_timeouts
two-AllTimely =
    add_timeout-AllTimely (add_timeout Aggregator.new (timeout_of 1 8) authorities).1
      (timeout_of 2 9) authorities
      (add_timeout-AllTimely Aggregator.new (timeout_of 1 8) authorities new-AllTimely)

abbrev built : Tc
built = record { view = 1; votes = (1, 8, 1) ∷ (2, 9, 1) ∷ (3, 10, 1) ∷ [] }

timed_out : (add_timeout two_timeouts (timeout_of 3 10) authorities).0 ≡ ok (some built)
unfolding add_timeout append_timeout
timed_out = refl

add_timeout-certificate_example :
    (built.view ≡ 1)
    × ((Tc.verify crypto built authorities ≡ ok tt)
        ↔ Signed crypto (Tc.vote_digest crypto 1 1) (pairs built.votes))
add_timeout-certificate_example =
    add_timeout-certificate crypto two_timeouts (timeout_of 3 10) authorities built two-AllTimely
      timed_out

invalid_there : crypto.verify 10 (Tc.vote_digest crypto 1 1) 3 ≡ false
unfolding Tc.vote_digest
invalid_there = refl

add_timeout-refused_example : Tc.verify crypto built authorities ≢ ok tt
add_timeout-refused_example =
    add_timeout-refused crypto two_timeouts (timeout_of 3 10) authorities built 10 two-AllTimely
      refl invalid_there timed_out

verify_timeout_iff_example :
    (Timeout.verify crypto (timeout_of 1 8) authorities ≡ ok tt)
    ↔ IsEndorsed crypto authorities Qc.default 1 (some 8) (Timeout.digest crypto (timeout_of 1 8))
verify_timeout_iff_example = verify_timeout_iff crypto (timeout_of 1 8) authorities

verify_proposal_iff_example :
    (Proposal.verify crypto grandpa authorities ≡ ok tt)
    ↔ IsEndorsed crypto authorities Qc.default 2 none (Proposal.digest crypto grandpa)
verify_proposal_iff_example = verify_proposal_iff crypto grandpa authorities

abbrev state : State.ConsensusState
state = State.new keystore authorities

local : local_authority_id state ≡ some 1
unfolding local_authority_id
local = refl

make_vote-verify_example :
    (v : Vote) × ((make_vote crypto state grandpa).0 ≡ some v)
    × (v.voter ≡ 1)
    × (v.view ≡ grandpa.view)
    × (v.proposal_hash ≡ Proposal.digest crypto grandpa)
    × (Vote.verify crypto v authorities ≡ ok tt)
    × ((make_vote crypto state grandpa).1 ≡ record state { last_voted_view = grandpa.view })
make_vote-verify_example =
    make_vote-verify crypto state grandpa 1 local (omega arith)
      (λ d. (d * 1 + 7, refl, ground arith))

verify_vote_answers_example :
    ((Vote.verify crypto (vote_of 1 22) authorities ≡ ok tt)
      × IsAuthority authorities 1
      × IsSigned crypto (some 22) (Vote.digest crypto (vote_of 1 22)) 1)
    ⊎ (((Vote.verify crypto (vote_of 1 22) authorities ≡ err (unknown_authority 1))
          × (contains (ids authorities) 1 ≡ false))
        ⊎ (IsAuthority authorities 1
            × (((Vote.verify crypto (vote_of 1 22) authorities ≡ err null_signature)
                  × ((vote_of 1 22).signature ≡ none))
                ⊎ ((s : AuthoritySignature) × ((vote_of 1 22).signature ≡ some s)
                    × (crypto.verify s (Vote.digest crypto (vote_of 1 22)) 1 ≡ false)
                    × (Vote.verify crypto (vote_of 1 22) authorities
                        ≡ err (invalid_signature 1))))))
verify_vote_answers_example = verify_vote_answers crypto (vote_of 1 22) authorities
