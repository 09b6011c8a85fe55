-- ===== src/Tests/Collection.antt =====
-- The theorems about the collection of votes, for four authorities and votes out of order.
use madara_hotstuff.Base.{ℕ, ◌*◌, ◌≡◌, refl, List, [], ◌∷◌, true, some, arith, any, ltb, length}
use madara_hotstuff.Message.Qc
use madara_hotstuff.Message.Vote
use madara_hotstuff.Message.Vote.{Vote, check_member, check_signature}
use madara_hotstuff.Aggregator
use madara_hotstuff.Aggregator.{add_vote, append_vote}
use madara_hotstuff.Aggregator.Collection.{answers, AllVerified, certifies, backers}
use madara_hotstuff.Aggregator.Collection.Tally.{answers-certifies}
use madara_hotstuff.Aggregator.Collection.Pool.{pool, is_certified, answers-is_certified}
use madara_hotstuff.Message.Timeout.{Timeout}
use madara_hotstuff.Aggregator.Collection.Timeouts
use madara_hotstuff.Aggregator.Collection.Timeouts.{expires, timed_out}
use madara_hotstuff.Aggregator.Collection.Expiry.{answers-expires}
use madara_hotstuff.Tests.Sample.{crypto, authorities}

abbrev vote_of : ℕ → ℕ → Vote
vote_of voter s = record { proposal_hash = 4; view = 1; voter = voter; signature = some s }

-- The third voter first, and the first voter twice.
abbrev votes : List Vote
votes = vote_of 3 49 ∷ vote_of 1 21 ∷ vote_of 1 21 ∷ vote_of 2 35 ∷ []

verified : AllVerified crypto authorities votes
unfolding Vote.verify Vote.check_member Vote.check_signature Vote.digest
verified = (refl, (refl, (refl, (refl, tt))))

-- Their digest is 14.
certified : any (certifies crypto 1 14) (answers crypto authorities Aggregator.new votes) ≡ true
unfolding add_vote append_vote Vote.digest Qc.digest
certified = refl

answers-certifies_example :
    any (certifies crypto 1 14) (answers crypto authorities Aggregator.new votes)
    ≡ ltb (2 * 4) (3 * length (backers crypto 1 14 votes))
answers-certifies_example = answers-certifies crypto authorities (omega arith) 1 14 votes verified

answers-is_certified_example :
    any (certifies crypto 1 14) (answers crypto authorities Aggregator.new votes)
    ≡ is_certified crypto authorities 1 14 (pool votes)
answers-is_certified_example =
    answers-is_certified crypto authorities 1 14 votes (omega arith) verified

-- The high certificate is the default one.
abbrev timeout_of : ℕ → ℕ → Timeout
timeout_of voter s = record { high_qc = Qc.default; view = 1; voter = voter; signature = some s }

abbrev timeouts : List Timeout
timeouts = timeout_of 3 10 ∷ timeout_of 1 8 ∷ timeout_of 3 10 ∷ timeout_of 2 9 ∷ []

answers-expires_example :
    any (expires 1) (Timeouts.answers authorities Aggregator.new timeouts)
    ≡ ltb (2 * 4) (3 * length (timed_out 1 timeouts))
answers-expires_example =
    answers-expires authorities 1 timeouts ((10, refl), ((8, refl), ((10, refl), ((9, refl), tt))))
      (omega arith)
