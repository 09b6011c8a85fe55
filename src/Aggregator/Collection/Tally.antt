-- ===== src/Aggregator/Collection/Tally.antt =====
-- When a list of verified votes ends in a certificate (aggregator.rs): the makers' voters are the
-- voters of the list, whatever its order.
use madara_hotstuff.Base.{
  ℕ, ◌+◌, ◌*◌, ◌<◌, ◌≤◌, ◌≡◌, inl, inr, Bool, true, false, ◌&&◌, ◌||◌, List, [], ◌∷◌, ◌++◌, arith,
  contains, contains-append, Distinct, All, length, length-append, any, ltb, u64_mod,
  length-le_of_Distinct, not, ◌∙◌, if◌then◌else◌,
}
use madara_hotstuff.Primitives.{AuthorityId, AuthorityList, Hash, ViewNumber}
use madara_hotstuff.Crypto.{Crypto}
use madara_hotstuff.Message.Vote.{Vote}
use madara_hotstuff.Message.Quorum.{voters, length-voters}
use madara_hotstuff.Aggregator.{Aggregator, new, add_vote, qc_maker}
use madara_hotstuff.Aggregator.Votes.{voters-append}
use madara_hotstuff.Aggregator.Certified.{AllSound, new-AllSound, add_vote-AllSound}
use madara_hotstuff.Aggregator.Collection.{
  collect, answers, AllVerified, certifies, backs, backers, Distinct-backers, add_vote_step,
}

-- Lists of distinct numbers with the same members are equally long.
All-of_contains :
    (xs ys : List ℕ)
    → ((id : ℕ) → contains xs id ≡ true → contains ys id ≡ true)
    → All (λ x. contains ys x ≡ true) xs
All-of_contains [] ys h = tt
All-of_contains (x ∷ xs) ys h =
    (h x (ground arith), All-of_contains xs ys (λ id e. h id (ground arith)))

pub length-eq_of_contains :
    (xs ys : List ℕ)
    → Distinct xs
    → Distinct ys
    → ((id : ℕ) → contains xs id ≡ contains ys id)
    → length xs ≡ length ys
length-eq_of_contains xs ys dx dy h = omega (
  arith,
  length-le_of_Distinct xs ys dx (All-of_contains xs ys (λ id e. rw (h id) at e)),
  length-le_of_Distinct ys xs dy (All-of_contains ys xs (λ id e. rw (← h id) at e)),
)

-- The first vote of a voter counts, here or in the rest of the list, and no other does.
pub counted_before :
    (xs rest : List ℕ) (b : Bool) (x id : ℕ)
    → (b && not (contains xs x)) ≡ false
    → (contains xs id || contains rest id)
      ≡ (contains xs id || contains (if b && not (contains rest x) then x ∷ rest else rest) id)
counted_before xs rest b x id h = ground arith

pub counted_now :
    (xs rest : List ℕ) (b : Bool) (x id : ℕ)
    → (b && not (contains xs x)) ≡ true
    → (contains (xs ++ x ∷ []) id || contains rest id)
      ≡ (contains xs id || contains (if b && not (contains rest x) then x ∷ rest else rest) id)
counted_now xs rest b x id h = ground (arith, contains-append xs (x ∷ []) id)

module _ (c : Crypto) (authorities : AuthorityList) (fit : length authorities < u64_mod) where
  pub collect-AllSound :
      (a : Aggregator) (votes : List Vote)
      → AllSound c authorities a
      → AllVerified c authorities votes
      → AllSound c authorities (collect c authorities a votes)
  collect-AllSound a [] h e = h
  collect-AllSound a (v ∷ votes) h e =
      collect-AllSound (add_vote c a v authorities).1 votes
        (add_vote-AllSound c authorities a v h e.0) e.1

  module _ (view : ViewNumber) (d : Hash) where
    -- The voters that the maker holds.
    abbrev held : Aggregator → List AuthorityId
    held a = voters (qc_maker a view d).votes

    -- They grow by those of the list.
    held-collect :
        (a : Aggregator) (votes : List Vote) (id : AuthorityId)
        → AllSound c authorities a
        → AllVerified c authorities votes
        → contains (held (collect c authorities a votes)) id
          ≡ (contains (held a) id || contains (backers c view d votes) id)
    held-collect a [] id h e = ground arith
    held-collect a (v ∷ votes) id h e =
        let a' = (add_vote c a v authorities).1 in
        let rest = held-collect a' votes id (add_vote-AllSound c authorities a v h e.0) e.1 in
        elim (add_vote_step c authorities a v view d fit h e.0) [
          | inl (unfit, votes', _) ↦
              rw votes' at rest
              ∙ counted_before (held a) (backers c view d votes) (backs c view d v) v.voter id unfit
          | inr (first, (s, votes'), _) ↦
              rw (votes', voters-append (qc_maker a view d).votes v.voter s) at rest
              ∙ counted_now (held a) (backers c view d votes) (backs c view d v) v.voter id first
        ]

    -- A certificate comes with the vote that makes the quorum full, or with a later new voter's.
    certifies-collect :
        (a : Aggregator) (votes : List Vote)
        → AllSound c authorities a
        → AllVerified c authorities votes
        → (length (held a) ≤ length (held (collect c authorities a votes)))
          × (any (certifies c view d) (answers c authorities a votes) ≡ (
              ltb (length (held a)) (length (held (collect c authorities a votes)))
              && ltb (2 * length authorities) (3 * length (held (collect c authorities a votes)))))
    certifies-collect a [] h e = ground arith
    certifies-collect a (v ∷ votes) h e =
        let a' = (add_vote c a v authorities).1 in
        let (grown, rest) =
          certifies-collect a' votes (add_vote-AllSound c authorities a v h e.0) e.1 in
        elim (add_vote_step c authorities a v view d fit h e.0) [
          | inl (unfit, votes', none_yet) ↦ (rw votes' at grown, rw none_yet (rw votes' at rest))
          | inr (first, (s, votes'), made) ↦
              let longer : length (held a') ≡ length (held a) + 1 = rw votes' (
                omega (
                  arith,
                  length-voters (qc_maker a view d).votes,
                  length-voters ((qc_maker a view d).votes ++ (v.voter, s) ∷ []),
                  length-append (qc_maker a view d).votes ((v.voter, s) ∷ []),
                )) in
              (
                omega arith,
                rw made
                    (ground (arith, rest, longer, grown, length-voters (qc_maker a view d).votes)),
              )
        ]

    held_total :
        (votes : List Vote)
        → AllVerified c authorities votes
        → length (held (collect c authorities new votes)) ≡ length (backers c view d votes)
    held_total votes e =
        length-eq_of_contains _ _
          (collect-AllSound new votes (new-AllSound c authorities) e view d).distinct
          (Distinct-backers c view d votes)
          (λ id. held-collect new votes id (new-AllSound c authorities) e)

    -- For fewer than 2^64 authorities and a list of verified votes added one by one to an empty
    -- aggregator, some call returns a certificate of the view for the digest exactly if the
    -- distinct voters in the list who voted for it are more than two thirds of the authorities.
    pub answers-certifies :
        (votes : List Vote)
        → AllVerified c authorities votes
        → any (certifies c view d) (answers c authorities new votes)
          ≡ ltb (2 * length authorities) (3 * length (backers c view d votes))
    answers-certifies votes e =
        let (_, issued) = certifies-collect new votes (new-AllSound c authorities) e in
        ground (arith, issued, held_total votes e)
