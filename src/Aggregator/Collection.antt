-- ===== src/Aggregator/Collection.antt =====
-- Votes that reach `Aggregator::add_vote` (aggregator.rs) one after the other, as
-- `ConsensusWorker::handle_vote` hands them over.
pub mod Tally
pub mod Pool
pub mod Timeouts
pub mod Expiry
use madara_hotstuff.Base.{
  ℕ, ◌+◌, ◌*◌, ◌<◌, ◌≤◌, ◌≡◌, ◌⊎◌, refl, sym, ◌∙◌, ap, subst, inl, inr, Bool, true, false, ◌&&◌,
  ◌||◌, List, [], ◌∷◌, ◌++◌, Option, none, some, not, arith, contains, contains-append, Distinct,
  All, length, length-append, any, ltb, ◌==◌, ==_refl, Bool-cases, u64_mod, if◌then◌else◌,
  length-le_of_Distinct,
}
use native.Mathlib.Decide.{dec_le}
use madara_hotstuff.Primitives.{
  AuthorityId, AuthoritySignature, AuthorityList, Hash, ViewNumber, Outcome, ok, err, panicked,
  out_of_fuel,
}
use madara_hotstuff.Crypto.{Crypto}
use madara_hotstuff.Message.Qc
use madara_hotstuff.Message.Qc.{Qc}
use madara_hotstuff.Message.Vote
use madara_hotstuff.Message.Vote.{Vote}
use madara_hotstuff.Message.Quorum.{voters, length-voters}
use madara_hotstuff.Message.Checked.{verify_vote_branches}
use madara_hotstuff.Aggregator.{Aggregator, QcMaker, append_vote, add_vote, qc_maker}
use madara_hotstuff.Aggregator.Votes.{append_vote-some, append_vote_branches, voters-append}
use madara_hotstuff.Aggregator.Certified.{
  AllSound, qc_maker-add_vote, add_vote-AllSound, same_digest,
}

module _ (c : Crypto) (authorities : AuthorityList) where
  -- The aggregator after a list of votes.
  abbrev pub collect : Aggregator → List Vote → Aggregator
  collect a [] = a
  collect a (v ∷ votes) = collect (add_vote c a v authorities).1 votes

  -- What the calls return, in their order.
  abbrev pub answers : Aggregator → List Vote → List (Outcome (Option Qc))
  answers a [] = []
  answers a (v ∷ votes) =
      (add_vote c a v authorities).0 ∷ answers (add_vote c a v authorities).1 votes

  abbrev pub AllVerified : List Vote → Type 0
  AllVerified votes = All (λ v. Vote.verify c v authorities ≡ ok tt) votes

module _ (c : Crypto) (view : ViewNumber) (d : Hash) where
  -- A certificate of the view whose signatures are for the digest.
  abbrev pub certifies : Outcome (Option Qc) → Bool
  certifies (ok (some qc)) = qc.view == view && Qc.digest c qc == d
  certifies (ok none) = false
  certifies (err _) = false
  certifies panicked = false
  certifies out_of_fuel = false

  -- A vote of the view that is for the digest.
  abbrev pub backs : Vote → Bool
  backs v = v.view == view && Vote.digest c v == d

  -- The voters of such votes, each once.
  abbrev pub backers : List Vote → List AuthorityId
  backers [] = []
  backers (v ∷ votes) =
      let rest = backers votes in
      if backs v && not (contains rest v.voter) then v.voter ∷ rest else rest

  certifies-vote :
      (qc : Qc) (v : Vote)
      → qc.proposal_hash ≡ v.proposal_hash
      → qc.view ≡ v.view
      → certifies (ok (some qc)) ≡ backs v
  certifies-vote qc v hash same = rw (same_digest c qc v hash same, same)

  pub Distinct-backers : (votes : List Vote) → Distinct (backers votes)
  Distinct-backers [] = tt
  Distinct-backers (v ∷ votes) = ground (arith, Distinct-backers votes)

  pub contains-backers :
      (votes : List Vote) (id : AuthorityId)
      → contains (backers votes) id ≡ any (λ v. backs v && v.voter == id) votes
  contains-backers [] id = refl
  contains-backers (v ∷ votes) id = ground (arith, contains-backers votes id)

  -- What adding a vote does to the maker of this view and digest: nothing, or the vote is its first
  -- from that voter and is appended; then it ends in a certificate exactly if the votes suffice.
  module _ (authorities : AuthorityList) (a : Aggregator) (v : Vote) where
    abbrev before : QcMaker
    before = qc_maker a view d

    abbrev after : QcMaker
    after = qc_maker (add_vote c a v authorities).1 view d

    abbrev Kept : Type 0
    Kept =
        ((backs v && not (contains (voters before.votes) v.voter)) ≡ false)
        × (after.votes ≡ before.votes)
        × (certifies (add_vote c a v authorities).0 ≡ false)

    abbrev Appended : Type 0
    Appended =
        ((backs v && not (contains (voters before.votes) v.voter)) ≡ true)
        × ((s : AuthoritySignature) × (after.votes ≡ before.votes ++ (v.voter, s) ∷ []))
        × (certifies (add_vote c a v authorities).0
            ≡ ltb (2 * length authorities) (3 * (length before.votes + 1)))

    uncertified :
        (r : Outcome (Option Qc))
        → backs v ≡ false
        → (add_vote c a v authorities).0 ≡ r
        → certifies r ≡ false
    unfolding add_vote
    uncertified (ok (some qc)) apart e =
        let (hash, same, _, _) =
          append_vote-some c authorities (qc_maker a v.view (Vote.digest c v)) v e in
        certifies-vote qc v hash same ∙ apart
    uncertified (ok none) apart e = refl
    uncertified (err x) apart e = refl
    uncertified panicked apart e = refl
    uncertified out_of_fuel apart e = refl

    other_maker : backs v ≡ false → Kept
    other_maker apart = (
      rw apart,
      rw (qc_maker-add_vote c authorities a v view d) (ground (arith, apart)),
      uncertified _ apart refl,
    )

module _ (c : Crypto) (authorities : AuthorityList) (a : Aggregator) (v : Vote) where
  own_backs : backs c v.view (Vote.digest c v) v ≡ true
  own_backs = rw (==_refl v.view) (==_refl (Vote.digest c v))

  own_after :
      qc_maker (add_vote c a v authorities).1 v.view (Vote.digest c v)
      ≡ (append_vote (qc_maker a v.view (Vote.digest c v)) v authorities).1
  own_after =
      rw (qc_maker-add_vote c authorities a v v.view (Vote.digest c v), ==_refl v.view)
        (rw (==_refl (Vote.digest c v)))

  own_answer :
      (add_vote c a v authorities).0
      ≡ (append_vote (qc_maker a v.view (Vote.digest c v)) v authorities).0
  unfolding add_vote
  own_answer = refl

  own_maker :
      length authorities < u64_mod
      → AllSound c authorities a
      → Vote.verify c v authorities ≡ ok tt
      → Kept c v.view (Vote.digest c v) authorities a v
        ⊎ Appended c v.view (Vote.digest c v) authorities a v
  own_maker fit h e =
      let d = Vote.digest c v in
      let m = qc_maker a v.view d in
      let (known, (s, present, valid)) = (verify_vote_branches c v authorities).0.0 e in
      let (old, few, enough) = append_vote_branches c authorities m v s fit (h v.view d) present in
      elim (Bool-cases (contains (voters m.votes) v.voter)) [
        | inl repeated ↦
            inl (
              rw (own_backs, repeated),
              rw (own_after, old repeated),
              rw (own_answer, old repeated),
            )
        | inr fresh ↦ elim (dec_le (3 * (length m.votes + 1)) (2 * length authorities)) [
          | yes low ↦
              let (made, votes) = few fresh known low in
              inr (
                rw (own_backs, fresh),
                (s, rw own_after votes),
                rw (own_answer, made) (ground arith),
              )
          | no high ↦
              let (made, votes) = enough fresh known (omega arith) in
              inr (
                rw (own_backs, fresh),
                (s, rw own_after votes),
                rw (own_answer, made)
                    (ground (
                      arith,
                      certifies-vote c v.view (Vote.digest c v)
                          (record {
                            proposal_hash = v.proposal_hash;
                            view = v.view;
                            votes = m.votes ++ (v.voter, s) ∷ [];
                          })
                          v refl refl,
                      own_backs,
                    )),
              )
        ]
      ]

  pub add_vote_step :
      (view : ViewNumber) (d : Hash)
      → length authorities < u64_mod
      → AllSound c authorities a
      → Vote.verify c v authorities ≡ ok tt
      → Kept c view d authorities a v ⊎ Appended c view d authorities a v
  add_vote_step view d fit h e = elim (Bool-cases (backs c view d v)) [
    | inl here ↦
        let same : v.view ≡ view = ground arith in
        let like : Vote.digest c v ≡ d = ground arith in
        subst (λ k. Kept c view k authorities a v ⊎ Appended c view k authorities a v) like
          (subst
            (λ w.
              Kept c w (Vote.digest c v) authorities a v
              ⊎ Appended c w (Vote.digest c v) authorities a v)
            same (own_maker fit h e))
    | inr apart ↦ inl (other_maker c view d authorities a v apart)
  ]
