-- ===== src/Aggregator/Certified.antt =====
-- The certificates that `Aggregator::add_vote` (aggregator.rs) returns.
use madara_hotstuff.Base.{
  ℕ, ◌+◌, ◌*◌, ◌<◌, ◌≤◌, ◌≡◌, ◌⊎◌, refl, ap, subst, inl, inr, true, false, [], none, some, arith,
  contains, length, ◌==◌, ==_iff, Bool-cases, u64_mod, if◌then◌else◌,
}
use native.Mathlib.Decide.{dec_le}
use madara_hotstuff.Primitives.{AuthorityList, ok}
use madara_hotstuff.Maps.{find_or-insert}
use madara_hotstuff.Crypto.{Crypto}
use madara_hotstuff.Message.Qc
use madara_hotstuff.Message.Qc.{Qc}
use madara_hotstuff.Message.Vote
use madara_hotstuff.Message.Vote.{Vote}
use madara_hotstuff.Message.Quorum.{voters, verify-iff-IsCertificate}
use madara_hotstuff.Message.Checked.{verify_vote_branches}
use madara_hotstuff.Message.Certificates.{IsLocal}
use madara_hotstuff.Aggregator.{
  Aggregator, new, QcMaker, append_vote, add_vote, qc_maker, new_qc_maker,
}
use madara_hotstuff.Aggregator.Votes.{
  IsSound, new-IsSound, append_vote-IsSound, append_vote-some, append_vote_branches,
}

-- Every maker holds verified votes for the digest that it is filed under.
abbrev pub AllSound : Crypto → AuthorityList → Aggregator → Type 0
AllSound c authorities a = (view d : ℕ) → IsSound c authorities d (qc_maker a view d)

pub new-AllSound : (c : Crypto) (authorities : AuthorityList) → AllSound c authorities new
new-AllSound c authorities view d = new-IsSound c authorities d

-- A certificate for a vote's proposal and view has the digest that the vote's signature is for.
pub same_digest :
    (c : Crypto) (qc : Qc) (v : Vote)
    → qc.proposal_hash ≡ v.proposal_hash
    → qc.view ≡ v.view
    → Qc.digest c qc ≡ Vote.digest c v
unfolding Qc.digest Vote.digest
same_digest c qc v hash view = cc

module _ (c : Crypto) (authorities : AuthorityList) (a : Aggregator) (v : Vote) where
  -- The maker that the vote is added to.
  abbrev target : QcMaker
  target = qc_maker a v.view (Vote.digest c v)

  -- The other makers stay as they were.
  pub qc_maker-add_vote :
      (view d : ℕ)
      → qc_maker (add_vote c a v authorities).1 view d ≡ (
          if v.view == view
          then if Vote.digest c v == d
            then (append_vote target v authorities).1
            else qc_maker a view d
          else qc_maker a view d)
  unfolding add_vote
  qc_maker-add_vote view d = elim (Bool-cases (v.view == view)) [
    | inl same ↦
        rw (find_or-insert v.view view [] _ a.votes_aggregator, same)
          (rw (find_or-insert (Vote.digest c v) d new_qc_maker _ _) (
            ap
              (λ u.
                if Vote.digest c v == d
                then (append_vote target v authorities).1
                else qc_maker a u d)
              ((==_iff v.view view).0 same)))
    | inr apart ↦ rw (find_or-insert v.view view [] _ a.votes_aggregator, apart)
  ]

  -- Adding a verified vote keeps every maker sound.
  pub add_vote-AllSound :
      AllSound c authorities a
      → Vote.verify c v authorities ≡ ok tt
      → AllSound c authorities (add_vote c a v authorities).1
  add_vote-AllSound h e view d = rw (qc_maker-add_vote view d) (elim (Bool-cases (v.view == view)) [
    | inl same ↦ rw same (elim (Bool-cases (Vote.digest c v == d)) [
      | inl here ↦ rw here (
          subst (λ k. IsSound c authorities k (append_vote target v authorities).1)
            ((==_iff (Vote.digest c v) d).0 here) kept)
      | inr there ↦ rw there (h view d)
    ])
    | inr apart ↦ rw apart (h view d)
  ])
    where
      kept : IsSound c authorities (Vote.digest c v) (append_vote target v authorities).1
      kept =
          let valid = (verify_vote_branches c v authorities).0.0 e in
          append_vote-IsSound c authorities target v (h v.view (Vote.digest c v)) valid.0 valid.1

  -- Where every maker holds verified votes, a certificate that `add_vote` returns for a verified
  -- vote is for the vote's proposal and view, has authorities alone as voters, and passes
  -- `Qc.verify`.
  pub add_vote-certificate :
      (qc : Qc)
      → AllSound c authorities a
      → Vote.verify c v authorities ≡ ok tt
      → (add_vote c a v authorities).0 ≡ ok (some qc)
      → (qc.proposal_hash ≡ v.proposal_hash)
        × (qc.view ≡ v.view)
        × IsLocal authorities qc
        × (Qc.verify c qc authorities ≡ ok tt)
  unfolding add_vote
  add_vote-certificate qc h e made =
      let valid = (verify_vote_branches c v authorities).0.0 e in
      let kept =
        append_vote-IsSound c authorities target v (h v.view (Vote.digest c v)) valid.0 valid.1 in
      let (hash, view, votes, enough) = append_vote-some c authorities target v made in
      (
        hash,
        view,
        rw votes kept.members,
        (verify-iff-IsCertificate c qc authorities).1 (record {
          distinct = rw votes kept.distinct;
          quorum = rw votes (omega (arith, enough, kept.weighed));
          signed = rw (same_digest c qc v hash view, votes) kept.signed;
        }),
      )

  add_vote_cases :
      length authorities < u64_mod
      → AllSound c authorities a
      → Vote.verify c v authorities ≡ ok tt
      → (contains (voters target.votes) v.voter ≡ true
          → ((add_vote c a v authorities).0 ≡ ok none)
            × ((view d : ℕ)
                → (qc_maker (add_vote c a v authorities).1 view d).votes
                  ≡ (qc_maker a view d).votes))
        × (contains (voters target.votes) v.voter ≡ false
            → 3 * (length target.votes + 1) ≤ 2 * length authorities
            → (add_vote c a v authorities).0 ≡ ok none)
        × (contains (voters target.votes) v.voter ≡ false
            → 2 * length authorities < 3 * (length target.votes + 1)
            → (qc : Qc) × ((add_vote c a v authorities).0 ≡ ok (some qc)))
  unfolding add_vote
  add_vote_cases fit h e =
      let (known, (s, present, valid)) = (verify_vote_branches c v authorities).0.0 e in
      let (old, few, enough) =
        append_vote_branches c authorities target v s fit (h v.view (Vote.digest c v)) present in
      (
        λ repeated. (
          ap (λ r. r.0) (old repeated),
          λ view d. rw (qc_maker-add_vote view d) (elim (Bool-cases (v.view == view)) [
            | inl here ↦ rw here (elim (Bool-cases (Vote.digest c v == d)) [
              | inl same ↦
                  rw (same, old repeated)
                    (subst (λ k. target.votes ≡ (qc_maker a k d).votes)
                      ((==_iff v.view view).0 here)
                      (subst (λ k. target.votes ≡ (qc_maker a v.view k).votes)
                        ((==_iff (Vote.digest c v) d).0 same) refl))
              | inr other ↦ rw other
            ])
            | inr apart ↦ rw apart
          ]),
        ),
        λ fresh low. (few fresh known low).0,
        λ fresh high. (_, (enough fresh known high).0),
      )

  -- For fewer than 2^64 authorities, a verified vote of a voter who has not yet voted for this
  -- proposal in this view yields a certificate if the votes with it are more than two thirds of
  -- the authorities and else none; a repeated vote yields none and changes no maker's votes.
  pub add_vote_branches :
      length authorities < u64_mod
      → AllSound c authorities a
      → Vote.verify c v authorities ≡ ok tt
      → ((contains (voters target.votes) v.voter ≡ true)
          × ((add_vote c a v authorities).0 ≡ ok none)
          × ((view d : ℕ)
              → (qc_maker (add_vote c a v authorities).1 view d).votes ≡ (qc_maker a view d).votes))
        ⊎ ((contains (voters target.votes) v.voter ≡ false)
            × (((3 * (length target.votes + 1) ≤ 2 * length authorities)
                  × ((add_vote c a v authorities).0 ≡ ok none))
                ⊎ ((2 * length authorities < 3 * (length target.votes + 1))
                    × ((qc : Qc) × ((add_vote c a v authorities).0 ≡ ok (some qc))))))
  add_vote_branches fit h e =
      let (old, few, enough) = add_vote_cases fit h e in
      elim (Bool-cases (contains (voters target.votes) v.voter)) [
        | inl repeated ↦ inl (repeated, (old repeated).0, (old repeated).1)
        | inr fresh ↦ inr (
          fresh,
          elim (dec_le (3 * (length target.votes + 1)) (2 * length authorities)) [
            | yes low ↦ inl (low, few fresh low)
            | no high ↦ inr (omega arith, enough fresh (omega arith))
          ],
        )
      ]
