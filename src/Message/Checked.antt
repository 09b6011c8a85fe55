-- ===== src/Message/Checked.antt =====
-- What the verification of votes, timeouts and proposals (message.rs) accepts, and how it refuses.
use madara_hotstuff.Base.{
  ℕ, ◌≡◌, refl, ◌↔◌, ◌⊎◌, inl, inr, true, false, List, [], ◌∷◌, Option, none, some, arith, contains,
  ◌==◌, Bool-cases, Option-cases,
}
use madara_hotstuff.Primitives.{
  AuthorityId, AuthoritySignature, AuthorityList, Hash, null_signature, unknown_authority,
  invalid_signature, ok, err, >>=-eq-ok,
}
use madara_hotstuff.Crypto.{Crypto}
use madara_hotstuff.Message.Qc
use madara_hotstuff.Message.Qc.{Qc}
use madara_hotstuff.Message.Vote
use madara_hotstuff.Message.Vote.{Vote, check_member, check_signature}
use madara_hotstuff.Message.Timeout
use madara_hotstuff.Message.Timeout.{Timeout, check_qc}
use madara_hotstuff.Message.Proposal
use madara_hotstuff.Message.Proposal.{Proposal}
use madara_hotstuff.Message.Quorum.{IsCertificate, verify-iff-IsCertificate}

abbrev pub ids : AuthorityList → List AuthorityId
ids [] = []
ids ((id, _) ∷ authorities) = id ∷ ids authorities

abbrev pub IsAuthority : AuthorityList → AuthorityId → Type 0
IsAuthority authorities id = contains (ids authorities) id ≡ true

pub check_member-known :
    (authorities : AuthorityList) (id : AuthorityId)
    → IsAuthority authorities id
    → (a : AuthorityId × ℕ) × (check_member authorities id ≡ ok a)
unfolding check_member
check_member-known [] id h = cc
check_member-known ((i, w) ∷ authorities) id h = elim (Bool-cases (i == id)) [
  | inl same ↦ ((i, w), rw same)
  | inr other ↦
      let (a, found) = check_member-known authorities id (ground arith) in (a, rw other found)
]

pub check_member-unknown :
    (authorities : AuthorityList) (id : AuthorityId)
    → contains (ids authorities) id ≡ false
    → check_member authorities id ≡ err (unknown_authority id)
unfolding check_member
check_member-unknown [] id h = refl
check_member-unknown ((i, w) ∷ authorities) id h =
    ground (arith, check_member-unknown authorities id)

-- The signature is there and valid.
abbrev pub IsSigned : Crypto → Option AuthoritySignature → Hash → AuthorityId → Type 0
IsSigned c signature d id =
    (s : AuthoritySignature) × (signature ≡ some s) × (c.verify s d id ≡ true)

pub check_signature_sound :
    (c : Crypto) (signature : Option AuthoritySignature) (d : Hash) (id : AuthorityId)
    → check_signature c signature d id ≡ ok tt
    → IsSigned c signature d id
unfolding check_signature
check_signature_sound c none d id h = cc
check_signature_sound c (some s) d id h = (s, refl, ground arith)

pub check_signature_complete :
    (c : Crypto) (signature : Option AuthoritySignature) (d : Hash) (id : AuthorityId)
    → IsSigned c signature d id
    → check_signature c signature d id ≡ ok tt
unfolding check_signature
check_signature_complete c signature d id (s, e, h) = ground arith

member_of_ok :
    (authorities : AuthorityList) (id : AuthorityId) {a : AuthorityId × ℕ}
    → check_member authorities id ≡ ok a
    → IsAuthority authorities id
member_of_ok authorities id h = elim (Bool-cases (contains (ids authorities) id)) [
  | inl known ↦ known
  | inr unknown ↦ cc (check_member-unknown authorities id unknown)
]

-- A certificate field is accepted when it equals the default one in hash and view, or verifies.
abbrev pub IsAccepted : Crypto → Qc → AuthorityList → Type 0
IsAccepted c qc authorities = (Qc.eq qc Qc.default ≡ true) ⊎ IsCertificate c qc authorities

pub check_qc_sound :
    (c : Crypto) (qc : Qc) (authorities : AuthorityList)
    → check_qc c qc authorities ≡ ok tt
    → IsAccepted c qc authorities
unfolding check_qc
check_qc_sound c qc authorities h = elim (Bool-cases (Qc.eq qc Qc.default)) [
  | inl same ↦ inl same
  | inr differs ↦ inr ((verify-iff-IsCertificate c qc authorities).0 (rw differs at h))
]

pub check_qc_complete :
    (c : Crypto) (qc : Qc) (authorities : AuthorityList)
    → IsAccepted c qc authorities
    → check_qc c qc authorities ≡ ok tt
unfolding check_qc
check_qc_complete c qc authorities (inl same) = rw same
check_qc_complete c qc authorities (inr h) = elim (Bool-cases (Qc.eq qc Qc.default)) [
  | inl same ↦ rw same
  | inr differs ↦ rw differs ((verify-iff-IsCertificate c qc authorities).1 h)
]

pub verify_vote_branches :
    (c : Crypto) (v : Vote) (authorities : AuthorityList)
    → ((Vote.verify c v authorities ≡ ok tt)
        ↔ (IsAuthority authorities v.voter × IsSigned c v.signature (Vote.digest c v) v.voter))
      × (contains (ids authorities) v.voter ≡ false
          → Vote.verify c v authorities ≡ err (unknown_authority v.voter))
      × (IsAuthority authorities v.voter
          → v.signature ≡ none
          → Vote.verify c v authorities ≡ err null_signature)
      × ((s : AuthoritySignature)
          → IsAuthority authorities v.voter
          → v.signature ≡ some s
          → c.verify s (Vote.digest c v) v.voter ≡ false
          → Vote.verify c v authorities ≡ err (invalid_signature v.voter))
unfolding Vote.verify check_signature
verify_vote_branches c v authorities = (
  (
    λ h.
        let (a, known, signed) = >>=-eq-ok (check_member authorities v.voter) _ h in
        (
          member_of_ok authorities v.voter known,
          check_signature_sound c v.signature _ v.voter signed,
        ),
    λ h.
        let (a, known) = check_member-known authorities v.voter h.0 in
        rw known (check_signature_complete c v.signature _ v.voter h.1),
  ),
  λ unknown. rw (check_member-unknown authorities v.voter unknown),
  λ h e. let (a, known) = check_member-known authorities v.voter h in rw known (ground arith),
  λ s h e bad. let (a, known) = check_member-known authorities v.voter h in rw known (ground arith),
)

-- `Vote.verify` accepts a vote exactly when its voter is an authority and its signature is present
-- and valid for its digest; else it names the first check that fails: an unknown voter, a missing
-- signature, an invalid one.
pub verify_vote_answers :
    (c : Crypto) (v : Vote) (authorities : AuthorityList)
    → ((Vote.verify c v authorities ≡ ok tt)
        × IsAuthority authorities v.voter
        × IsSigned c v.signature (Vote.digest c v) v.voter)
      ⊎ (((Vote.verify c v authorities ≡ err (unknown_authority v.voter))
            × (contains (ids authorities) v.voter ≡ false))
          ⊎ ((IsAuthority authorities v.voter)
              × (((Vote.verify c v authorities ≡ err null_signature) × (v.signature ≡ none))
                  ⊎ ((s : AuthoritySignature) × (v.signature ≡ some s)
                      × (c.verify s (Vote.digest c v) v.voter ≡ false)
                      × (Vote.verify c v authorities ≡ err (invalid_signature v.voter))))))
verify_vote_answers c v authorities =
    let (accepts, stranger, unsigned, forged) = verify_vote_branches c v authorities in
    elim (Bool-cases (contains (ids authorities) v.voter)) [
      | inr unknown ↦ inr (inl (stranger unknown, unknown))
      | inl known ↦ elim (Option-cases v.signature) [
        | inl absent ↦ inr (inr (known, inl (unsigned known absent, absent)))
        | inr (s, present) ↦ elim (Bool-cases (c.verify s (Vote.digest c v) v.voter)) [
          | inl valid ↦ inl (accepts.1 (known, (s, present, valid)), known, (s, present, valid))
          | inr invalid ↦
              inr (inr (known, inr (s, present, invalid, forged s known present invalid)))
        ]
      ]
    ]

module _ (c : Crypto) (authorities : AuthorityList) (qc : Qc) where
  -- What the common part of `Timeout.verify` and `Proposal.verify` accepts.
  abbrev pub IsEndorsed : AuthorityId → Option AuthoritySignature → Hash → Type 0
  IsEndorsed id signature d =
      IsAuthority authorities id × IsSigned c signature d id × IsAccepted c qc authorities

-- `Timeout.verify` accepts a timeout exactly when its voter is an authority, its signature is
-- present and valid for its digest, and its high certificate is the default one or verifies.
pub verify_timeout_iff :
    (c : Crypto) (t : Timeout) (authorities : AuthorityList)
    → (Timeout.verify c t authorities ≡ ok tt)
      ↔ IsEndorsed c authorities t.high_qc t.voter t.signature (Timeout.digest c t)
unfolding Timeout.verify
verify_timeout_iff c t authorities = (
  λ h.
      let (a, known, h') = >>=-eq-ok (check_member authorities t.voter) _ h in
      let (_, signed, accepted) = >>=-eq-ok (check_signature c t.signature _ t.voter) _ h' in
      (
        member_of_ok authorities t.voter known,
        check_signature_sound c t.signature _ t.voter signed,
        check_qc_sound c t.high_qc authorities accepted,
      ),
  λ h.
      let (a, known) = check_member-known authorities t.voter h.0 in
      rw known (
        rw (check_signature_complete c t.signature (Timeout.digest c t) t.voter h.1)
          (check_qc_complete c t.high_qc authorities h.2)),
)

-- `Proposal.verify` accepts a proposal exactly when its author is an authority, its signature is
-- present and valid for its digest, and its certificate is the default one or verifies. The timeout
-- certificate that it may carry plays no part.
pub verify_proposal_iff :
    (c : Crypto) (p : Proposal) (authorities : AuthorityList)
    → (Proposal.verify c p authorities ≡ ok tt)
      ↔ IsEndorsed c authorities p.qc p.author p.signature (Proposal.digest c p)
unfolding Proposal.verify
verify_proposal_iff c p authorities = (
  λ h.
      let (a, known, h') = >>=-eq-ok (check_member authorities p.author) _ h in
      let (_, signed, accepted) = >>=-eq-ok (check_signature c p.signature _ p.author) _ h' in
      (
        member_of_ok authorities p.author known,
        check_signature_sound c p.signature _ p.author signed,
        check_qc_sound c p.qc authorities accepted,
      ),
  λ h.
      let (a, known) = check_member-known authorities p.author h.0 in
      rw known (
        rw (check_signature_complete c p.signature (Proposal.digest c p) p.author h.1)
          (check_qc_complete c p.qc authorities h.2)),
)
