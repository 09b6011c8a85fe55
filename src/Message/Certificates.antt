-- ===== src/Message/Certificates.antt =====
-- Facts about certificates (message.rs): two quorums overlap, timeout certificates, and what
-- verification leaves unchecked.
use madara_hotstuff.Base.{
  ℕ, ◌+◌, ◌*◌, ◌<◌, ◌≡◌, refl, sym, ◌∙◌, ◌↔◌, inl, inr, true, false, List, [], ◌∷◌, ◌++◌, arith,
  contains, contains-append, Distinct, All, length, length-append, length-le_of_Distinct,
  Bool-cases, if◌then◌else◌,
}
use madara_hotstuff.Primitives.{
  AuthorityId, AuthoritySignature, AuthorityList, ViewNumber, ok, >>=-eq-ok,
}
use madara_hotstuff.Crypto.{Crypto}
use madara_hotstuff.Message.Qc
use madara_hotstuff.Message.Qc.{Qc}
use madara_hotstuff.Message.Tc
use madara_hotstuff.Message.Tc.{Tc}
use madara_hotstuff.Message.Quorum.{
  voters, length-voters, verify-iff-IsCertificate, count_votes_sound, count_votes_complete,
  All-Fresh_nil, check_quorum_iff,
}
use madara_hotstuff.Message.Checked.{ids}

-- The items of one list that stand in another, and those that do not.
abbrev pub common : List ℕ → List ℕ → List ℕ
common [] ys = []
common (x ∷ xs) ys = if contains ys x then x ∷ common xs ys else common xs ys

abbrev only : List ℕ → List ℕ → List ℕ
only [] ys = []
only (x ∷ xs) ys = if contains ys x then only xs ys else x ∷ only xs ys

length-common-only : (xs ys : List ℕ) → length xs ≡ length (common xs ys) + length (only xs ys)
length-common-only [] ys = omega arith
length-common-only (x ∷ xs) ys = ground (arith, length-common-only xs ys)

contains-only : (xs ys : List ℕ) (a : ℕ) → contains xs a ≡ false → contains (only xs ys) a ≡ false
contains-only [] ys a h = refl
contains-only (x ∷ xs) ys a h = ground (arith, contains-only xs ys a)

Distinct-only : (xs ys : List ℕ) → Distinct xs → Distinct ys → Distinct (only xs ys ++ ys)
Distinct-only [] ys d e = e
Distinct-only (x ∷ xs) ys d e = elim (Bool-cases (contains ys x)) [
  | inl shared ↦ rw shared (Distinct-only xs ys d.1 e)
  | inr own ↦ rw own (
    ground (arith, contains-append (only xs ys) ys x, contains-only xs ys x d.0),
    Distinct-only xs ys d.1 e,
  )
]

All-only :
    (all xs ys : List ℕ)
    → All (λ x. contains all x ≡ true) xs
    → All (λ x. contains all x ≡ true) ys
    → All (λ x. contains all x ≡ true) (only xs ys ++ ys)
All-only all [] ys h k = k
All-only all (x ∷ xs) ys h k = elim (Bool-cases (contains ys x)) [
  | inl shared ↦ rw shared (All-only all xs ys h.1 k)
  | inr own ↦ rw own (h.0, All-only all xs ys h.1 k)
]

pub length-ids : (authorities : AuthorityList) → length (ids authorities) ≡ length authorities
length-ids [] = refl
length-ids ((id, w) ∷ authorities) = omega (arith, length-ids authorities)

-- Every voter of a certificate is an authority.
abbrev pub IsLocal : AuthorityList → Qc → Type 0
IsLocal authorities qc = All (λ id. contains (ids authorities) id ≡ true) (voters qc.votes)

-- Two verified certificates whose voters all are authorities share more than a third of the
-- authorities as voters.
pub quorums_intersect :
    (c : Crypto) (authorities : AuthorityList) (p q : Qc)
    → Qc.verify c p authorities ≡ ok tt
    → Qc.verify c q authorities ≡ ok tt
    → IsLocal authorities p
    → IsLocal authorities q
    → length authorities < 3 * length (common (voters p.votes) (voters q.votes))
quorums_intersect c authorities p q vp vq lp lq =
    let cp = (verify-iff-IsCertificate c p authorities).0 vp in
    let cq = (verify-iff-IsCertificate c q authorities).0 vq in
    let xs = voters p.votes in
    let ys = voters q.votes in
    omega (
      arith,
      cp.quorum,
      cq.quorum,
      length-ids authorities,
      length-voters p.votes,
      length-voters q.votes,
      length-common-only xs ys,
      length-append (only xs ys) ys,
      length-le_of_Distinct (only xs ys ++ ys) (ids authorities)
          (Distinct-only xs ys cp.distinct cq.distinct) (All-only (ids authorities) xs ys lp lq),
    )

-- Verification reads nothing of the authority list but its length: a certificate that verifies
-- against one list verifies against every other of that length, whoever its members are.
verify-reads_length :
    (c : Crypto) (qc : Qc) (authorities others : AuthorityList)
    → length authorities ≡ length others
    → Qc.verify c qc authorities ≡ Qc.verify c qc others
unfolding Qc.verify Qc.check_quorum
verify-reads_length c qc authorities others e = rw e

-- The voters and signatures of a timeout certificate.
abbrev pub pairs :
    List (AuthorityId × AuthoritySignature × ViewNumber) → List (AuthorityId × AuthoritySignature)
pairs [] = []
pairs ((id, s, _) ∷ votes) = (id, s) ∷ pairs votes

pub length-pairs :
    (votes : List (AuthorityId × AuthoritySignature × ViewNumber))
    → length (pairs votes) ≡ length votes
length-pairs [] = refl
length-pairs ((id, s, v) ∷ votes) = omega (arith, length-pairs votes)

count_votes-pairs :
    (used : List ℕ) (g : ℕ) (votes : List (AuthorityId × AuthoritySignature × ViewNumber))
    → Tc.count_votes used g votes ≡ Qc.count_votes used g (pairs votes)
unfolding Tc.count_votes Qc.count_votes
count_votes-pairs used g [] = refl
count_votes-pairs used g ((id, s, v) ∷ votes) = rw (count_votes-pairs (id ∷ used) (g + 1) votes)

-- Each voter signed the digest of the certificate's view and of the view that its vote reports.
abbrev pub SignedTimeouts :
    Crypto → ViewNumber → List (AuthorityId × AuthoritySignature × ViewNumber) → Type 0
SignedTimeouts c view votes = All (λ v. c.verify v.1 (Tc.vote_digest c view v.2) v.0 ≡ true) votes

pub check_signatures_iff :
    (c : Crypto) (view : ViewNumber) (votes : List (AuthorityId × AuthoritySignature × ViewNumber))
    → (Tc.check_signatures c view votes ≡ ok tt) ↔ SignedTimeouts c view votes
unfolding Tc.check_signatures
check_signatures_iff c view [] = (λ h. tt, λ h. refl)
check_signatures_iff c view ((id, s, v) ∷ votes) = (
  λ h. (ground arith, (check_signatures_iff c view votes).0 (ground arith)),
  λ h. rw (h.0, (check_signatures_iff c view votes).1 h.1),
)

pub record IsTimeoutCertificate (c : Crypto) (tc : Tc) (authorities : AuthorityList) : Type 0 where
  pub distinct : Distinct (voters (pairs tc.votes))
  pub quorum : 2 * length authorities < 3 * length tc.votes
  pub signed : SignedTimeouts c tc.view tc.votes

-- `Tc.verify` accepts a timeout certificate exactly when its voters are pairwise distinct, three
-- times their number exceeds twice the number of authorities, and each signature is valid for the
-- digest of the certificate's view and the view reported with that vote.
pub verify-iff-IsTimeoutCertificate :
    (c : Crypto) (tc : Tc) (authorities : AuthorityList)
    → (Tc.verify c tc authorities ≡ ok tt) ↔ IsTimeoutCertificate c tc authorities
unfolding Tc.verify
verify-iff-IsTimeoutCertificate c tc authorities = (sound, complete)
  where
    same : Tc.count_votes [] 0 tc.votes ≡ Qc.count_votes [] 0 (pairs tc.votes)
    same = count_votes-pairs [] 0 tc.votes

    sound : (Tc.verify c tc authorities ≡ ok tt) → IsTimeoutCertificate c tc authorities
    sound h =
        let (granted, counted, h') = >>=-eq-ok (Tc.count_votes [] 0 tc.votes) _ h in
        let (_, enough, signed) = >>=-eq-ok (Qc.check_quorum granted authorities) _ h' in
        let (total, _, d) = count_votes_sound [] 0 (pairs tc.votes) (sym same ∙ counted) in
        record {
          distinct = d;
          quorum = omega (
            arith,
            length-pairs tc.votes,
            total,
            (check_quorum_iff granted authorities).0 (ground (arith, enough)),
          );
          signed = (check_signatures_iff c tc.view tc.votes).0 signed;
        }

    complete : IsTimeoutCertificate c tc authorities → Tc.verify c tc authorities ≡ ok tt
    complete h = rw same (
        rw (count_votes_complete [] 0 (pairs tc.votes) (All-Fresh_nil (pairs tc.votes)) h.distinct)
          (rw
            ((check_quorum_iff (0 + length (pairs tc.votes)) authorities).1
              (omega (arith, length-pairs tc.votes, h.quorum)))
            ((check_signatures_iff c tc.view tc.votes).1 h.signed)))
