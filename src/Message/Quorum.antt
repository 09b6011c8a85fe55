-- ===== src/Message/Quorum.antt =====
-- What the verification of a quorum certificate (message.rs, `QC::verify`) accepts.
use madara_hotstuff.Base.{
  ℕ, ◌+◌, ◌*◌, ◌<◌, ◌≡◌, refl, ◌↔◌, true, false, List, [], ◌∷◌, arith, contains, Distinct, All,
  length,
}
use madara_hotstuff.Primitives.{AuthorityId, AuthoritySignature, AuthorityList, Hash, ok, >>=-eq-ok}
use madara_hotstuff.Crypto.{Crypto}
use madara_hotstuff.Message.Qc
use madara_hotstuff.Message.Qc.{Qc}

abbrev pub voters : List (AuthorityId × AuthoritySignature) → List AuthorityId
voters [] = []
voters ((id, _) ∷ votes) = id ∷ voters votes

abbrev pub Fresh : List ℕ → List (AuthorityId × AuthoritySignature) → Type 0
Fresh used votes = All (λ v. contains used v.0 ≡ false) votes

-- Every signature is valid for a digest.
abbrev pub Signed : Crypto → Hash → List (AuthorityId × AuthoritySignature) → Type 0
Signed c d votes = All (λ v. c.verify v.1 d v.0 ≡ true) votes

pub length-voters :
    (votes : List (AuthorityId × AuthoritySignature)) → length (voters votes) ≡ length votes
length-voters [] = refl
length-voters ((id, s) ∷ votes) = omega (arith, length-voters votes)

Fresh-cons :
    (id : ℕ) (used : List ℕ) (votes : List (AuthorityId × AuthoritySignature))
    → Fresh used votes
    → contains (voters votes) id ≡ false
    → Fresh (id ∷ used) votes
Fresh-cons id used [] f h = tt
Fresh-cons id used ((i, s) ∷ votes) f h =
    (ground (arith, f.0), Fresh-cons id used votes f.1 (ground arith))

Fresh-uncons :
    (id : ℕ) (used : List ℕ) (votes : List (AuthorityId × AuthoritySignature))
    → Fresh (id ∷ used) votes
    → Fresh used votes × (contains (voters votes) id ≡ false)
Fresh-uncons id used [] f = (tt, refl)
Fresh-uncons id used ((i, s) ∷ votes) f =
    let (g, h) = Fresh-uncons id used votes f.1 in
    ((ground (arith, f.0), g), ground (arith, f.0, h))

pub count_votes_complete :
    (used : List ℕ) (g : ℕ) (votes : List (AuthorityId × AuthoritySignature))
    → Fresh used votes
    → Distinct (voters votes)
    → Qc.count_votes used g votes ≡ ok (g + length votes)
unfolding Qc.count_votes
count_votes_complete used g [] f d = ground arith
count_votes_complete used g ((id, s) ∷ votes) f d =
    ground
      (arith, count_votes_complete (id ∷ used) (g + 1) votes (Fresh-cons id used votes f.1 d.0) d.1)

pub count_votes_sound :
    (used : List ℕ) (g : ℕ) (votes : List (AuthorityId × AuthoritySignature)) {m : ℕ}
    → Qc.count_votes used g votes ≡ ok m
    → (m ≡ g + length votes) × Fresh used votes × Distinct (voters votes)
unfolding Qc.count_votes
count_votes_sound used g [] h = (ground arith, tt, tt)
count_votes_sound used g ((id, s) ∷ votes) {m} h =
    let fresh : contains used id ≡ false = ground arith in
    let counted : Qc.count_votes (id ∷ used) (g + 1) votes ≡ ok m = ground arith in
    let (total, f, d) = count_votes_sound (id ∷ used) (g + 1) votes counted in
    let (f', apart) = Fresh-uncons id used votes f in (ground arith, (fresh, f'), (apart, d))

pub check_signatures_complete :
    (c : Crypto) (d : Hash) (votes : List (AuthorityId × AuthoritySignature))
    → Signed c d votes
    → Qc.check_signatures c d votes ≡ ok tt
unfolding Qc.check_signatures
check_signatures_complete c d [] h = refl
check_signatures_complete c d ((id, s) ∷ votes) h =
    ground (arith, h.0, check_signatures_complete c d votes h.1)

pub check_signatures_sound :
    (c : Crypto) (d : Hash) (votes : List (AuthorityId × AuthoritySignature))
    → Qc.check_signatures c d votes ≡ ok tt
    → Signed c d votes
unfolding Qc.check_signatures
check_signatures_sound c d [] h = tt
check_signatures_sound c d ((id, s) ∷ votes) h =
    (ground arith, check_signatures_sound c d votes (ground arith))

pub All-Fresh_nil : (votes : List (AuthorityId × AuthoritySignature)) → Fresh [] votes
All-Fresh_nil [] = tt
All-Fresh_nil (v ∷ votes) = (refl, All-Fresh_nil votes)

pub check_quorum_iff :
    (n : ℕ) (authorities : AuthorityList)
    → (Qc.check_quorum n authorities ≡ ok tt) ↔ (2 * length authorities < 3 * n)
unfolding Qc.check_quorum
check_quorum_iff n authorities = (λ h. ground arith, λ h. ground arith)

-- The meaning of a quorum certificate: distinct voters, more than two thirds of the authorities in
-- number, each with a valid signature on the digest.
pub record IsCertificate (c : Crypto) (qc : Qc) (authorities : AuthorityList) : Type 0 where
  pub distinct : Distinct (voters qc.votes)
  pub quorum : 2 * length authorities < 3 * length qc.votes
  pub signed : Signed c (Qc.digest c qc) qc.votes

-- `Qc.verify` accepts a certificate exactly when its voters are pairwise distinct, three times
-- their number exceeds twice the number of authorities, and each signature is valid for the
-- certificate's digest under its voter's key.
pub verify-iff-IsCertificate :
    (c : Crypto) (qc : Qc) (authorities : AuthorityList)
    → (Qc.verify c qc authorities ≡ ok tt) ↔ IsCertificate c qc authorities
unfolding Qc.verify
verify-iff-IsCertificate c qc authorities = (sound, complete)
  where
    sound : (Qc.verify c qc authorities ≡ ok tt) → IsCertificate c qc authorities
    sound h =
        let (granted, counted, h') = >>=-eq-ok (Qc.count_votes [] 0 qc.votes) _ h in
        let (_, enough, signed) = >>=-eq-ok (Qc.check_quorum granted authorities) _ h' in
        let (total, _, d) = count_votes_sound [] 0 qc.votes counted in
        record {
          distinct = d;
          quorum = omega (arith, (check_quorum_iff granted authorities).0 (ground (arith, enough)));
          signed = check_signatures_sound c (Qc.digest c qc) qc.votes signed;
        }

    complete : IsCertificate c qc authorities → Qc.verify c qc authorities ≡ ok tt
    complete h = rw (count_votes_complete [] 0 qc.votes (All-Fresh_nil qc.votes) h.distinct) (
        rw ((check_quorum_iff (0 + length qc.votes) authorities).1 (omega (arith, h.quorum)))
          (check_signatures_complete c (Qc.digest c qc) qc.votes h.signed))
