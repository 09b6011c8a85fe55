-- ===== src/Message/Tc.antt =====
-- The timeout certificate of message.rs, `TC<Block>`.
use madara_hotstuff.Base.{ℕ, ◌+◌, not, List, [], ◌∷◌, ◌++◌, if◌then◌else◌, contains}
use madara_hotstuff.Primitives.{
  AuthorityId, AuthoritySignature, AuthorityList, Hash, ViewNumber, authority_reuse,
  invalid_signature, Outcome, ok, err, ◌>>=◌, ◌>>◌,
}
use madara_hotstuff.Crypto.{Crypto}
use madara_hotstuff.Message.Qc.{check_quorum}

pub record Tc : Type 0 where
  pub view : ViewNumber
  pub votes : List (AuthorityId × AuthoritySignature × ViewNumber)

unfoldable pub count_votes :
    List ℕ → ℕ → List (AuthorityId × AuthoritySignature × ViewNumber) → Outcome ℕ
count_votes used granted [] = ok granted
count_votes used granted ((id, signature, view) ∷ votes) =
    let rest = count_votes (id ∷ used) (granted + 1) votes in
    if contains used id then err (authority_reuse id) else rest

module _ (c : Crypto) where
  -- The digest that a voter of the certificate is taken to have signed.
  unfoldable pub vote_digest : ViewNumber → ViewNumber → Hash
  vote_digest view voted = c.hash_of (c.encode_u64 view ++ c.encode_u64 voted)

  unfoldable pub check_signatures :
      ViewNumber → List (AuthorityId × AuthoritySignature × ViewNumber) → Outcome (Unit {0})
  check_signatures view [] = ok tt
  check_signatures view ((voter, signature, voted) ∷ votes) =
      let rest = check_signatures view votes in
      if not (c.verify signature (vote_digest view voted) voter)
      then err (invalid_signature voter)
      else rest

  unfoldable pub verify : Tc → AuthorityList → Outcome (Unit {0})
  verify tc authorities = do
    granted ← count_votes [] 0 tc.votes
    check_quorum granted authorities
    check_signatures tc.view tc.votes
