-- ===== src/Message/Vote.antt =====
-- The vote of message.rs, `Vote<Block>`, and the checks that votes, timeouts and proposals share.
use madara_hotstuff.Base.{ℕ, not, ◌++◌, Option, none, ◌==◌, if◌then◌else◌, find}
use madara_hotstuff.Primitives.{
  AuthorityId, AuthoritySignature, AuthorityList, Hash, ViewNumber, invalid_signature,
  null_signature, unknown_authority, Outcome, ok, err, ok_or, ◌>>=◌,
}
use madara_hotstuff.Crypto.{Crypto}

pub record Vote : Type 0 where
  pub proposal_hash : Hash
  pub view : ViewNumber
  pub voter : AuthorityId
  pub signature : Option AuthoritySignature

abbrev pub new : Hash → ViewNumber → AuthorityId → Vote
new proposal_hash proposal_view voter = record {
  proposal_hash = proposal_hash;
  view = proposal_view;
  voter = voter;
  signature = none;
}

-- `authorities.iter().find(|a| a.0 == id).ok_or(UnknownAuthority(id))`.
unfoldable pub check_member : AuthorityList → AuthorityId → Outcome (AuthorityId × ℕ)
check_member authorities id = ok_or (find (λ a. a.0 == id) authorities) (unknown_authority id)

module _ (c : Crypto) where
  -- `signature.as_ref().ok_or(NullSignature).and_then(..)` against the signer's digest.
  unfoldable pub check_signature :
      Option AuthoritySignature → Hash → AuthorityId → Outcome (Unit {0})
  check_signature signature d id = do
    s ← ok_or signature null_signature
    (if not (c.verify s d id) then err (invalid_signature id) else ok tt)

  unfoldable pub digest : Vote → Hash
  digest v = c.hash_of (c.encode_hash v.proposal_hash ++ c.encode_u64 v.view)

  unfoldable pub verify : Vote → AuthorityList → Outcome (Unit {0})
  verify v authorities = do
    _ ← check_member authorities v.voter
    check_signature v.signature (digest v) v.voter
