-- ===== src/Message/Qc.antt =====
-- The quorum certificate of message.rs, `QC<Block>`.
use madara_hotstuff.Base.{
  ℕ, ◌+◌, ◌*◌, ◌/◌, Bool, not, ◌&&◌, List, [], ◌∷◌, ◌++◌, ◌==◌, leb, if◌then◌else◌, contains,
  length,
}
use madara_hotstuff.Primitives.{
  AuthorityId, AuthoritySignature, AuthorityList, Hash, ViewNumber, authority_reuse,
  insufficient_quorum, invalid_signature, Outcome, ok, err, ◌>>=◌, ◌>>◌,
}
use madara_hotstuff.Crypto.{Crypto}

pub record Qc : Type 0 where
  pub proposal_hash : Hash
  pub view : ViewNumber
  pub votes : List (AuthorityId × AuthoritySignature)

-- `Default`: the zero hash, view 0 and no vote.
abbrev pub default : Qc
default = record { proposal_hash = 0; view = 0; votes = [] }

-- `PartialEq`: the votes are not compared.
abbrev pub eq : Qc → Qc → Bool
eq a b = a.proposal_hash == b.proposal_hash && a.view == b.view

unfoldable pub add_votes : Qc → AuthorityId → AuthoritySignature → Qc
add_votes qc id signature = record qc { votes = qc.votes ++ (id, signature) ∷ [] }

-- The loop that counts the votes of distinct authorities; `used` is the set of those seen.
unfoldable pub count_votes : List ℕ → ℕ → List (AuthorityId × AuthoritySignature) → Outcome ℕ
count_votes used granted [] = ok granted
count_votes used granted ((id, signature) ∷ votes) =
    let rest = count_votes (id ∷ used) (granted + 1) votes in
    if contains used id then err (authority_reuse id) else rest

-- `grant_votes <= authorities.len() * 2 / 3` refuses.
unfoldable pub check_quorum : ℕ → AuthorityList → Outcome (Unit {0})
check_quorum granted authorities =
    if leb granted (length authorities * 2 / 3) then err insufficient_quorum else ok tt

module _ (c : Crypto) where
  unfoldable pub digest : Qc → Hash
  digest qc = c.hash_of (c.encode_hash qc.proposal_hash ++ c.encode_u64 qc.view)

  -- The loop that checks the signatures against one digest.
  unfoldable pub check_signatures :
      Hash → List (AuthorityId × AuthoritySignature) → Outcome (Unit {0})
  check_signatures d [] = ok tt
  check_signatures d ((voter, signature) ∷ votes) =
      let rest = check_signatures d votes in
      if not (c.verify signature d voter) then err (invalid_signature voter) else rest

  unfoldable pub verify : Qc → AuthorityList → Outcome (Unit {0})
  verify qc authorities = do
    granted ← count_votes [] 0 qc.votes
    check_quorum granted authorities
    check_signatures (digest qc) qc.votes
