-- ===== src/Message/Proposal.antt =====
-- The proposal of message.rs, `Proposal<Block>`.
use madara_hotstuff.Base.{◌++◌, Option}
use madara_hotstuff.Primitives.{
  AuthorityId, AuthoritySignature, AuthorityList, Hash, ViewNumber, Outcome, ◌>>=◌, ◌>>◌,
}
use madara_hotstuff.Crypto.{Crypto}
use madara_hotstuff.Message.Qc.{Qc}
use madara_hotstuff.Message.Tc.{Tc}
use madara_hotstuff.Message.Payload
use madara_hotstuff.Message.Payload.{Payload}
use madara_hotstuff.Message.Vote.{check_member, check_signature}
use madara_hotstuff.Message.Timeout.{check_qc}

pub record Proposal : Type 0 where
  pub qc : Qc
  pub tc : Option Tc
  pub payload : Payload
  pub view : ViewNumber
  pub author : AuthorityId
  pub signature : Option AuthoritySignature

abbrev pub new :
    Qc → Option Tc → Payload → ViewNumber → AuthorityId → Option AuthoritySignature → Proposal
new qc tc payload view author signature = record {
  qc = qc;
  tc = tc;
  payload = payload;
  view = view;
  author = author;
  signature = signature;
}

abbrev pub parent_hash : Proposal → Hash
parent_hash p = p.qc.proposal_hash

module _ (c : Crypto) where
  unfoldable pub digest : Proposal → Hash
  digest p = c.hash_of (
      c.encode_id p.author
      ++ (Payload.encode c p.payload ++ (c.encode_u64 p.view ++ c.encode_hash p.qc.proposal_hash)))

  unfoldable pub verify : Proposal → AuthorityList → Outcome (Unit {0})
  verify p authorities = do
    _ ← check_member authorities p.author
    check_signature c p.signature (digest p) p.author
    check_qc c p.qc authorities
