-- ===== src/Message/Timeout.antt =====
-- The timeout notification of message.rs, `Timeout<Block>`.
use madara_hotstuff.Base.{not, ◌++◌, Option, if◌then◌else◌}
use madara_hotstuff.Primitives.{
  AuthorityId, AuthoritySignature, AuthorityList, Hash, ViewNumber, Outcome, ok, ◌>>=◌, ◌>>◌,
}
use madara_hotstuff.Crypto.{Crypto}
use madara_hotstuff.Message.Qc
use madara_hotstuff.Message.Qc.{Qc}
use madara_hotstuff.Message.Vote.{check_member, check_signature}

pub record Timeout : Type 0 where
  pub high_qc : Qc
  pub view : ViewNumber
  pub voter : AuthorityId
  pub signature : Option AuthoritySignature

module _ (c : Crypto) where
  unfoldable pub digest : Timeout → Hash
  digest t = c.hash_of (c.encode_u64 t.view ++ c.encode_u64 t.high_qc.view)

  -- `if qc != QC::default() { qc.verify(authorities)? }`, of timeouts and of proposals.
  unfoldable pub check_qc : Qc → AuthorityList → Outcome (Unit {0})
  check_qc qc authorities = if not (Qc.eq qc Qc.default) then Qc.verify c qc authorities else ok tt

  unfoldable pub verify : Timeout → AuthorityList → Outcome (Unit {0})
  verify t authorities = do
    _ ← check_member authorities t.voter
    check_signature c t.signature (digest t) t.voter
    check_qc t.high_qc authorities
