-- ===== src/Message/Consensus.antt =====
-- The gossiped message of message.rs, `ConsensusMessage<B>`, and its topic.
use madara_hotstuff.Base.{[], ◌∷◌}
use madara_hotstuff.Primitives.{AuthorityId, Hash, Bytes}
use madara_hotstuff.Crypto.{Crypto}
use madara_hotstuff.Message.Proposal.{Proposal}
use madara_hotstuff.Message.Vote.{Vote}
use madara_hotstuff.Message.Timeout.{Timeout}
use madara_hotstuff.Message.Tc.{Tc}

pub data ConsensusMessage : Type 0 where
  propose : Proposal → ConsensusMessage
  vote : Vote → ConsensusMessage
  timeout : Timeout → ConsensusMessage
  tc : Tc → ConsensusMessage
  sync_request : Hash → AuthorityId → ConsensusMessage
  phantom : ConsensusMessage

-- The bytes of `b"hotstuff/consensus"`.
abbrev pub topic_name : Bytes
topic_name =
    b'h' ∷ b'o' ∷ b't' ∷ b's' ∷ b't' ∷ b'u' ∷ b'f' ∷ b'f' ∷ b'/' ∷ b'c' ∷ b'o' ∷ b'n' ∷ b's' ∷ b'e'
    ∷ b'n' ∷ b's' ∷ b'u' ∷ b's' ∷ []

unfoldable pub gossip_topic : Crypto → Hash
gossip_topic c = c.hash topic_name
