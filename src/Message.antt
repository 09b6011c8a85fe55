-- ===== src/Message.antt =====
-- hotstuff/consensus/src/message.rs: the messages of the protocol and their verification, a child
-- for each struct. `PhantomData` fields are left out.
pub mod Qc
pub mod Payload
pub mod Vote
pub mod Timeout
pub mod Tc
pub mod Proposal
pub mod Consensus
pub mod Quorum
pub mod Checked
pub mod Certificates
pub mod Answers
