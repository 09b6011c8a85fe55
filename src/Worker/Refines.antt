-- ===== src/Worker/Refines.antt =====
-- Every handler of the worker (consensus.rs) is a sequence of the steps of `Worker/Steps.antt`.
pub mod Votes
pub mod Proposals
pub mod Timeouts
pub mod Loop
