-- ===== src/Tests.antt =====
-- The theorems at concrete inputs; the children hold the platform and the witnesses.
pub mod Sample
mod Votes
mod Agreement
mod Collection
pub mod Nodes
mod Leading
mod Runs
mod Blocks
mod Runtime
mod Boots
mod Slots
mod Client
