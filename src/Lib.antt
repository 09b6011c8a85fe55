-- ===== src/Lib.antt =====
-- A model of the HotStuff consensus of this repository: the consensus crate (hotstuff/consensus),
-- its pallet (hotstuff/pallets/hotstuff) and the types that they share (hotstuff/primitives).
--
-- A node runs a worker that reacts to a local timer and to gossiped messages: proposals, votes,
-- timeouts and timeout certificates. Votes and timeouts are collected into certificates, which move
-- the view on and make the leader propose; a proposal whose parent is of the next view finalizes
-- the grandparent's block. The gossip validator drops messages of old views, the block import feeds
-- the queue of blocks that wait for finality, and the pallet keeps the authorities and the slots on
-- chain. Two tasks share a node: the worker, and a network task that decodes what gossip delivers
-- and hands it to the worker over a bounded channel.
--
-- Which file models what:
--   * Primitives: hotstuff/consensus/src/primitives.rs and the aliases of
--     hotstuff/primitives/src/lib.rs; an `Outcome` is a `Result`, a panic, or exhausted fuel.
--   * Crypto and Platform: parameters for code of other crates, the SCALE codec, the hash, the
--     signatures, the keystore and the client with its auxiliary store. Nothing is assumed of them
--     but what a theorem names: `StoreLaws`, decoding after encoding, valid signing, signatures
--     that are not forged, digests without collision, and `ExecutorLaws` for the runtime's calls.
--   * Message: hotstuff/consensus/src/message.rs, one child for each type (`Qc`, `Payload`,
--     `Proposal`, `Vote`, `Timeout`, `Tc`, `Consensus`); `verify` and `digest` keep their names.
--   * Aggregator: hotstuff/consensus/src/aggregator.rs (`add_vote`, `add_timeout`, the two makers);
--     Maps has the association lists that stand for its hash maps. Aggregator/Collection is about
--     whole lists of votes, and its Pool forgets their order by a quotient.
--   * State: `ConsensusState` of hotstuff/consensus/src/consensus.rs, a function for each method.
--   * Action, Worker: `ConsensusWorker` of the same file. The record has a field for each part that
--     a handler changes, and lists of the messages gossiped and the sync requests made.
--     Worker/Handlers has `handle_proposal`, `handle_vote` and `handle_qc`, Worker/Loop the handlers
--     of timeouts, of timeout certificates and of the timer, and `run`; Worker/Payloads has
--     `get_proposal_payload`. Worker/Steps is the abstract protocol as a step relation, and
--     Worker/Guards what it demands before each step; Worker/Climbs counts how far the view moves;
--     Worker/Ballots has the votes that are made along steps, Worker/Settles how every handler ends,
--     Worker/Fuel what more fuel changes, and Worker/Leading what makes a leader propose.
--   * Node: `ConsensusNetwork` and `start_hotstuff` of the same file. A node is a worker and the
--     channel to it; a schedule is a list of what the executor runs: the network task's `poll` with
--     what is ready for it, the timer's branch or the receiving branch of the worker's `select!`.
--     The channel, from another crate, is a record of operations with laws (Node/Channels).
--   * Synchronizer: hotstuff/consensus/src/synchronizer.rs and store.rs beside it.
--   * Import: hotstuff/consensus/src/import.rs. Network: the validator of
--     hotstuff/consensus/src/network.rs, with its bridge and `round_topic` in Network/Bridge and
--     config.rs in Network/Protocol. Authorities: authorities.rs, aux_schema.rs, `block_import` and
--     the provider of the genesis authorities of client.rs, and
--     `get_genesis_authorities_from_client` of consensus.rs, all there too.
--   * Pallet: hotstuff/pallets/hotstuff/src/lib.rs, with `ConsensusLog` of the primitives.
--   * Digests, Inherents and Registry: digests.rs, inherents.rs and payload.rs of
--     hotstuff/primitives/src; Registry/Lookup has the binary search, Registry/Push the sorting.
--   * Runtime: the constants of node-template/runtime/src/lib.rs, its configuration of the pallet and
--     its side of `HotstuffApi`. ChainSpec: node-template/node/src/chain_spec.rs. Service: `load_spec`
--     of command.rs and what `new_partial` and `new_full` of service.rs, beside it, do for the
--     authorities and the two tasks; `boot` composes them, from the genesis to the node.
--   * Benchmark: the sending loops of node-template/node/src/client.rs.
--   * Base: library names, tests and list lemmas. Tests: a concrete platform and the theorems at
--     concrete inputs.
--
-- Numbers: a view is a `u64` and a block number a `u32`; sums that the code wraps are wrapped, as
-- in a release build, where overflow does not panic. Keys, signatures and hashes are numbers that
-- are only copied, compared and given to the parameters. A message's authenticity is what the
-- parameter `verify` says of its signature, and no more.
--
-- Fuel: `handle_proposal` and `handle_vote` call each other, and fuel bounds how deep. A run that
-- meets the bound ends as `out_of_fuel` with the state reached. With two distinct authorities or
-- more fuel of three is enough: a node that proposes leads the view and not the next one, so that
-- its vote goes to the network, but where the view wraps at 2^64. A single authority leads every
-- view and handles its own votes; no bound is stated for it. The constructor of the pending
-- queue counts from the final block's number to the best one's, and its fuel is that difference and
-- one.
--
-- The binary search of a payload has one more than the number of its entries as fuel, and the
-- benchmark client's endless loop is bounded by the ticks that it has made.
--
-- Not modelled: logs, metrics, the inside of the gossip engine, the timer's clock (its firing is an
-- event), an interleaving of the network task with the inside of a handler (the tasks take turns
-- between the rounds of the worker's loop), a change of the client by another task (in a run it
-- changes by the worker's own `finalize_block` and its store alone, while the code shares it with
-- the block import and other tasks, whose imports and finality come between rounds), locks but for poisoning of the queue's, and weights.
-- commitment.rs of the primitives is one record with no operation. Of the node template: the
-- command line, RPC, telemetry, benchmarks and the generic services of service.rs, and the runtime's
-- other pallets and its macros, which are Substrate's.
pub mod Base
pub mod Primitives
pub mod Crypto
pub mod Message
pub mod Maps
pub mod Aggregator
pub mod State
pub mod Platform
pub mod Synchronizer
pub mod Action
pub mod Import
pub mod Worker
pub mod Network
pub mod Node
pub mod Authorities
pub mod Pallet
pub mod Digests
pub mod Registry
pub mod Inherents
pub mod Runtime
pub mod ChainSpec
pub mod Service
pub mod Benchmark
pub mod Tests
