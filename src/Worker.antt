-- ===== src/Worker.antt =====
-- `ConsensusWorker` of hotstuff/consensus/src/consensus.rs: the object that the handlers change.
-- The children model its handlers and prove what they do.
pub mod Payloads
pub mod Guards
pub mod Handlers
pub mod Loop
pub mod Steps
pub mod Climbs
pub mod Refines
pub mod Progress
pub mod Safety
pub mod Views
pub mod Choices
pub mod Refusals
pub mod Settles
pub mod Ballots
pub mod Leading
pub mod Fuel
use madara_hotstuff.Base.{ℕ, Bool, List, [], ◌∷◌, ◌++◌, Option, none, some, head?}
use madara_hotstuff.Primitives.{Hash, ViewNumber, Bytes, Outcome}
use madara_hotstuff.Action.{Action, modify}
use madara_hotstuff.Platform.{Platform}
use madara_hotstuff.Message.Qc.{Qc}
use madara_hotstuff.Message.Consensus.{ConsensusMessage}
use madara_hotstuff.State
use madara_hotstuff.State.{ConsensusState}
use madara_hotstuff.Import.{BlockInfo}

pub record ConsensusWorker (C : Type 0) : Type 0 where
  pub state : ConsensusState
  -- The view of the gossip validator, behind `network`.
  pub network_view : ViewNumber
  -- The messages handed to `gossip_message` with its flag `force`, the latest first.
  pub gossiped : List (ConsensusMessage × Bool)
  pub client : C
  -- The calls of `set_sync_fork_request`, the latest first.
  pub sync_requests : List (Hash × ℕ)
  -- How often `local_timer.reset()` was called.
  pub timer_resets : ℕ
  pub processing_block : Option BlockInfo
  -- The queue that the worker shares with the block import; `none` is a poisoned lock.
  pub pending_finalize_queue : Option (List BlockInfo)
  pub proposal_hash_queue : List Hash

-- The bytes of `EMPTY_PAYLOAD`, `b"hotstuff/empty_payload"`.
abbrev pub empty_payload : Bytes
empty_payload =
    b'h' ∷ b'o' ∷ b't' ∷ b's' ∷ b't' ∷ b'u' ∷ b'f' ∷ b'f' ∷ b'/' ∷ b'e' ∷ b'm' ∷ b'p' ∷ b't' ∷ b'y'
    ∷ b'_' ∷ b'p' ∷ b'a' ∷ b'y' ∷ b'l' ∷ b'o' ∷ b'a' ∷ b'd' ∷ []

-- `pending_finalize_queue.lock().ok().and_then(|q| q.front().cloned())`.
abbrev front : Option (List BlockInfo) → Option BlockInfo
front none = none
front (some queue) = head? queue

module _ {C : Type 0} where
  abbrev pub new : ConsensusState → C → Option (List BlockInfo) → ConsensusWorker C
  new consensus_state client queue = record {
    state = consensus_state;
    network_view = 0;
    gossiped = [];
    client = client;
    sync_requests = [];
    timer_resets = 0;
    processing_block = front queue;
    pending_finalize_queue = queue;
    proposal_hash_queue = [];
  }

  abbrev pub reset_timer : ConsensusWorker C → ConsensusWorker C
  reset_timer w = record w { timer_resets = ℕ.suc w.timer_resets }

  -- `gossip_message(gossip_topic(), message.encode(), force)`.
  abbrev pub gossip : ConsensusMessage → Bool → ConsensusWorker C → ConsensusWorker C
  gossip m force w = record w { gossiped = (m, force) ∷ w.gossiped }

  -- The state moves, and the gossip validator is told its view.
  unfoldable pub advance_view : ViewNumber → ConsensusWorker C → ConsensusWorker C
  advance_view view w =
      let s = State.advance_view_from_target w.state view in
      record w { state = s; network_view = s.view }
