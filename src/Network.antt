-- ===== src/Network.antt =====
-- hotstuff/consensus/src/network.rs: the gossip validator, which admits, keeps and sends messages by
-- their view.
pub mod Agreement
pub mod Bridge
pub mod Protocol
use madara_hotstuff.Base.{ℕ, ◌-◌, Bool, true, false, not, ◌&&◌, ◌==◌, ltb, leb, if◌then◌else◌}
use madara_hotstuff.Primitives.{Hash, Bytes, ViewNumber, External, success, failure}
use madara_hotstuff.Crypto.{Crypto}
use madara_hotstuff.Platform.{Platform}
use madara_hotstuff.Message.Consensus.{ConsensusMessage, gossip_topic}

pub record GossipValidator : Type 0 where
  pub view : ViewNumber

abbrev pub new : GossipValidator
new = record { view = 0 }

abbrev pub set_view : GossipValidator → ViewNumber → GossipValidator
set_view v new_view = record v { view = new_view }

abbrev pub get_view : GossipValidator → ViewNumber
get_view v = v.view

-- The view that the three closures read off a message; 0 for the kinds without one.
unfoldable pub message_view : ConsensusMessage → ViewNumber
message_view (ConsensusMessage.propose p) = p.view
message_view (ConsensusMessage.vote v) = v.view
message_view (ConsensusMessage.timeout t) = t.view
message_view (ConsensusMessage.tc tc) = tc.view
message_view (ConsensusMessage.sync_request h id) = 0
message_view ConsensusMessage.phantom = 0

-- `sc_network_gossip::ValidationResult`, the two of its values that occur.
pub data ValidationResult : Type 0 where
  process_and_keep : Hash → ValidationResult
  discard : ValidationResult

module _ {C : Type 0} (e : Platform C) where
  -- `current_view > 1 && message_view < current_view - 1` discards.
  unfoldable pub validate : GossipValidator → Bytes → ValidationResult
  validate v bytes = elim (e.codec.decode_message bytes) [
    | success message ↦
        if ltb 1 (get_view v) && ltb (message_view message) (get_view v - 1)
        then discard
        else process_and_keep (gossip_topic e.crypto)
    | failure text ↦ discard
  ]

  -- The closure of `message_expired`.
  unfoldable pub message_expired : GossipValidator → Hash → Bytes → Bool
  message_expired v topic bytes = elim (e.codec.decode_message bytes) [
    | success message ↦
        if leb 1 (get_view v) && ltb (message_view message) (get_view v - 1) then true else false
    | failure text ↦ true
  ]

  -- The closure of `message_allowed`.
  unfoldable pub message_allowed : GossipValidator → Hash → Bytes → Bool
  message_allowed v topic bytes =
      if not (topic == gossip_topic e.crypto) then false else elim (e.codec.decode_message bytes) [
        | success message ↦
            if leb 1 (get_view v) && ltb (message_view message) (get_view v - 1)
            then false
            else true
        | failure text ↦ false
      ]
