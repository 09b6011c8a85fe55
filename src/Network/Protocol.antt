-- ===== src/Network/Protocol.antt =====
-- hotstuff/consensus/src/config.rs: the name of the gossip protocol and its set of peers. A text is
-- the list of its bytes.
use madara_hotstuff.Base.{ℕ, ◌*◌, Bool, false, List, [], ◌∷◌, ◌++◌, Option, none, some}
use madara_hotstuff.Primitives.{Bytes}

abbrev pub hotstuff_protocol_name : Bytes
hotstuff_protocol_name =
    b'/' ∷ b'h' ∷ b'o' ∷ b't' ∷ b's' ∷ b't' ∷ b'u' ∷ b'f' ∷ b'f' ∷ b'/' ∷ b'1' ∷ []

-- `bytes2hex` is the writer of another crate.
unfoldable pub standard_name : (Bytes → Bytes) → Bytes → Option Bytes → Bytes
standard_name bytes2hex genesis_hash (some fork_id) =
    (b'/' ∷ bytes2hex genesis_hash ++ b'/' ∷ fork_id) ++ hotstuff_protocol_name
standard_name bytes2hex genesis_hash none =
    (b'/' ∷ bytes2hex genesis_hash) ++ hotstuff_protocol_name

-- `NonDefaultSetConfig`, with the fields of its `SetConfig`; `Deny` accepts no other peer.
pub record PeersSetConfig : Type 0 where
  pub notifications_protocol : Bytes
  pub fallback_names : List Bytes
  pub max_notification_size : ℕ
  pub handshake : Option Bytes
  pub in_peers : ℕ
  pub out_peers : ℕ
  pub reserved_nodes : List Bytes
  pub accepts_others : Bool

unfoldable pub hotstuff_peers_set_config : Bytes → PeersSetConfig
hotstuff_peers_set_config protocol_name = record {
  notifications_protocol = protocol_name;
  fallback_names = [];
  max_notification_size = 1024 * 1024;
  handshake = none;
  in_peers = 0;
  out_peers = 0;
  reserved_nodes = [];
  accepts_others = false;
}
