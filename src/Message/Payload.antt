-- ===== src/Message/Payload.antt =====
-- The payload of a proposal in message.rs, `Payload<Block>`; a block number is a `u32`.
use madara_hotstuff.Base.{ℕ, ◌++◌}
use madara_hotstuff.Primitives.{Hash, Bytes}
use madara_hotstuff.Crypto.{Crypto}

pub record Payload : Type 0 where
  pub block_hash : Hash
  pub block_number : ℕ

-- The derived `Encode`: the fields in their order.
unfoldable pub encode : Crypto → Payload → Bytes
encode c p = c.encode_hash p.block_hash ++ c.encode_number p.block_number
