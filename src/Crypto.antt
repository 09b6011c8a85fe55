-- ===== src/Crypto.antt =====
-- What the consensus code takes from other crates: the SCALE codec, the block's hash function, the
-- sr25519 signatures and the keystore. They are parameters of every definition that uses them.
use madara_hotstuff.Base.{ℕ, Bool, Option}
use madara_hotstuff.Primitives.{AuthorityId, AuthoritySignature, Hash, Bytes, External}

pub record Crypto : Type 0 where
  -- `Encode::encode` of a hash, of a `u64`, of an authority id, and of a block number.
  pub encode_hash : Hash → Bytes
  pub encode_u64 : ℕ → Bytes
  pub encode_id : AuthorityId → Bytes
  pub encode_number : ℕ → Bytes
  -- `Hashing::hash_of` on a vector of bytes, which encodes the vector before it hashes it.
  pub hash_of : Bytes → Hash
  -- `Hashing::hash` on the bytes themselves.
  pub hash : Bytes → Hash
  -- `AuthorityPair::verify`.
  pub verify : AuthoritySignature → Hash → AuthorityId → Bool

pub record Keystore : Type 0 where
  -- `has_keys` on one key of the type `HOTSTUFF_KEY_TYPE`.
  pub has_keys : AuthorityId → Bool
  -- `sign_with` for the sr25519 key of an authority.
  pub sign_with : AuthorityId → Hash → External (Option Bytes)
  -- `AuthoritySignature::try_from(data).ok()`.
  pub try_from : Bytes → Option AuthoritySignature
