-- ===== src/Network/Agreement.antt =====
-- The three tests of the gossip validator (network.rs) agree.
use madara_hotstuff.Base.{
  ◌+◌, ◌≤◌, ◌≡◌, refl, ◌↔◌, inl, inr, true, false, arith, Bool-cases, ltb, ◌⊎◌,
}
use madara_hotstuff.Primitives.{Hash, Bytes, External, success, failure}
use madara_hotstuff.Platform.{Platform}
use madara_hotstuff.Message.Consensus.{ConsensusMessage, gossip_topic}
use madara_hotstuff.Network.{
  GossipValidator, message_view, process_and_keep, discard, validate, message_expired,
  message_allowed,
}

-- The message decodes, and its view is at most one below the validator's.
pub data IsCurrent {C : Type 0} (e : Platform C) (v : GossipValidator) (bytes : Bytes)
    : Type 0 where
  current :
      (message : ConsensusMessage)
      → e.codec.decode_message bytes ≡ success message
      → v.view ≤ message_view message + 1
      → IsCurrent e v bytes

module _ {C : Type 0} (e : Platform C) (v : GossipValidator) (bytes : Bytes) where
  decoded-cases :
      (r : External ConsensusMessage)
      → e.codec.decode_message bytes ≡ r
      → ((validate e v bytes ≡ process_and_keep (gossip_topic e.crypto))
          × IsCurrent e v bytes
          × (message_expired e v 0 bytes ≡ false))
        ⊎ ((validate e v bytes ≡ discard)
            × (¬ IsCurrent e v bytes)
            × (message_expired e v 0 bytes ≡ true))
  unfolding validate message_expired
  decoded-cases (success m) h = elim (Bool-cases (ltb v.view (message_view m + 2))) [
    | inl near ↦ inl (ground arith, current m h (ground arith), ground arith)
    | inr far ↦ inr (ground arith, λ c. behind far c, ground arith)
  ]
    where
      behind : ltb v.view (message_view m + 2) ≡ false → ¬ IsCurrent e v bytes
      behind far (current n d k) = absurd (ground arith)
  decoded-cases (failure text) h = inr (ground arith, λ c. undecoded c, ground arith)
    where
      undecoded : ¬ IsCurrent e v bytes
      undecoded (current n d k) = cc

  allowed_lem :
      (topic : Hash)
      → (message_allowed e v topic bytes ≡ true)
        ↔ ((topic ≡ gossip_topic e.crypto) × (message_expired e v topic bytes ≡ false))
  unfolding message_allowed message_expired
  allowed_lem topic = (λ h. ground arith, λ h. ground arith)

-- The validator keeps a message, under the gossip topic, exactly when the bytes decode to a message
-- whose view is at most one below the validator's; it discards every other. A message is expired
-- exactly when it would be discarded, and it may be sent exactly when the topic is the gossip topic
-- and it is not expired.
pub validator_agrees :
    {C : Type 0} (e : Platform C) (v : GossipValidator) (topic : Hash) (bytes : Bytes)
    → ((validate e v bytes ≡ process_and_keep (gossip_topic e.crypto)) ↔ IsCurrent e v bytes)
      × ((validate e v bytes ≡ discard) ↔ (¬ IsCurrent e v bytes))
      × ((message_expired e v topic bytes ≡ true) ↔ (validate e v bytes ≡ discard))
      × ((message_allowed e v topic bytes ≡ true)
          ↔ ((topic ≡ gossip_topic e.crypto) × (message_expired e v topic bytes ≡ false)))
unfolding message_expired
validator_agrees e v topic bytes =
    elim (decoded-cases e v bytes (e.codec.decode_message bytes) refl) [
      | inl (kept, here, live) ↦ (
        (λ _. here, λ _. kept),
        (λ d. cc, λ not_current. absurd (not_current here)),
        (λ expired. cc, λ d. cc),
        allowed_lem e v bytes topic,
      )
      | inr (dropped, not_current, expired) ↦ (
        (λ k. cc, λ c. absurd (not_current c)),
        (λ _. not_current, λ _. dropped),
        (λ _. dropped, λ _. expired),
        allowed_lem e v bytes topic,
      )
    ]
