-- ===== src/Node/Channels.antt =====
-- What the node (consensus.rs) relies on of `tokio::sync::mpsc::channel`: a bounded queue, first in,
-- first out. With it: what `incoming_message_handler` lets through.
use madara_hotstuff.Base.{
  ℕ, suc, ◌-◌, ◌<◌, ◌≤◌, ◌≡◌, refl, sym, subst, ◌∙◌, ap, List, [], ◌∷◌, ◌++◌, none, some, arith,
  length, length-append, take-nil, take,
}
use mathlib.Core.List.{append-nil, append_assoc}
use native.Mathlib.Decide.{dec_lt}
use madara_hotstuff.Primitives.{Bytes, External, success, failure}
use madara_hotstuff.Platform.{Platform}
use madara_hotstuff.Message.Consensus.{ConsensusMessage}
use madara_hotstuff.Node.{Channel, incoming_message_handler, incoming}

pub record ChannelLaws {Q : Type 0} (ch : Channel Q) : Type 0 where
  -- The messages that wait, the first one in front, and the buffer's size.
  pub contents : Q → List ConsensusMessage
  pub capacity : Q → ℕ
  pub channel_contents : (n : ℕ) → contents (ch.channel n) ≡ []
  pub channel_capacity : (n : ℕ) → capacity (ch.channel n) ≡ n
  -- With room the message is put last; without, the send fails.
  pub send_room :
      (m : ConsensusMessage) (q : Q)
      → length (contents q) < capacity q
      → ((ch.try_send m q).0 ≡ success tt) × (contents (ch.try_send m q).1 ≡ contents q ++ m ∷ [])
  pub send_full :
      (m : ConsensusMessage) (q : Q)
      → capacity q ≤ length (contents q)
      → ((text : Bytes) × ((ch.try_send m q).0 ≡ failure text))
        × (contents (ch.try_send m q).1 ≡ contents q)
  pub send_capacity : (m : ConsensusMessage) (q : Q) → capacity (ch.try_send m q).1 ≡ capacity q
  pub recv_none : (q : Q) → contents q ≡ [] → ch.recv q ≡ (none, q)
  pub recv_front :
      (m : ConsensusMessage) (rest : List ConsensusMessage) (q : Q)
      → contents q ≡ m ∷ rest
      → ((ch.recv q).0 ≡ some m) × (contents (ch.recv q).1 ≡ rest)
  pub recv_capacity : (q : Q) → capacity (ch.recv q).1 ≡ capacity q

module _ {C : Type 0} (e : Platform C) where
  abbrev keep : External ConsensusMessage → List ConsensusMessage → List ConsensusMessage
  keep (success m) messages = m ∷ messages
  keep (failure text) messages = messages

  -- The messages that notifications decode to, in order.
  abbrev pub decoded : List Bytes → List ConsensusMessage
  decoded [] = []
  decoded (notification ∷ notifications) =
      keep (e.codec.decode_message notification) (decoded notifications)

module _ {C Q : Type 0} (e : Platform C) (ch : Channel Q) (laws : ChannelLaws ch) where
  -- The room that a channel has.
  abbrev pub room : Q → ℕ
  room q = laws.capacity q - length (laws.contents q)

  abbrev Passes : Q → List ConsensusMessage → Q → Type 0
  Passes q messages q' =
      (laws.contents q' ≡ laws.contents q ++ take (room q) messages)
      × (laws.capacity q' ≡ laws.capacity q)

  -- One message goes first, if there is room.
  Passes-cons :
      (m : ConsensusMessage) (messages : List ConsensusMessage) (q q' : Q)
      → Passes (ch.try_send m q).1 messages q'
      → Passes q (m ∷ messages) q'
  Passes-cons m messages q q' (passed, same) =
      let sent = (ch.try_send m q).1 in
      let cap = laws.send_capacity m q in
      elim (dec_lt (length (laws.contents q)) (laws.capacity q)) [
        | yes fits ↦
            let put = (laws.send_room m q fits).1 in
            let less : suc (room sent) ≡ room q =
              omega (arith, cap, fits, ap length put, length-append (laws.contents q) (m ∷ [])) in
            (
              passed
                  ∙ (ap (λ l. l ++ take (room sent) messages) put
                      ∙ (append_assoc (laws.contents q) (m ∷ []) (take (room sent) messages)
                          ∙ ap (λ k. laws.contents q ++ take k (m ∷ messages)) less)),
              same ∙ cap,
            )
        | no full ↦
            let kept = (laws.send_full m q (omega arith)).1 in
            let none_left : room sent ≡ 0 = omega (arith, cap, full, ap length kept) in
            let none_before : 0 ≡ room q = omega (arith, full) in
            (
              passed
                  ∙ (ap (λ l. l ++ take (room sent) messages) kept
                      ∙ (ap (λ k. laws.contents q ++ take k messages) none_left
                          ∙ ap (λ k. laws.contents q ++ take k (m ∷ messages)) none_before)),
              same ∙ cap,
            )
      ]

  handler_sends :
      (notification : Bytes) (q : Q) (m : ConsensusMessage)
      → e.codec.decode_message notification ≡ success m
      → (incoming_message_handler e ch notification q).1 ≡ (ch.try_send m q).1
  unfolding incoming_message_handler
  handler_sends notification q m h = rw h refl

  handler_drops :
      (notification : Bytes) (q : Q) (text : Bytes)
      → e.codec.decode_message notification ≡ failure text
      → (incoming_message_handler e ch notification q).1 ≡ q
  unfolding incoming_message_handler
  handler_drops notification q text h = rw h refl

  Passes-notification :
      (notification : Bytes) (messages : List ConsensusMessage) (q q' : Q)
      (r : External ConsensusMessage)
      → e.codec.decode_message notification ≡ r
      → Passes (incoming_message_handler e ch notification q).1 messages q'
      → Passes q (keep e r messages) q'
  Passes-notification notification messages q q' (success m) h rest =
      Passes-cons m messages q q'
        (subst (λ u. Passes u messages q') (handler_sends notification q m h) rest)
  Passes-notification notification messages q q' (failure text) h rest =
      subst (λ u. Passes u messages q') (handler_drops notification q text h) rest

  -- The network's task passes on, in their order, the messages that the ready notifications decode
  -- to, as many of them as the channel has room for, and drops the others; the messages that waited
  -- stay in front.
  pub incoming_passes :
      (notifications : List Bytes) (q : Q)
      → (laws.contents (incoming e ch notifications q)
          ≡ laws.contents q ++ take (room q) (decoded e notifications))
        × (laws.capacity (incoming e ch notifications q) ≡ laws.capacity q)
  unfolding incoming
  incoming_passes [] q = (
    sym (ap (λ l. laws.contents q ++ l) (take-nil (room q)) ∙ append-nil (laws.contents q)),
    refl,
  )
  incoming_passes (notification ∷ notifications) q =
      Passes-notification notification (decoded e notifications) q _
        (e.codec.decode_message notification) refl
        (incoming_passes notifications (incoming_message_handler e ch notification q).1)
