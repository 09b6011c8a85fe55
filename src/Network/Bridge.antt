-- ===== src/Network/Bridge.antt =====
-- The bridge to the network service of hotstuff/consensus/src/network.rs and the names of rounds,
-- `round_topic`. A text is the list of its bytes.
use madara_hotstuff.Base.{
  ℕ, zero, suc, ◌+◌, ◌*◌, ◌/◌, ◌%◌, ◌-◌, ◌<◌, ◌≡◌, sym, ◌∙◌, ap, ◌&&◌, [], ◌∷◌, ◌++◌, arith, ltb,
  leb, ltb→lt, if◌then◌else◌, u64_mod, Bool-cases, inl, inr,
}
use mathlib.Core.List.{append-nil, append_assoc}
use madara_hotstuff.Primitives.{Hash, Bytes, ViewNumber}
use madara_hotstuff.Crypto.{Crypto}
use madara_hotstuff.Network as Validator
use madara_hotstuff.Network.{GossipValidator}

-- The service and the syncing handle are values of other crates; the validator is shared with the
-- gossip engine.
pub record HotstuffNetworkBridge (S Y G : Type 0) : Type 0 where
  pub service : S
  pub sync : Y
  pub gossip_engine : G
  pub gossip_validator : GossipValidator

module _ {S Y G : Type 0} where
  -- `engine` is `GossipEngine::new`.
  abbrev pub new :
      (S → Y → Bytes → GossipValidator → G) → S → Y → Bytes → HotstuffNetworkBridge S Y G
  new engine service sync protocol_name = record {
    service = service;
    sync = sync;
    gossip_engine = engine service sync protocol_name Validator.new;
    gossip_validator = Validator.new;
  }

  abbrev pub set_view : HotstuffNetworkBridge S Y G → ViewNumber → HotstuffNetworkBridge S Y G
  set_view b view = record b { gossip_validator = Validator.set_view b.gossip_validator view }

  abbrev pub local_peer_id : {P : Type 0} → (S → P) → HotstuffNetworkBridge S Y G → P
  local_peer_id peer_id b = peer_id b.service

-- `Poll<()>`.
pub data Poll : Type 0 where
  ready pending : Poll

-- The bridge's own poll, over that of the gossip engine.
abbrev pub poll :
    {S Y G : Type 0}
    → (G → Poll × G)
    → HotstuffNetworkBridge S Y G
    → Poll × HotstuffNetworkBridge S Y G
poll poll_unpin b =
    let (answer, engine) = poll_unpin b.gossip_engine in
    (answer, record b { gossip_engine = engine })

-- `format!("{}", n)` for an unsigned number: its decimal digits, at most `fuel` of them.
unfoldable pub decimal : ℕ → ℕ → Bytes
decimal zero n = []
decimal (suc fuel) n =
    let rest = decimal fuel (n / 10) in
    if ltb n 10 then (48 + n) ∷ [] else rest ++ (48 + n % 10) ∷ []

-- A `u64` has at most 20 digits.
unfoldable pub display : ℕ → Bytes
display n = decimal 20 n

-- `format!("{}-{}", set_id, round)`.
unfoldable pub topic_text : ℕ → ℕ → Bytes
topic_text round set_id = display set_id ++ b'-' ∷ display round

unfoldable pub round_topic : Crypto → ℕ → ℕ → Hash
round_topic c round set_id = c.hash (topic_text round set_id)

-- The number that a text begins with, and the rest of the text.
read : ℕ → Bytes → ℕ × Bytes
read acc [] = (acc, [])
read acc (b ∷ bytes) =
    let rest = read (acc * 10 + (b - 48)) bytes in
    if leb 48 b && ltb b 58 then rest else (acc, b ∷ bytes)

abbrev bound : ℕ → ℕ
bound zero = 1
bound (suc fuel) = 10 * bound fuel

read-digit : (n : ℕ) (rest : Bytes) → read (n / 10) ((48 + n % 10) ∷ rest) ≡ read n rest
unfolding read
read-digit n rest =
    let whole : n / 10 * 10 + (48 + n % 10 - 48) ≡ n = omega arith in
    ground (arith, ap (λ (t : ℕ). read t rest) whole)

read-decimal :
    (fuel n : ℕ) (rest : Bytes) → n < bound fuel → read 0 (decimal fuel n ++ rest) ≡ read n rest
unfolding decimal
read-decimal zero n rest h = ap (λ (t : ℕ). read t rest) (omega arith)
read-decimal (suc fuel) n rest h = elim (Bool-cases (ltb n 10)) [
  | inl small ↦ rw small (first n rest (ltb→lt n 10 small))
  | inr large ↦
      rw (large, append_assoc (decimal fuel (n / 10)) ((48 + n % 10) ∷ []) rest)
        (read-decimal fuel (n / 10) ((48 + n % 10) ∷ rest) (omega arith) ∙ read-digit n rest)
]
  where
    first : (m : ℕ) (bytes : Bytes) → m < 10 → read 0 ((48 + m) ∷ bytes) ≡ read m bytes
    first m bytes small =
        let none_before : m / 10 ≡ 0 = omega arith in
        let itself : m % 10 ≡ m = omega arith in rw (none_before, itself) at (read-digit m bytes)

read-display : (n : ℕ) (rest : Bytes) → n < u64_mod → read 0 (display n ++ rest) ≡ read n rest
unfolding display
read-display n rest h = read-decimal 20 n rest (omega arith)

read-topic :
    (round set_id : ℕ)
    → set_id < u64_mod
    → read 0 (topic_text round set_id) ≡ (set_id, b'-' ∷ display round)
unfolding topic_text read
read-topic round set_id h = read-display set_id (b'-' ∷ display round) h

read-display_whole : (n : ℕ) → n < u64_mod → read 0 (display n) ≡ (n, [])
unfolding read
read-display_whole n h = rw append-nil at (read-display n [] h)

display_injective : (n m : ℕ) → n < u64_mod → m < u64_mod → display n ≡ display m → n ≡ m
display_injective n m hn hm h =
    let same = sym (read-display_whole n hn) ∙ ap (read 0) h ∙ read-display_whole m hm in cc

-- Where the hash has no collision on the texts of topics, two rounds of two sets of authorities
-- share a topic only if they are the same round of the same set.
round_topic_injective :
    (c : Crypto) (round set_id round' set_id' : ℕ)
    → round < u64_mod
    → set_id < u64_mod
    → round' < u64_mod
    → set_id' < u64_mod
    → (c.hash (topic_text round set_id) ≡ c.hash (topic_text round' set_id')
        → topic_text round set_id ≡ topic_text round' set_id')
    → round_topic c round set_id ≡ round_topic c round' set_id'
    → (round ≡ round') × (set_id ≡ set_id')
unfolding round_topic read
round_topic_injective c round set_id round' set_id' hr hs hr' hs' free h =
    let same =
      sym (read-topic round set_id hs) ∙ ap (read 0) (free h) ∙ read-topic round' set_id' hs' in
    let rounds : display round ≡ display round' = cc in
    (display_injective round round' hr hr' rounds, ground arith)
