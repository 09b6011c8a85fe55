-- ===== src/Benchmark.antt =====
-- node-template/node/src/client.rs: a client that sends transactions to a node at a fixed rate. The
-- connection is a parameter; the file is not a module of the node.
pub mod Transactions
pub mod Sent
pub mod Ticks
use madara_hotstuff.Base.{
  ℕ, zero, suc, ◌+◌, ◌*◌, ◌/◌, ◌%◌, Bool, true, false, List, [], ◌∷◌, ◌++◌, ◌==◌, ltb,
  if◌then◌else◌, wrap64,
}
use madara_hotstuff.Primitives.{Bytes, External, success, failure}

pub record Client : Type 0 where
  pub target : ℕ
  pub size : ℕ
  pub rate : ℕ
  pub timeout : ℕ
  pub nodes : List ℕ

-- Samples in a second, and the milliseconds between two bursts.
abbrev pub precision : ℕ
precision = 20

abbrev pub burst_duration : ℕ
burst_duration = 1000 / precision

-- The text of the error for a small size.
abbrev pub too_small : Bytes
too_small =
    b'T' ∷ b'r' ∷ b'a' ∷ b'n' ∷ b's' ∷ b'a' ∷ b'c' ∷ b't' ∷ b'i' ∷ b'o' ∷ b'n' ∷ 32 ∷ b's' ∷ b'i'
    ∷ b'z' ∷ b'e' ∷ 32 ∷ b'm' ∷ b'u' ∷ b's' ∷ b't' ∷ 32 ∷ b'b' ∷ b'e' ∷ 32 ∷ b'a' ∷ b't' ∷ 32 ∷ b'l'
    ∷ b'e' ∷ b'a' ∷ b's' ∷ b't' ∷ 32 ∷ b'9' ∷ 32 ∷ b'b' ∷ b'y' ∷ b't' ∷ b'e' ∷ b's' ∷ []

-- `put_u64`: `n` bytes of a number, the high one first.
unfoldable pub big_endian : ℕ → ℕ → Bytes
big_endian zero v = []
big_endian (suc n) v = big_endian n (v / 256) ++ (v % 256) ∷ []

-- `BytesMut::resize(n, 0)`.
unfoldable pub resize : ℕ → Bytes → Bytes
resize zero bytes = []
resize (suc n) [] = 0 ∷ resize n []
resize (suc n) (b ∷ bytes) = b ∷ resize n bytes

-- `put_u8(tag)`, `put_u64(v)` and `resize`; `split` leaves an empty buffer for the next transaction.
unfoldable pub transaction : ℕ → ℕ → ℕ → Bytes
transaction size tag v = resize size (tag ∷ big_endian 8 v)

-- What the loops of `send` leave: the transactions handed to the transport in their order, the
-- number in `r`, whether a transmission failed, and the transport.
pub record Sending (T : Type 0) : Type 0 where
  pub sent : List Bytes
  pub r : ℕ
  pub failed : Bool
  pub transport : T

abbrev pub prepend : {T : Type 0} → Bytes → Sending T → Sending T
prepend tx s = record s { sent = tx ∷ s.sent }

abbrev pub after : {T : Type 0} → List Bytes → Sending T → Sending T
after txs s = record s { sent = txs ++ s.sent }

-- After a transmission: on success the rest of the burst follows, else both loops are left.
abbrev pub burst_step : {T : Type 0} → External (Unit {0}) → Bytes → ℕ → T → Sending T → Sending T
burst_step (success _) tx r t rest = prepend tx rest
burst_step (failure text) tx r t rest = record {
  sent = tx ∷ [];
  r = r;
  failed = true;
  transport = t;
}

module _ {T : Type 0} (post : Bytes → T → External (Unit {0}) × T) (c : Client) where
  abbrev pub burst : ℕ
  burst = c.rate / precision

  abbrev pub is_sample : ℕ → ℕ → Bool
  is_sample x counter = x == counter % burst

  -- The transaction of the round `x`, and the number in `r` after it.
  abbrev pub next_r : ℕ → ℕ → ℕ → ℕ
  next_r x counter r = if is_sample x counter then r else wrap64 (r + 1)

  abbrev pub next_transaction : ℕ → ℕ → ℕ → Bytes
  next_transaction x counter r =
      if is_sample x counter
      then transaction c.size 0 counter
      else transaction c.size 1 (next_r x counter r)

  -- `for x in 0..burst`, from `x` on for `n` rounds; a failed transmission leaves both loops.
  unfoldable pub send_burst : ℕ → ℕ → ℕ → ℕ → T → Sending T
  send_burst zero x counter r t = record { sent = []; r = r; failed = false; transport = t }
  send_burst (suc n) x counter r t =
      let tx = next_transaction x counter r in
      let r' = next_r x counter r in
      let (answer, t') = post tx t in
      let rest = send_burst n (x + 1) counter r' t' in burst_step answer tx r' t' rest

  -- The outer loop, for a number of ticks of the interval.
  unfoldable pub send_ticks : ℕ → ℕ → ℕ → T → Sending T
  send_ticks zero counter r t = record { sent = []; r = r; failed = false; transport = t }
  send_ticks (suc ticks) counter r t =
      let s = send_burst burst 0 counter r t in
      let rest = send_ticks ticks (wrap64 (counter + 1)) s.r s.transport in
      if s.failed then s else after s.sent rest

  -- `send`: the size is checked, then the connection is made; `r` is a random number. Within a number
  -- of ticks it either still sends or has returned `Ok`, where `failed` is set.
  unfoldable pub send : ℕ → ℕ → External T → External (Sending T)
  send ticks r connected = if ltb c.size 16 then failure too_small else elim connected [
    | failure text ↦ failure text
    | success t ↦ success (send_ticks ticks 0 r t)
  ]
