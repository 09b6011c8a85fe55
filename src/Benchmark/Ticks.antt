-- ===== src/Benchmark/Ticks.antt =====
-- The transactions that the benchmark client (client.rs of the node) sends over its ticks.
use madara_hotstuff.Base.{
  ℕ, zero, suc, ◌+◌, ◌*◌, ◌/◌, ◌<◌, ◌≤◌, ◌≡◌, ◌⊎◌, inl, inr, true, false, List, arith, length,
  length-append, All, All-map, All-append, lt→ltb, Bool-cases, wrap64, u64_mod,
}
use native.Mathlib.Decide.{dec_lt}
use madara_hotstuff.Primitives.{Bytes, External, success, failure}
use madara_hotstuff.Benchmark.{
  Client, transaction, Sending, send_burst, send_ticks, send, burst, too_small, after,
}
use madara_hotstuff.Benchmark.Transactions.{length-resize}
use madara_hotstuff.Benchmark.Sent.{
  Apart, Ranged, Apart-append, Bursted, IsBurst, send_burst-IsBurst,
}

times-suc : (n b : ℕ) → suc n * b ≡ b + n * b
times-suc n b = grind arith

module _ (size : ℕ) where
  Ranged-weaken :
      (c c' d d' r r' s s' : ℕ) (xs : List Bytes)
      → c' ≤ c
      → d ≤ d'
      → r' ≤ r
      → s ≤ s'
      → All (Ranged size c d r s) xs
      → All (Ranged size c' d' r' s') xs
  Ranged-weaken c c' d d' r r' s s' xs hc hd hr hs h = All-map _ _ xs weaken h
    where
      weaken : (tx : Bytes) → Ranged size c d r s tx → Ranged size c' d' r' s' tx
      weaken tx (inl (k, hk, lk, e)) = inl (k, omega arith, omega arith, e)
      weaken tx (inr (v, hv, lv, e)) = inr (v, omega arith, omega arith, e)

  sizes :
      (c d r s : ℕ) (xs : List Bytes)
      → All (Ranged size c d r s) xs
      → All (λ tx. length tx ≡ size) xs
  unfolding transaction
  sizes c d r s xs h = All-map _ _ xs exact h
    where
      exact : (tx : Bytes) → Ranged size c d r s tx → length tx ≡ size
      exact tx (inl (k, hk, lk, e)) = rw e (length-resize size _)
      exact tx (inr (v, hv, lv, e)) = rw e (length-resize size _)

module _ {T : Type 0} (post : Bytes → T → External (Unit {0}) × T) (c : Client)
    (room : 9 ≤ c.size) where
  Ranged-burst :
      (counter r s : ℕ) (xs : List Bytes)
      → All (Bursted post c room 0 counter r s) xs
      → All (Ranged c.size counter (counter + 1) r s) xs
  Ranged-burst counter r s xs h = All-map _ _ xs range h
    where
      range :
          (tx : Bytes)
          → Bursted post c room 0 counter r s tx
          → Ranged c.size counter (counter + 1) r s tx
      range tx (inl (at_all, e)) = inl (counter, omega arith, omega arith, e)
      range tx (inr n) = inr n

  record IsSent (ticks counter r : ℕ) (s : Sending T) : Type 0 where
    all : All (Ranged c.size counter (counter + ticks) r (r + ticks * burst post c)) s.sent
    apart : Apart s.sent
    full : s.failed ≡ false → length s.sent ≡ ticks * burst post c

  broken_off :
      (ticks counter r : ℕ) (b : Sending T)
      → b.failed ≡ true
      → IsBurst post c room (burst post c) 0 counter r b
      → IsSent (suc ticks) counter r b
  broken_off ticks counter r b failed h = record {
    all =
        Ranged-weaken c.size counter counter (counter + 1) (counter + suc ticks) r r b.r
          (r + suc ticks * burst post c) b.sent (omega arith) (omega arith) (omega arith)
          (omega (arith, h.stops, times-suc ticks (burst post c)))
          (Ranged-burst counter r b.r b.sent h.all);
    apart = h.apart;
    full = λ e. cc;
  }

  gone_on :
      (ticks counter r : ℕ) (b s : Sending T)
      → counter + suc ticks < u64_mod
      → r + suc ticks * burst post c < u64_mod
      → b.failed ≡ false
      → IsBurst post c room (burst post c) 0 counter r b
      → IsSent ticks (counter + 1) b.r s
      → IsSent (suc ticks) counter r (after b.sent s)
  gone_on ticks counter r b s hc hr went h k =
      let more = times-suc ticks (burst post c) in
      let first = Ranged-burst counter r b.r b.sent h.all in
      record {
        all =
            All-append _ b.sent s.sent
              (Ranged-weaken c.size counter counter (counter + 1) (counter + suc ticks) r r b.r
                (r + suc ticks * burst post c) b.sent (omega arith) (omega arith) (omega arith)
                (omega (arith, h.stops, more)) first)
              (Ranged-weaken c.size (counter + 1) counter (counter + 1 + ticks)
                (counter + suc ticks) b.r r (b.r + ticks * burst post c)
                (r + suc ticks * burst post c) s.sent (omega arith) (omega arith)
                (omega (arith, h.rises)) (omega (arith, h.stops, more)) k.all);
        apart =
            Apart-append c.size room counter (counter + 1) (counter + 1 + ticks) r b.r
              (b.r + ticks * burst post c) b.sent s.sent (omega arith)
              (omega (arith, h.stops, more)) (omega arith) (omega arith) first k.all h.apart
              k.apart;
        full = λ e. omega (arith, length-append b.sent s.sent, h.full went, k.full e, more);
      }

  send_ticks-IsSent :
      (ticks counter r : ℕ) (t : T)
      → counter + ticks < u64_mod
      → r + ticks * burst post c < u64_mod
      → IsSent ticks counter r (send_ticks post c ticks counter r t)
  unfolding send_ticks
  send_ticks-IsSent zero counter r t hc hr = record {
    all = tt;
    apart = tt;
    full = λ e. omega arith;
  }
  send_ticks-IsSent (suc ticks) counter r t hc hr =
      let b = send_burst post c (burst post c) 0 counter r t in
      let h =
        send_burst-IsBurst post c room (burst post c) 0 counter r t (omega arith)
          (omega (arith, hr, times-suc ticks (burst post c))) in
      let next : wrap64 (counter + 1) ≡ counter + 1 = omega arith in
      elim (Bool-cases b.failed) [
        | inl failed ↦ simp failed (broken_off ticks counter r b failed h)
        | inr went ↦
            simp (went, next)
              (gone_on ticks counter r b (send_ticks post c ticks (counter + 1) b.r b.transport) hc
                hr went h
                (send_ticks-IsSent ticks (counter + 1) b.r b.transport (omega arith)
                  (omega (arith, hr, h.stops, times-suc ticks (burst post c)))))
      ]

-- Let the size be at least 16 and let neither the counter nor the random number overflow within the
-- ticks. After a connection `send` sends: every transaction has exactly the size asked for, no two
-- of them are equal, and, unless a transmission failed, each tick has sent a twentieth of the rate.
-- For a size below 16 it fails before it sends anything.
pub send_lem :
    {T : Type 0} (post : Bytes → T → External (Unit {0}) × T) (c : Client) (ticks r : ℕ) (t : T)
    → ticks < u64_mod
    → r + ticks * (c.rate / 20) < u64_mod
    → ((c.size < 16) × (send post c ticks r (success t) ≡ failure too_small))
      ⊎ ((16 ≤ c.size)
          × ((s : Sending T) × (send post c ticks r (success t) ≡ success s)
              × All (λ tx. length tx ≡ c.size) s.sent
              × Apart s.sent
              × ((s.failed ≡ true) ⊎ (length s.sent ≡ ticks * (c.rate / 20)))))
unfolding send
send_lem post c ticks r t few low = elim (dec_lt c.size 16) [
  | yes small ↦ inl (small, rw (lt→ltb c.size 16 small))
  | no large ↦
      let s = send_ticks post c ticks 0 r t in
      let h = send_ticks-IsSent post c (omega arith) ticks 0 r t (omega arith) low in
      inr (
        omega arith,
        (
          s,
          ground arith,
          sizes c.size 0 (0 + ticks) r (r + ticks * burst post c) s.sent h.all,
          h.apart,
          elim (Bool-cases s.failed) [ inl e ↦ inl e | inr e ↦ inr (h.full e) ],
        ),
      )
]
