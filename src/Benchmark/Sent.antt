-- ===== src/Benchmark/Sent.antt =====
-- What the benchmark client (client.rs of the node) hands to its connection.
use madara_hotstuff.Base.{
  ℕ, zero, suc, ◌+◌, ◌%◌, ◌<◌, ◌≤◌, ◌≡◌, ◌≢◌, ◌⊎◌, refl, inl, inr, false, List, [], ◌∷◌, ◌++◌,
  arith, length, All, All-map, All-append, ==_iff, Bool-cases, wrap64, u64_mod,
}
use madara_hotstuff.Primitives.{Bytes, External, success, failure}
use madara_hotstuff.Benchmark.{
  Client, transaction, Sending, burst_step, send_burst, burst, is_sample,
}
use madara_hotstuff.Benchmark.Transactions.{transaction_injective}

-- No two of the texts are equal.
abbrev pub Apart : List Bytes → Type 0
Apart [] = Unit
Apart (x ∷ xs) = All (λ y. y ≢ x) xs × Apart xs

module _ (size : ℕ) where
  -- A sample with a number from a range, and a standard transaction with one.
  abbrev pub Sampled : ℕ → ℕ → Bytes → Type 0
  Sampled low high tx = (k : ℕ) × (low ≤ k) × (k < high) × (tx ≡ transaction size 0 k)

  abbrev pub Numbered : ℕ → ℕ → Bytes → Type 0
  Numbered low high tx = (v : ℕ) × (low < v) × (v ≤ high) × (tx ≡ transaction size 1 v)

  abbrev pub Ranged : ℕ → ℕ → ℕ → ℕ → Bytes → Type 0
  Ranged c d r s tx = Sampled c d tx ⊎ Numbered r s tx

  module _ (room : 9 ≤ size) where
    sample-ne-standard :
        (k v : ℕ) → k < u64_mod → v < u64_mod → transaction size 0 k ≢ transaction size 1 v
    sample-ne-standard k v hk hv e =
        omega (arith, (transaction_injective size 0 1 k v room hk hv e).0)

    samples_differ : (k l : ℕ) → k < l → l < u64_mod → transaction size 0 l ≢ transaction size 0 k
    samples_differ k l h hl e =
        omega (arith, (transaction_injective size 0 0 l k room hl (omega arith) e).1)

    standards_differ : (k l : ℕ) → k < l → l < u64_mod → transaction size 1 l ≢ transaction size 1 k
    standards_differ k l h hl e =
        omega (arith, (transaction_injective size 1 1 l k room hl (omega arith) e).1)

    -- Transactions of later ranges differ from one of an earlier range.
    later_differs :
        (c d d' r s s' : ℕ) {x y : Bytes}
        → d' ≤ u64_mod
        → s' < u64_mod
        → d ≤ d'
        → s ≤ s'
        → Ranged c d r s x
        → Ranged d d' s s' y
        → y ≢ x
    later_differs c d d' r s s' hd hs ld ls (inl (k, _, hk, ek)) (inl (l, hl, ll, el)) e =
        samples_differ k l (omega arith) (omega arith) (cc)
    later_differs c d d' r s s' hd hs ld ls (inl (k, _, hk, ek)) (inr (l, hl, ll, el)) e =
        sample-ne-standard k l (omega arith) (omega arith) (cc)
    later_differs c d d' r s s' hd hs ld ls (inr (k, _, hk, ek)) (inl (l, hl, ll, el)) e =
        sample-ne-standard l k (omega arith) (omega arith) (cc)
    later_differs c d d' r s s' hd hs ld ls (inr (k, _, hk, ek)) (inr (l, hl, ll, el)) e =
        standards_differ k l (omega arith) (omega arith) (cc)

    pub Apart-append :
        (c d d' r s s' : ℕ) (xs ys : List Bytes)
        → d' ≤ u64_mod
        → s' < u64_mod
        → d ≤ d'
        → s ≤ s'
        → All (Ranged c d r s) xs
        → All (Ranged d d' s s') ys
        → Apart xs
        → Apart ys
        → Apart (xs ++ ys)
    Apart-append c d d' r s s' [] ys hd hs ld ls ax ay px py = py
    Apart-append c d d' r s s' (x ∷ xs) ys hd hs ld ls ax ay px py = (
      All-append (λ y. y ≢ x) xs ys px.0
          (All-map (Ranged d d' s s') (λ y. y ≢ x) ys
            (λ y h. later_differs c d d' r s s' hd hs ld ls ax.0 h) ay),
      Apart-append c d d' r s s' xs ys hd hs ld ls ax.1 ay px.1 py,
    )

module _ {T : Type 0} (post : Bytes → T → External (Unit {0}) × T) (c : Client)
    (room : 9 ≤ c.size) where
  abbrev pub Bursted : ℕ → ℕ → ℕ → ℕ → Bytes → Type 0
  Bursted x counter r s tx =
      ((x ≤ counter % burst post c) × (tx ≡ transaction c.size 0 counter)) ⊎ Numbered c.size r s tx

  -- A burst from the round `x` on sends the sample at most once, and rising numbers.
  pub record IsBurst (n x counter r : ℕ) (s : Sending T) : Type 0 where
    pub rises : r ≤ s.r
    pub stops : s.r ≤ r + n
    pub all : All (Bursted x counter r s.r) s.sent
    pub apart : Apart s.sent
    pub full : s.failed ≡ false → length s.sent ≡ n

  Bursted-weaken :
      (x counter r r' s : ℕ) (xs : List Bytes)
      → r ≤ r'
      → All (Bursted (x + 1) counter r' s) xs
      → All (Bursted x counter r s) xs
  Bursted-weaken x counter r r' s xs low h = All-map _ _ xs weaken h
    where
      weaken : (tx : Bytes) → Bursted (x + 1) counter r' s tx → Bursted x counter r s tx
      weaken tx (inl (later, e)) = inl (omega arith, e)
      weaken tx (inr (v, hv, lv, e)) = inr (v, omega arith, lv, e)

  sampled_now :
      (answer : External (Unit {0})) (n x counter r : ℕ) (t : T) (rest : Sending T)
      → counter < u64_mod
      → r + n < u64_mod
      → x ≡ counter % burst post c
      → IsBurst n (x + 1) counter r rest
      → IsBurst (suc n) x counter r (burst_step answer (transaction c.size 0 counter) r t rest)
  sampled_now (success _) n x counter r t rest hc hr here h = record {
    rises = h.rises;
    stops = omega (arith, h.stops);
    all = (
      inl (omega arith, refl),
      Bursted-weaken x counter r r rest.r rest.sent (omega arith) h.all,
    );
    apart = (All-map _ _ rest.sent differs h.all, h.apart);
    full = λ e. omega (arith, h.full e);
  }
    where
      differs :
          (tx : Bytes) → Bursted (x + 1) counter r rest.r tx → tx ≢ transaction c.size 0 counter
      differs tx (inl (later, e)) same = absurd (omega arith)
      differs tx (inr (v, hv, lv, e)) same =
          sample-ne-standard c.size room counter v hc (omega (arith, h.stops)) (cc)
  sampled_now (failure text) n x counter r t rest hc hr here h = record {
    rises = omega arith;
    stops = omega arith;
    all = (inl (omega arith, refl), tt);
    apart = (tt, tt);
    full = λ e. cc;
  }

  numbered_now :
      (answer : External (Unit {0})) (n x counter r : ℕ) (t : T) (rest : Sending T)
      → counter < u64_mod
      → r + suc n < u64_mod
      → IsBurst n (x + 1) counter (r + 1) rest
      → IsBurst
          (suc n)
          x
          counter
          r
          (burst_step answer (transaction c.size 1 (r + 1)) (r + 1) t rest)
  numbered_now (success _) n x counter r t rest hc hr h = record {
    rises = omega (arith, h.rises);
    stops = omega (arith, h.stops);
    all = (
      inr (r + 1, omega arith, h.rises, refl),
      Bursted-weaken x counter r (r + 1) rest.r rest.sent (omega arith) h.all,
    );
    apart = (All-map _ _ rest.sent differs h.all, h.apart);
    full = λ e. omega (arith, h.full e);
  }
    where
      differs :
          (tx : Bytes)
          → Bursted (x + 1) counter (r + 1) rest.r tx
          → tx ≢ transaction c.size 1 (r + 1)
      differs tx (inl (later, e)) same =
          sample-ne-standard c.size room counter (r + 1) hc (omega arith) (cc)
      differs tx (inr (v, hv, lv, e)) same =
          standards_differ c.size room (r + 1) v hv (omega (arith, h.stops)) (cc)
  numbered_now (failure text) n x counter r t rest hc hr h = record {
    rises = omega arith;
    stops = omega arith;
    all = (inr (r + 1, omega arith, omega arith, refl), tt);
    apart = (tt, tt);
    full = λ e. cc;
  }

  pub send_burst-IsBurst :
      (n x counter r : ℕ) (t : T)
      → counter < u64_mod
      → r + n < u64_mod
      → IsBurst n x counter r (send_burst post c n x counter r t)
  unfolding send_burst
  send_burst-IsBurst zero x counter r t hc hr = record {
    rises = omega arith;
    stops = omega arith;
    all = tt;
    apart = tt;
    full = λ e. refl;
  }
  send_burst-IsBurst (suc n) x counter r t hc hr = elim (Bool-cases (is_sample post c x counter)) [
    | inl sample ↦ rw sample (
        sampled_now (post (transaction c.size 0 counter) t).0 n x counter r
          (post (transaction c.size 0 counter) t).1 _ hc (omega arith)
          ((==_iff x (counter % burst post c)).0 sample)
          (send_burst-IsBurst n (x + 1) counter r (post (transaction c.size 0 counter) t).1 hc
            (omega arith)))
    | inr standard ↦
        let r' : wrap64 (r + 1) ≡ r + 1 = omega arith in
        rw (standard, r')
          (numbered_now (post (transaction c.size 1 (r + 1)) t).0 n x counter r
            (post (transaction c.size 1 (r + 1)) t).1 _ hc hr
            (send_burst-IsBurst n (x + 1) counter (r + 1) (post (transaction c.size 1 (r + 1)) t).1
              hc (omega arith)))
  ]
