-- ===== src/Tests/Client.antt =====
-- The theorems about the registry of payloads and the benchmark client.
use madara_hotstuff.Base.{
  ℕ, ◌+◌, ◌*◌, ◌/◌, ◌<◌, ◌≤◌, ◌≡◌, ◌⊎◌, refl, true, [], ◌∷◌, none, some, arith, All, length, ◌==◌,
  if◌then◌else◌,
}
use madara_hotstuff.Primitives.{Bytes, External, success, failure}
use madara_hotstuff.Registry.{
  Payload, HotstuffPayloadId, get_raw, push_raw, mmr_root_id, from_single_entry, binary_search,
  insert_after, sort_into,
}
use madara_hotstuff.Registry.Lookup.{Ascending}
use madara_hotstuff.Registry.Push.{get_raw-push_raw}
use madara_hotstuff.Benchmark.{
  Client, Sending, send, too_small, send_ticks, send_burst, transaction, resize, big_endian,
}
use madara_hotstuff.Benchmark.Sent.{Apart}
use madara_hotstuff.Benchmark.Ticks.{send_lem}

-- The ids `cs`, `hw` and `yb`.
abbrev payload : Payload
payload = record { entries = (0x6373, 3 ∷ []) ∷ (0x6877, 1 ∷ []) ∷ (0x7962, 2 ∷ []) ∷ [] }

-- The three entries in the order in which the code's own test pushes them.
pushed :
    push_raw (push_raw (from_single_entry 0x6877 (1 ∷ [])) 0x7962 (2 ∷ [])) 0x6373 (3 ∷ [])
    ≡ payload
unfolding push_raw from_single_entry insert_after sort_into
pushed = refl

absent : get_raw payload mmr_root_id ≡ none
unfolding get_raw binary_search
absent = refl

get_raw-push_raw_example :
    Ascending (push_raw payload mmr_root_id (7 ∷ [])).entries
    × ((k : HotstuffPayloadId)
        → get_raw (push_raw payload mmr_root_id (7 ∷ [])) k
          ≡ (if mmr_root_id == k then some (7 ∷ []) else get_raw payload k))
get_raw-push_raw_example = get_raw-push_raw payload mmr_root_id (7 ∷ []) (omega arith) absent

abbrev client : Client
client = record { target = 0; size = 16; rate = 45; timeout = 10; nodes = [] }

-- A transport that counts.
abbrev post : Bytes → ℕ → External (Unit {0}) × ℕ
post tx t = (success tt, t + 1)

counted : (send_ticks post client 3 0 7 0).transport ≡ 6
unfolding send_ticks send_burst transaction resize big_endian
counted = refl

send_lem_example :
    ((16 < 16) × (send post client 3 7 (success 0) ≡ failure too_small))
    ⊎ ((16 ≤ 16)
        × ((s : Sending ℕ) × (send post client 3 7 (success 0) ≡ success s)
            × All (λ tx. length tx ≡ 16) s.sent
            × Apart s.sent
            × ((s.failed ≡ true) ⊎ (length s.sent ≡ 3 * (45 / 20)))))
send_lem_example = send_lem post client 3 7 0 (omega arith) (omega arith)
