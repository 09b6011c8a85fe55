-- ===== src/Tests/Nodes.antt =====
-- The theorems about a node, with a channel that is a list.
use madara_hotstuff.Base.{
  ℕ, ◌<◌, ◌≤◌, ◌≡◌, refl, List, [], ◌∷◌, ◌++◌, Option, none, some, arith, length, head?, ◌==◌, ltb,
  if◌then◌else◌,
}
use madara_hotstuff.Primitives.{Bytes, External, success, failure, Outcome, ok, panicked}
use madara_hotstuff.Message.Consensus.{ConsensusMessage}
use madara_hotstuff.Worker.Safety.{IsSafe}
use madara_hotstuff.Node.{
  Channel, Node, Activity, network, fire, receive, run_node, start_hotstuff, timer_duration,
}
use madara_hotstuff.Node.Channels.{ChannelLaws}
use madara_hotstuff.Node.Schedule.{Follows, notified, run_node-Follows}
use madara_hotstuff.Node.Start.{started, start_hotstuff-IsSafe}
use madara_hotstuff.Tests.Sample.{Store, platform, keystore}

-- A buffer's size and what waits in it.
abbrev pub Buffer : Type 0
Buffer = ℕ × List ConsensusMessage

abbrev put : ConsensusMessage → Buffer → External (Unit {0}) × Buffer
put m q = if ltb (length q.1) q.0 then (success tt, (q.0, q.1 ++ m ∷ [])) else (failure [], q)

abbrev front : ℕ → List ConsensusMessage → Option ConsensusMessage × Buffer
front size [] = (none, (size, []))
front size (m ∷ messages) = (some m, (size, messages))

abbrev pub channel : Channel Buffer
channel = record { channel = λ n. (n, []); try_send = put; recv = λ q. front q.0 q.1 }

nothing_waits : (q : Buffer) → q.1 ≡ [] → front q.0 q.1 ≡ (none, q)
nothing_waits (size, []) h = refl
nothing_waits (size, m ∷ messages) h = cc

one_waits :
    (m : ConsensusMessage) (rest : List ConsensusMessage) (q : Buffer)
    → q.1 ≡ m ∷ rest
    → ((front q.0 q.1).0 ≡ some m) × ((front q.0 q.1).1.1 ≡ rest)
one_waits m rest (size, []) h = cc
one_waits m rest (size, x ∷ messages) h = (cc, cc)

size_kept : (q : Buffer) → (front q.0 q.1).1.0 ≡ q.0
size_kept (size, []) = refl
size_kept (size, m ∷ messages) = refl

put_room :
    (m : ConsensusMessage) (q : Buffer)
    → length q.1 < q.0
    → ((put m q).0 ≡ success tt) × ((put m q).1.1 ≡ q.1 ++ m ∷ [])
put_room m q fits = (ground (arith, fits), ground (arith, fits))

put_full :
    (m : ConsensusMessage) (q : Buffer)
    → q.0 ≤ length q.1
    → ((text : Bytes) × ((put m q).0 ≡ failure text)) × ((put m q).1.1 ≡ q.1)
put_full m q full = (([], ground (arith, full)), ground (arith, full))

put_size : (m : ConsensusMessage) (q : Buffer) → (put m q).1.0 ≡ q.0
put_size m q = ground arith

pub laws : ChannelLaws channel
laws = record {
  contents = λ q. q.1;
  capacity = λ q. q.0;
  channel_contents = λ n. refl;
  channel_capacity = λ n. refl;
  send_room = put_room;
  send_full = put_full;
  send_capacity = put_size;
  recv_none = nothing_waits;
  recv_front = one_waits;
  recv_capacity = size_kept;
}

abbrev notes : List Bytes
notes = (3 ∷ []) ∷ [] ∷ (4 ∷ []) ∷ (5 ∷ []) ∷ []

abbrev pub schedule : List Activity
schedule = network notes [] [] ∷ receive ∷ fire ∷ receive ∷ network notes [] (1 ∷ []) ∷ []

abbrev node : Node Store Buffer
node = started platform channel laws keystore (1 ∷ 2 ∷ 3 ∷ 4 ∷ []) 3000 []

run_node-Follows_example :
    Follows platform channel laws 3 node.worker [] 1000
      (notified platform channel laws 3 schedule)
      (run_node platform channel 3 schedule node)
unfolding laws
run_node-Follows_example = run_node-Follows platform channel laws 3 schedule node (omega arith)

abbrev pub interval : ℕ → Outcome (Unit {0})
interval n = if n == 0 then panicked else ok tt

start_hotstuff-IsSafe_example :
    (n : Node Store Buffer) × (start_hotstuff platform channel 3 keystore
        (success (1 ∷ 2 ∷ 3 ∷ 4 ∷ []))
        head?
        (some (2000 ∷ []))
        interval
        []
      ≡ ok n)
    × ((run_node platform channel 3 schedule n).0 ≡ ok tt)
    × IsSafe platform (run_node platform channel 3 schedule n).1.worker
    × (length (laws.contents (run_node platform channel 3 schedule n).1.channel) ≤ 1000)
unfolding timer_duration
start_hotstuff-IsSafe_example =
    start_hotstuff-IsSafe platform channel laws keystore (1 ∷ 2 ∷ 3 ∷ 4 ∷ []) head?
      (some (2000 ∷ [])) interval [] 3 schedule (omega arith) (omega arith)
      (refl, (refl, (refl, (refl, tt)))) (omega arith) (omega arith) (λ n. (some n, refl)) refl
