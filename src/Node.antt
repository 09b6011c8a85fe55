-- ===== src/Node.antt =====
-- The two tasks of a node (consensus.rs): `ConsensusNetwork`, which passes messages and block
-- notifications on, and the worker, which it shares a channel and the queue of blocks with.
-- `start_hotstuff` builds both.
pub mod Channels
pub mod Schedule
pub mod Start
use madara_hotstuff.Base.{ℕ, List, [], ◌∷◌, Option, none, some}
use madara_hotstuff.Primitives.{
  AuthorityId, Bytes, External, success, failure, other, Outcome, ok, err, panicked, out_of_fuel,
  ◌>>=◌ as ◌>>=ₒ◌, map_err,
}
use madara_hotstuff.Crypto.{Keystore}
use madara_hotstuff.Action.{Action, ◌>>=◌, ◌>>◌, pure, lift, and_then}
use madara_hotstuff.Platform.{Platform}
use madara_hotstuff.Message.Consensus.{ConsensusMessage}
use madara_hotstuff.State
use madara_hotstuff.Import.{BlockInfo, ImportNotification, poll as poll_queue, new_queue}
use madara_hotstuff.Authorities.{get_genesis_authorities_from_client}
use madara_hotstuff.Worker.{ConsensusWorker, new}
use madara_hotstuff.Worker.Handlers.{drop_error}
use madara_hotstuff.Worker.Loop.{Event, timer, message, queue, handle_event}

-- The bounded channel of `tokio::sync::mpsc`: operations of code outside the repository.
pub record Channel (Q : Type 0) : Type 0 where
  -- `channel(buffer)`.
  pub channel : ℕ → Q
  pub try_send : ConsensusMessage → Q → External (Unit {0}) × Q
  -- A `recv` that is polled; with no message it waits.
  pub recv : Q → Option ConsensusMessage × Q

-- The worker and the channel to it. The queue of blocks is the one that the worker holds, and the
-- gossip validator's view stands in the worker too.
pub record Node (C Q : Type 0) : Type 0 where
  pub worker : ConsensusWorker C
  pub channel : Q
  -- The milliseconds of the local timer.
  pub local_timer_duration : ℕ

module _ {C Q : Type 0} (e : Platform C) (ch : Channel Q) where
  -- `incoming_message_handler`: a decoded message is sent to the worker, if there is room.
  unfoldable pub incoming_message_handler : Bytes → Action Q (Unit {0})
  incoming_message_handler notification = do
    m ← lift (map_err (e.codec.decode_message notification) other)
    (λ q. let (sent, q') = ch.try_send m q in (map_err sent other, q'))

  -- The loop of `poll` over the notifications that are ready; an error is logged.
  unfoldable pub incoming : List Bytes → Q → Q
  incoming [] q = q
  incoming (notification ∷ notifications) q =
      incoming notifications (incoming_message_handler notification q).1

  -- The queue's own poll; a poisoned lock leaves it.
  abbrev pub poll_pending :
      List ImportNotification → List ℕ → Option (List BlockInfo) → Option (List BlockInfo)
  poll_pending imports finalizations none = none
  poll_pending imports finalizations (some pending) =
      some (poll_queue imports finalizations pending)

  -- `ConsensusNetwork::poll`; the poll of the gossip engine comes last and changes none of this.
  unfoldable pub poll : List Bytes → List ImportNotification → List ℕ → Node C Q → Node C Q
  poll notifications imports finalizations n = record n {
    channel = incoming notifications n.channel;
    worker = record n.worker {
      pending_finalize_queue = poll_pending imports finalizations n.worker.pending_finalize_queue;
    };
  }

-- What the executor may run next: the network's task, with what is ready for it, or a branch of the
-- worker's `select!`.
pub data Activity : Type 0 where
  network : List Bytes → List ImportNotification → List ℕ → Activity
  fire : Activity
  receive : Activity

module _ {C Q : Type 0} (e : Platform C) (ch : Channel Q) where
  abbrev pub on_worker : Action (ConsensusWorker C) (Unit {0}) → Action (Node C Q) (Unit {0})
  on_worker m n = let (r, w) = m n.worker in (r, record n { worker = w })

  -- A round of the worker's loop; an error is logged.
  abbrev pub turn : ℕ → Event → Action (Node C Q) (Unit {0})
  turn fuel event = on_worker (λ w. drop_error (handle_event e fuel event w))

  -- The worker takes the message that `recv` gives, if there is one.
  abbrev pub take_message : ℕ → Option ConsensusMessage → Action (Node C Q) (Unit {0})
  take_message fuel none = pure tt
  take_message fuel (some m) = turn fuel (message m)

  unfoldable pub act : ℕ → Activity → Action (Node C Q) (Unit {0})
  act fuel (network notifications imports finalizations) n =
      (ok tt, poll e ch notifications imports finalizations n)
  act fuel fire n = turn fuel timer n
  act fuel receive n =
      let (taken, q) = ch.recv n.channel in take_message fuel taken (record n { channel = q })

  unfoldable pub run_node : ℕ → List Activity → Action (Node C Q) (Unit {0})
  run_node fuel [] = pure tt
  run_node fuel (a ∷ activities) = do act fuel a; run_node fuel activities

-- `HOTSTUFF_DURATION`, where it is set and `parse::<u64>` accepts it, else three seconds.
unfoldable pub timer_duration : (Bytes → Option ℕ) → Option Bytes → ℕ
timer_duration parse none = 3000
timer_duration parse (some value) = elim (parse value) [ none ↦ 3000 | some duration ↦ duration ]

-- `.expect("error")` on the queue.
abbrev pub expect_queue : Outcome (List BlockInfo) → Outcome (List BlockInfo)
expect_queue (ok q) = ok q
expect_queue (err x) = panicked
expect_queue panicked = panicked
expect_queue out_of_fuel = out_of_fuel

-- `start_hotstuff`: the authorities that the runtime answers, a worker in view 0, a channel for 1000
-- messages. `fuel` is for the loop of the queue's constructor,
-- `variable` is the value of `HOTSTUFF_DURATION`, and `interval` is `tokio::time::interval`, which panics
-- on a period of zero.
unfoldable pub start_hotstuff :
    {C Q : Type 0}
    → Platform C
    → Channel Q
    → ℕ
    → Keystore
    → External (List AuthorityId)
    → (Bytes → Option ℕ)
    → Option Bytes
    → (ℕ → Outcome (Unit {0}))
    → C
    → Outcome (Node C Q)
start_hotstuff e ch fuel keystore runtime_authorities parse variable interval client =
    get_genesis_authorities_from_client runtime_authorities >>=ₒ λ authorities.
    expect_queue (new_queue e fuel client) >>=ₒ λ pending.
    interval (timer_duration parse variable) >>=ₒ λ _. ok (record {
      worker = new (State.new keystore authorities) client (some pending);
      channel = ch.channel 1000;
      local_timer_duration = timer_duration parse variable;
    })
