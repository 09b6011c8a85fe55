-- ===== src/Node/Schedule.antt =====
-- A node (consensus.rs) under any schedule of its two tasks: the worker runs its event loop over the
-- messages that the network's task lets through.
use madara_hotstuff.Base.{
  ℕ, ◌≤◌, ◌≡◌, refl, sym, ◌∙◌, ap, List, [], ◌∷◌, ◌++◌, arith, length, length-append, take,
  length-take-le, Subsequence, end, nothing-Subsequence, take-Subsequence, append-Subsequence,
}
use mathlib.Core.List.{append-nil, append_assoc}
use madara_hotstuff.Primitives.{Bytes, Outcome, ok, err, panicked, out_of_fuel}
use madara_hotstuff.Action.{and_then}
use madara_hotstuff.Platform.{Platform}
use madara_hotstuff.Message.Consensus.{ConsensusMessage}
use madara_hotstuff.Import.{ImportNotification}
use madara_hotstuff.Worker.{ConsensusWorker}
use madara_hotstuff.Worker.Handlers.{drop_error}
use madara_hotstuff.Worker.Loop.{Event, timer, message, queue, handle_event, run}
use madara_hotstuff.Node.{Channel, Node, Activity, network, fire, receive, poll, act, run_node}
use madara_hotstuff.Node.Channels.{ChannelLaws, decoded, room, incoming_passes}

-- The message of an event, and of events.
abbrev pub received_by : Event → List ConsensusMessage
received_by timer = []
received_by (message m) = m ∷ []
received_by (queue q) = []

abbrev pub received : List Event → List ConsensusMessage
received [] = []
received (event ∷ events) = received_by event ++ received events

module _ {C Q : Type 0} (e : Platform C) (ch : Channel Q) (laws : ChannelLaws ch) (fuel : ℕ) where
  -- What the notifications of a schedule decode to.
  abbrev pub notified : List Activity → List ConsensusMessage
  notified [] = []
  notified (network notifications imports finalizations ∷ activities) =
      decoded e notifications ++ notified activities
  notified (fire ∷ activities) = notified activities
  notified (receive ∷ activities) = notified activities

  -- The run of a worker's loop that stands behind a result of the node's tasks.
  pub record Follows (w : ConsensusWorker C) (before : List ConsensusMessage) (size : ℕ)
      (notes : List ConsensusMessage) (r : Outcome (Unit {0}) × Node C Q) : Type 0 where
    pub events : List Event
    pub accepted : List ConsensusMessage
    -- The loop ends in the same outcome and the same worker.
    pub runs : run e fuel events w ≡ (r.0, r.1.worker)
    -- Each message is received once and in order, or waits.
    pub in_order : received events ++ laws.contents r.1.channel ≡ before ++ accepted
    pub chosen : Subsequence accepted notes
    pub bounded : length (laws.contents r.1.channel) ≤ size

  abbrev pub Fits : Q → Type 0
  Fits q = length (laws.contents q) ≤ laws.capacity q

  abbrev FollowsAll : List Activity → Type 0
  FollowsAll activities =
      (n : Node C Q)
      → Fits n.channel
      → Follows n.worker (laws.contents n.channel) (laws.capacity n.channel) (notified activities)
          (run_node e ch fuel activities n)

  -- A round that ends the loop.
  stopped :
      (event : Event) (activities : List Activity) (n : Node C Q) (r : Outcome (Unit {0}))
      (w : ConsensusWorker C)
      → run e fuel (event ∷ []) n.worker ≡ (r, w)
      → Fits n.channel
      → Follows n.worker
          (received_by event ++ laws.contents n.channel)
          (laws.capacity n.channel)
          (notified activities)
          (r, record n { worker = w })
  stopped event activities n r w h fits = record {
    events = event ∷ [];
    accepted = [];
    runs = h;
    in_order =
        ap (λ l. l ++ laws.contents n.channel) (append-nil (received_by event))
        ∙ sym (append-nil (received_by event ++ laws.contents n.channel));
    chosen = nothing-Subsequence (notified activities);
    bounded = fits;
  }

  -- A round of the worker's loop, and then the rest of the schedule if it did not panic.
  turn-Follows :
      (event : Event) (activities : List Activity) (n : Node C Q)
      (r : Outcome (Unit {0}) × ConsensusWorker C)
      → drop_error (handle_event e fuel event n.worker) ≡ r
      → Fits n.channel
      → FollowsAll activities
      → Follows n.worker
          (received_by event ++ laws.contents n.channel)
          (laws.capacity n.channel)
          (notified activities)
          (and_then (r.0, record n { worker = r.1 }) (λ _. run_node e ch fuel activities))
  unfolding run
  turn-Follows event activities n (ok tt, w) h fits rest =
      let f = rest (record n { worker = w }) fits in
      record {
        events = event ∷ f.events;
        accepted = f.accepted;
        runs = rw h f.runs;
        in_order =
            append_assoc (received_by event) (received f.events) _
            ∙ (ap (λ l. received_by event ++ l) f.in_order
                ∙ sym (append_assoc (received_by event) (laws.contents n.channel) f.accepted));
        chosen = f.chosen;
        bounded = f.bounded;
      }
  turn-Follows event activities n (err x, w) h fits rest =
      stopped event activities n (err x) w (rw h refl) fits
  turn-Follows event activities n (panicked, w) h fits rest =
      stopped event activities n panicked w (rw h refl) fits
  turn-Follows event activities n (out_of_fuel, w) h fits rest =
      stopped event activities n out_of_fuel w (rw h refl) fits

  receive-Follows :
      (activities : List Activity) (n : Node C Q) (waiting : List ConsensusMessage)
      → laws.contents n.channel ≡ waiting
      → Fits n.channel
      → FollowsAll activities
      → Follows n.worker
          (laws.contents n.channel)
          (laws.capacity n.channel)
          (notified activities)
          (and_then (act e ch fuel receive n) (λ _. run_node e ch fuel activities))
  unfolding act
  receive-Follows activities n [] h fits rest = rw (laws.recv_none n.channel h) (rest n fits)
  receive-Follows activities n (m ∷ waiting) h fits rest =
      let (taken, left) = laws.recv_front m waiting n.channel h in
      let q = (ch.recv n.channel).1 in
      let size = laws.recv_capacity n.channel in
      let before : laws.contents n.channel ≡ m ∷ laws.contents q = h ∙ ap (λ l. m ∷ l) (sym left) in
      let shorter : Fits q = omega (arith, size, fits, ap length before) in
      rw (taken, before, ← size)
        (turn-Follows (message m) activities (record n { channel = q }) _ refl shorter rest)

  network-Follows :
      (notifications : List Bytes) (imports : List ImportNotification) (finalizations : List ℕ)
      (activities : List Activity) (n : Node C Q)
      → Fits n.channel
      → FollowsAll activities
      → Follows n.worker
          (laws.contents n.channel)
          (laws.capacity n.channel)
          (decoded e notifications ++ notified activities)
          (run_node e ch fuel activities (poll e ch notifications imports finalizations n))
  unfolding poll run handle_event
  network-Follows notifications imports finalizations activities n fits rest =
      let n' = poll e ch notifications imports finalizations n in
      let (passed, size) = incoming_passes e ch laws notifications n.channel in
      let new = take (room e ch laws n.channel) (decoded e notifications) in
      let fits' : Fits n'.channel = omega (
        arith,
        fits,
        size,
        ap length passed,
        length-append (laws.contents n.channel) new,
        length-take-le (room e ch laws n.channel) (decoded e notifications),
      ) in
      let f = rest n' fits' in
      record {
        events = queue n'.worker.pending_finalize_queue ∷ f.events;
        accepted = new ++ f.accepted;
        runs = f.runs;
        in_order =
            f.in_order
            ∙ (ap (λ l. l ++ f.accepted) passed
                ∙ append_assoc (laws.contents n.channel) new f.accepted);
        chosen = append-Subsequence (take-Subsequence _ (decoded e notifications)) f.chosen;
        bounded = omega (arith, f.bounded, size);
      }

  -- Whatever the order in which the two tasks of a node run and whatever the network delivers, the
  -- worker behaves as a run of its event loop on some events, up to the end of the loop where it
  -- panics: the messages of those events and then the messages that wait in the channel are the
  -- messages that waited at first, followed by a part of those that the notifications decode to, in
  -- the order in which they came; and the channel never holds more than its size.
  pub run_node-Follows :
      (activities : List Activity) (n : Node C Q)
      → length (laws.contents n.channel) ≤ laws.capacity n.channel
      → Follows n.worker
          (laws.contents n.channel)
          (laws.capacity n.channel)
          (notified activities)
          (run_node e ch fuel activities n)
  unfolding run_node act run
  run_node-Follows [] n fits = record {
    events = [];
    accepted = [];
    runs = refl;
    in_order = sym (append-nil (laws.contents n.channel));
    chosen = end;
    bounded = fits;
  }
  run_node-Follows (network notifications imports finalizations ∷ activities) n fits =
      network-Follows notifications imports finalizations activities n fits
        (run_node-Follows activities)
  run_node-Follows (fire ∷ activities) n fits =
      turn-Follows timer activities n _ refl fits (run_node-Follows activities)
  run_node-Follows (receive ∷ activities) n fits =
      receive-Follows activities n _ refl fits (run_node-Follows activities)
