-- ===== src/Node/Start.antt =====
-- A node from `start_hotstuff` (consensus.rs) on.
use madara_hotstuff.Base.{
  ℕ, suc, ◌+◌, ◌-◌, ◌<◌, ◌≤◌, ◌≡◌, refl, sym, subst, ◌∙◌, ap, List, [], ◌∷◌, Option, some, arith,
  Distinct, length,
}
use madara_hotstuff.Primitives.{AuthorityId, Bytes, Hash, success, Outcome, ok}
use madara_hotstuff.Crypto.{Keystore}
use madara_hotstuff.Platform.{Platform}
use madara_hotstuff.Message.Checked.{ids}
use madara_hotstuff.State
use madara_hotstuff.Import.Queue.{new_queue_empty}
use madara_hotstuff.Authorities.{with_weight, get_genesis_authorities_from_client}
use madara_hotstuff.Worker.{new}
use madara_hotstuff.Worker.Safety.{IsSafe}
use madara_hotstuff.Worker.Safety.Run.{run-IsSafe}
use madara_hotstuff.Worker.Settles.Events.{run-ok}
use madara_hotstuff.Node.{Channel, Node, Activity, run_node, timer_duration, start_hotstuff}
use madara_hotstuff.Node.Channels.{ChannelLaws}
use madara_hotstuff.Node.Schedule.{run_node-Follows}

ids-with_weight :
    (w : ℕ) (authorities : List AuthorityId) → ids (with_weight w authorities) ≡ authorities
ids-with_weight w [] = refl
ids-with_weight w (id ∷ authorities) = ap (λ l. id ∷ l) (ids-with_weight w authorities)

length-with_weight :
    (w : ℕ) (authorities : List AuthorityId)
    → length (with_weight w authorities) ≡ length authorities
length-with_weight w [] = refl
length-with_weight w (id ∷ authorities) = omega (arith, length-with_weight w authorities)

module _ {C Q : Type 0} (e : Platform C) (ch : Channel Q) (laws : ChannelLaws ch) where
  -- The node that the start builds.
  abbrev pub started : Keystore → List AuthorityId → ℕ → C → Node C Q
  started keystore authorities duration client = record {
    worker = new (State.new keystore (with_weight 0 authorities)) client (some []);
    channel = ch.channel 1000;
    local_timer_duration = duration;
  }

  start_hotstuff-started :
      (keystore : Keystore) (authorities : List AuthorityId) (parse : Bytes → Option ℕ)
      (variable : Option Bytes) (interval : ℕ → Outcome (Unit {0})) (client : C)
      → (e.client.info client).best_number + 1 < 4294967296
      → (e.client.info client).finalized_number ≤ (e.client.info client).best_number
      → ((n : ℕ) → (h : Option Hash) × (e.client.block_hash_from_id client n ≡ success h))
      → interval (timer_duration parse variable) ≡ ok tt
      → start_hotstuff e ch
          (suc ((e.client.info client).best_number - (e.client.info client).finalized_number))
          keystore
          (success authorities)
          parse
          variable
          interval
          client
        ≡ ok (started keystore authorities (timer_duration parse variable) client)
  unfolding start_hotstuff get_genesis_authorities_from_client
  start_hotstuff-started keystore authorities parse variable interval client small final known
        ticks =
      rw (new_queue_empty e client small final known, ticks) refl

  -- Let the runtime answer two authorities or more, all of them distinct; let the client know the hash
  -- of every number, a best block below 2^32 - 1 and a final one not above it; and let the timer's
  -- interval be one that can be made. Then `start_hotstuff` builds a node; and over every schedule of
  -- its two tasks, on whatever notifications, the worker never panics, fuel of three is enough, the
  -- worker is safe, and no more than 1000 messages wait for it.
  pub start_hotstuff-IsSafe :
      (keystore : Keystore) (authorities : List AuthorityId) (parse : Bytes → Option ℕ)
      (variable : Option Bytes) (interval : ℕ → Outcome (Unit {0})) (client : C) (fuel : ℕ)
      (activities : List Activity)
      → 3 ≤ fuel
      → 1 < length authorities
      → Distinct authorities
      → (e.client.info client).best_number + 1 < 4294967296
      → (e.client.info client).finalized_number ≤ (e.client.info client).best_number
      → ((n : ℕ) → (h : Option Hash) × (e.client.block_hash_from_id client n ≡ success h))
      → interval (timer_duration parse variable) ≡ ok tt
      → (n : Node C Q) × (start_hotstuff e ch
            (suc ((e.client.info client).best_number - (e.client.info client).finalized_number))
            keystore
            (success authorities)
            parse
            variable
            interval
            client
          ≡ ok n)
        × ((run_node e ch fuel activities n).0 ≡ ok tt)
        × IsSafe e (run_node e ch fuel activities n).1.worker
        × (length (laws.contents (run_node e ch fuel activities n).1.channel) ≤ 1000)
  start_hotstuff-IsSafe keystore authorities parse variable interval client fuel activities enough
        two distinct small final known ticks =
      let n = started keystore authorities (timer_duration parse variable) client in
      let list = with_weight 0 authorities in
      let empty = laws.channel_contents 1000 in
      let size = laws.channel_capacity 1000 in
      let f = run_node-Follows e ch laws fuel activities n (omega (arith, ap length empty, size)) in
      let answers =
        run-ok e fuel f.events n.worker enough
          (omega (arith, two, length-with_weight 0 authorities))
          (subst Distinct (sym (ids-with_weight 0 authorities)) distinct) (omega arith) in
      (
        n,
        start_hotstuff-started keystore authorities parse variable interval client small final known
            ticks,
        sym (ap (λ r. r.0) f.runs) ∙ answers,
        subst (IsSafe e) (ap (λ r. r.1) f.runs)
            (run-IsSafe e keystore list client (some []) fuel f.events),
        omega (arith, f.bounded, size),
      )
