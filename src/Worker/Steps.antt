-- ===== src/Worker/Steps.antt =====
-- What a worker (consensus.rs) may do, as a step relation: each step is a change that the handlers
-- make, with what they demand before it (`Worker/Guards.antt`). Other modules prove that every handler is a sequence
-- of steps, and what the steps preserve.
use madara_hotstuff.Base.{
  ℕ, ◌+◌, ◌≡◌, ◌≢◌, refl, Bool, true, false, List, Option, some, ◌++◌, ◌∷◌, [], wrap64, leb,
  if◌then◌else◌,
}
use madara_hotstuff.Primitives.{Hash, ViewNumber, Outcome, ok, err, panicked, out_of_fuel}
use madara_hotstuff.Action.{Action, and_then, ◌>>=◌, pure, lift, gets, modify}
use madara_hotstuff.Platform.{Platform}
use madara_hotstuff.Message.Qc.{Qc}
use madara_hotstuff.Message.Tc.{Tc}
use madara_hotstuff.Message.Payload.{Payload}
use madara_hotstuff.Message.Vote.{Vote}
use madara_hotstuff.Message.Timeout.{Timeout}
use madara_hotstuff.Message.Proposal.{Proposal}
use madara_hotstuff.Message.Consensus.{ConsensusMessage}
use madara_hotstuff.Synchronizer
use madara_hotstuff.State
use madara_hotstuff.Import.{BlockInfo}
use madara_hotstuff.Worker.{ConsensusWorker, gossip, advance_view}
use madara_hotstuff.Worker.Payloads.{empty_payload_hash}
use madara_hotstuff.Worker.Guards.{Carried, Followed, IsVote, IsTimeout, IsProposal, Leads, Sent}
use madara_hotstuff.Worker.Handlers.{handle_qc}

-- The worker follows a view that is not behind.
abbrev pub reach_view : {C : Type 0} → ViewNumber → ConsensusWorker C → ConsensusWorker C
reach_view view w = if leb w.state.view view then advance_view view w else w

-- The worker after it has noted the proposal that it votes for.
abbrev pub enqueue : {C : Type 0} → Proposal → ConsensusWorker C → ConsensusWorker C
enqueue p w = record w {
  proposal_hash_queue = w.proposal_hash_queue ++ p.payload.block_hash ∷ [];
  processing_block =
      some (record { hash = some p.payload.block_hash; number = p.payload.block_number });
}

module _ {C : Type 0} (e : Platform C) where
  pub data Step : ConsensusWorker C → ConsensusWorker C → Type 0 where
    -- The certificate of a verified proposal or timeout.
    learn : (w : ConsensusWorker C) (qc : Qc) → Carried e w qc → Step w (handle_qc qc w)
    -- A verified vote that makes no certificate.
    count :
        (w : ConsensusWorker C) (v : Vote)
        → IsVote e w.state v
        → Step w (record w { state = (State.add_vote e.crypto w.state v).1 })
    -- A verified vote that makes one.
    certify :
        (w : ConsensusWorker C) (v : Vote) (qc : Qc)
        → IsVote e w.state v
        → (State.add_vote e.crypto w.state v).0 ≡ ok (some qc)
        → Step w (handle_qc qc (record w { state = (State.add_vote e.crypto w.state v).1 }))
    -- A verified timeout that makes no certificate.
    count_timeout :
        (w : ConsensusWorker C) (t : Timeout)
        → IsTimeout e w.state t
        → Step w (record w { state = (State.add_timeout w.state t).1 })
    -- A verified timeout that makes one, which is followed if it is not behind, and sent.
    expire :
        (w : ConsensusWorker C) (t : Timeout) (tc : Tc)
        → IsTimeout e w.state t
        → (State.add_timeout w.state t).0 ≡ ok (some tc)
        → Step w (
            gossip
              (ConsensusMessage.tc tc)
              true
              (reach_view tc.view (record w { state = (State.add_timeout w.state t).1 })))
    -- A verified timeout certificate that is not behind, or that of a verified proposal.
    follow : (w : ConsensusWorker C) (tc : Tc) → Followed e w tc → Step w (advance_view tc.view w)
    -- A vote for a verified proposal of the current view, kept back.
    ballot :
        (w : ConsensusWorker C) (p : Proposal)
        → (p.view ≡ w.state.view) × IsProposal e w.state p
        → Step w (record w { state = (State.make_vote e.crypto w.state p).1 })
    -- A vote for a verified proposal of the current view, sent to the leader of the next one.
    cast :
        (w : ConsensusWorker C) (p : Proposal) (v : Vote)
        → (p.view ≡ w.state.view) × IsProposal e w.state p
        → Sent e w p v
        → Step w (
            gossip
              (ConsensusMessage.vote v)
              false
              (enqueue p (record w { state = (State.make_vote e.crypto w.state p).1 })))
    -- The local timer gives up voting in the current view.
    give_up :
        (w : ConsensusWorker C)
        → Step w (record w { state = State.increase_last_voted_view w.state })
    -- The leader of the current view proposes.
    send_proposal :
        (w : ConsensusWorker C) (p : Proposal) (payload : Payload) (tc : Option Tc)
        → Leads e w.state × (State.make_proposal e.crypto w.state payload tc ≡ ok p)
        → Step w (gossip (ConsensusMessage.propose p) false w)
    send_timeout :
        (w : ConsensusWorker C) (t : Timeout)
        → State.make_timeout e.crypto w.state ≡ ok t
        → Step w (gossip (ConsensusMessage.timeout t) true w)
    -- A verified proposal is stored.
    save :
        (w : ConsensusWorker C) (p : Proposal)
        → IsProposal e w.state p
        → Step w (record w { client = (Synchronizer.save_proposal e w.client p).1 })
    -- The block of a stored grandparent, two consecutive views deep, is finalized.
    finalized :
        (w : ConsensusWorker C) (p parent grandpa : Proposal)
        → Synchronizer.get_proposal_ancestors e w.client p ≡ ok (parent, grandpa)
        → parent.view ≡ wrap64 (grandpa.view + 1)
        → (grandpa.payload.block_hash ≢ empty_payload_hash e)
          × (grandpa.payload.block_hash ≢ (e.client.info w.client).finalized_hash)
        → Step w
            (record w { client = (e.client.finalize_block w.client grandpa.payload.block_hash).1 })
    -- The fields that no guard reads.
    tidy :
        (w : ConsensusWorker C) (requests : List (Hash × ℕ)) (resets : ℕ)
        (processing : Option BlockInfo) (pending : Option (List BlockInfo)) (hashes : List Hash)
        → Step w (record w {
          sync_requests = requests;
          timer_resets = resets;
          processing_block = processing;
          pending_finalize_queue = pending;
          proposal_hash_queue = hashes;
        })

  pub data Reach (w : ConsensusWorker C) : ConsensusWorker C → Type 0 where
    here : Reach w w
    next : {u v : ConsensusWorker C} → Reach w u → Step u v → Reach w v

  pub one : {w u : ConsensusWorker C} → Step w u → Reach w u
  one s = next here s

  pub Reach-trans : {w u v : ConsensusWorker C} → Reach w u → Reach u v → Reach w v
  Reach-trans r here = r
  Reach-trans r (next q s) = next (Reach-trans r q) s

  -- An action makes steps from a worker.
  pub data Runs {A : Type 0} (m : Action (ConsensusWorker C) A) (w : ConsensusWorker C)
      : Type 0 where
    runs : Reach w (m w).1 → Runs m w

  pub Runs-Reach :
      {A : Type 0} {m : Action (ConsensusWorker C) A} {w : ConsensusWorker C}
      → Runs m w
      → Reach w (m w).1
  Runs-Reach (runs r) = r

  pub and_then-Reach :
      {A B : Type 0} {w : ConsensusWorker C} (r : Outcome A × ConsensusWorker C)
      (f : A → Action (ConsensusWorker C) B)
      → Reach w r.1
      → ((a : A) → r.0 ≡ ok a → Reach r.1 (f a r.1).1)
      → Reach w (and_then r f).1
  and_then-Reach (ok a, s) f h k = Reach-trans h (k a (λ i. ok a))
  and_then-Reach (err x, s) f h k = h
  and_then-Reach (panicked, s) f h k = h
  and_then-Reach (out_of_fuel, s) f h k = h

  pub Runs-then :
      {A B : Type 0} (m : Action (ConsensusWorker C) A) {f : A → Action (ConsensusWorker C) B}
      {w : ConsensusWorker C}
      → Runs m w
      → ((a : A) → (m w).0 ≡ ok a → Runs (f a) (m w).1)
      → Runs (m >>= f) w
  Runs-then m {f} {w} (runs r) k = runs (and_then-Reach (m w) f r (λ a h. Runs-Reach (k a h)))

  -- The rules for what a method is made of: a change, a test that may fail, a reading, an early end.
  module _ {B : Type 0} {w : ConsensusWorker C} where
    pub Runs-modify :
        (g : ConsensusWorker C → ConsensusWorker C) {f : Unit {0} → Action (ConsensusWorker C) B}
        → Reach w (g w)
        → ((a : Unit {0}) → Runs (f a) (g w))
        → Runs (modify g >>= f) w
    Runs-modify g {f} r k = runs (Reach-trans r (Runs-Reach (k tt)))

    pub Runs-check :
        {A : Type 0} (g : ConsensusWorker C → Outcome A) {f : A → Action (ConsensusWorker C) B}
        → ((a : A) → g w ≡ ok a → Runs (f a) w)
        → Runs ((λ u. lift (g u) u) >>= f) w
    Runs-check g {f} k = runs (and_then-Reach (g w, w) f here (λ a h. Runs-Reach (k a h)))

    pub Runs-gets :
        {A : Type 0} (g : ConsensusWorker C → A) {f : A → Action (ConsensusWorker C) B}
        → ((a : A) → g w ≡ a → Runs (f a) w)
        → Runs (gets g >>= f) w
    Runs-gets g {f} k = runs (Runs-Reach (k (g w) refl))

    pub Runs-pure : (b : B) → Runs (pure b) w
    Runs-pure b = runs here

  pub Runs-if :
      {B : Type 0} {w : ConsensusWorker C} (b : Bool) {m n : Action (ConsensusWorker C) B}
      → (b ≡ true → Runs m w)
      → (b ≡ false → Runs n w)
      → Runs (if b then m else n) w
  Runs-if true h k = h refl
  Runs-if false h k = k refl
