-- ===== src/Worker/Handlers.antt =====
-- The message handlers of `ConsensusWorker` (consensus.rs). `handle_proposal` and `handle_vote` call
-- one another; each is given the other, and `handlers` ties the knot on fuel.
use madara_hotstuff.Base.{
  ℕ, zero, suc, ◌+◌, Bool, true, false, not, ◌&&◌, List, [], ◌∷◌, ◌++◌, reverse, Option, none, some,
  ◌==◌, ltb, leb, if◌then◌else◌, length, wrap64,
}
use madara_hotstuff.Primitives.{
  Hash, External, success, failure, client_error, finalize_block as finalize_failed, Outcome, ok,
  err, out_of_fuel, map_err,
}
use madara_hotstuff.Action.{Action, and_then, ◌>>=◌, ◌>>◌, pure, lift, gets, modify}
use madara_hotstuff.Platform.{Platform, BlockStatus, in_chain, unknown}
use madara_hotstuff.Message.Qc.{Qc}
use madara_hotstuff.Message.Tc.{Tc}
use madara_hotstuff.Message.Payload.{Payload}
use madara_hotstuff.Message.Vote.{Vote}
use madara_hotstuff.Message.Proposal.{Proposal}
use madara_hotstuff.Message.Consensus.{ConsensusMessage}
use madara_hotstuff.Synchronizer
use madara_hotstuff.State
use madara_hotstuff.State.{ConsensusState}
use madara_hotstuff.Worker.{ConsensusWorker, reset_timer, gossip, advance_view}
use madara_hotstuff.Worker.Payloads.{empty_payload_hash, get_proposal_payload}

-- The loop over `proposal_hash_queue.iter().rev()`: whether an empty payload is to be withheld,
-- since the last two hashes are empty.
unfoldable pub withholds : Hash → Bool → ℕ → List Hash → Bool
withholds empty is_empty count [] = false
withholds empty is_empty count (item ∷ items) =
    let rest = withholds empty is_empty (count + 1) items in
    if not (item == empty) then false else if (count + 1) == 2 && is_empty then true else rest

-- The queue of proposal hashes when a proposal is made: cleared above three, then pushed.
abbrev pub push_cleared : Hash → List Hash → List Hash
push_cleared hash queue = (if ltb 3 (length queue) then [] else queue) ++ hash ∷ []

module _ {C : Type 0} where
  -- A method of the state that returns a result.
  abbrev pub on_state :
      {A : Type 0} → (ConsensusState → Outcome A × ConsensusState) → Action (ConsensusWorker C) A
  on_state f w = let (r, s) = f w.state in (r, record w { state = s })

  unfoldable pub handle_qc : Qc → ConsensusWorker C → ConsensusWorker C
  handle_qc qc w =
      if leb w.state.view qc.view
      then (let w' = advance_view qc.view w in
          reset_timer (record w' { state = State.update_high_qc w'.state qc }))
      else w

  -- An error of the finalization is logged and dropped.
  abbrev pub drop_error :
      Outcome (Unit {0}) × ConsensusWorker C → Outcome (Unit {0}) × ConsensusWorker C
  drop_error (err _, w) = (ok tt, w)
  drop_error (r, w) = (r, w)

  -- The proposal's timeout certificate moves the view only if it is above it.
  unfoldable pub use_tc : Option Tc → ConsensusWorker C → ConsensusWorker C
  use_tc none w = w
  use_tc (some tc) w = if ltb w.state.view tc.view then reset_timer (advance_view tc.view w) else w

module _ {C : Type 0} (e : Platform C) where
  abbrev pub Handler : Type 0
  Handler = Action (ConsensusWorker C) (Unit {0})

  -- `make_proposal`, the gossip of it, and its handling by the node itself.
  unfoldable pub propose : (Proposal → Handler) → Payload → Option Tc → Handler
  propose handle_proposal payload tc = do
    p ← (λ w. lift (State.make_proposal e.crypto w.state payload tc) w)
    modify (gossip (ConsensusMessage.propose p) false)
    handle_proposal p

  -- What the leader of the current view does with a payload after a certificate of votes.
  unfoldable pub propose_next : (Proposal → Handler) → Payload → Handler
  propose_next handle_proposal payload w =
      if withholds (empty_payload_hash e) (payload.block_hash == empty_payload_hash e) 0
        (reverse w.proposal_hash_queue)
      then (ok tt, w)
      else propose handle_proposal payload none
          (record w { proposal_hash_queue = push_cleared payload.block_hash w.proposal_hash_queue })

  unfoldable pub lead_on : (Proposal → Handler) → Handler
  lead_on handle_proposal w =
      let (found, w') = get_proposal_payload e w in
      elim found [ none ↦ (ok tt, w') | some payload ↦ propose_next handle_proposal payload w' ]

  -- `handle_vote` once the vote has made a certificate.
  unfoldable pub on_qc : (Proposal → Handler) → Qc → Handler
  on_qc handle_proposal qc = do
    modify (handle_qc qc)
    leader ← (λ w. lift (State.view_leader w.state w.state.view) w)
    local ← gets (λ w. State.is_local w.state leader)
    (if local then lead_on handle_proposal else pure tt)

  unfoldable pub handle_vote_with : (Proposal → Handler) → Vote → Handler
  handle_vote_with handle_proposal v = do
    (λ w. lift (State.verify_vote e.crypto w.state v) w)
    made ← on_state (λ s. State.add_vote e.crypto s v)
    elim made [ none ↦ pure tt | some qc ↦ on_qc handle_proposal qc ]

  -- The finalization of the grandparent: its payload's block is finalized if the parent's view is
  -- the next one, the payload is not empty and the block is not the last final one.
  unfoldable pub finalize : Proposal × Proposal → Handler
  finalize (parent, grandpa) w =
      if parent.view == wrap64 (grandpa.view + 1)
        && (not (grandpa.payload.block_hash == empty_payload_hash e)
            && not (grandpa.payload.block_hash == (e.client.info w.client).finalized_hash))
      then (let (r, c) = e.client.finalize_block w.client grandpa.payload.block_hash in
          (map_err r finalize_failed, record w { client = c }))
      else (ok tt, w)

  unfoldable pub try_finalize : Proposal → Handler
  try_finalize p w =
      drop_error (and_then (lift (Synchronizer.get_proposal_ancestors e w.client p) w) finalize)

  -- A made vote goes to the node's own handler if it leads the next view, else to the network.
  unfoldable pub deliver : (Vote → Handler) → Proposal → Vote → Handler
  deliver handle_vote p v = do
    modify (λ w. record w {
      proposal_hash_queue = w.proposal_hash_queue ++ p.payload.block_hash ∷ [];
      processing_block =
          some (record { hash = some p.payload.block_hash; number = p.payload.block_number });
    })
    next_leader ← (λ w. lift (State.view_leader w.state (wrap64 (w.state.view + 1))) w)
    local ← gets (λ w. State.is_local w.state next_leader)
    (if local then handle_vote v else modify (gossip (ConsensusMessage.vote v) false))

  unfoldable pub vote_for : (Vote → Handler) → Proposal → Handler
  vote_for handle_vote p w =
      if not (p.view == w.state.view)
      then (ok tt, w)
      else (let (made, s) = State.make_vote e.crypto w.state p in
          let w' = record w { state = s } in
          elim made [ none ↦ (ok tt, w') | some v ↦ deliver handle_vote p v w' ])

  unfoldable pub store : Proposal → Handler
  store p w = let (r, c) = Synchronizer.save_proposal e w.client p in (r, record w { client = c })

  -- `handle_proposal` once the block of its payload is known.
  unfoldable pub accept : (Vote → Handler) → Proposal → Handler
  accept handle_vote p = do
    (λ w. lift (State.verify_proposal e.crypto w.state p) w)
    modify (handle_qc p.qc)
    modify (use_tc p.tc)
    store p
    try_finalize p
    vote_for handle_vote p

  -- An unknown block is requested from the network, and the proposal is dropped.
  unfoldable pub on_status : (Vote → Handler) → Proposal → External BlockStatus → Handler
  on_status handle_vote p (success unknown) w = (
    ok tt,
    record w { sync_requests = (p.payload.block_hash, p.payload.block_number) ∷ w.sync_requests },
  )
  on_status handle_vote p (success in_chain) w = accept handle_vote p w
  on_status handle_vote p (failure text) w = (err (client_error text), w)

  unfoldable pub handle_proposal_with : (Vote → Handler) → Proposal → Handler
  handle_proposal_with handle_vote p w =
      if not (p.payload.block_hash == empty_payload_hash e)
      then on_status handle_vote p (e.client.status w.client p.payload.block_hash) w
      else accept handle_vote p w

  unfoldable pub handle_proposal : ℕ → Proposal → Handler
  handle_proposal zero p = lift out_of_fuel
  handle_proposal (suc fuel) p = handle_proposal_with (handle_vote_with (handle_proposal fuel)) p

  unfoldable pub handle_vote : ℕ → Vote → Handler
  handle_vote fuel = handle_vote_with (handle_proposal fuel)
