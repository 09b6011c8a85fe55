-- ===== src/Worker/Settles/Timeouts.antt =====
-- Proposals after a timeout certificate, and the counting of timeouts (consensus.rs), answer on fuel
-- of three.
use madara_hotstuff.Base.{
  ℕ, ◌<◌, ◌≤◌, refl, inl, inr, true, Option, none, some, arith, Bool-cases, Option-cases, leb,
  if◌then◌else◌, Distinct, length,
}
use madara_hotstuff.Primitives.{AuthorityList}
use madara_hotstuff.Crypto.{Keystore}
use madara_hotstuff.Action.{pure}
use madara_hotstuff.Platform.{Platform}
use madara_hotstuff.Message.Tc.{Tc}
use madara_hotstuff.Message.Timeout.{Timeout}
use madara_hotstuff.Message.Consensus.{ConsensusMessage}
use madara_hotstuff.Message.Checked.{ids}
use madara_hotstuff.Message.Answers.{timeout_verify-IsAnswer}
use madara_hotstuff.State
use madara_hotstuff.State.Turns.{is_leader-IsAnswer, add_timeout-IsAnswer}
use madara_hotstuff.Worker.{ConsensusWorker, reset_timer, gossip, advance_view}
use madara_hotstuff.Worker.Payloads.{get_proposal_payload}
use madara_hotstuff.Worker.Handlers.{on_state, handle_qc, propose, handle_proposal}
use madara_hotstuff.Worker.Loop.{generate_proposal, lead_from_tc, on_tc, count_timeout}
use madara_hotstuff.Worker.Settles.{
  IsNode, Settles, settles, handle_qc-IsNode, advance_view-IsNode, same_state-IsNode, Settles-then,
  Settles-modify, Settles-check, Settles-pure, Settles-by, Settles-if,
}
use madara_hotstuff.Worker.Settles.Votes.{propose-Settles, get_proposal_payload-IsNode}
use madara_hotstuff.Worker.Settles.Depth.{handle_proposal-Settles}

module _ {C : Type 0} (e : Platform C) (k : Keystore) (authorities : AuthorityList)
    (two : 1 < length authorities) (distinct : Distinct (ids authorities)) (fuel : ℕ)
    (enough : 3 ≤ fuel) where
  some_one : 0 < length authorities
  some_one = omega arith

  pub generate_proposal-Settles :
      (tc : Option Tc) (w : ConsensusWorker C)
      → IsNode k authorities w
      → Settles k authorities (generate_proposal e fuel tc) w
  unfolding generate_proposal
  generate_proposal-Settles tc w n =
      let (n', _) = get_proposal_payload-IsNode e k authorities some_one w n in
      let u = (get_proposal_payload e w).1 in
      elim (Option-cases (get_proposal_payload e w).0) [
        | inl nothing ↦
            Settles-by k authorities (pure tt) u (rw (nothing, generate_proposal) refl)
              (Settles-pure k authorities tt n')
        | inr (payload, found) ↦
            Settles-by k authorities (propose e (handle_proposal e fuel) payload tc) u
              (rw (found, generate_proposal) refl)
              (propose-Settles e k authorities some_one (handle_proposal e fuel) payload tc u n'
                (λ p v nv _.
                  handle_proposal-Settles e k authorities two distinct fuel p v enough nv))
      ]

  lead_from_tc-Settles :
      (tc : Option Tc) (w : ConsensusWorker C)
      → IsNode k authorities w
      → Settles k authorities (lead_from_tc e fuel tc) w
  unfolding lead_from_tc
  lead_from_tc-Settles tc w n =
      Settles-modify k authorities (λ u. record u { processing_block = none })
        (λ _.
          generate_proposal-Settles tc _
            (same_state-IsNode k authorities w (record w { processing_block = none }) refl n))

  -- The node follows a timeout certificate that is not behind.
  followed : Tc → ConsensusWorker C → ConsensusWorker C
  followed tc w = if leb w.state.view tc.view then reset_timer (advance_view tc.view w) else w

  followed-IsNode :
      (tc : Tc) (w : ConsensusWorker C)
      → IsNode k authorities w
      → IsNode k authorities (followed tc w)
  unfolding followed
  followed-IsNode tc w n = elim (Bool-cases (leb w.state.view tc.view)) [
    | inl fits ↦ rw fits (
        same_state-IsNode k authorities (advance_view tc.view w)
          (reset_timer (advance_view tc.view w)) refl
          (advance_view-IsNode k authorities tc.view w n))
    | inr behind ↦ rw behind n
  ]

  on_tc-Settles :
      (tc : Tc) (w : ConsensusWorker C)
      → IsNode k authorities w
      → Settles k authorities (on_tc e fuel tc) w
  unfolding on_tc followed
  on_tc-Settles tc w n =
      let n' =
        same_state-IsNode k authorities (followed tc w)
          (gossip (ConsensusMessage.tc tc) true (followed tc w)) refl (followed-IsNode tc w n) in
      Settles-modify k authorities (followed tc) (λ _.
        Settles-modify k authorities (gossip (ConsensusMessage.tc tc) true) (λ _.
          Settles-check k authorities (λ u. State.is_leader u.state) n'
            (is_leader-IsAnswer (followed tc w).state (rw n'.list some_one))
            (λ leads _.
              Settles-if k authorities leads (λ _. lead_from_tc-Settles (some tc) _ n')
                (λ _. Settles-pure k authorities tt n'))))

  counted-IsNode :
      (t : Timeout) (w : ConsensusWorker C)
      → IsNode k authorities w
      → IsNode k authorities (record w { state = (State.add_timeout w.state t).1 })
  unfolding State.add_timeout
  counted-IsNode t w n = record { keystore = n.keystore; list = n.list; bound = n.bound }

  pub count_timeout-Settles :
      (t : Timeout) (w : ConsensusWorker C)
      → IsNode k authorities w
      → Settles k authorities (count_timeout e fuel t) w
  unfolding count_timeout
  count_timeout-Settles t w n =
      Settles-check k authorities (λ u. State.verify_timeout e.crypto u.state t) n
        (timeout_verify-IsAnswer e.crypto t w.state.authorities)
        (λ _ verified. Settles-modify k authorities (handle_qc t.high_qc) (λ _.
          Settles-then k authorities (on_state (λ s. State.add_timeout s t))
            (settles (add_timeout-IsAnswer e.crypto (handle_qc t.high_qc w).state t) (
              counted-IsNode t (handle_qc t.high_qc w)
                (handle_qc-IsNode k authorities t.high_qc w n)))
            (λ made _ m. made_any made _ m)))
    where
      made_any :
          (made : Option Tc) (u : ConsensusWorker C)
          → IsNode k authorities u
          → Settles k authorities (elim made [ none ↦ pure tt | some tc ↦ on_tc e fuel tc ]) u
      made_any none u m = Settles-pure k authorities tt m
      made_any (some tc) u m = on_tc-Settles tc u m
