-- ===== src/Worker/Settles.antt =====
-- The rules for handlers (consensus.rs) that answer: an action settles at a worker if it ends with a
-- value or an error, and leaves a node with the keystore and the authorities that it had.
pub mod Proposals
pub mod Votes
pub mod Depth
pub mod Timeouts
pub mod Events
use madara_hotstuff.Base.{
  ℕ, ◌+◌, ◌<◌, ◌≤◌, ◌≡◌, refl, sym, subst, Bool, true, false, List, Option, none, some, arith, leb,
  if◌then◌else◌, wrap64, u64_mod,
}
use madara_hotstuff.Primitives.{
  AuthorityId, AuthorityList, ViewNumber, Outcome, ok, err, panicked, out_of_fuel,
}
use madara_hotstuff.Crypto.{Keystore}
use madara_hotstuff.Action.{Action, and_then, ◌>>=◌, pure, lift, gets, modify}
use madara_hotstuff.Message.Qc.{Qc}
use madara_hotstuff.Message.Tc.{Tc}
use madara_hotstuff.Message.Answers.{IsAnswer, value, error}
use madara_hotstuff.State
use madara_hotstuff.State.{local_authority_id, view_leader}
use madara_hotstuff.State.Turns.{Leads}
use madara_hotstuff.Worker.{ConsensusWorker, advance_view}
use madara_hotstuff.Worker.Handlers.{handle_qc, use_tc}

-- The local authority of a keystore leads a view.
abbrev pub Led : Keystore → AuthorityList → ViewNumber → Type 0
Led k authorities view = Leads (State.new k authorities) view

module _ {C : Type 0} (k : Keystore) (authorities : AuthorityList) where
  pub record IsNode (w : ConsensusWorker C) : Type 0 where
    pub keystore : w.state.keystore ≡ k
    pub list : w.state.authorities ≡ authorities
    pub bound : w.state.view < u64_mod

  pub data Settles {A : Type 0} (m : Action (ConsensusWorker C) A) (w : ConsensusWorker C)
      : Type 0 where
    settles : IsAnswer (m w).0 → IsNode (m w).1 → Settles m w

  pub Settles-IsAnswer :
      {A : Type 0} {m : Action (ConsensusWorker C) A} {w : ConsensusWorker C}
      → Settles m w
      → IsAnswer (m w).0
  Settles-IsAnswer (settles a n) = a

  pub Settles-IsNode :
      {A : Type 0} {m : Action (ConsensusWorker C) A} {w : ConsensusWorker C}
      → Settles m w
      → IsNode (m w).1
  Settles-IsNode (settles a n) = n

  pub Leads-Led :
      (w : ConsensusWorker C) (view : ViewNumber)
      → IsNode w
      → Leads w.state view
      → Led k authorities view
  unfolding view_leader local_authority_id
  Leads-Led w view n (id, leads, mine) = (id, rw (← n.list) leads, rw (← n.list, ← n.keystore) mine)

  -- A worker whose other fields have changed.
  pub same_state-IsNode : (w u : ConsensusWorker C) → u.state ≡ w.state → IsNode w → IsNode u
  same_state-IsNode w u h n = record {
    keystore = rw h n.keystore;
    list = rw h n.list;
    bound = rw h n.bound;
  }

  pub handle_qc-IsNode : (qc : Qc) (w : ConsensusWorker C) → IsNode w → IsNode (handle_qc qc w)
  unfolding handle_qc advance_view State.advance_view_from_target State.update_high_qc
  handle_qc-IsNode qc w n = ground (arith, n)

  pub advance_view-IsNode :
      (view : ViewNumber) (w : ConsensusWorker C) → IsNode w → IsNode (advance_view view w)
  unfolding advance_view State.advance_view_from_target
  advance_view-IsNode view w n = ground (arith, n)

  pub use_tc-IsNode : (tc : Option Tc) (w : ConsensusWorker C) → IsNode w → IsNode (use_tc tc w)
  unfolding use_tc advance_view State.advance_view_from_target
  use_tc-IsNode none w n = n
  use_tc-IsNode (some tc) w n = ground (arith, n)

  -- An action that runs as another one does.
  pub Settles-by :
      {A : Type 0} {m : Action (ConsensusWorker C) A} {w : ConsensusWorker C}
      (m' : Action (ConsensusWorker C) A) (u : ConsensusWorker C)
      → m w ≡ m' u
      → Settles m' u
      → Settles m w
  Settles-by m' u same (settles a n) =
      settles (subst (λ r. IsAnswer r.0) (sym same) a) (subst (λ r. IsNode r.1) (sym same) n)

  and_then-Settles :
      {A B : Type 0} (r : Outcome A × ConsensusWorker C) (f : A → Action (ConsensusWorker C) B)
      → IsAnswer r.0
      → IsNode r.1
      → ((a : A) → r.0 ≡ ok a → Settles (f a) r.1)
      → IsAnswer (and_then r f).0 × IsNode (and_then r f).1
  and_then-Settles (ok a, s) f h n g = (Settles-IsAnswer (g a refl), Settles-IsNode (g a refl))
  and_then-Settles (err x, s) f h n g = (error x, n)
  and_then-Settles (panicked, s) f h n g = elim h [ ]
  and_then-Settles (out_of_fuel, s) f h n g = elim h [ ]

  pub Settles-then :
      {A B : Type 0} (m : Action (ConsensusWorker C) A) {f : A → Action (ConsensusWorker C) B}
      {w : ConsensusWorker C}
      → Settles m w
      → ((a : A) → (m w).0 ≡ ok a → IsNode (m w).1 → Settles (f a) (m w).1)
      → Settles (m >>= f) w
  Settles-then m {f} {w} (settles h n) g =
      let (a, n') = and_then-Settles (m w) f h n (λ a e. g a e n) in settles a n'

  module _ {B : Type 0} {w : ConsensusWorker C} where
    pub Settles-modify :
        (g : ConsensusWorker C → ConsensusWorker C) {f : Unit {0} → Action (ConsensusWorker C) B}
        → ((a : Unit {0}) → Settles (f a) (g w))
        → Settles (modify g >>= f) w
    Settles-modify g next = settles (Settles-IsAnswer (next tt)) (Settles-IsNode (next tt))

    pub Settles-check :
        {A : Type 0} (g : ConsensusWorker C → Outcome A) {f : A → Action (ConsensusWorker C) B}
        → IsNode w
        → IsAnswer (g w)
        → ((a : A) → g w ≡ ok a → Settles (f a) w)
        → Settles ((λ u. lift (g u) u) >>= f) w
    Settles-check g {f} n h next =
        let (a, n') = and_then-Settles (g w, w) f h n next in settles a n'

    pub Settles-gets :
        {A : Type 0} (g : ConsensusWorker C → A) {f : A → Action (ConsensusWorker C) B}
        → ((a : A) → g w ≡ a → Settles (f a) w)
        → Settles (gets g >>= f) w
    Settles-gets g {f} next =
        settles (Settles-IsAnswer (next (g w) refl)) (Settles-IsNode (next (g w) refl))

    pub Settles-pure : (b : B) → IsNode w → Settles (pure b) w
    Settles-pure b n = settles (value b) n

  -- A change at the end.
  pub Settles-last :
      {w : ConsensusWorker C} (g : ConsensusWorker C → ConsensusWorker C)
      → IsNode (g w)
      → Settles (modify g) w
  Settles-last g n = settles (value tt) n

  pub Settles-if :
      {B : Type 0} {w : ConsensusWorker C} (b : Bool) {m n : Action (ConsensusWorker C) B}
      → (b ≡ true → Settles m w)
      → (b ≡ false → Settles n w)
      → Settles (if b then m else n) w
  Settles-if true h g = h refl
  Settles-if false h g = g refl
