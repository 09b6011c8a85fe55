-- ===== src/Worker/Climbs.antt =====
-- How far a run of the worker's handlers (consensus.rs) moves its view: by single increments of a
-- `u64`, of which each handler makes a bounded number.
pub mod Views
pub mod Handlers
pub mod Events
use madara_hotstuff.Base.{
  ℕ, zero, suc, ◌+◌, ◌<◌, ◌≤◌, ◌≡◌, refl, sym, ap, ◌∙◌, ◌⊎◌, inl, inr, Bool, true, false, arith,
  wrap64, u64_mod, if◌then◌else◌,
}
use madara_hotstuff.Primitives.{ViewNumber, Outcome, ok, err, panicked, out_of_fuel}
use madara_hotstuff.Action.{Action, and_then, ◌>>=◌, lift, gets, modify}
use madara_hotstuff.Worker.{ConsensusWorker}

-- A view after a number of increments.
abbrev pub climbed : ℕ → ViewNumber → ViewNumber
climbed zero view = view
climbed (suc k) view = wrap64 (climbed k view + 1)

climbed-add : (j k : ℕ) (view : ViewNumber) → climbed j (climbed k view) ≡ climbed (j + k) view
climbed-add zero k view =
    let none_more : k ≡ 0 + k = omega arith in ap (λ n. climbed n view) none_more
climbed-add (suc j) k view =
    let one_more : suc (j + k) ≡ suc j + k = omega arith in
    ap (λ v. wrap64 (v + 1)) (climbed-add j k view) ∙ ap (λ n. climbed n view) one_more

-- At most `n` increments lead from one view to another.
abbrev pub Rises : ℕ → ViewNumber → ViewNumber → Type 0
Rises n a b = (k : ℕ) × (k ≤ n) × (b ≡ climbed k a)

pub Rises-here : (n : ℕ) {a : ViewNumber} → Rises n a a
Rises-here n = (0, omega arith, refl)

pub Rises-once : (n : ℕ) {a : ViewNumber} → Rises (suc n) a (wrap64 (a + 1))
Rises-once n = (1, omega arith, refl)

pub Rises-trans :
    {i j n : ℕ} {a b c : ViewNumber} → Rises i a b → Rises j b c → i + j ≤ n → Rises n a c
Rises-trans {a} {b} {c} (k, few, moved) (l, few', moved') fits =
    (l + k, omega arith, moved' ∙ (ap (climbed l) moved ∙ climbed-add l k a))

pub Rises-more : {i n : ℕ} {a b : ViewNumber} → Rises i a b → i ≤ n → Rises n a b
Rises-more (k, few, moved) fits = (k, omega arith, moved)

climbed_small : (k : ℕ) (view : ViewNumber) → view + k < u64_mod → climbed k view ≡ view + k
climbed_small zero view small = omega arith
climbed_small (suc k) view small =
    let before : climbed k view ≡ view + k = climbed_small k view (omega arith) in
    omega (arith, before, small)

-- Within the `u64`, the view does not fall, and does not rise above the number of increments.
pub Rises-bounds :
    {n : ℕ} {a b : ViewNumber} → Rises n a b → a + n < u64_mod → (a ≤ b) × (b ≤ a + n)
Rises-bounds {n} {a} (k, few, moved) small =
    let e = climbed_small k a (omega arith) in
    (omega (arith, e, moved), omega (arith, e, moved, few))

pub Rises-u64 : {n : ℕ} {a b : ViewNumber} → Rises n a b → a < u64_mod → b < u64_mod
Rises-u64 (zero, few, moved) small = omega (arith, moved)
Rises-u64 (suc k, few, moved) small = omega (arith, moved)

module _ {C : Type 0} where
  -- An action makes at most `n` increments from a worker.
  pub data Within (n : ℕ) {A : Type 0} (m : Action (ConsensusWorker C) A) (w : ConsensusWorker C)
      : Type 0 where
    within : Rises n w.state.view (m w).1.state.view → Within n m w

  pub Within-Rises :
      {n : ℕ} {A : Type 0} {m : Action (ConsensusWorker C) A} {w : ConsensusWorker C}
      → Within n m w
      → Rises n w.state.view (m w).1.state.view
  Within-Rises (within r) = r

  pub and_then-Rises :
      {i j n : ℕ} {A B : Type 0} {view : ViewNumber} (r : Outcome A × ConsensusWorker C)
      (f : A → Action (ConsensusWorker C) B)
      → Rises i view r.1.state.view
      → ((a : A) → r.0 ≡ ok a → Rises j r.1.state.view (f a r.1).1.state.view)
      → i + j ≤ n
      → Rises n view (and_then r f).1.state.view
  and_then-Rises (ok a, s) f h k fits = Rises-trans h (k a refl) fits
  and_then-Rises (err x, s) f h k fits = Rises-more h (omega arith)
  and_then-Rises (panicked, s) f h k fits = Rises-more h (omega arith)
  and_then-Rises (out_of_fuel, s) f h k fits = Rises-more h (omega arith)

  pub Within-then :
      {i j n : ℕ} {A B : Type 0} (m : Action (ConsensusWorker C) A)
      {f : A → Action (ConsensusWorker C) B} {w : ConsensusWorker C}
      → Within i m w
      → ((a : A) → (m w).0 ≡ ok a → Within j (f a) (m w).1)
      → i + j ≤ n
      → Within n (m >>= f) w
  Within-then m {f} {w} (within r) k fits =
      within (and_then-Rises (m w) f r (λ a h. Within-Rises (k a h)) fits)

  module _ {B : Type 0} {w : ConsensusWorker C} where
    pub Within-modify :
        {i j n : ℕ} (g : ConsensusWorker C → ConsensusWorker C)
        {f : Unit {0} → Action (ConsensusWorker C) B}
        → Rises i w.state.view (g w).state.view
        → ((a : Unit {0}) → Within j (f a) (g w))
        → i + j ≤ n
        → Within n (modify g >>= f) w
    Within-modify g r k fits = within (Rises-trans r (Within-Rises (k tt)) fits)

    pub Within-check :
        {n : ℕ} {A : Type 0} (g : ConsensusWorker C → Outcome A)
        {f : A → Action (ConsensusWorker C) B}
        → ((a : A) → Within n (f a) w)
        → Within n ((λ u. lift (g u) u) >>= f) w
    Within-check {n} g {f} k =
        within (
          and_then-Rises {i = 0} (g w, w) f (Rises-here 0) (λ a h. Within-Rises (k a))
            (omega arith))

    pub Within-gets :
        {n : ℕ} {A : Type 0} (g : ConsensusWorker C → A) {f : A → Action (ConsensusWorker C) B}
        → ((a : A) → Within n (f a) w)
        → Within n (gets g >>= f) w
    Within-gets g k = within (Within-Rises (k (g w)))

  pub Within-if :
      {n : ℕ} {B : Type 0} {w : ConsensusWorker C} (b : Bool) {m m' : Action (ConsensusWorker C) B}
      → Within n m w
      → Within n m' w
      → Within n (if b then m else m') w
  Within-if true h k = h
  Within-if false h k = k
