-- ===== src/Worker/Fuel.antt =====
-- More fuel changes nothing (consensus.rs): two handlers that agree wherever the first one has enough
-- fuel make the handlers built from them agree there too.
pub mod Handlers
pub mod Events
use madara_hotstuff.Base.{◌≡◌, ◌≢◌, refl, sym, ◌∙◌, ap, Bool, true, false, if◌then◌else◌}
use madara_hotstuff.Primitives.{Outcome, ok, err, panicked, out_of_fuel}
use madara_hotstuff.Action.{Action, and_then, ◌>>=◌}

module _ {S A : Type 0} where
  -- The second action does what the first does, unless the first one runs out of fuel.
  pub data Agrees (m m' : Action S A) (s : S) : Type 0 where
    agrees : ((m s).0 ≢ out_of_fuel → m s ≡ m' s) → Agrees m m' s

  pub Agrees-eq : {m m' : Action S A} {s : S} → Agrees m m' s → (m s).0 ≢ out_of_fuel → m s ≡ m' s
  Agrees-eq (agrees h) = h

  pub Agrees-refl : {m : Action S A} {s : S} → Agrees m m s
  Agrees-refl = agrees (λ _. refl)

  -- Actions that run as two others do.
  pub Agrees-by :
      {m m' : Action S A} {s : S} (n n' : Action S A) (t : S)
      → m s ≡ n t
      → m' s ≡ n' t
      → Agrees n n' t
      → Agrees m m' s
  Agrees-by n n' t first second (agrees h) =
      agrees (λ enough. first ∙ (h (λ out. enough (ap (λ r. r.0) first ∙ out)) ∙ sym second))

  pub Agrees-if :
      {s : S} (b : Bool) {m m' n n' : Action S A}
      → Agrees m m' s
      → Agrees n n' s
      → Agrees (if b then m else n) (if b then m' else n') s
  Agrees-if true h k = h
  Agrees-if false h k = k

module _ {S A B : Type 0} where
  and_then-Agrees :
      (r : Outcome A × S) (f f' : A → Action S B)
      → ((a : A) → r.0 ≡ ok a → Agrees (f a) (f' a) r.1)
      → (and_then r f).0 ≢ out_of_fuel
      → and_then r f ≡ and_then r f'
  and_then-Agrees (ok a, s) f f' g enough = Agrees-eq (g a refl) enough
  and_then-Agrees (err x, s) f f' g enough = refl
  and_then-Agrees (panicked, s) f f' g enough = refl
  and_then-Agrees (out_of_fuel, s) f f' g enough = refl

  -- The same first step, and then actions that agree.
  pub Agrees-after :
      (m : Action S A) {f f' : A → Action S B} {s : S}
      → ((a : A) → (m s).0 ≡ ok a → Agrees (f a) (f' a) (m s).1)
      → Agrees (m >>= f) (m >>= f') s
  Agrees-after m {f} {f'} {s} g = agrees (and_then-Agrees (m s) f f' g)
