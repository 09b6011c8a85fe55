-- ===== src/Action.antt =====
-- Methods of an object as actions: they end in an outcome and leave a new state, after an error too.
-- A Rust `?` is a bind.
use madara_hotstuff.Primitives.{Outcome, ok, err, panicked, out_of_fuel}

abbrev pub Action : Type 0 → Type 0 → Type 0
Action S A = S → Outcome A × S

-- The rest of a method after a call that ended.
abbrev pub and_then : {S A B : Type 0} → Outcome A × S → (A → Action S B) → Outcome B × S
and_then (ok a, s) f = f a s
and_then (err e, s) f = (err e, s)
and_then (panicked, s) f = (panicked, s)
and_then (out_of_fuel, s) f = (out_of_fuel, s)

infixl 5 ◌>>=◌ ◌>>◌
abbrev pub ◌>>=◌ : {S A B : Type 0} → Action S A → (A → Action S B) → Action S B
◌>>=◌ m f s = and_then (m s) f

abbrev pub ◌>>◌ : {S A B : Type 0} → Action S A → Action S B → Action S B
m >> k = m >>= λ _. k

module _ {S A : Type 0} where
  abbrev pub pure : A → Action S A
  pure a s = (ok a, s)

  abbrev pub lift : Outcome A → Action S A
  lift r s = (r, s)

  abbrev pub gets : (S → A) → Action S A
  gets f s = (ok (f s), s)

abbrev pub modify : {S : Type 0} → (S → S) → Action S (Unit {0})
modify f s = (ok tt, f s)
