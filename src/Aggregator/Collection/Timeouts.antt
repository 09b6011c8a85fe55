-- ===== src/Aggregator/Collection/Timeouts.antt =====
-- Timeouts that reach `Aggregator::add_timeout` (aggregator.rs) one after the other, and when they
-- end in a certificate.
use madara_hotstuff.Base.{
  ◌+◌, ◌*◌, ◌<◌, ◌≡◌, ◌⊎◌, refl, sym, subst, inl, inr, Bool, true, false, not, ◌&&◌, List, [], ◌∷◌,
  ◌++◌, Option, none, some, arith, contains, Distinct, length, ltb, ◌==◌, ==_iff, ==_refl,
  Bool-cases, u64_mod, wrap64, if◌then◌else◌,
}
use madara_hotstuff.Primitives.{
  AuthorityId, AuthoritySignature, AuthorityList, ViewNumber, Outcome, ok, err, panicked,
  out_of_fuel,
}
use madara_hotstuff.Message.Tc.{Tc}
use madara_hotstuff.Message.Timeout.{Timeout}
use madara_hotstuff.Message.Quorum.{voters, length-voters}
use madara_hotstuff.Message.Certificates.{pairs, length-pairs}
use madara_hotstuff.Aggregator.{Aggregator, TcMaker, append_timeout, add_timeout, tc_maker}
use madara_hotstuff.Aggregator.Timeouts.{append_timeout-some, any-eq-contains, tc_maker-add_timeout}

abbrev pub IsSigned : Timeout → Type 0
IsSigned t = (s : AuthoritySignature) × (t.signature ≡ some s)

-- What the calls for a list of timeouts return, in their order.
abbrev pub answers : AuthorityList → Aggregator → List Timeout → List (Outcome (Option Tc))
answers authorities a [] = []
answers authorities a (t ∷ timeouts) =
    (add_timeout a t authorities).0 ∷ answers authorities (add_timeout a t authorities).1 timeouts

abbrev pub collect : AuthorityList → Aggregator → List Timeout → Aggregator
collect authorities a [] = a
collect authorities a (t ∷ timeouts) = collect authorities (add_timeout a t authorities).1 timeouts

-- The voters that a maker holds.
abbrev pub held : TcMaker → List AuthorityId
held m = voters (pairs m.votes)

pub length-held : (m : TcMaker) → length (held m) ≡ length m.votes
length-held m = omega (arith, length-voters (pairs m.votes), length-pairs m.votes)

module _ (view : ViewNumber) where
  -- A certificate of the view.
  abbrev pub expires : Outcome (Option Tc) → Bool
  expires (ok (some tc)) = tc.view == view
  expires (ok none) = false
  expires (err _) = false
  expires panicked = false
  expires out_of_fuel = false

  -- The voters of timeouts of the view, each once.
  abbrev pub timed_out : List Timeout → List AuthorityId
  timed_out [] = []
  timed_out (t ∷ timeouts) =
      let rest = timed_out timeouts in
      if t.view == view && not (contains rest t.voter) then t.voter ∷ rest else rest

  pub Distinct-timed_out : (timeouts : List Timeout) → Distinct (timed_out timeouts)
  Distinct-timed_out [] = tt
  Distinct-timed_out (t ∷ timeouts) = ground (arith, Distinct-timed_out timeouts)

-- What a maker does with a signed timeout of its view.
append_timeout_branches :
    (m : TcMaker) (t : Timeout) (authorities : AuthorityList) (s : AuthoritySignature)
    → t.signature ≡ some s
    → m.weight ≡ wrap64 (length m.votes)
    → length m.votes + 1 < u64_mod
    → (contains (held m) t.voter ≡ true → append_timeout m t authorities ≡ (ok none, m))
      × (contains (held m) t.voter ≡ false
          → ((append_timeout m t authorities).1.votes ≡ m.votes ++ (t.voter, s, t.view) ∷ [])
            × (expires t.view (append_timeout m t authorities).0
                ≡ ltb (2 * length authorities) (3 * (length m.votes + 1))))
unfolding append_timeout
append_timeout_branches m t authorities s e weighed room = (
  λ old. rw (any-eq-contains m.votes t.voter, old),
  λ fresh. rw (any-eq-contains m.votes t.voter, fresh, e) (ground (arith, weighed, ==_refl t.view)),
)

module _ (authorities : AuthorityList) (view : ViewNumber) (a : Aggregator) (t : Timeout) where
  abbrev pub after : TcMaker
  after = tc_maker (add_timeout a t authorities).1 view

  abbrev pub first : Bool
  first = t.view == view && not (contains (held (tc_maker a view)) t.voter)

  -- What adding a timeout does to the maker of a view: nothing, or it is the first of its voter.
  abbrev pub Stepped : Type 0
  Stepped =
      ((first ≡ false)
        × (after.votes ≡ (tc_maker a view).votes)
        × (expires view (add_timeout a t authorities).0 ≡ false))
      ⊎ ((first ≡ true)
          × ((s : AuthoritySignature) × (after.votes
                ≡ (tc_maker a view).votes ++ (t.voter, s, t.view) ∷ []))
          × (expires view (add_timeout a t authorities).0
              ≡ ltb (2 * length authorities) (3 * (length (tc_maker a view).votes + 1))))

  uncertified :
      (r : Outcome (Option Tc))
      → (t.view == view) ≡ false
      → (add_timeout a t authorities).0 ≡ r
      → expires view r ≡ false
  unfolding add_timeout
  uncertified (ok (some tc)) apart e =
      let (same, _, _) = append_timeout-some (tc_maker a t.view) t authorities e in rw same apart
  uncertified (ok none) apart e = refl
  uncertified (err x) apart e = refl
  uncertified panicked apart e = refl
  uncertified out_of_fuel apart e = refl

module _ (authorities : AuthorityList) (a : Aggregator) (t : Timeout) where
  own_after :
      tc_maker (add_timeout a t authorities).1 t.view
      ≡ (append_timeout (tc_maker a t.view) t authorities).1
  own_after = rw (tc_maker-add_timeout a t authorities t.view, ==_refl t.view)

  own_answer :
      (add_timeout a t authorities).0 ≡ (append_timeout (tc_maker a t.view) t authorities).0
  unfolding add_timeout
  own_answer = refl

  own_step :
      IsSigned t
      → (tc_maker a t.view).weight ≡ wrap64 (length (tc_maker a t.view).votes)
      → length (tc_maker a t.view).votes + 1 < u64_mod
      → Stepped authorities t.view a t
  own_step (s, e) weighed room =
      let m = tc_maker a t.view in
      let (old, fresh) = append_timeout_branches m t authorities s e weighed room in
      elim (Bool-cases (contains (held m) t.voter)) [
        | inl there ↦
            inl (rw (==_refl t.view, there), rw (own_after, old there), rw (own_answer, old there))
        | inr absent ↦ inr (
          rw (==_refl t.view, absent),
          (s, rw own_after (fresh absent).0),
          rw own_answer (fresh absent).1,
        )
      ]

  pub add_timeout_step :
      (view : ViewNumber)
      → IsSigned t
      → (tc_maker a view).weight ≡ wrap64 (length (tc_maker a view).votes)
      → length (tc_maker a view).votes + 1 < u64_mod
      → Stepped authorities view a t
  add_timeout_step view signed weighed room = elim (Bool-cases (t.view == view)) [
    | inl here ↦
        let same : t.view ≡ view = (==_iff t.view view).0 here in
        subst (λ w. Stepped authorities w a t) same
          (own_step signed
            (subst (λ w. (tc_maker a w).weight ≡ wrap64 (length (tc_maker a w).votes)) (sym same)
              weighed)
            (subst (λ w. length (tc_maker a w).votes + 1 < u64_mod) (sym same) room))
    | inr apart ↦ inl (
      rw apart,
      rw (tc_maker-add_timeout a t authorities view, apart),
      uncertified authorities view a t _ apart refl,
    )
  ]
