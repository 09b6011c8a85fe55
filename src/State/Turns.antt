-- ===== src/State/Turns.antt =====
-- The methods of `ConsensusState` (consensus.rs) answer where there is an authority, and with two
-- distinct authorities or more no one leads two views in a row, unless the view wraps.
use madara_hotstuff.Base.{
  ℕ, zero, suc, ◌+◌, ◌%◌, ◌<◌, ◌≡◌, ◌≢◌, refl, ap, ◌∙◌, inl, inr, true, not, List, [], ◌∷◌, Option,
  none, some, arith, Distinct, length, get_elem?, ◌==◌, ltb, wrap64, u64_mod,
}
use native.Mathlib.Nat.{mod-lt, suc-mod, mod-eq_of_lt, mod_self}
use native.Mathlib.Decide.{dec_lt}
use madara_hotstuff.Primitives.{
  AuthorityId, ViewNumber, wrong_proposer, expired_vote, invalid_tc, not_authority, other, ok,
  ok_or, map_err, >>=-eq-ok,
}
use madara_hotstuff.Crypto.{Crypto}
use madara_hotstuff.Message.Qc.{Qc}
use madara_hotstuff.Message.Tc.{Tc}
use madara_hotstuff.Message.Payload.{Payload}
use madara_hotstuff.Message.Vote.{Vote}
use madara_hotstuff.Message.Timeout
use madara_hotstuff.Message.Timeout.{Timeout}
use madara_hotstuff.Message.Proposal
use madara_hotstuff.Message.Proposal.{Proposal}
use madara_hotstuff.Message.Checked.{ids}
use madara_hotstuff.Message.Answers.{
  IsAnswer, value, error, neither-IsAnswer, >>=-IsAnswer, ok_or-IsAnswer, map_err-IsAnswer,
  if-IsAnswer, vote_verify-IsAnswer, proposal_verify-IsAnswer, tc_verify-IsAnswer,
}
use madara_hotstuff.Aggregator
use madara_hotstuff.Aggregator.Votes.{append_vote-some}
use madara_hotstuff.State
use madara_hotstuff.State.{
  ConsensusState, local_authority_id, view_leader, is_local, is_leader, sign,
}
use madara_hotstuff.State.Leader.{view_leader_branches, contains-get_elem?}

-- The local authority leads a view.
abbrev pub Leads : ConsensusState → ViewNumber → Type 0
Leads s view = (id : AuthorityId) × (view_leader s view ≡ ok id) × (local_authority_id s ≡ some id)

pub view_leader-IsAnswer :
    (s : ConsensusState) (view : ViewNumber)
    → 0 < length s.authorities
    → IsAnswer (view_leader s view)
view_leader-IsAnswer s view pos = elim (view_leader_branches s view).1 [
  | inl empty ↦ absurd (ground (arith, ap length empty))
  | inr (id, leads, at, known) ↦ rw leads (value id)
]

pub is_leader-IsAnswer : (s : ConsensusState) → 0 < length s.authorities → IsAnswer (is_leader s)
unfolding is_leader
is_leader-IsAnswer s pos =
    >>=-IsAnswer (view_leader s s.view) _ (view_leader-IsAnswer s s.view pos) (λ id. value _)

pub is_local-eq :
    (s : ConsensusState) (id : AuthorityId) → is_local s id ≡ true → local_authority_id s ≡ some id
is_local-eq s id h = ground arith

pub is_leader-Leads : (s : ConsensusState) → is_leader s ≡ ok true → Leads s s.view
unfolding is_leader
is_leader-Leads s h =
    let (id, leads, local) = >>=-eq-ok (view_leader s s.view) _ h in
    (id, leads, is_local-eq s id (ground arith))

-- Two places of a list without repetition that hold the same number are one.
get_elem?-Distinct :
    (xs : List ℕ) (i j : ℕ) {x : ℕ}
    → Distinct xs
    → get_elem? xs i ≡ some x
    → get_elem? xs j ≡ some x
    → i ≡ j
get_elem?-Distinct [] i j d p q = cc
get_elem?-Distinct (y ∷ xs) zero zero d p q = refl
get_elem?-Distinct (y ∷ xs) zero (suc j) d p q =
    absurd (ground (arith, d.0, contains-get_elem? xs j q))
get_elem?-Distinct (y ∷ xs) (suc i) zero d p q =
    absurd (ground (arith, d.0, contains-get_elem? xs i p))
get_elem?-Distinct (y ∷ xs) (suc i) (suc j) d p q = ap suc (get_elem?-Distinct xs i j d.1 p q)

-- The leader stands at the place of the view.
leader_at :
    (s : ConsensusState) (view : ViewNumber) {id : AuthorityId}
    → 0 < length s.authorities
    → view_leader s view ≡ ok id
    → get_elem? (ids s.authorities) (view % length s.authorities) ≡ some id
leader_at s view pos h = elim (view_leader_branches s view).1 [
  | inl empty ↦ absurd (ground (arith, ap length empty))
  | inr (id', leads, at, known) ↦ ground arith
]

mod_apart : (v n : ℕ) → 1 < n → v % n ≢ (v + 1) % n
mod_apart v n h e =
    let r = v % n in
    let below : r < n = mod-lt v (omega arith) in
    let e' : r ≡ suc r % n = e ∙ (ap (λ k. k % n) (omega arith) ∙ suc-mod v n) in
    elim (dec_lt (suc r) n) [
      | yes inside ↦ omega (arith, e', mod-eq_of_lt inside)
      | no last ↦
          let full : suc r ≡ n = omega arith in
          let zeroed : r ≡ 0 = e' ∙ (ap (λ k. k % n) full ∙ mod_self n) in omega arith
    ]

-- With at least two distinct authorities the next view has another leader, if it does not wrap.
pub Leads-next :
    (s : ConsensusState) (view : ViewNumber)
    → Distinct (ids s.authorities)
    → 1 < length s.authorities
    → view + 1 < u64_mod
    → Leads s view
    → ¬ Leads s (wrap64 (view + 1))
Leads-next s view d two small (a, leads, mine) (b, next, mine') =
    let same : a ≡ b = ground arith in
    let step : wrap64 (view + 1) ≡ view + 1 = ground arith in
    mod_apart view (length s.authorities) two (
      get_elem?-Distinct (ids s.authorities) _ _ d (leader_at s view (omega arith) leads)
        (rw same (leader_at s (view + 1) (omega arith) (rw step at next))))

module _ (c : Crypto) (s : ConsensusState) where
  pub verify_proposal-IsAnswer :
      (p : Proposal) → 0 < length s.authorities → IsAnswer (State.verify_proposal c s p)
  unfolding State.verify_proposal
  verify_proposal-IsAnswer p pos =
      >>=-IsAnswer (view_leader s p.view) _ (view_leader-IsAnswer s p.view pos) (λ leader.
        if-IsAnswer (not (p.author == leader)) _ _ (error wrong_proposer)
          (proposal_verify-IsAnswer c p s.authorities))

  pub verify_vote-IsAnswer : (v : Vote) → IsAnswer (State.verify_vote c s v)
  unfolding State.verify_vote
  verify_vote-IsAnswer v =
      if-IsAnswer (ltb v.view s.view) _ _ (error expired_vote)
        (vote_verify-IsAnswer c v s.authorities)

  pub verify_tc-IsAnswer : (tc : Tc) → IsAnswer (State.verify_tc c s tc)
  unfolding State.verify_tc
  verify_tc-IsAnswer tc =
      if-IsAnswer (ltb tc.view s.view) _ _ (error invalid_tc)
        (tc_verify-IsAnswer c tc s.authorities)

  pub make_timeout-IsAnswer : IsAnswer (State.make_timeout c s)
  unfolding State.make_timeout
  make_timeout-IsAnswer =
      >>=-IsAnswer (ok_or (local_authority_id s) not_authority) _ (ok_or-IsAnswer _ _) (λ id.
        >>=-IsAnswer
          (map_err
            (sign s.keystore id (
              Timeout.digest c
                (record { high_qc = s.high_qc; view = s.view; voter = id; signature = none })))
            other)
          _ (map_err-IsAnswer _ other) (λ g. value _))

  pub make_proposal-IsAnswer :
      (payload : Payload) (tc : Option Tc) → IsAnswer (State.make_proposal c s payload tc)
  unfolding State.make_proposal
  make_proposal-IsAnswer payload tc =
      >>=-IsAnswer (ok_or (local_authority_id s) not_authority) _ (ok_or-IsAnswer _ _) (λ id.
        >>=-IsAnswer
          (map_err
            (sign s.keystore id
              (Proposal.digest c (Proposal.new s.high_qc tc payload s.view id none)))
            other)
          _ (map_err-IsAnswer _ other) (λ g. value _))

  pub make_proposal-view :
      (payload : Payload) (tc : Option Tc) {p : Proposal}
      → State.make_proposal c s payload tc ≡ ok p
      → p.view ≡ s.view
  unfolding State.make_proposal
  make_proposal-view payload tc made = ground arith

  pub add_vote-IsAnswer : (v : Vote) → IsAnswer (State.add_vote c s v).0
  unfolding State.add_vote Aggregator.add_vote Aggregator.append_vote
  add_vote-IsAnswer v = neither-IsAnswer _ (λ h. ground arith) (λ h. ground arith)

  pub add_timeout-IsAnswer : (t : Timeout) → IsAnswer (State.add_timeout s t).0
  unfolding State.add_timeout Aggregator.add_timeout Aggregator.append_timeout
  add_timeout-IsAnswer t = neither-IsAnswer _ (λ h. ground arith) (λ h. ground arith)

  -- A certificate that `add_vote` returns is of the vote's view.
  pub add_vote-view :
      (v : Vote) {qc : Qc} → (State.add_vote c s v).0 ≡ ok (some qc) → qc.view ≡ v.view
  unfolding State.add_vote Aggregator.add_vote
  add_vote-view v made = (append_vote-some c s.authorities _ v made).1
