-- ===== src/Message/Answers.antt =====
-- The verifications of message.rs answer: none of them panics.
use madara_hotstuff.Base.{
  ℕ, ◌+◌, ◌≢◌, refl, not, List, [], ◌∷◌, Option, none, some, contains, Bool, true, false,
  if◌then◌else◌,
}
use madara_hotstuff.Primitives.{
  AuthorityId, AuthoritySignature, AuthorityList, Hash, ViewNumber, HotstuffError, authority_reuse,
  invalid_signature, null_signature, External, success, failure, Outcome, ok, err, panicked,
  out_of_fuel, ◌>>=◌, ok_or, map_err,
}
use madara_hotstuff.Crypto.{Crypto}
use madara_hotstuff.Message.Qc
use madara_hotstuff.Message.Qc.{Qc}
use madara_hotstuff.Message.Tc
use madara_hotstuff.Message.Tc.{Tc}
use madara_hotstuff.Message.Vote
use madara_hotstuff.Message.Vote.{Vote}
use madara_hotstuff.Message.Timeout
use madara_hotstuff.Message.Timeout.{Timeout}
use madara_hotstuff.Message.Proposal
use madara_hotstuff.Message.Proposal.{Proposal}

-- A value or an error.
pub data IsAnswer {A : Type 0} : Outcome A → Type 0 where
  value : (a : A) → IsAnswer (ok a)
  error : (x : HotstuffError) → IsAnswer (err x)

pub >>=-IsAnswer :
    {A B : Type 0} (r : Outcome A) (f : A → Outcome B)
    → IsAnswer r
    → ((a : A) → IsAnswer (f a))
    → IsAnswer (r >>= f)
>>=-IsAnswer (ok a) f h k = k a
>>=-IsAnswer (err x) f h k = error x
>>=-IsAnswer panicked f h k = elim h [ ]
>>=-IsAnswer out_of_fuel f h k = elim h [ ]

pub ok_or-IsAnswer : {A : Type 0} (o : Option A) (x : HotstuffError) → IsAnswer (ok_or o x)
ok_or-IsAnswer none x = error x
ok_or-IsAnswer (some a) x = value a

pub map_err-IsAnswer :
    {A : Type 0} (r : External A) (f : List ℕ → HotstuffError) → IsAnswer (map_err r f)
map_err-IsAnswer (success a) f = value a
map_err-IsAnswer (failure text) f = error (f text)

pub neither-IsAnswer : {A : Type 0} (r : Outcome A) → r ≢ panicked → r ≢ out_of_fuel → IsAnswer r
neither-IsAnswer (ok a) p q = value a
neither-IsAnswer (err x) p q = error x
neither-IsAnswer panicked p q = absurd (p refl)
neither-IsAnswer out_of_fuel p q = absurd (q refl)

-- The test that a guard makes.
pub if-IsAnswer :
    {A : Type 0} (b : Bool) (r s : Outcome A)
    → IsAnswer r
    → IsAnswer s
    → IsAnswer (if b then r else s)
if-IsAnswer true r s h k = h
if-IsAnswer false r s h k = k

qc_count_votes-IsAnswer :
    (used : List ℕ) (granted : ℕ) (votes : List (AuthorityId × AuthoritySignature))
    → IsAnswer (Qc.count_votes used granted votes)
unfolding Qc.count_votes
qc_count_votes-IsAnswer used granted [] = value granted
qc_count_votes-IsAnswer used granted ((id, s) ∷ votes) =
    if-IsAnswer (contains used id) _ _ (error (authority_reuse id))
      (qc_count_votes-IsAnswer (id ∷ used) (granted + 1) votes)

tc_count_votes-IsAnswer :
    (used : List ℕ) (granted : ℕ) (votes : List (AuthorityId × AuthoritySignature × ViewNumber))
    → IsAnswer (Tc.count_votes used granted votes)
unfolding Tc.count_votes
tc_count_votes-IsAnswer used granted [] = value granted
tc_count_votes-IsAnswer used granted ((id, s, view) ∷ votes) =
    if-IsAnswer (contains used id) _ _ (error (authority_reuse id))
      (tc_count_votes-IsAnswer (id ∷ used) (granted + 1) votes)

check_quorum-IsAnswer :
    (granted : ℕ) (authorities : AuthorityList) → IsAnswer (Qc.check_quorum granted authorities)
unfolding Qc.check_quorum
check_quorum-IsAnswer granted authorities = if-IsAnswer _ _ _ (error _) (value tt)

module _ (c : Crypto) where
  qc_check_signatures-IsAnswer :
      (d : Hash) (votes : List (AuthorityId × AuthoritySignature))
      → IsAnswer (Qc.check_signatures c d votes)
  unfolding Qc.check_signatures
  qc_check_signatures-IsAnswer d [] = value tt
  qc_check_signatures-IsAnswer d ((voter, s) ∷ votes) =
      if-IsAnswer (not (c.verify s d voter)) _ _ (error (invalid_signature voter))
        (qc_check_signatures-IsAnswer d votes)

  tc_check_signatures-IsAnswer :
      (view : ViewNumber) (votes : List (AuthorityId × AuthoritySignature × ViewNumber))
      → IsAnswer (Tc.check_signatures c view votes)
  unfolding Tc.check_signatures
  tc_check_signatures-IsAnswer view [] = value tt
  tc_check_signatures-IsAnswer view ((voter, s, voted) ∷ votes) =
      if-IsAnswer (not (c.verify s (Tc.vote_digest c view voted) voter)) _ _
        (error (invalid_signature voter)) (tc_check_signatures-IsAnswer view votes)

  pub qc_verify-IsAnswer :
      (qc : Qc) (authorities : AuthorityList) → IsAnswer (Qc.verify c qc authorities)
  unfolding Qc.verify
  qc_verify-IsAnswer qc authorities =
      >>=-IsAnswer (Qc.count_votes [] 0 qc.votes) _ (qc_count_votes-IsAnswer [] 0 qc.votes)
        (λ granted.
          >>=-IsAnswer (Qc.check_quorum granted authorities) _
            (check_quorum-IsAnswer granted authorities)
            (λ _. qc_check_signatures-IsAnswer (Qc.digest c qc) qc.votes))

  pub tc_verify-IsAnswer :
      (tc : Tc) (authorities : AuthorityList) → IsAnswer (Tc.verify c tc authorities)
  unfolding Tc.verify
  tc_verify-IsAnswer tc authorities =
      >>=-IsAnswer (Tc.count_votes [] 0 tc.votes) _ (tc_count_votes-IsAnswer [] 0 tc.votes)
        (λ granted.
          >>=-IsAnswer (Qc.check_quorum granted authorities) _
            (check_quorum-IsAnswer granted authorities)
            (λ _. tc_check_signatures-IsAnswer tc.view tc.votes))

  check_signature-IsAnswer :
      (signature : Option AuthoritySignature) (d : Hash) (id : AuthorityId)
      → IsAnswer (Vote.check_signature c signature d id)
  unfolding Vote.check_signature
  check_signature-IsAnswer none d id = error null_signature
  check_signature-IsAnswer (some s) d id = if-IsAnswer _ _ _ (error _) (value tt)

  check_qc-IsAnswer :
      (qc : Qc) (authorities : AuthorityList) → IsAnswer (Timeout.check_qc c qc authorities)
  unfolding Timeout.check_qc
  check_qc-IsAnswer qc authorities =
      if-IsAnswer _ _ _ (qc_verify-IsAnswer qc authorities) (value tt)

  -- The checks of an author, of its signature and of the rest.
  check_member-IsAnswer :
      {B : Type 0} (authorities : AuthorityList) (id : AuthorityId) (r : Outcome B)
      → IsAnswer r
      → IsAnswer (Vote.check_member authorities id >>= λ _. r)
  unfolding Vote.check_member
  check_member-IsAnswer authorities id r h =
      >>=-IsAnswer (Vote.check_member authorities id) _ (ok_or-IsAnswer _ _) (λ _. h)

  pub vote_verify-IsAnswer :
      (v : Vote) (authorities : AuthorityList) → IsAnswer (Vote.verify c v authorities)
  unfolding Vote.verify
  vote_verify-IsAnswer v authorities =
      check_member-IsAnswer authorities v.voter _ (check_signature-IsAnswer v.signature _ v.voter)

  pub timeout_verify-IsAnswer :
      (t : Timeout) (authorities : AuthorityList) → IsAnswer (Timeout.verify c t authorities)
  unfolding Timeout.verify
  timeout_verify-IsAnswer t authorities = check_member-IsAnswer authorities t.voter _ (
      >>=-IsAnswer (Vote.check_signature c t.signature (Timeout.digest c t) t.voter) _
        (check_signature-IsAnswer t.signature (Timeout.digest c t) t.voter)
        (λ _. check_qc-IsAnswer t.high_qc authorities))

  pub proposal_verify-IsAnswer :
      (p : Proposal) (authorities : AuthorityList) → IsAnswer (Proposal.verify c p authorities)
  unfolding Proposal.verify
  proposal_verify-IsAnswer p authorities = check_member-IsAnswer authorities p.author _ (
      >>=-IsAnswer (Vote.check_signature c p.signature (Proposal.digest c p) p.author) _
        (check_signature-IsAnswer p.signature (Proposal.digest c p) p.author)
        (λ _. check_qc-IsAnswer p.qc authorities))
