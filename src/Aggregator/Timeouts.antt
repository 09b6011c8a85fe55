-- ===== src/Aggregator/Timeouts.antt =====
-- The timeout side of aggregator.rs, and when its certificates pass `Tc.verify` (message.rs).
use madara_hotstuff.Base.{
  ℕ, ◌+◌, ◌≤◌, ◌≡◌, ◌≢◌, refl, subst, ◌↔◌, inl, inr, true, false, List, [], ◌∷◌, ◌++◌, some, arith,
  contains, Distinct, Distinct-append_one, All, All-append, length, length-append, any, ◌==◌,
  ==_iff, ltb, Bool-cases, Option-cases, wrap64, if◌then◌else◌,
}
use madara_hotstuff.Primitives.{AuthorityId, AuthoritySignature, AuthorityList, ViewNumber, ok}
use madara_hotstuff.Maps.{find_or-insert}
use madara_hotstuff.Crypto.{Crypto}
use madara_hotstuff.Message.Tc
use madara_hotstuff.Message.Tc.{Tc}
use madara_hotstuff.Message.Timeout.{Timeout}
use madara_hotstuff.Message.Quorum.{voters, Signed}
use madara_hotstuff.Message.Certificates.{pairs, SignedTimeouts, verify-iff-IsTimeoutCertificate}
use madara_hotstuff.Aggregator.{
  Aggregator, new, TcMaker, append_timeout, add_timeout, tc_maker, new_tc_maker, threshold,
}

pub any-eq-contains :
    (votes : List (AuthorityId × AuthoritySignature × ViewNumber)) (id : AuthorityId)
    → any (λ v. v.0 == id) votes ≡ contains (voters (pairs votes)) id
any-eq-contains [] id = refl
any-eq-contains ((i, s, w) ∷ votes) id = rw (any-eq-contains votes id)

pub voters-append :
    (votes : List (AuthorityId × AuthoritySignature × ViewNumber)) (id : AuthorityId)
    (s : AuthoritySignature) (w : ViewNumber)
    → voters (pairs (votes ++ (id, s, w) ∷ [])) ≡ voters (pairs votes) ++ id ∷ []
voters-append [] id s w = refl
voters-append ((i, t, u) ∷ votes) id s w = rw (voters-append votes id s w)

-- The maker of a view: distinct voters, each recorded with that same view, and their number as its
-- weight.
pub record IsTimely (view : ViewNumber) (m : TcMaker) : Type 0 where
  pub distinct : Distinct (voters (pairs m.votes))
  pub echoed : All (λ v. v.2 ≡ view) m.votes
  pub weighed : m.weight ≡ wrap64 (length m.votes)

abbrev pub AllTimely : Aggregator → Type 0
AllTimely a = (view : ℕ) → IsTimely view (tc_maker a view)

pub new-AllTimely : AllTimely new
new-AllTimely view = record { distinct = tt; echoed = tt; weighed = refl }

pushed-IsTimely :
    (m : TcMaker) (t : Timeout) (s : AuthoritySignature)
    → IsTimely t.view m
    → contains (voters (pairs m.votes)) t.voter ≡ false
    → IsTimely t.view
        (record { weight = wrap64 (m.weight + 1); votes = m.votes ++ (t.voter, s, t.view) ∷ [] })
pushed-IsTimely m t s h fresh = record {
  distinct =
      rw (voters-append m.votes t.voter s t.view) (Distinct-append_one _ t.voter h.distinct fresh);
  echoed = All-append _ m.votes ((t.voter, s, t.view) ∷ []) h.echoed (refl, tt);
  weighed = omega (arith, h.weighed, length-append m.votes ((t.voter, s, t.view) ∷ []));
}

-- How `append` ends: with an error or no certificate, or with one that holds the maker's votes.
append_timeout-IsTimely :
    (m : TcMaker) (t : Timeout) (authorities : AuthorityList)
    → IsTimely t.view m
    → IsTimely t.view (append_timeout m t authorities).1
unfolding append_timeout
append_timeout-IsTimely m t authorities h =
    elim (Bool-cases (contains (voters (pairs m.votes)) t.voter)) [
      | inl old ↦ rw (any-eq-contains m.votes t.voter, old) h
      | inr fresh ↦
          rw (any-eq-contains m.votes t.voter, fresh)
            (elim (Option-cases t.signature) [
              | inl missing ↦ simp missing h
              | inr (s, e) ↦
                  simp e (elim (Bool-cases (ltb (wrap64 (m.weight + 1)) (threshold authorities))) [
                    | inl low ↦ rw low (pushed-IsTimely m t s h fresh)
                    | inr enough ↦ rw enough (pushed-IsTimely m t s h fresh)
                  ])
            ])
    ]

pub append_timeout-some :
    (m : TcMaker) (t : Timeout) (authorities : AuthorityList) {tc : Tc}
    → (append_timeout m t authorities).0 ≡ ok (some tc)
    → (tc.view ≡ t.view)
      × (tc.votes ≡ (append_timeout m t authorities).1.votes)
      × (threshold authorities ≤ (append_timeout m t authorities).1.weight)
unfolding append_timeout
append_timeout-some m t authorities h = ground arith

module _ (a : Aggregator) (t : Timeout) (authorities : AuthorityList) where
  abbrev target : TcMaker
  target = tc_maker a t.view

  pub tc_maker-add_timeout :
      (view : ℕ)
      → tc_maker (add_timeout a t authorities).1 view
        ≡ (if t.view == view then (append_timeout target t authorities).1 else tc_maker a view)
  unfolding add_timeout
  tc_maker-add_timeout view = find_or-insert t.view view new_tc_maker _ a.timeouts_aggregators

  -- Adding any timeout, verified or not, keeps every maker timely.
  pub add_timeout-AllTimely : AllTimely a → AllTimely (add_timeout a t authorities).1
  add_timeout-AllTimely h view =
      rw (tc_maker-add_timeout view) (elim (Bool-cases (t.view == view)) [
        | inl here ↦ rw here (
            subst (λ k. IsTimely k (append_timeout target t authorities).1)
              ((==_iff t.view view).0 here)
              (append_timeout-IsTimely target t authorities (h t.view)))
        | inr apart ↦ rw apart (h view)
      ])

echoed-Signed :
    (c : Crypto) (view : ViewNumber) (votes : List (AuthorityId × AuthoritySignature × ViewNumber))
    → All (λ v. v.2 ≡ view) votes
    → SignedTimeouts c view votes ↔ Signed c (Tc.vote_digest c view view) (pairs votes)
echoed-Signed c view [] h = (λ s. tt, λ s. tt)
echoed-Signed c view ((i, s, w) ∷ votes) (e, h) =
    let (forth, back) = echoed-Signed c view votes h in
    (λ k. (rw e at k.0, forth k.1), λ k. (rw e k.0, back k.1))

-- Where every maker is timely, a certificate that `add_timeout` returns has the timeout's view, and
-- it passes `Tc.verify` exactly when each of its signatures is valid for the digest of that view
-- taken twice, once as the view of the timeout and once as the view of its high certificate.
pub add_timeout-certificate :
    (c : Crypto) (a : Aggregator) (t : Timeout) (authorities : AuthorityList) (tc : Tc)
    → AllTimely a
    → (add_timeout a t authorities).0 ≡ ok (some tc)
    → (tc.view ≡ t.view)
      × ((Tc.verify c tc authorities ≡ ok tt)
          ↔ Signed c (Tc.vote_digest c t.view t.view) (pairs tc.votes))
unfolding add_timeout
add_timeout-certificate c a t authorities tc h made =
    let (view, votes, enough) = append_timeout-some (target a t authorities) t authorities made in
    let kept = append_timeout-IsTimely (target a t authorities) t authorities (h t.view) in
    let (forth, back) = echoed-Signed c t.view tc.votes (rw votes kept.echoed) in
    let (sound, complete) = verify-iff-IsTimeoutCertificate c tc authorities in
    (
      view,
      (
        λ e. forth (rw view at ((sound e).signed)),
        λ s. complete (record {
          distinct = rw votes kept.distinct;
          quorum = rw votes (omega (arith, enough, kept.weighed));
          signed = rw view (back s);
        }),
      ),
    )

last-Signed :
    (c : Crypto) (d : ℕ) (votes : List (AuthorityId × AuthoritySignature × ViewNumber))
    (id : AuthorityId) (s : AuthoritySignature) (w : ViewNumber)
    → Signed c d (pairs (votes ++ (id, s, w) ∷ []))
    → c.verify s d id ≡ true
last-Signed c d [] id s w h = h.0
last-Signed c d (v ∷ votes) id s w h = last-Signed c d votes id s w h.1

append_timeout-last :
    (m : TcMaker) (t : Timeout) (authorities : AuthorityList) (s : AuthoritySignature) {tc : Tc}
    → t.signature ≡ some s
    → (append_timeout m t authorities).0 ≡ ok (some tc)
    → tc.votes ≡ m.votes ++ (t.voter, s, t.view) ∷ []
unfolding append_timeout
append_timeout-last m t authorities s e h = ground arith

-- Where every maker is timely, a certificate completed by a timeout whose signature is not valid
-- for the digest of its view taken twice is refused by `Tc.verify`, whatever the signature is valid
-- for, the timeout's own digest included.
pub add_timeout-refused :
    (c : Crypto) (a : Aggregator) (t : Timeout) (authorities : AuthorityList) (tc : Tc)
    (s : AuthoritySignature)
    → AllTimely a
    → t.signature ≡ some s
    → c.verify s (Tc.vote_digest c t.view t.view) t.voter ≡ false
    → (add_timeout a t authorities).0 ≡ ok (some tc)
    → Tc.verify c tc authorities ≢ ok tt
unfolding add_timeout
add_timeout-refused c a t authorities tc s h e bad made accepted =
    let (view, (forth, back)) = add_timeout-certificate c a t authorities tc h made in
    let votes = append_timeout-last (target a t authorities) t authorities s e made in
    let valid =
      last-Signed c (Tc.vote_digest c t.view t.view) (target a t authorities).votes t.voter s t.view
        (subst (λ l. Signed c (Tc.vote_digest c t.view t.view) (pairs l)) votes (forth accepted)) in
    cc
