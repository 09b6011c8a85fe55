-- ===== src/Worker/Ballots/OneView.antt =====
-- One view has one certificate (consensus.rs, message.rs): what the votes of the honest workers and
-- the overlap of quorums give.
use madara_hotstuff.Base.{
  ℕ, ◌*◌, ◌≤◌, ◌≡◌, refl, sym, ◌∙◌, ap, ◌⊎◌, inl, inr, Bool, true, false, List, [], ◌∷◌, arith,
  contains, Distinct, All, length, length-le_of_Distinct, Bool-cases, ◌==◌, if◌then◌else◌,
}
use madara_hotstuff.Primitives.{AuthorityId, AuthoritySignature, AuthorityList, Hash, ok}
use madara_hotstuff.Crypto.{Crypto}
use madara_hotstuff.Platform.{Platform}
use madara_hotstuff.Message.Qc
use madara_hotstuff.Message.Qc.{Qc}
use madara_hotstuff.Message.Vote
use madara_hotstuff.Message.Vote.{Vote}
use madara_hotstuff.Message.Quorum.{voters, Signed, verify-iff-IsCertificate}
use madara_hotstuff.Message.Checked.{ids}
use madara_hotstuff.Message.Certificates.{IsLocal, common, quorums_intersect}
use madara_hotstuff.Worker.{ConsensusWorker}
use madara_hotstuff.Worker.Steps.{Reach}
use madara_hotstuff.Worker.Ballots.{Made, Made-unique}

-- The ids that are not honest.
abbrev pub faulty : (AuthorityId → Bool) → List AuthorityId → List AuthorityId
faulty honest [] = []
faulty honest (id ∷ all) = if honest id then faulty honest all else id ∷ faulty honest all

contains-faulty :
    (honest : AuthorityId → Bool) (all : List AuthorityId) (id : AuthorityId)
    → contains all id ≡ true
    → honest id ≡ false
    → contains (faulty honest all) id ≡ true
contains-faulty honest [] id h f = cc
contains-faulty honest (i ∷ all) id h f = elim (Bool-cases (i == id)) [
  | inl same ↦ let e : i ≡ id = ground arith in rw (ap honest e ∙ f) (ground arith)
  | inr apart ↦
      let rest = contains-faulty honest all id (ground arith) f in
      elim (Bool-cases (honest i)) [ inl good ↦ rw good rest | inr bad ↦ rw bad (ground arith) ]
]

-- Among more distinct ids than there are faulty ones, one is honest.
honest_member :
    (honest : AuthorityId → Bool) (all xs : List AuthorityId)
    → All (λ x. contains all x ≡ true) xs
    → ((id : AuthorityId) × (contains xs id ≡ true) × (honest id ≡ true))
      ⊎ All (λ x. contains (faulty honest all) x ≡ true) xs
honest_member honest all [] h = inr tt
honest_member honest all (x ∷ xs) h = elim (Bool-cases (honest x)) [
  | inl good ↦ inl (x, ground arith, good)
  | inr bad ↦ elim (honest_member honest all xs h.1) [
    | inl (id, at, good) ↦ inl (id, ground arith, good)
    | inr rest ↦ inr (contains-faulty honest all x h.0 bad, rest)
  ]
]

contains-common :
    (xs ys : List ℕ) (id : ℕ)
    → contains (common xs ys) id ≡ true
    → (contains xs id ≡ true) × (contains ys id ≡ true)
contains-common [] ys id h = cc
contains-common (x ∷ xs) ys id h = elim (Bool-cases (contains ys x)) [
  | inl shared ↦ elim (Bool-cases (x == id)) [
    | inl same ↦ let e : x ≡ id = ground arith in (ground arith, rw (← e) shared)
    | inr apart ↦ let (a, b) = contains-common xs ys id (ground arith) in (ground arith, b)
  ]
  | inr own ↦ let (a, b) = contains-common xs ys id (ground arith) in (ground arith, b)
]

not_contains-common :
    (xs ys : List ℕ) (id : ℕ) → contains xs id ≡ false → contains (common xs ys) id ≡ false
not_contains-common [] ys id h = refl
not_contains-common (x ∷ xs) ys id h = ground (arith, not_contains-common xs ys id)

Distinct-common : (xs ys : List ℕ) → Distinct xs → Distinct (common xs ys)
Distinct-common [] ys d = tt
Distinct-common (x ∷ xs) ys d = elim (Bool-cases (contains ys x)) [
  | inl shared ↦ rw shared (not_contains-common xs ys x d.0, Distinct-common xs ys d.1)
  | inr own ↦ rw own (Distinct-common xs ys d.1)
]

All-common : (P : ℕ → Type 0) (xs ys : List ℕ) → All P xs → All P (common xs ys)
All-common P [] ys h = tt
All-common P (x ∷ xs) ys h = elim (Bool-cases (contains ys x)) [
  | inl shared ↦ rw shared (h.0, All-common P xs ys h.1)
  | inr own ↦ rw own (All-common P xs ys h.1)
]

signature_of :
    (c : Crypto) (d : Hash) (votes : List (AuthorityId × AuthoritySignature)) (id : AuthorityId)
    → Signed c d votes
    → contains (voters votes) id ≡ true
    → (s : AuthoritySignature) × (c.verify s d id ≡ true)
signature_of c d [] id h k = cc
signature_of c d ((i, s) ∷ votes) id h k = elim (Bool-cases (i == id)) [
  | inl same ↦ let e : i ≡ id = ground arith in (s, rw (← e) h.0)
  | inr apart ↦ signature_of c d votes id h.1 (ground arith)
]

-- A common voter of two quorums is honest, if at most a third of the authorities are not.
common_honest :
    (c : Crypto) (authorities : AuthorityList) (honest : AuthorityId → Bool) (a b : Qc)
    → 3 * length (faulty honest (ids authorities)) ≤ length authorities
    → Qc.verify c a authorities ≡ ok tt
    → Qc.verify c b authorities ≡ ok tt
    → IsLocal authorities a
    → IsLocal authorities b
    → (id : AuthorityId) × (contains (voters a.votes) id ≡ true)
      × (contains (voters b.votes) id ≡ true)
      × (honest id ≡ true)
common_honest c authorities honest a b few va vb la lb =
    let xs = voters a.votes in
    let ys = voters b.votes in
    let known = All-common _ xs ys la in
    elim (honest_member honest (ids authorities) (common xs ys) known) [
      | inl (id, shared, good) ↦
          let (in_a, in_b) = contains-common xs ys id shared in (id, in_a, in_b, good)
      | inr bad ↦ absurd (
          omega (
            arith,
            few,
            quorums_intersect c authorities a b va vb la lb,
            length-le_of_Distinct (common xs ys) (faulty honest (ids authorities))
                (Distinct-common xs ys (((verify-iff-IsCertificate c a authorities).0 va).distinct))
                bad,
          ))
    ]

module _ {C : Type 0} (e : Platform C) (honest : AuthorityId → Bool)
    (start end : AuthorityId → ConsensusWorker C)
    (path : (id : AuthorityId) → Reach e (start id) (end id)) where
  -- A valid signature of an honest authority on the digest of a vote is of a vote that its worker
  -- made.
  abbrev pub IsUnforged : Type 0
  IsUnforged =
      (id : AuthorityId) (s : AuthoritySignature) (qc : Qc)
      → honest id ≡ true
      → e.crypto.verify s (Qc.digest e.crypto qc) id ≡ true
      → (v : Vote) × Made e (path id) v × (Vote.digest e.crypto v ≡ Qc.digest e.crypto qc)

-- The digests of a vote and of a certificate agree only for one proposal and view.
abbrev pub IsCollisionFree : Crypto → Type 0
IsCollisionFree c =
    (v : Vote) (qc : Qc)
    → Vote.digest c v ≡ Qc.digest c qc
    → (v.proposal_hash ≡ qc.proposal_hash) × (v.view ≡ qc.view)

-- Let at most a third of the authorities be faulty, and let every other one run a worker through any
-- steps, on any messages. If a valid signature of an honest authority on a vote's digest is always of
-- a vote that its worker made, and digests of votes do not collide, then two verified certificates of
-- one view whose voters are all authorities name the same proposal.
pub one_certificate :
    {C : Type 0} (e : Platform C) (authorities : AuthorityList) (honest : AuthorityId → Bool)
    (start end : AuthorityId → ConsensusWorker C)
    (path : (id : AuthorityId) → Reach e (start id) (end id)) (a b : Qc)
    → 3 * length (faulty honest (ids authorities)) ≤ length authorities
    → IsUnforged e honest start end path
    → IsCollisionFree e.crypto
    → Qc.verify e.crypto a authorities ≡ ok tt
    → Qc.verify e.crypto b authorities ≡ ok tt
    → IsLocal authorities a
    → IsLocal authorities b
    → a.view ≡ b.view
    → a.proposal_hash ≡ b.proposal_hash
one_certificate e authorities honest start end path a b few unforged apart va vb la lb same =
    let c = e.crypto in
    let (id, in_a, in_b, good) = common_honest c authorities honest a b few va vb la lb in
    let (s, valid) =
      signature_of c (Qc.digest c a) a.votes id
        ((verify-iff-IsCertificate c a authorities).0 va).signed in_a in
    let (s', valid') =
      signature_of c (Qc.digest c b) b.votes id
        ((verify-iff-IsCertificate c b authorities).0 vb).signed in_b in
    let (v, made, digests) = unforged id s a good valid in
    let (v', made', digests') = unforged id s' b good valid' in
    let (hash, view) = apart v a digests in
    let (hash', view') = apart v' b digests' in
    let equal : v ≡ v' = Made-unique e (path id) v v' made made' (view ∙ (same ∙ sym view')) in
    sym hash ∙ (ap (λ v. v.proposal_hash) equal ∙ hash')
