-- ===== src/Tests/Agreement.antt =====
-- The theorem that a view has one certificate, at four authorities of which one is faulty and whose
-- workers vote for one proposal; the hash of two numbers has no collision.
use madara_hotstuff.Base.{
  ℕ, suc, ◌+◌, ◌*◌, ◌<◌, ◌≤◌, ◌≡◌, refl, sym, inl, inr, Bool, true, ◌&&◌, ◌||◌, [], ◌∷◌, none, some,
  arith, subst, Bool-cases, ==_iff, ==_iff, ◌==◌,
}
use native.Mathlib.Decide.{dec_lt}
use native.Mathlib.Nat.{mul-le-mul_left, mul-le-mul_right, suc-mul, mul-suc}
use madara_hotstuff.Primitives.{AuthorityId, Bytes, Hash, success, ok}
use madara_hotstuff.Crypto.{Keystore}
use madara_hotstuff.Platform.{Platform}
use madara_hotstuff.Message.Qc
use madara_hotstuff.Message.Qc.{Qc}
use madara_hotstuff.Message.Vote
use madara_hotstuff.Message.Vote.{Vote}
use madara_hotstuff.Message.Proposal
use madara_hotstuff.Message.Proposal.{Proposal}
use madara_hotstuff.Message.Payload
use madara_hotstuff.State
use madara_hotstuff.Worker.{ConsensusWorker, new}
use madara_hotstuff.Worker.Guards.{IsProposal}
use madara_hotstuff.Worker.Steps.{Reach, here, next, ballot}
use madara_hotstuff.Worker.Ballots.{Made}
use madara_hotstuff.Worker.Ballots.OneView.{IsUnforged, IsCollisionFree, one_certificate}
use madara_hotstuff.Tests.Sample.{Store, platform, authorities, grandpa}

abbrev pair : Bytes → Hash
pair (hash ∷ view ∷ []) = (hash + view) * (hash + view) + hash
pair _ = 3

-- The proposal of the faulty leader of view 3, whose digest is 3.
abbrev proposed : Proposal
proposed = record grandpa { view = 3; author = 4; signature = some 4 }

-- The digest of the votes for it.
abbrev digest : Hash
digest = 39

abbrev pair_platform : Platform Store
pair_platform = record platform {
  crypto = record platform.crypto {
    hash_of = pair;
    verify = λ s d id. (d == digest || id == 4) && s == id;
  };
}

abbrev keystore_of : AuthorityId → Keystore
keystore_of id = record {
  has_keys = λ other. other == id;
  sign_with = λ id d. success (some (id ∷ []));
  try_from = λ bytes. some id;
}

abbrev start : AuthorityId → ConsensusWorker Store
start id = new (record (State.new (keystore_of id) authorities) { view = 3 }) [] none

abbrev end : AuthorityId → ConsensusWorker Store
end id = record (start id) {
  state = (State.make_vote pair_platform.crypto (start id).state proposed).1;
}

proposed_valid : (id : AuthorityId) → IsProposal pair_platform (start id).state proposed
unfolding State.view_leader Proposal.digest Payload.encode
proposed_valid id = (refl, (refl, (4, refl, refl), inl refl))

abbrev path : (id : AuthorityId) → Reach pair_platform (start id) (end id)
path id = next here (ballot (start id) proposed (refl, proposed_valid id))

abbrev honest : AuthorityId → Bool
honest id = id == 1 || (id == 2 || id == 3)

abbrev first : Qc
first = record { proposal_hash = 3; view = 3; votes = (1, 1) ∷ (2, 2) ∷ (3, 3) ∷ [] }

abbrev second : Qc
second = record { proposal_hash = 3; view = 3; votes = (2, 2) ∷ (3, 3) ∷ (4, 4) ∷ [] }

first_verified : Qc.verify pair_platform.crypto first authorities ≡ ok tt
unfolding Qc.verify Qc.count_votes Qc.check_quorum Qc.check_signatures Qc.digest
first_verified = refl

second_verified : Qc.verify pair_platform.crypto second authorities ≡ ok tt
unfolding Qc.verify Qc.count_votes Qc.check_quorum Qc.check_signatures Qc.digest
second_verified = refl

abbrev vote : AuthorityId → Vote
vote id = record { proposal_hash = 3; view = 3; voter = id; signature = some id }

voted : (id : AuthorityId) → honest id ≡ true → Made pair_platform (path id) (vote id)
unfolding State.make_vote State.local_authority_id Proposal.digest Payload.encode Qc.digest
voted id h = elim (Bool-cases (id == 1)) [
  | inl is_one ↦ subst Voted {x = 1} (sym ((==_iff id 1).0 is_one)) (inr refl)
  | inr not_one ↦ elim (Bool-cases (id == 2)) [
    | inl is_two ↦ subst Voted {x = 2} (sym ((==_iff id 2).0 is_two)) (inr refl)
    | inr not_two ↦
        subst Voted {x = 3} (sym ((==_iff id 3).0 (rw (not_one, not_two) at h))) (inr refl)
  ]
]
  where
    Voted : AuthorityId → Type 0
    Voted id = Made pair_platform (path id) (vote id)

unforged : IsUnforged pair_platform honest start end path
unfolding Vote.digest
unforged id s qc good valid = (vote id, voted id good, ground arith)

square_lt : (a b h k : ℕ) → a < b → h ≤ a → a * a + h < b * b + k
square_lt a b h k less small =
    omega
      (arith, mul-le-mul_left (suc a) less, mul-le-mul_right b less, suc-mul a (suc a), mul-suc a a)

pair_inj : (h v k u : ℕ) → (h + v) * (h + v) + h ≡ (k + u) * (k + u) + k → (h ≡ k) × (v ≡ u)
pair_inj h v k u e = elim (dec_lt (h + v) (k + u)) [
  | yes less ↦ absurd (omega (arith, e, square_lt (h + v) (k + u) h k less (omega arith)))
  | no not_less ↦ elim (dec_lt (k + u) (h + v)) [
    | yes more ↦ absurd (omega (arith, e, square_lt (k + u) (h + v) k h more (omega arith)))
    | no not_more ↦
        let same : h + v ≡ k + u = omega arith in
        let e' : (k + u) * (k + u) + h ≡ (k + u) * (k + u) + k = rw same at e in
        (omega (arith, e'), omega (arith, e', same))
  ]
]

apart : IsCollisionFree pair_platform.crypto
unfolding Vote.digest Qc.digest
apart v qc same = pair_inj v.proposal_hash v.view qc.proposal_hash qc.view same

one_certificate_example : first.proposal_hash ≡ second.proposal_hash
one_certificate_example =
    one_certificate pair_platform authorities honest start end path first second (omega arith)
      unforged apart first_verified second_verified (refl, (refl, (refl, tt)))
      (refl, (refl, (refl, tt))) refl
