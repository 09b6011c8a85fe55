-- ===== src/Authorities.antt =====
-- Authority sets: hotstuff/consensus/src/authorities.rs (`AuthoritySet`), aux_schema.rs
-- (`load_persistent`), and the two places that build an authority list from the runtime's ids,
-- `block_import` in client.rs and `get_genesis_authorities_from_client` in consensus.rs.
use madara_hotstuff.Base.{
  ℕ, ◌<◌, ◌≡◌, ◌≢◌, refl, ◌↔◌, inl, inr, Bool, true, false, ◌||◌, List, [], ◌∷◌, map, Option, none,
  some, arith, All, any, ◌==◌, if◌then◌else◌, Bool-cases,
}
use madara_hotstuff.Primitives.{
  AuthorityId, AuthorityList, Bytes, Hash, External, success, failure, client_error, Outcome, ok,
  panicked, ◌>>=◌, map_err,
}

-- `AuthoritySet`; the changes are pairs of a set id and a block number.
pub record AuthoritySet : Type 0 where
  pub current_authorities : AuthorityList
  pub authority_set_changes : List (ℕ × ℕ)

-- `SharedAuthoritySet` (a `SharedData`, which the code reads but never changes), `From`, and the two
-- readers. `LinkHalf` holds one, as `PersistentData`, beside the client.
pub record SharedAuthoritySet : Type 0 where
  pub inner : AuthoritySet

abbrev pub from : AuthoritySet → SharedAuthoritySet
from set = record { inner = set }

abbrev pub authority_set_changes : SharedAuthoritySet → List (ℕ × ℕ)
authority_set_changes s = s.inner.authority_set_changes

pub record LinkHalf (C : Type 0) : Type 0 where
  pub client : C
  pub persistent_data : SharedAuthoritySet

abbrev pub shared_authority_set : {C : Type 0} → LinkHalf C → SharedAuthoritySet
shared_authority_set link = link.persistent_data

-- `GenesisAuthoritySetProvider::get`: the hash of block 0, the call of `HotstuffApi_authorities` at
-- it, and the decoding of what it returns, whose failure `call_result_decode` words.
unfoldable pub get :
    External Hash
    → (Hash → External Bytes)
    → (Bytes → External (List AuthorityId))
    → (Bytes → Bytes)
    → External (List AuthorityId)
get (failure text) call decode call_result_decode = failure text
get (success hash) call decode call_result_decode = elim (call hash) [
  | failure text ↦ failure text
  | success bytes ↦ elim (decode bytes) [
    | failure text ↦ failure (call_result_decode text)
    | success ids ↦ success ids
  ]
]

abbrev is_empty : AuthorityList → Bool
is_empty [] = true
is_empty (a ∷ authorities) = false

invalid_authority_list : AuthorityList → Bool
invalid_authority_list authorities = is_empty authorities || any (λ a. a.1 == 0) authorities

new : AuthorityList → List (ℕ × ℕ) → Option AuthoritySet
unfolding invalid_authority_list
new authorities changes =
    if invalid_authority_list authorities
    then none
    else some (record { current_authorities = authorities; authority_set_changes = changes })

unfoldable pub genesis : AuthorityList → Option AuthoritySet
unfolding invalid_authority_list
genesis initial =
    if invalid_authority_list initial
    then none
    else some (record { current_authorities = initial; authority_set_changes = [] })

abbrev expect : Option AuthoritySet → Outcome AuthoritySet
expect none = panicked
expect (some set) = ok set

-- `genesis(..).expect(..)` panics on an invalid list.
unfoldable pub load_persistent : External AuthorityList → Outcome AuthoritySet
unfolding genesis
load_persistent genesis_authorities = do
  authorities ← map_err genesis_authorities client_error
  expect (genesis authorities)

abbrev pub with_weight : ℕ → List AuthorityId → AuthorityList
with_weight w = map (λ id. (id, w))

-- `block_import`: every authority of the runtime with weight 1.
unfoldable pub block_import : External (List AuthorityId) → Outcome AuthoritySet
unfolding load_persistent
block_import (success authorities) = load_persistent (success (with_weight 1 authorities))
block_import (failure text) = load_persistent (failure text)

-- The link that `block_import` returns with the importer.
abbrev pub link_of : {C : Type 0} → C → AuthoritySet → LinkHalf C
link_of client set = record { client = client; persistent_data = from set }

-- `get_genesis_authorities_from_client`: every authority with weight 0; both failures are panics.
unfoldable pub get_genesis_authorities_from_client :
    External (List AuthorityId) → Outcome AuthorityList
get_genesis_authorities_from_client (success authorities) = ok (with_weight 0 authorities)
get_genesis_authorities_from_client (failure text) = panicked

-- A list is valid when it is not empty and every weight is above 0.
abbrev pub IsValid : AuthorityList → Type 0
IsValid authorities = (authorities ≢ []) × All (λ a. 0 < a.1) authorities

weights_positive :
    (authorities : AuthorityList)
    → (any (λ a. a.1 == 0) authorities ≡ false) ↔ All (λ a. 0 < a.1) authorities
weights_positive [] = (λ h. tt, λ h. refl)
weights_positive ((id, w) ∷ authorities) =
    let (forth, back) = weights_positive authorities in
    (λ h. (ground arith, forth (ground arith)), λ h. ground (arith, h.0, back h.1))

invalid_authority_list_iff :
    (authorities : AuthorityList)
    → (invalid_authority_list authorities ≡ false) ↔ IsValid authorities
unfolding invalid_authority_list
invalid_authority_list_iff [] = (λ h. cc, λ h. absurd (h.0 refl))
invalid_authority_list_iff (a ∷ authorities) =
    let (forth, back) = weights_positive (a ∷ authorities) in
    (λ h. (λ e. cc, forth h), λ h. back h.1)

genesis_cases :
    (initial : AuthorityList)
    → (IsValid initial
        → (genesis initial
            ≡ some (record { current_authorities = initial; authority_set_changes = [] }))
          × (load_persistent (success initial)
              ≡ ok (record { current_authorities = initial; authority_set_changes = [] })))
      × (¬ IsValid initial
          → (genesis initial ≡ none) × (load_persistent (success initial) ≡ panicked))
unfolding genesis load_persistent
genesis_cases initial = elim (Bool-cases (invalid_authority_list initial)) [
  | inl bad ↦ (
    λ valid. absurd (contradiction bad ((invalid_authority_list_iff initial).1 valid)),
    λ not_valid. (rw bad, rw bad),
  )
  | inr good ↦ (
    λ valid. (rw good, rw good),
    λ not_valid. absurd (not_valid ((invalid_authority_list_iff initial).0 good)),
  )
]
  where
    contradiction :
        invalid_authority_list initial ≡ true → invalid_authority_list initial ≡ false → ⊥
    contradiction a b = cc

-- A genesis set is built exactly from a list that is not empty and has positive weights only; it
-- holds that list and no changes. From any other list `load_persistent` panics.
pub genesis_iff :
    (initial : AuthorityList)
    → ((genesis initial
          ≡ some (record { current_authorities = initial; authority_set_changes = [] }))
        ↔ IsValid initial)
      × ((load_persistent (success initial)
            ≡ ok (record { current_authorities = initial; authority_set_changes = [] }))
          ↔ IsValid initial)
      × ((load_persistent (success initial) ≡ panicked) ↔ (¬ IsValid initial))
genesis_iff initial =
    let (good, bad) = genesis_cases initial in
    elim (Bool-cases (invalid_authority_list initial)) [
      | inl e ↦
          let wrong : ¬ IsValid initial =
            λ v. refuted e ((invalid_authority_list_iff initial).1 v) in
          let (none_built, panics) = bad wrong in
          (
            (λ h. cc, λ v. absurd (wrong v)),
            (λ h. cc, λ v. absurd (wrong v)),
            (λ h. wrong, λ v. panics),
          )
      | inr e ↦
          let right = (invalid_authority_list_iff initial).0 e in
          let (built, loaded) = good right in
          ((λ h. right, λ v. built), (λ h. right, λ v. loaded), (λ h. cc, λ v. absurd (v right)))
    ]
  where
    refuted : invalid_authority_list initial ≡ true → invalid_authority_list initial ≡ false → ⊥
    refuted a b = cc

with_weight-positive : (ids : List AuthorityId) → All (λ a. 0 < a.1) (with_weight 1 ids)
with_weight-positive [] = tt
with_weight-positive (id ∷ ids) = (omega arith, with_weight-positive ids)

-- For a runtime with at least one authority, `block_import` builds the set of all of them with
-- weight 1; the list that the consensus worker is started with, of the same ids with weight 0, is
-- one from which no authority set can be built. With no authority `block_import` panics.
pub block_import_branches :
    (id : AuthorityId) (ids : List AuthorityId)
    → (block_import (success (id ∷ ids))
        ≡ ok
            (record { current_authorities = with_weight 1 (id ∷ ids); authority_set_changes = [] }))
      × (get_genesis_authorities_from_client (success (id ∷ ids)) ≡ ok (with_weight 0 (id ∷ ids)))
      × (genesis (with_weight 0 (id ∷ ids)) ≡ none)
      × (block_import (success []) ≡ panicked)
unfolding block_import get_genesis_authorities_from_client
block_import_branches id ids = (
  ((genesis_cases (with_weight 1 (id ∷ ids))).0 (λ e. cc, with_weight-positive (id ∷ ids))).1,
  refl,
  ((genesis_cases (with_weight 0 (id ∷ ids))).1 (λ valid. ground (arith, valid.1))).0,
  ((genesis_cases []).1 (λ valid. valid.0 refl)).1,
)
