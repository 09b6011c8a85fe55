-- ===== src/State/Leader.antt =====
-- Leaders (consensus.rs, `view_leader`, `is_leader`): who they are, and when the code panics.
use madara_hotstuff.Base.{
  ℕ, suc, ◌%◌, ◌<◌, ◌≡◌, refl, ◌↔◌, ◌⊎◌, inl, inr, true, List, [], ◌∷◌, some, arith, contains,
  length, get_elem?, get_elem?-some,
}
use madara_hotstuff.Primitives.{AuthorityId, AuthorityList, ViewNumber, ok, panicked}
use madara_hotstuff.State.{ConsensusState, view_leader}
use madara_hotstuff.Message.Checked.{ids, IsAuthority}

get_elem?-ids :
    (authorities : AuthorityList) (i : ℕ) {a : AuthorityId × ℕ}
    → get_elem? authorities i ≡ some a
    → get_elem? (ids authorities) i ≡ some a.0
get_elem?-ids [] i h = cc
get_elem?-ids ((id, w) ∷ authorities) ℕ.zero h = ground arith
get_elem?-ids ((id, w) ∷ authorities) (suc i) h = get_elem?-ids authorities i h

pub contains-get_elem? :
    (xs : List ℕ) (i : ℕ) {x : ℕ} → get_elem? xs i ≡ some x → contains xs x ≡ true
contains-get_elem? [] i h = cc
contains-get_elem? (y ∷ xs) ℕ.zero h = ground arith
contains-get_elem? (y ∷ xs) (suc i) h = ground (arith, contains-get_elem? xs i h)

-- `view_leader` panics exactly when there is no authority; else it returns the authority at the
-- index that the view has modulo their number.
pub view_leader_branches :
    (s : ConsensusState) (view : ViewNumber)
    → ((view_leader s view ≡ panicked) ↔ (s.authorities ≡ []))
      × ((s.authorities ≡ [])
          ⊎ ((id : AuthorityId) × (view_leader s view ≡ ok id)
              × (get_elem? (ids s.authorities) (view % length s.authorities) ≡ some id)
              × IsAuthority s.authorities id))
unfolding view_leader
view_leader_branches s view = go s.authorities refl
  where
    found :
        (authorities : AuthorityList)
        → 0 < length authorities
        → s.authorities ≡ authorities
        → (id : AuthorityId) × (view_leader s view ≡ ok id)
          × (get_elem? (ids authorities) (view % length authorities) ≡ some id)
          × IsAuthority authorities id
    found authorities some_one e =
        let (a, at) = get_elem?-some authorities (view % length authorities) (grind arith) in
        (
          a.0,
          rw e (ground (arith, at)),
          get_elem?-ids authorities _ at,
          contains-get_elem? (ids authorities) _ (get_elem?-ids authorities _ at),
        )

    go :
        (authorities : AuthorityList)
        → s.authorities ≡ authorities
        → ((view_leader s view ≡ panicked) ↔ (authorities ≡ []))
          × ((authorities ≡ [])
              ⊎ ((id : AuthorityId) × (view_leader s view ≡ ok id)
                  × (get_elem? (ids authorities) (view % length authorities) ≡ some id)
                  × IsAuthority authorities id))
    go [] e = ((λ h. refl, λ h. rw e), inl refl)
    go (a ∷ authorities) e =
        let (id, leads, at, known) = found (a ∷ authorities) (omega arith) e in
        ((λ h. cc, λ h. cc), inr (id, leads, at, known))
