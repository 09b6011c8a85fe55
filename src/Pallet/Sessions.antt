-- ===== src/Pallet/Sessions.antt =====
-- The sessions of pallets/hotstuff/src/lib.rs: `on_new_session` and `on_genesis_session`.
use madara_hotstuff.Base.{
  ℕ, ◌<◌, ◌≡◌, ◌≢◌, refl, ◌↔◌, ◌⊎◌, inl, inr, Bool, true, false, List, [], ◌∷◌, ◌++◌, some, arith,
  length, take, Bool-cases, ◌&&◌, not,
}
use madara_hotstuff.Primitives.{AuthorityId}
use madara_hotstuff.Pallet.{
  Config, Storage, consensus, hotstuff_engine_id, authorities_change, authorities, keys, same,
  on_new_session, change_authorities,
}

pub same_lem : (xs ys : List AuthorityId) → (same xs ys ≡ true) ↔ (xs ≡ ys)
same_lem [] [] = (λ h. refl, λ h. refl)
same_lem [] (y ∷ ys) = (λ h. cc, λ h. cc)
same_lem (x ∷ xs) [] = (λ h. cc, λ h. cc)
same_lem (x ∷ xs) (y ∷ ys) =
    let (to, from) = same_lem xs ys in (λ h. ground arith, λ h. ground arith)

take-cases :
    (list : List AuthorityId)
    → (list ≡ []) ⊎ ((a : AuthorityId) × (rest : List AuthorityId) × (list ≡ a ∷ rest))
take-cases [] = inl refl
take-cases (a ∷ rest) = inr (a, rest, refl)

module _ (g : Config) where
  -- A new session either leaves the storage as it is, and then nothing was said to change, or the
  -- keys are those in storage, or the bound leaves none of them; or something was said to change,
  -- the keys differ from those in storage, and the first `max_authorities` of them, at least one,
  -- are stored and logged in the digest. The slot never changes.
  pub on_new_session_branches :
      (changed : Bool) (validators : List (ℕ × AuthorityId)) (s : Storage)
      → ((on_new_session g changed validators s ≡ s)
          × ((changed ≡ false)
              ⊎ ((authorities s ≡ keys validators)
                  ⊎ (take g.max_authorities (keys validators) ≡ []))))
        ⊎ ((changed ≡ true)
            × (authorities s ≢ keys validators)
            × (0 < length (take g.max_authorities (keys validators)))
            × (on_new_session g changed validators s ≡ record s {
              stored_authorities = some (take g.max_authorities (keys validators));
              digest =
                  s.digest
                  ++ consensus hotstuff_engine_id
                      (g.encode_log (authorities_change (take g.max_authorities (keys validators))))
                    ∷ [];
            }))
  unfolding on_new_session change_authorities
  on_new_session_branches changed validators s =
      elim (Bool-cases (changed && not (same (authorities s) (keys validators)))) [
        | inl new ↦ elim (take-cases (take g.max_authorities (keys validators))) [
          | inl none_left ↦ inl (rw (new, none_left) refl, inr (inr none_left))
          | inr (a, rest, some_left) ↦
              inr (ground arith, differ new, rw some_left (omega arith), rw (new, some_left) refl)
        ]
        | inr old ↦ inl (rw old refl, why old)
      ]
    where
      differ :
          changed && not (same (authorities s) (keys validators)) ≡ true
          → authorities s ≢ keys validators
      differ new e = let yes_same = (same_lem (authorities s) (keys validators)).1 e in ground arith

      why :
          changed && not (same (authorities s) (keys validators)) ≡ false
          → (changed ≡ false)
            ⊎ ((authorities s ≡ keys validators) ⊎ (take g.max_authorities (keys validators) ≡ []))
      why old = elim (Bool-cases (same (authorities s) (keys validators))) [
        | inl yes_same ↦ inr (inl ((same_lem (authorities s) (keys validators)).0 yes_same))
        | inr differs ↦ inl (ground arith)
      ]
