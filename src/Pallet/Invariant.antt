-- ===== src/Pallet/Invariant.antt =====
-- The stored authorities of the pallet (pallets/hotstuff/src/lib.rs) under every call.
use madara_hotstuff.Base.{
  ℕ, ◌<◌, ◌≤◌, ◌≡◌, refl, inl, inr, Bool, List, [], ◌∷◌, some, arith, length, take, length-take-le,
  Bool-cases, leb, ◌&&◌, not,
}
use madara_hotstuff.Primitives.{AuthorityId, Outcome, ok, err, panicked, out_of_fuel}
use madara_hotstuff.Action.{Action, ◌>>=◌, pure, modify}
use madara_hotstuff.Pallet.{
  Config, Storage, DigestItem, authorities, keys, is_empty, same, put_authorities, on_initialize,
  initialize_slot, check_author, change_authorities, initialize_authorities, on_genesis_session,
  on_new_session, on_disabled, on_timestamp_set,
}

-- Between blocks: authorities that were stored are at least one, and within the bound.
pub record IsValid (g : Config) (s : Storage) : Type 0 where
  pub stored :
      (list : List AuthorityId)
      → s.stored_authorities ≡ some list
      → (0 < length list) × (length list ≤ g.max_authorities)

-- What the runtime calls; `execute` sets the digest of a new block.
pub data Call : Type 0 where
  execute : List DigestItem → Call
  initialize : Call
  genesis_session : List (ℕ × AuthorityId) → Call
  new_session : Bool → List (ℕ × AuthorityId) → Call
  disabled : ℕ → Call
  timestamp : ℕ → Call

module _ (g : Config) where
  unfoldable pub call : Call → Action Storage (Unit {0})
  call (execute digest) = modify (λ s. record s { digest = digest })
  call initialize = on_initialize g >>= λ _. pure tt
  call (genesis_session validators) = on_genesis_session g validators
  call (new_session changed validators) = modify (on_new_session g changed validators)
  call (disabled i) = modify (on_disabled g i)
  call (timestamp moment) = on_timestamp_set g moment

  -- The calls in turn; a panic undoes what its call changed, and the rest go on.
  abbrev settle : Outcome (Unit {0}) × Storage → Storage → Storage
  settle (ok tt, t) s = t
  settle (err x, t) s = s
  settle (panicked, t) s = s
  settle (out_of_fuel, t) s = s

  unfoldable pub calls : List Call → Storage → Storage
  calls [] s = s
  calls (c ∷ rest) s = calls rest (settle (call c s) s)

  on_initialize-stored :
      (s : Storage) → (on_initialize g s).1.stored_authorities ≡ s.stored_authorities
  unfolding on_initialize initialize_slot check_author
  on_initialize-stored s = ground arith

  on_timestamp_set-stored :
      (moment : ℕ) (s : Storage)
      → (on_timestamp_set g moment s).1.stored_authorities ≡ s.stored_authorities
  unfolding on_timestamp_set
  on_timestamp_set-stored moment s = ground arith

  put-IsValid :
      (list : List AuthorityId) (s : Storage)
      → 0 < length list
      → length list ≤ g.max_authorities
      → IsValid g (put_authorities list s)
  put-IsValid list s pos fits = record {
    stored = λ l e. (ground (arith, pos), ground (arith, fits));
  }

  same_stored :
      (s t : Storage) → IsValid g s → t.stored_authorities ≡ s.stored_authorities → IsValid g t
  same_stored s t v e = record { stored = λ l h. v.stored l (cc) }

  initialize_authorities-IsValid :
      (list : List AuthorityId) (s : Storage)
      → IsValid g s
      → IsValid g (initialize_authorities g list s).1
  unfolding initialize_authorities
  initialize_authorities-IsValid [] s v = v
  initialize_authorities-IsValid (a ∷ list) s v =
      elim (Bool-cases (is_empty (authorities s) && leb (length (a ∷ list)) g.max_authorities)) [
        | inl fits ↦ rw fits (put-IsValid (a ∷ list) s (omega arith) (ground arith))
        | inr bad ↦ rw bad v
      ]

  change_authorities-IsValid :
      (list : List AuthorityId) (s : Storage)
      → IsValid g s
      → length list ≤ g.max_authorities
      → IsValid g (change_authorities g list s)
  unfolding change_authorities
  change_authorities-IsValid [] s v fits = v
  change_authorities-IsValid (a ∷ list) s v fits =
      same_stored (put_authorities (a ∷ list) s) _ (put-IsValid (a ∷ list) s (omega arith) fits)
        refl

  on_new_session-IsValid :
      (changed : Bool) (validators : List (ℕ × AuthorityId)) (s : Storage)
      → IsValid g s
      → IsValid g (on_new_session g changed validators s)
  unfolding on_new_session
  on_new_session-IsValid changed validators s v =
      elim (Bool-cases (changed && not (same (authorities s) (keys validators)))) [
        | inl new ↦ rw new (
            change_authorities-IsValid (take g.max_authorities (keys validators)) s v
              (length-take-le g.max_authorities (keys validators)))
        | inr old ↦ rw old v
      ]

  call-IsValid : (c : Call) (s : Storage) → IsValid g s → IsValid g (call c s).1
  unfolding call on_genesis_session on_disabled
  call-IsValid (execute digest) s v = same_stored s _ v refl
  call-IsValid initialize s v = same_stored s _ v (ground (arith, on_initialize-stored s))
  call-IsValid (genesis_session validators) s v =
      initialize_authorities-IsValid (keys validators) s v
  call-IsValid (new_session changed validators) s v = on_new_session-IsValid changed validators s v
  call-IsValid (disabled i) s v = same_stored s _ v refl
  call-IsValid (timestamp moment) s v = same_stored s _ v (on_timestamp_set-stored moment s)

  settle-IsValid :
      (r : Outcome (Unit {0}) × Storage) (s : Storage)
      → IsValid g s
      → IsValid g r.1
      → IsValid g (settle r s)
  settle-IsValid (ok tt, t) s v k = k
  settle-IsValid (err x, t) s v k = v
  settle-IsValid (panicked, t) s v k = v
  settle-IsValid (out_of_fuel, t) s v k = v

  -- Over any calls of the runtime, failed ones included, stored authorities stay at least one and at
  -- most `max_authorities`.
  pub calls-IsValid : (cs : List Call) (s : Storage) → IsValid g s → IsValid g (calls cs s)
  unfolding calls
  calls-IsValid [] s v = v
  calls-IsValid (c ∷ cs) s v =
      calls-IsValid cs (settle (call c s) s) (settle-IsValid (call c s) s v (call-IsValid c s v))
