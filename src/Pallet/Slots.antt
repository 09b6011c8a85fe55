-- ===== src/Pallet/Slots.antt =====
-- The slots of the pallet (pallets/hotstuff/src/lib.rs): `on_initialize`, `do_try_state` and
-- `on_timestamp_set`.
use madara_hotstuff.Base.{
  ℕ, ◌*◌, ◌/◌, ◌-◌, ◌%◌, ◌<◌, ◌≤◌, ◌≡◌, ◌≢◌, refl, subst, ◌↔◌, ◌⊎◌, inl, inr, Bool, true, false,
  List, Option, none, some, arith, length, wrap32, u64_mod, Bool-cases, Option-cases, leb, ltb,
  if◌then◌else◌,
}
use native.Mathlib.Decide.{dec_le, dec_lt}
use madara_hotstuff.Primitives.{AuthorityId, ok, panicked, success}
use madara_hotstuff.Pallet.{
  Config, Storage, Slot, Weight, reads_writes, current_slot_from_digests, check_author,
  initialize_slot, on_initialize, do_try_state, slot_duration, on_timestamp_set,
}

module _ (g : Config) where
  -- The new slot may follow the stored one.
  abbrev pub Follows : Slot → Slot → Type 0
  Follows current new =
      ((g.allow_multiple_blocks_per_slot ≡ true) × (current ≤ new))
      ⊎ ((g.allow_multiple_blocks_per_slot ≡ false) × (current < new))

  -- The authorities, if there are any in storage, have an enabled one for the slot.
  abbrev pub MayAuthor : Option (List AuthorityId) → Slot → Type 0
  MayAuthor none slot = Unit
  MayAuthor (some list) slot =
      (0 < length list) × (g.is_disabled (wrap32 (slot % length list)) ≡ false)

  Follows-dec : (current new : Slot) → Dec (Follows current new)
  Follows-dec current new = elim (Bool-cases g.allow_multiple_blocks_per_slot) [
    | inl many ↦ elim (dec_le current new) [
      | yes h ↦ yes (inl (many, h))
      | no h ↦ no (λ f. elim f [ inl p ↦ h p.1 | inr p ↦ cc ])
    ]
    | inr single ↦ elim (dec_lt current new) [
      | yes h ↦ yes (inr (single, h))
      | no h ↦ no (λ f. elim f [ inl p ↦ cc | inr p ↦ h p.1 ])
    ]
  ]

  MayAuthor-dec : (stored : Option (List AuthorityId)) (slot : Slot) → Dec (MayAuthor stored slot)
  MayAuthor-dec none slot = yes tt
  MayAuthor-dec (some list) slot = elim (Bool-cases (g.is_disabled (wrap32 (slot % length list)))) [
    | inl barred ↦ no (λ m. cc)
    | inr free ↦ elim (dec_lt 0 (length list)) [ yes h ↦ yes (h, free) | no h ↦ no (λ m. h m.0) ]
  ]

  check_author_lem :
      (s : Storage) (stored : Option (List AuthorityId)) (slot : Slot)
      → s.stored_authorities ≡ stored
      → (MayAuthor stored slot → check_author g slot s ≡ (ok tt, s))
        × (¬ MayAuthor stored slot → check_author g slot s ≡ (panicked, s))
  unfolding check_author
  check_author_lem s none slot e = (λ m. ground arith, λ bad. absurd (bad tt))
  check_author_lem s (some list) slot e = (λ m. ground arith, λ bad. ground arith)

  follows_test : Slot → Slot → Bool
  follows_test current new =
      if g.allow_multiple_blocks_per_slot then leb current new else ltb current new

  follows_lem :
      (current new : Slot)
      → (Follows current new → follows_test current new ≡ true)
        × (¬ Follows current new → follows_test current new ≡ false)
  unfolding follows_test
  follows_lem current new = (λ f. ground arith, λ bad. ground arith)

  initialize_slot_lem :
      (s : Storage) (slot : Slot)
      → (Follows s.current_slot slot
          → MayAuthor s.stored_authorities slot
          → initialize_slot g slot s ≡ (ok (reads_writes 2 1), record s { current_slot = slot }))
        × ((¬ Follows s.current_slot slot) ⊎ (¬ MayAuthor s.stored_authorities slot)
            → (initialize_slot g slot s).0 ≡ panicked)
  unfolding initialize_slot follows_test
  initialize_slot_lem s slot = (λ f m. rw (follows f, author m), bad)
    where
      t : Storage
      t = record s { current_slot = slot }

      follows : Follows s.current_slot slot → follows_test s.current_slot slot ≡ true
      follows f = (follows_lem s.current_slot slot).0 f

      author : MayAuthor s.stored_authorities slot → check_author g slot t ≡ (ok tt, t)
      author m = (check_author_lem t s.stored_authorities slot refl).0 m

      bad :
          (¬ Follows s.current_slot slot) ⊎ (¬ MayAuthor s.stored_authorities slot)
          → (initialize_slot g slot s).0 ≡ panicked
      bad (inl late) = rw ((follows_lem s.current_slot slot).1 late)
      bad (inr barred) = elim (Bool-cases (follows_test s.current_slot slot)) [
        | inl yes_follows ↦
            rw (yes_follows, (check_author_lem t s.stored_authorities slot refl).1 barred)
        | inr late ↦ rw late
      ]

  pub on_initialize_cases :
      (s : Storage) (slot : Slot)
      → (current_slot_from_digests g s ≡ none → on_initialize g s ≡ (ok (reads_writes 1 0), s))
        × (current_slot_from_digests g s ≡ some slot
            → Follows s.current_slot slot
            → MayAuthor s.stored_authorities slot
            → on_initialize g s ≡ (ok (reads_writes 2 1), record s { current_slot = slot }))
        × (current_slot_from_digests g s ≡ some slot
            → (¬ Follows s.current_slot slot) ⊎ (¬ MayAuthor s.stored_authorities slot)
            → (on_initialize g s).0 ≡ panicked)
  unfolding on_initialize
  on_initialize_cases s slot = (
    λ h. rw (h, on_initialize),
    λ h f m. rw (h, on_initialize) ((initialize_slot_lem s slot).0 f m),
    λ h bad. rw (h, on_initialize) ((initialize_slot_lem s slot).1 bad),
  )

  -- A block with no slot of this engine in its pre-runtime digests changes nothing and costs one
  -- read. With one, if the slot may follow the stored slot and the author whose turn it is may
  -- author, the slot is stored and nothing else changes; if either fails the call panics.
  pub on_initialize_branches :
      (s : Storage)
      → ((current_slot_from_digests g s ≡ none) × (on_initialize g s ≡ (ok (reads_writes 1 0), s)))
        ⊎ ((slot : Slot) × (current_slot_from_digests g s ≡ some slot)
            × ((Follows s.current_slot slot
                  × MayAuthor s.stored_authorities slot
                  × (on_initialize g s ≡ (ok (reads_writes 2 1), record s { current_slot = slot })))
                ⊎ (((¬ Follows s.current_slot slot) ⊎ (¬ MayAuthor s.stored_authorities slot))
                    × ((on_initialize g s).0 ≡ panicked))))
  on_initialize_branches s = elim (Option-cases (current_slot_from_digests g s)) [
    | inl absent ↦ inl (absent, (on_initialize_cases s 0).0 absent)
    | inr (slot, there) ↦
        let (absent, good, bad) = on_initialize_cases s slot in
        elim (Follows-dec s.current_slot slot) [
          | yes f ↦ elim (MayAuthor-dec s.stored_authorities slot) [
            | yes m ↦ inr (slot, there, inl (f, m, good there f m))
            | no barred ↦ inr (slot, there, inr (inr barred, bad there (inr barred)))
          ]
          | no late ↦ inr (slot, there, inr (inl late, bad there (inl late)))
        ]
  ]

  -- What a successful call has checked.
  pub on_initialize-ok :
      (s : Storage) {w : Weight}
      → (on_initialize g s).0 ≡ ok w
      → ((current_slot_from_digests g s ≡ none) × (on_initialize g s ≡ (ok (reads_writes 1 0), s)))
        ⊎ ((slot : Slot) × (current_slot_from_digests g s ≡ some slot)
            × Follows s.current_slot slot
            × MayAuthor s.stored_authorities slot
            × (on_initialize g s ≡ (ok (reads_writes 2 1), record s { current_slot = slot })))
  on_initialize-ok s {w} h = elim (on_initialize_branches s) [
    | inl absent ↦ inl absent
    | inr (slot, there, inl (f, m, e)) ↦ inr (slot, there, f, m, e)
    | inr (slot, there, inr (bad, e)) ↦ absurd (clash e)
  ]
    where
      clash : (on_initialize g s).0 ≡ panicked → ⊥
      clash e = cc

  -- After a block with a slot has been initialized, where authorities are stored and, unless
  -- several blocks may share a slot, the slot is below the greatest `u64`, the state passes
  -- `do_try_state`.
  pub on_initialize-do_try_state :
      (s : Storage) (slot : Slot) (list : List AuthorityId) {w : Weight}
      → (on_initialize g s).0 ≡ ok w
      → current_slot_from_digests g s ≡ some slot
      → s.stored_authorities ≡ some list
      → (g.allow_multiple_blocks_per_slot ≡ true) ⊎ (slot < u64_mod - 1)
      → do_try_state g (on_initialize g s).1 ≡ success tt
  unfolding do_try_state current_slot_from_digests
  on_initialize-do_try_state s slot list fine there stored room = elim (on_initialize-ok s fine) [
    | inl (absent, same) ↦ cc
    | inr (slot', there', follows, may, new) ↦
        let e : slot' ≡ slot = ground arith in
        let m : MayAuthor (some list) slot =
          subst (λ o. MayAuthor o slot) stored
            (subst (λ x. MayAuthor s.stored_authorities x) e may) in
        rw new (rw (there, stored) (ground (arith, m)))
  ]

  -- The timestamp is accepted exactly when the minimum period is not 0 and the moment lies in the
  -- current slot: divided by the slot duration, which is twice the minimum period or else the
  -- greatest `u64`, it gives the slot. Otherwise the call panics; it changes nothing.
  pub on_timestamp_set_branches :
      (moment : ℕ) (s : Storage)
      → ((on_timestamp_set g moment s ≡ (ok tt, s))
          ↔ ((g.minimum_period ≢ 0) × (s.current_slot ≡ moment / slot_duration g)))
        × ((on_timestamp_set g moment s ≡ (ok tt, s))
            ⊎ (on_timestamp_set g moment s ≡ (panicked, s)))
        × ((slot_duration g ≡ g.minimum_period * 2)
            ⊎ ((u64_mod ≤ g.minimum_period * 2) × (slot_duration g ≡ u64_mod - 1)))
  unfolding on_timestamp_set slot_duration
  on_timestamp_set_branches moment s =
      ((λ h. ground arith, λ h. ground arith), ground arith, ground arith)
