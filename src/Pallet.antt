-- ===== src/Pallet.antt =====
-- hotstuff/pallets/hotstuff/src/lib.rs: the on-chain state of the protocol. A panic is an outcome;
-- the runtime's configuration and codecs are the record `Config`. A `Moment` is a `u64`.
pub mod Invariant
pub mod Slots
pub mod Authors
pub mod Chain
pub mod Sessions
use madara_hotstuff.Base.{
  ℕ, ◌+◌, ◌-◌, ◌*◌, ◌/◌, ◌%◌, Bool, true, false, not, ◌&&◌, ◌||◌, List, [], ◌∷◌, ◌++◌, map, Option,
  none, some, ◌==◌, ltb, leb, if◌then◌else◌, length, get_elem?, take, any, wrap32, u64_mod,
}
use madara_hotstuff.Primitives.{
  AuthorityId, Bytes, Outcome, ok, err, panicked, External, success, failure,
}
use madara_hotstuff.Action.{Action, ◌>>=◌, ◌>>◌, pure, lift, gets, modify}

-- A `u64`.
abbrev pub Slot : Type 0
Slot = ℕ

-- `ConsensusLog`.
pub data ConsensusLog : Type 0 where
  authorities_change : List AuthorityId → ConsensusLog
  on_disabled_log : ℕ → ConsensusLog

-- `sp_runtime::generic::DigestItem`; an engine id is four bytes, read as a number.
pub data DigestItem : Type 0 where
  pre_runtime : ℕ → Bytes → DigestItem
  consensus : ℕ → Bytes → DigestItem
  seal : ℕ → Bytes → DigestItem
  other_item : Bytes → DigestItem

-- `HOTSTUFF_ENGINE_ID`, the bytes of `b"HOTS"`.
abbrev pub hotstuff_engine_id : ℕ
hotstuff_engine_id = 0x484f5453

pub record Config : Type 0 where
  pub max_authorities : ℕ  -- a `u32`
  pub is_disabled : ℕ → Bool
  pub allow_multiple_blocks_per_slot : Bool
  pub minimum_period : ℕ
  -- `Slot::decode(..).ok()`, and the encoding of a log.
  pub decode_slot : Bytes → Option Slot
  pub encode_log : ConsensusLog → Bytes

-- The storage of the pallet, and the digest of the block that is being executed.
pub record Storage : Type 0 where
  -- `none` if nothing was ever stored.
  pub stored_authorities : Option (List AuthorityId)
  pub current_slot : Slot
  pub digest : List DigestItem

-- Nothing was ever stored.
abbrev pub empty_storage : Storage
empty_storage = record { stored_authorities = none; current_slot = 0; digest = [] }

pub record GenesisConfig : Type 0 where
  pub authorities : List AuthorityId

-- `Authorities::get()`: empty by default.
abbrev pub authorities : Storage → List AuthorityId
authorities s = elim s.stored_authorities [ none ↦ [] | some list ↦ list ]

-- `Authorities::decode_len()`.
abbrev pub decode_len : Storage → Option ℕ
decode_len s = elim s.stored_authorities [ none ↦ none | some list ↦ some (length list) ]

abbrev pub deposit_log : DigestItem → Storage → Storage
deposit_log item s = record s { digest = s.digest ++ item ∷ [] }

abbrev pub put_authorities : List AuthorityId → Storage → Storage
put_authorities list s = record s { stored_authorities = some list }

-- `assert!`.
abbrev pub assert : {S : Type 0} → Bool → Action S (Unit {0})
assert true s = (ok tt, s)
assert false s = (panicked, s)

-- The weight that `on_initialize` returns: the reads and writes of the database.
pub data Weight : Type 0 where
  reads_writes : ℕ → ℕ → Weight

-- The loop over the pre-runtime digests, which stops at the first of this engine.
abbrev pub slot_from_digests : (Bytes → Option Slot) → List DigestItem → Option Slot
slot_from_digests decode [] = none
slot_from_digests decode (pre_runtime id bytes ∷ logs) =
    let rest = slot_from_digests decode logs in
    if id == hotstuff_engine_id then decode bytes else rest
slot_from_digests decode (consensus id bytes ∷ logs) = slot_from_digests decode logs
slot_from_digests decode (seal id bytes ∷ logs) = slot_from_digests decode logs
slot_from_digests decode (other_item bytes ∷ logs) = slot_from_digests decode logs

abbrev pub is_empty : List AuthorityId → Bool
is_empty [] = true
is_empty (a ∷ list) = false

abbrev pub keys : {A : Type 0} → List (A × AuthorityId) → List AuthorityId
keys [] = []
keys ((_, key) ∷ validators) = key ∷ keys validators

-- Equality of two lists of ids.
abbrev pub same : List AuthorityId → List AuthorityId → Bool
same [] [] = true
same (a ∷ xs) (b ∷ ys) = a == b && same xs ys
same _ _ = false

-- The author's index for a decoded slot.
abbrev pub author_of : List AuthorityId → Option Slot → Outcome (Option ℕ)
author_of list none = ok none
author_of list (some slot) =
    if length list == 0 then panicked else ok (some (wrap32 (slot % length list)))

abbrev pub author_at : Storage → Outcome (Option ℕ) → Outcome (Option AuthorityId)
author_at s (ok none) = ok none
author_at s (ok (some i)) = ok (get_elem? (authorities s) i)
author_at s (err x) = err x
author_at s panicked = panicked
author_at s Outcome.out_of_fuel = Outcome.out_of_fuel

unfoldable pub is_member : AuthorityId → Storage → Bool
is_member id s = any (λ a. a == id) (authorities s)

module _ (g : Config) where
  unfoldable pub current_slot_from_digests : Storage → Option Slot
  current_slot_from_digests s = slot_from_digests g.decode_slot s.digest

  -- The check of the author after the slot is stored: `slot % len`, a panic for no authorities.
  unfoldable pub check_author : Slot → Action Storage (Unit {0})
  check_author slot s = elim (decode_len s) [
    | none ↦ (ok tt, s)
    | some n ↦ if n == 0 then (panicked, s) else assert (not (g.is_disabled (wrap32 (slot % n)))) s
  ]

  unfoldable pub initialize_slot : Slot → Action Storage Weight
  initialize_slot new_slot = do
    current ← gets (λ s. s.current_slot)
    assert (if g.allow_multiple_blocks_per_slot then leb current new_slot else ltb current new_slot)
    modify (λ s. record s { current_slot = new_slot })
    check_author new_slot
    pure (reads_writes 2 1)

  unfoldable pub on_initialize : Action Storage Weight
  on_initialize s = elim (current_slot_from_digests s) [
    | none ↦ (ok (reads_writes 1 0), s)
    | some new_slot ↦ initialize_slot new_slot s
  ]

  -- An empty list is ignored. The parameter is a `BoundedVec`: at most `max_authorities` long.
  unfoldable pub change_authorities : List AuthorityId → Storage → Storage
  change_authorities [] s = s
  change_authorities (a ∷ new) s =
      deposit_log (consensus hotstuff_engine_id (g.encode_log (authorities_change (a ∷ new))))
        (put_authorities (a ∷ new) s)

  -- The second test is the `expect` on the bound.
  unfoldable pub initialize_authorities : List AuthorityId → Action Storage (Unit {0})
  initialize_authorities list s =
      if is_empty list
      then (ok tt, s)
      else if is_empty (authorities s) && leb (length list) g.max_authorities
      then (ok tt, put_authorities list s)
      else (panicked, s)

  -- `GenesisConfig`, whose only field is the list, and its `build`.
  unfoldable pub build : GenesisConfig → Action Storage (Unit {0})
  build config = initialize_authorities config.authorities

  -- `MinimumPeriodTimesTwo::get`: `saturating_mul` stops at the greatest `u64`.
  unfoldable pub minimum_period_times_two : ℕ
  minimum_period_times_two =
      if ltb (g.minimum_period * 2) u64_mod then g.minimum_period * 2 else u64_mod - 1

  -- Without the `experimental` feature; `saturating_mul` stops at the greatest `u64`.
  unfoldable pub slot_duration : ℕ
  slot_duration = if ltb (g.minimum_period * 2) u64_mod then g.minimum_period * 2 else u64_mod - 1

  -- The checks of `do_try_state`, an error numbered in the order of the code.
  unfoldable pub do_try_state : Storage → External (Unit {0})
  do_try_state s =
      let slot : Slot = elim (current_slot_from_digests s) [ none ↦ s.current_slot | some x ↦ x ] in
      if not g.allow_multiple_blocks_per_slot && not (ltb slot (u64_mod - 1))
      then failure (1 ∷ [])
      else elim (decode_len s) [
        | none ↦ failure (2 ∷ [])
        | some n ↦
            if n == 0
            then failure (3 ∷ [])
            else if g.is_disabled (wrap32 (slot % n))
            then failure (4 ∷ [])
            else success tt
      ]

  unfoldable pub on_genesis_session : List (ℕ × AuthorityId) → Action Storage (Unit {0})
  on_genesis_session validators = initialize_authorities (keys validators)

  -- `truncate_from` keeps the first `max_authorities`.
  unfoldable pub on_new_session : Bool → List (ℕ × AuthorityId) → Storage → Storage
  on_new_session changed validators s =
      if changed && not (same (authorities s) (keys validators))
      then change_authorities (take g.max_authorities (keys validators)) s
      else s

  unfoldable pub on_disabled : ℕ → Storage → Storage
  on_disabled i s = deposit_log (consensus hotstuff_engine_id (g.encode_log (on_disabled_log i))) s

  -- `FindAuthor<u32>::find_author`; a slot that does not decode gives `None`.
  unfoldable pub find_author : List (ℕ × Bytes) → Storage → Outcome (Option ℕ)
  find_author [] s = ok none
  find_author ((id, bytes) ∷ digests) s =
      let rest = find_author digests s in
      if id == hotstuff_engine_id then author_of (authorities s) (g.decode_slot bytes) else rest

  -- `FindAccountFromAuthorIndex::find_author` over the pallet's own `find_author`.
  unfoldable pub find_author_id : List (ℕ × Bytes) → Storage → Outcome (Option AuthorityId)
  find_author_id digests s = author_at s (find_author digests s)

  unfoldable pub on_timestamp_set : ℕ → Action Storage (Unit {0})
  on_timestamp_set moment = do
    assert (not (slot_duration == 0))
    s ← gets (λ s. s.current_slot)
    assert (s == moment / slot_duration)
