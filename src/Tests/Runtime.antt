-- ===== src/Tests/Runtime.antt =====
-- The theorems about the pallet at two blocks of one chain, in slots 7 and 9, of two authorities.
use madara_hotstuff.Base.{
  ℕ, ◌<◌, ◌≡◌, ◌≢◌, ◌⊎◌, refl, inr, List, [], ◌∷◌, ◌++◌, true, false, Option, none, some, arith,
  length, take, get_elem?,
}
use madara_hotstuff.Primitives.{AuthorityId, Bytes, ok, panicked, success}
use madara_hotstuff.Pallet.{
  Config, Storage, Slot, DigestItem, pre_runtime, consensus, hotstuff_engine_id, reads_writes,
  authorities, keys, current_slot_from_digests, on_initialize, do_try_state, find_author,
  find_author_id, is_member, on_new_session, initialize_slot, check_author,
}
use madara_hotstuff.Pallet.Invariant.{
  IsValid, Call, calls, calls-IsValid, execute, initialize, new_session,
}
use madara_hotstuff.Pallet.Slots.{
  Follows, MayAuthor, on_initialize_branches, on_initialize-do_try_state,
}
use madara_hotstuff.Pallet.Chain.{chain, slots, Rises, chain-Rises}
use madara_hotstuff.Pallet.Authors.{pre_runtimes, find_author-on_initialize}
use madara_hotstuff.Pallet.Sessions.{on_new_session_branches}

abbrev first_byte : Bytes → Option ℕ
first_byte [] = none
first_byte (b ∷ bytes) = some b

abbrev config : Config
config = record {
  max_authorities = 3;
  is_disabled = λ i. false;
  allow_multiple_blocks_per_slot = false;
  minimum_period = 500;
  decode_slot = first_byte;
  encode_log = λ log. [];
}

abbrev digest : List DigestItem
digest = pre_runtime hotstuff_engine_id (7 ∷ []) ∷ []

abbrev next_digest : List DigestItem
next_digest = pre_runtime hotstuff_engine_id (9 ∷ []) ∷ []

abbrev storage : Storage
storage = record { stored_authorities = some (11 ∷ 12 ∷ []); current_slot = 5; digest = digest }

storage-IsValid : IsValid config storage
storage-IsValid = record { stored = λ list h. (ground arith, ground arith) }

abbrev some_calls : List Call
some_calls = initialize ∷ new_session true ((1, 13) ∷ []) ∷ execute next_digest ∷ initialize ∷ []

calls-IsValid_example : IsValid config (calls config some_calls storage)
calls-IsValid_example = calls-IsValid config some_calls storage storage-IsValid

on_initialize_branches_example :
    ((current_slot_from_digests config storage ≡ none)
      × (on_initialize config storage ≡ (ok (reads_writes 1 0), storage)))
    ⊎ ((slot : Slot) × (current_slot_from_digests config storage ≡ some slot)
        × ((Follows config 5 slot
              × MayAuthor config (some (11 ∷ 12 ∷ [])) slot
              × (on_initialize config storage
                  ≡ (ok (reads_writes 2 1), record storage { current_slot = slot })))
            ⊎ (((¬ Follows config 5 slot) ⊎ (¬ MayAuthor config (some (11 ∷ 12 ∷ [])) slot))
                × ((on_initialize config storage).0 ≡ panicked))))
on_initialize_branches_example = on_initialize_branches config storage

initialized : (on_initialize config storage).0 ≡ ok (reads_writes 2 1)
unfolding on_initialize current_slot_from_digests initialize_slot check_author
initialized = refl

slot_there : current_slot_from_digests config storage ≡ some 7
unfolding current_slot_from_digests
slot_there = refl

chained : (chain config (digest ∷ next_digest ∷ []) storage).0 ≡ ok tt
unfolding chain on_initialize current_slot_from_digests initialize_slot check_author
chained = refl

chain-Rises_example :
    Rises config 5 (slots config (digest ∷ next_digest ∷ []))
    × ((chain config (digest ∷ next_digest ∷ []) storage).1.stored_authorities
        ≡ some (11 ∷ 12 ∷ []))
chain-Rises_example = chain-Rises config (digest ∷ next_digest ∷ []) storage chained

on_initialize-do_try_state_example :
    do_try_state config (on_initialize config storage).1 ≡ success tt
on_initialize-do_try_state_example =
    on_initialize-do_try_state config storage 7 (11 ∷ 12 ∷ []) initialized slot_there refl
      (inr (omega arith))

find_author-on_initialize_example :
    (find_author config (pre_runtimes digest) storage ≡ ok (some 1))
    × (false ≡ false)
    × ((a : AuthorityId) × (get_elem? (11 ∷ 12 ∷ []) 1 ≡ some a)
        × (find_author_id config (pre_runtimes digest) storage ≡ ok (some a))
        × (is_member a storage ≡ true))
find_author-on_initialize_example =
    find_author-on_initialize config storage 7 (11 ∷ 12 ∷ []) storage-IsValid (omega arith) refl
      slot_there initialized

abbrev validators : List (ℕ × AuthorityId)
validators = (1, 13) ∷ []

on_new_session_branches_example :
    ((on_new_session config true validators storage ≡ storage)
      × ((true ≡ false)
          ⊎ ((authorities storage ≡ keys validators) ⊎ (take 3 (keys validators) ≡ []))))
    ⊎ ((true ≡ true)
        × (authorities storage ≢ keys validators)
        × (0 < length (take 3 (keys validators)))
        × (on_new_session config true validators storage ≡ record storage {
          stored_authorities = some (take 3 (keys validators));
          digest = digest ++ consensus hotstuff_engine_id [] ∷ [];
        }))
on_new_session_branches_example = on_new_session_branches config true validators storage
