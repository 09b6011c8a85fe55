-- ===== src/Pallet/Authors.antt =====
-- The author of a block in pallets/hotstuff/src/lib.rs: `find_author`, `FindAccountFromAuthorIndex`
-- and `is_member` against the check of `on_initialize`.
use madara_hotstuff.Base.{
  ℕ, ◌^◌, ◌%◌, ◌<◌, ◌≡◌, refl, ap, ◌∙◌, subst, inl, inr, true, false, List, [], ◌∷◌, some, ◌==◌,
  arith, length, get_elem?, any, wrap32,
}
use native.Mathlib.Nat.{mod-lt}
use madara_hotstuff.Primitives.{AuthorityId, Bytes, ok}
use madara_hotstuff.Pallet.{
  Config, Storage, Slot, DigestItem, pre_runtime, consensus, seal, other_item, authorities,
  author_of, author_at, slot_from_digests, current_slot_from_digests, on_initialize, find_author,
  find_author_id, is_member, Weight,
}
use madara_hotstuff.Pallet.Invariant.{IsValid}
use madara_hotstuff.Pallet.Slots.{MayAuthor, on_initialize-ok}

-- The pre-runtime digests of a header, as `find_author` takes them.
abbrev pub pre_runtimes : List DigestItem → List (ℕ × Bytes)
pre_runtimes [] = []
pre_runtimes (pre_runtime id bytes ∷ logs) = (id, bytes) ∷ pre_runtimes logs
pre_runtimes (consensus id bytes ∷ logs) = pre_runtimes logs
pre_runtimes (seal id bytes ∷ logs) = pre_runtimes logs
pre_runtimes (other_item bytes ∷ logs) = pre_runtimes logs

module _ (g : Config) where
  -- Where the digests carry a slot, the author found is that of the slot.
  find_author-slot :
      (logs : List DigestItem) (s : Storage) (slot : Slot)
      → slot_from_digests g.decode_slot logs ≡ some slot
      → find_author g (pre_runtimes logs) s ≡ author_of (authorities s) (some slot)
  unfolding find_author
  find_author-slot [] s slot h = cc
  find_author-slot (pre_runtime id bytes ∷ logs) s slot h =
      let rec : slot_from_digests g.decode_slot logs ≡ some slot
          → find_author g (pre_runtimes logs) s ≡ author_of (authorities s) (some slot) =
        find_author-slot logs s slot in
      ground arith
  find_author-slot (consensus id bytes ∷ logs) s slot h = find_author-slot logs s slot h
  find_author-slot (seal id bytes ∷ logs) s slot h = find_author-slot logs s slot h
  find_author-slot (other_item bytes ∷ logs) s slot h = find_author-slot logs s slot h

  get_elem-member :
      (list : List AuthorityId) (i : ℕ)
      → i < length list
      → (a : AuthorityId) × (get_elem? list i ≡ some a) × (any (λ x. x == a) list ≡ true)
  get_elem-member [] i h = absurd (omega arith)
  get_elem-member (a ∷ list) ℕ.zero h = (a, refl, ground arith)
  get_elem-member (a ∷ list) (ℕ.suc i) h =
      let (x, there, found) = get_elem-member list i (omega arith) in (x, there, ground arith)

  -- After a block with a slot has been initialized in a valid state with authorities in storage and
  -- a bound that fits in a `u32`, `find_author` of the block's pre-runtime digests answers the
  -- index `slot % length`, which is an index of an enabled authority; `find_author_id` answers that
  -- authority, and it is a member.
  pub find_author-on_initialize :
      (s : Storage) (slot : Slot) (list : List AuthorityId) {w : Weight}
      → IsValid g s
      → g.max_authorities < 2 ^ 32
      → s.stored_authorities ≡ some list
      → current_slot_from_digests g s ≡ some slot
      → (on_initialize g s).0 ≡ ok w
      → (find_author g (pre_runtimes s.digest) s ≡ ok (some (slot % length list)))
        × (g.is_disabled (slot % length list) ≡ false)
        × ((a : AuthorityId) × (get_elem? list (slot % length list) ≡ some a)
            × (find_author_id g (pre_runtimes s.digest) s ≡ ok (some a))
            × (is_member a s ≡ true))
  unfolding current_slot_from_digests find_author_id is_member
  find_author-on_initialize s slot list v room stored there fine =
      elim (on_initialize-ok g s fine) [
        | inl (absent, same) ↦ cc
        | inr (slot', there', follows, may, new) ↦
            let e : slot' ≡ slot = ground arith in
            let m : MayAuthor g (some list) slot =
              subst (λ o. MayAuthor g o slot) stored
                (subst (λ x. MayAuthor g s.stored_authorities x) e may) in
            let (pos, fits) = v.stored list stored in
            let small : wrap32 (slot % length list) ≡ slot % length list = omega arith in
            let below : slot % length list < length list = mod-lt slot pos in
            let (a, at, found) = get_elem-member list (slot % length list) below in
            let author : find_author g (pre_runtimes s.digest) s ≡ ok (some (slot % length list)) =
              find_author-slot s.digest s slot there ∙ rw stored (ground arith) in
            (
              author,
              ground (arith, m),
              (a, at, rw (author, author_at, authorities, stored) (ap ok at), rw stored found),
            )
      ]
