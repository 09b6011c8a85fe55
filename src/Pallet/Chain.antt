-- ===== src/Pallet/Chain.antt =====
-- The slots along a chain of blocks, as pallets/hotstuff/src/lib.rs checks them in `on_initialize`.
use madara_hotstuff.Base.{
  ◌≡◌, refl, ap, subst, ◌∙◌, sym, inl, inr, List, [], ◌∷◌, Option, none, some,
}
use madara_hotstuff.Primitives.{Outcome, ok, err, panicked, out_of_fuel}
use madara_hotstuff.Action.{Action, and_then, ◌>>=◌, ◌>>◌, pure, modify}
use madara_hotstuff.Pallet.{
  Config, Storage, Slot, DigestItem, Weight, current_slot_from_digests, slot_from_digests,
  on_initialize,
}
use madara_hotstuff.Pallet.Slots.{Follows, on_initialize-ok}

module _ (g : Config) where
  -- The blocks of a chain, by their digests: each is initialized, and a panic ends the chain.
  unfoldable pub chain : List (List DigestItem) → Action Storage (Unit {0})
  chain [] = pure tt
  chain (digest ∷ blocks) = do
    modify (λ s. record s { digest = digest })
    _ ← on_initialize g
    chain blocks

  -- The slots that the digests of the blocks carry.
  abbrev slot_cons : Option Slot → List Slot → List Slot
  slot_cons none rest = rest
  slot_cons (some slot) rest = slot ∷ rest

  abbrev pub slots : List (List DigestItem) → List Slot
  slots [] = []
  slots (digest ∷ blocks) = slot_cons (slot_from_digests g.decode_slot digest) (slots blocks)

  -- Each slot may follow the one before it.
  abbrev pub Rises : Slot → List Slot → Type 0
  Rises current [] = Unit
  Rises current (slot ∷ rest) = Follows g current slot × Rises slot rest

  -- The rest of a chain, from what its first block leaves.
  chain_cons :
      (blocks : List (List DigestItem)) (r : Outcome Weight × Storage)
      → (and_then {B = Unit {0}} r (λ _. chain blocks)).0 ≡ ok tt
      → (w : Weight) × (r.0 ≡ ok w)
        × ((chain blocks r.1).0 ≡ ok tt)
        × ((and_then {B = Unit {0}} r (λ _. chain blocks)).1 ≡ (chain blocks r.1).1)
  chain_cons blocks (ok w, t) h = (w, refl, h, refl)
  chain_cons blocks (err x, t) h = cc
  chain_cons blocks (panicked, t) h = cc
  chain_cons blocks (out_of_fuel, t) h = cc

  -- In a chain of blocks that all are initialized, from any storage, each slot may follow the one
  -- before it, the first one the stored slot; and the stored authorities never change.
  pub chain-Rises :
      (blocks : List (List DigestItem)) (s : Storage)
      → (chain blocks s).0 ≡ ok tt
      → Rises s.current_slot (slots blocks)
        × ((chain blocks s).1.stored_authorities ≡ s.stored_authorities)
  unfolding chain current_slot_from_digests
  chain-Rises [] s h = (tt, refl)
  chain-Rises (digest ∷ blocks) s h =
      let t : Storage = record s { digest = digest } in
      let (w, fine, rest, last) = chain_cons blocks (on_initialize g t) h in
      elim (on_initialize-ok g t fine) [
        | inl (absent, same) ↦
            let (rises, kept) =
              chain-Rises blocks t (subst (λ r. (chain blocks r.1).0 ≡ ok tt) same rest) in
            (
              subst (λ o. Rises s.current_slot (slot_cons o (slots blocks))) (sym absent) rises,
              ap (λ q. q.stored_authorities) last
                  ∙ (ap (λ r. (chain blocks r.1).1.stored_authorities) same ∙ kept),
            )
        | inr (slot, there, follows, may, new) ↦
            let u : Storage = record t { current_slot = slot } in
            let (rises, kept) =
              chain-Rises blocks u (subst (λ r. (chain blocks r.1).0 ≡ ok tt) new rest) in
            (
              subst (λ o. Rises s.current_slot (slot_cons o (slots blocks))) (sym there)
                  (follows, rises),
              ap (λ q. q.stored_authorities) last
                  ∙ (ap (λ r. (chain blocks r.1).1.stored_authorities) new ∙ kept),
            )
      ]
