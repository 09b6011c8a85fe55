-- ===== src/Synchronizer/RoundTrip.antt =====
-- Saved proposals are found again as parents (synchronizer.rs).
use madara_hotstuff.Base.{◌≡◌, ◌≢◌, sym, ap, ◌∙◌, arith}
use madara_hotstuff.Primitives.{
  External, success, failure, save_proposal as save_failed, Outcome, ok, map_err,
}
use madara_hotstuff.Platform.{Platform, StoreLaws}
use madara_hotstuff.Message.Proposal
use madara_hotstuff.Message.Proposal.{Proposal}
use madara_hotstuff.Synchronizer.{save_proposal, get_proposal_parent, get_proposal_ancestors}

module _ {C : Type 0} (e : Platform C) (store : StoreLaws e.client) where
  -- SCALE's decoding inverts its encoding on a proposal.
  abbrev pub IsDecoded : Proposal → Type 0
  IsDecoded p = e.codec.decode_proposal (e.codec.encode_proposal p) ≡ success p

  inserted :
      (s s' : C) (p : Proposal)
      → save_proposal e s p ≡ (ok tt, s')
      → e.client.insert_aux s
          (e.codec.as_ref (Proposal.digest e.crypto p))
          (e.codec.encode_proposal p)
        ≡ (success tt, s')
  unfolding save_proposal
  inserted s s' p h = ground (
    arith,
    unwrap
        (e.client.insert_aux s (e.codec.as_ref (Proposal.digest e.crypto p))
          (e.codec.encode_proposal p))
        h,
  )
    where
      unwrap :
          (r : External (Unit {0}) × C)
          → (◌≡◌ {A = Outcome (Unit {0}) × C} (map_err r.0 save_failed, r.1) (ok tt, s'))
          → r ≡ (success tt, s')
      unwrap (success tt, t) h = ground arith
      unwrap (failure text, t) h = ground arith

  -- With a store that reads back what it is given and a proposal that decodes from its encoding:
  -- after the proposal is saved, `get_proposal_parent` of every proposal whose certificate names its
  -- digest returns it.
  get_proposal_parent-save_proposal :
      (s s' : C) (p child : Proposal)
      → IsDecoded p
      → save_proposal e s p ≡ (ok tt, s')
      → Proposal.parent_hash child ≡ Proposal.digest e.crypto p
      → get_proposal_parent e s' child ≡ ok p
  unfolding get_proposal_parent
  get_proposal_parent-save_proposal s s' p child d h named =
      rw (named, store.get-insert_self s s' _ _ (inserted s s' p h), d)

  -- A save leaves the parent of a proposal whose certificate names another digest.
  get_proposal_parent-save_other :
      (s s' : C) (p child : Proposal)
      → save_proposal e s p ≡ (ok tt, s')
      → e.codec.as_ref (Proposal.parent_hash child) ≢ e.codec.as_ref (Proposal.digest e.crypto p)
      → get_proposal_parent e s' child ≡ get_proposal_parent e s child
  unfolding get_proposal_parent
  get_proposal_parent-save_other s s' p child h apart =
      rw (store.get-insert_ne s s' _ _ _ apart (inserted s s' p h))

  -- With a store that reads back what it is given and keeps the other keys, and two proposals that
  -- decode from their encodings and whose digests have different bytes: saving the grandparent and
  -- then the parent makes `get_proposal_ancestors` of their descendant return both.
  pub get_proposal_ancestors-saved :
      (s t u : C) (grandpa parent child : Proposal)
      → IsDecoded grandpa
      → IsDecoded parent
      → save_proposal e s grandpa ≡ (ok tt, t)
      → save_proposal e t parent ≡ (ok tt, u)
      → e.codec.as_ref (Proposal.digest e.crypto grandpa)
        ≢ e.codec.as_ref (Proposal.digest e.crypto parent)
      → Proposal.parent_hash parent ≡ Proposal.digest e.crypto grandpa
      → Proposal.parent_hash child ≡ Proposal.digest e.crypto parent
      → get_proposal_ancestors e u child ≡ ok (parent, grandpa)
  unfolding get_proposal_ancestors
  get_proposal_ancestors-saved s t u grandpa parent child dg dp first second apart up down = rw (
    get_proposal_parent-save_proposal t u parent child dp second down,
    get_proposal_parent-save_other t u parent parent second
        (λ same. apart (ap e.codec.as_ref (sym up) ∙ same)),
    get_proposal_parent-save_proposal s t grandpa parent dg first up,
  )
