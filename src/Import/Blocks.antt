-- ===== src/Import/Blocks.antt =====
-- The import of blocks and of justifications (import.rs).
use madara_hotstuff.Base.{◌≡◌, refl, ◌⊎◌, inl, inr, none}
use madara_hotstuff.Primitives.{Bytes, External, success, failure}
use madara_hotstuff.Platform.{Platform, BlockStatus, in_chain, unknown}
use madara_hotstuff.Import.{
  BlockImportParams, ImportResult, imported, another, ConsensusError, client_import, Imports, done,
  refused, error_text, rewrap, import_block,
}

rewrap-done : (r : ImportResult) → rewrap (done r) ≡ done r
rewrap-done (imported aux) = refl
rewrap-done (another r) = refl

-- A block that is in the chain is imported again without its justifications, with the client's own
-- result; an unknown one is imported as it is, and an error of the client is turned into a
-- `client_import` with its text; where the status cannot be read nothing is imported.
pub import_block_branches :
    {C : Type 0} (e : Platform C) (import : C → BlockImportParams → Imports × C) (client : C)
    (block : BlockImportParams)
    → ((e.client.status client block.post_hash ≡ success in_chain)
        × (import_block e import client block
            ≡ import client (record block { justifications = none })))
      ⊎ (((e.client.status client block.post_hash ≡ success unknown)
            × (((r : ImportResult) × (client' : C) × (import client block ≡ (done r, client'))
                  × (import_block e import client block ≡ (done r, client')))
                ⊎ ((x : ConsensusError) × (client' : C) × (import client block
                      ≡ (refused x, client'))
                    × (import_block e import client block
                        ≡ (refused (client_import (error_text x)), client')))))
          ⊎ ((text : Bytes) × (e.client.status client block.post_hash ≡ failure text)
              × (import_block e import client block ≡ (refused (client_import text), client))))
unfolding import_block
import_block_branches {C = C} e import client block =
    go (e.client.status client block.post_hash) refl (import client block) refl
  where
    go :
        (status : External BlockStatus)
        → e.client.status client block.post_hash ≡ status
        → (r : Imports × C) → import client block ≡ r
        → ((e.client.status client block.post_hash ≡ success in_chain)
            × (import_block e import client block
                ≡ import client (record block { justifications = none })))
          ⊎ (((e.client.status client block.post_hash ≡ success unknown)
                × (((r : ImportResult) × (client' : C) × (import client block ≡ (done r, client'))
                      × (import_block e import client block ≡ (done r, client')))
                    ⊎ ((x : ConsensusError) × (client' : C) × (import client block
                          ≡ (refused x, client'))
                        × (import_block e import client block
                            ≡ (refused (client_import (error_text x)), client')))))
              ⊎ ((text : Bytes) × (e.client.status client block.post_hash ≡ failure text)
                  × (import_block e import client block ≡ (refused (client_import text), client))))
    go (success in_chain) h r k = inl (h, rw h)
    go (success unknown) h (done r, client') k =
        inr (inl (h, inl (r, client', k, rw (h, k, rewrap-done r))))
    go (success unknown) h (refused x, client') k = inr (inl (h, inr (x, client', k, rw (h, k))))
    go (failure text) h r k = inr (inr (text, h, rw h))
