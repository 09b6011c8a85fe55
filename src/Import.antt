-- ===== src/Import.antt =====
-- hotstuff/consensus/src/import.rs: the queue of blocks that wait for finality, and the import of
-- blocks and justifications.
pub mod Queue
pub mod Blocks
use madara_hotstuff.Base.{
  ℕ, zero, suc, ◌+◌, ◌-◌, Bool, true, false, List, [], ◌∷◌, ◌++◌, Option, none, some, leb, ltb,
  if◌then◌else◌, wrap32,
}
use madara_hotstuff.Primitives.{
  Hash, Bytes, External, success, failure, client_error, Outcome, ok, err, out_of_fuel, ◌>>=◌,
  map_err,
}
use madara_hotstuff.Platform.{Platform, BlockStatus, in_chain, unknown}

pub record BlockInfo : Type 0 where
  pub hash : Option Hash
  pub number : ℕ

-- An import notification: the fields that the loop reads.
pub record ImportNotification : Type 0 where
  pub is_new_best : Bool
  pub hash : Hash
  pub number : ℕ

-- `PendingFinalizeBlockQueue`: the queue alone; the two streams are given to `poll` as lists of
-- the notifications that are ready.
abbrev pub PendingFinalizeBlockQueue : Type 0
PendingFinalizeBlockQueue = List BlockInfo

-- The first loop of `poll`: blocks that are a new best are appended.
unfoldable pub on_imports :
    List ImportNotification → PendingFinalizeBlockQueue → PendingFinalizeBlockQueue
on_imports [] queue = queue
on_imports (n ∷ notifications) queue = on_imports notifications (
    if n.is_new_best
    then queue ++ (record { hash = some n.hash; number = n.number }) ∷ []
    else queue)

-- The inner loop of the second one: the front is taken off while it is not above the final block.
unfoldable pub on_finalized : ℕ → PendingFinalizeBlockQueue → PendingFinalizeBlockQueue
on_finalized finalized_number [] = []
on_finalized finalized_number (block ∷ queue) =
    let rest = on_finalized finalized_number queue in
    if ltb finalized_number block.number then block ∷ queue else rest

unfoldable pub on_finalizations : List ℕ → PendingFinalizeBlockQueue → PendingFinalizeBlockQueue
on_finalizations [] queue = queue
on_finalizations (n ∷ numbers) queue = on_finalizations numbers (on_finalized n queue)

unfoldable pub poll :
    List ImportNotification → List ℕ → PendingFinalizeBlockQueue → PendingFinalizeBlockQueue
poll imports finalizations queue = on_finalizations finalizations (on_imports imports queue)

module _ {C : Type 0} (e : Platform C) where
  -- The loop of `new` from a block number up to the best one; a number is a `u32`.
  unfoldable pub collect : ℕ → C → ℕ → ℕ → List (Option Hash × ℕ) → Outcome (List (Option Hash × ℕ))
  collect zero client block_number best queue = out_of_fuel
  collect (suc fuel) client block_number best queue =
      let rest = λ (hash : Option Hash).
        collect fuel client (wrap32 (block_number + 1)) best (queue ++ (hash, block_number) ∷ []) in
      if leb block_number best
      then (map_err (e.client.block_hash_from_id client block_number) client_error >>= rest)
      else ok queue

  -- `PendingFinalizeBlockQueue::new`: the collected blocks are not put into the queue.
  unfoldable pub new_queue : ℕ → C → Outcome PendingFinalizeBlockQueue
  new_queue fuel client = do
    let info = e.client.info client
    collected ← collect fuel client (wrap32 (info.finalized_number + 1)) info.best_number []
    ok []

-- `BlockImportParams`: the hash of the block after its digests, its justifications, and the rest.
pub record BlockImportParams : Type 0 where
  pub post_hash : Hash
  pub justifications : Option Bytes
  pub body : Bytes

-- `ImportResult`: an imported block with its auxiliary data, or another result by its number.
pub data ImportResult : Type 0 where
  imported : Bytes → ImportResult
  another : ℕ → ImportResult

-- `sp_consensus::Error`: the variant that the code builds, and any that the client returns.
pub data ConsensusError : Type 0 where
  client_import : Bytes → ConsensusError
  from_client : Bytes → ConsensusError

pub data Imports : Type 0 where
  done : ImportResult → Imports
  refused : ConsensusError → Imports

-- `e.to_string()` of an error that the client returned.
abbrev pub error_text : ConsensusError → Bytes
error_text (client_import text) = text
error_text (from_client text) = text

abbrev rewrap : Imports → Imports
rewrap (done (imported aux)) = done (imported aux)
rewrap (done (another r)) = done (another r)
rewrap (refused x) = refused (client_import (error_text x))

module _ {C : Type 0} (e : Platform C) (import : C → BlockImportParams → Imports × C) where
  import_with_status : External BlockStatus → C → BlockImportParams → Imports × C
  import_with_status (success in_chain) client block =
      import client (record block { justifications = none })
  import_with_status (success unknown) client block =
      let (r, client') = import client block in (rewrap r, client')
  import_with_status (failure text) client block = (refused (client_import text), client)

  -- `BlockImport::import_block`, over the client's own import.
  unfoldable pub import_block : C → BlockImportParams → Imports × C
  unfolding import_with_status
  import_block client block =
      import_with_status (e.client.status client block.post_hash) client block

-- `import_justification`: the block is finalized; the result is printed and dropped, and neither
-- the justification nor the flags are read.
unfoldable pub import_justification :
    {C : Type 0} → Platform C → C → Hash → ℕ → Bytes → Bool → Bool → Outcome (Unit {0}) × C
import_justification e client hash number justification enacts_change initial_sync =
    let (r, client') = e.client.finalize_block client hash in (ok tt, client')

-- `JustificationImport`: a justification that was requested enacts no change and is not of the
-- initial sync; none is requested at the start, after one look at the chain.
abbrev requested_justification :
    {C : Type 0} → Platform C → C → Hash → ℕ → Bytes → Outcome (Unit {0}) × C
requested_justification e client hash number justification =
    import_justification e client hash number justification false false

abbrev on_start : {C : Type 0} → Platform C → C → List (Hash × ℕ)
on_start e client = let chain_info = e.client.info client in []

-- `BlockImport::check_block`, the client's own check.
abbrev check_block : {C B R : Type 0} → (C → B → External R × C) → C → B → External R × C
check_block check client block = check client block
