-- ===== src/Tests/Blocks.antt =====
-- The theorems about stored proposals, gossip, the import of blocks and the authority set.
use madara_hotstuff.Base.{
  ◌≡◌, ◌≢◌, sym, ◌↔◌, refl, List, [], ◌∷◌, ◌++◌, true, false, some, arith, All,
}
use madara_hotstuff.Primitives.{Hash, ok}
use madara_hotstuff.Message.Proposal
use madara_hotstuff.Message.Proposal.{Proposal}
use madara_hotstuff.Message.Payload
use madara_hotstuff.Message.Consensus.{gossip_topic}
use madara_hotstuff.Synchronizer.{save_proposal, get_proposal_ancestors}
use madara_hotstuff.Synchronizer.RoundTrip.{get_proposal_ancestors-saved}
use madara_hotstuff.Network.{
  GossipValidator, validate, message_expired, message_allowed, process_and_keep, discard,
}
use madara_hotstuff.Network.Agreement.{IsCurrent, validator_agrees}
use madara_hotstuff.Import.{
  BlockInfo, ImportNotification, poll, BlockImportParams, Imports, client_import, refused,
}
use madara_hotstuff.Import.Queue.{new_bests, Reached, IsAbove, poll_lem}
use madara_hotstuff.Tests.Sample.{
  Store, platform, crypto, store_laws, saved, saved_both, grandpa, parent, child,
}

grandpa_digest : Proposal.digest crypto grandpa ≡ 1252
unfolding Proposal.digest Payload.encode
grandpa_digest = refl

parent_digest : Proposal.digest crypto parent ≡ 12522363
unfolding Proposal.digest Payload.encode
parent_digest = refl

save_grandpa : save_proposal platform [] grandpa ≡ (ok tt, saved)
unfolding save_proposal Proposal.digest Payload.encode
save_grandpa = refl

save_parent : save_proposal platform saved parent ≡ (ok tt, saved_both)
unfolding save_proposal Proposal.digest Payload.encode
save_parent = refl

apart : Proposal.digest crypto grandpa ∷ [] ≢ Proposal.digest crypto parent ∷ []
unfolding Proposal.digest Payload.encode
apart h = ground arith

get_proposal_ancestors-saved_example :
    get_proposal_ancestors platform saved_both child ≡ ok (parent, grandpa)
get_proposal_ancestors-saved_example =
    get_proposal_ancestors-saved platform store_laws [] saved saved_both grandpa parent child refl
      refl save_grandpa save_parent apart (sym grandpa_digest) (sym parent_digest)

abbrev validator : GossipValidator
validator = record { view = 5 }

validator_agrees_example :
    ((validate platform validator (3 ∷ []) ≡ process_and_keep (gossip_topic crypto))
      ↔ IsCurrent platform validator (3 ∷ []))
    × ((validate platform validator (3 ∷ []) ≡ discard) ↔ (¬ IsCurrent platform validator (3 ∷ [])))
    × ((message_expired platform validator 6 (3 ∷ []) ≡ true)
        ↔ (validate platform validator (3 ∷ []) ≡ discard))
    × ((message_allowed platform validator 6 (3 ∷ []) ≡ true) ↔ (
        ◌≡◌ {A = Hash} 6 (gossip_topic crypto)
        × (message_expired platform validator 6 (3 ∷ []) ≡ false)))
validator_agrees_example = validator_agrees platform validator 6 (3 ∷ [])

abbrev notified : List ImportNotification
notified =
    record { is_new_best = true; hash = 8; number = 4 }
    ∷ record { is_new_best = false; hash = 7; number = 4 }
    ∷ []

abbrev waiting : List BlockInfo
waiting = record { hash = some 5; number = 2 } ∷ record { hash = some 6; number = 3 } ∷ []

poll_lem_example :
    (dropped : List BlockInfo) × (waiting ++ new_bests notified
      ≡ dropped ++ poll notified (2 ∷ 3 ∷ []) waiting)
    × All (λ b. Reached (2 ∷ 3 ∷ []) b.number) dropped
    × IsAbove (2 ∷ 3 ∷ []) (poll notified (2 ∷ 3 ∷ []) waiting)
poll_lem_example = poll_lem notified (2 ∷ 3 ∷ []) waiting

abbrev block : BlockImportParams
block = record { post_hash = 0; justifications = some []; body = 1 ∷ [] }

abbrev import : Store → BlockImportParams → Imports × Store
import store params = (refused (client_import (3 ∷ [])), (params.body, []) ∷ store)
