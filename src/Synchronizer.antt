-- ===== src/Synchronizer.antt =====
-- hotstuff/consensus/src/synchronizer.rs (`Synchronizer`) and store.rs (`Store`): proposals kept in
-- the client's auxiliary store under their digests. The store is the client's state.
pub mod RoundTrip
use madara_hotstuff.Base.{ℕ, Option, none, some}
use madara_hotstuff.Primitives.{
  Bytes, External, success, failure, HotstuffError, save_proposal as save_failed, other,
  proposal_no_parent, Outcome, ok, err, ◌>>=◌, map_err,
}
use madara_hotstuff.Platform.{Platform}
use madara_hotstuff.Message.Proposal
use madara_hotstuff.Message.Proposal.{Proposal}

module _ {C : Type 0} (e : Platform C) where
  -- `Store::get` and `Store::set`.
  abbrev pub get : C → Bytes → External (Option Bytes)
  get s key = e.client.get_aux s key

  abbrev pub set : C → Bytes → Bytes → External (Unit {0}) × C
  set s key value = e.client.insert_aux s key value

  unfoldable pub save_proposal : C → Proposal → Outcome (Unit {0}) × C
  save_proposal s p =
      let value = e.codec.encode_proposal p in
      let key = e.codec.as_ref (Proposal.digest e.crypto p) in
      let (result, s') = set s key value in (map_err result save_failed, s')

  abbrev decode_found : Option Bytes → Outcome Proposal
  decode_found none = err proposal_no_parent
  decode_found (some bytes) = map_err (e.codec.decode_proposal bytes) other

  unfoldable pub get_proposal_parent : C → Proposal → Outcome Proposal
  get_proposal_parent s p = do
    found ← map_err (get s (e.codec.as_ref (Proposal.parent_hash p))) other
    decode_found found

  -- The parent and the grandparent.
  unfoldable pub get_proposal_ancestors : C → Proposal → Outcome (Proposal × Proposal)
  get_proposal_ancestors s p = do
    parent ← get_proposal_parent s p
    grandpa ← get_proposal_parent s parent
    ok (parent, grandpa)
