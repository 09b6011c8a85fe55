-- ===== src/State.antt =====
-- `ConsensusState` of hotstuff/consensus/src/consensus.rs: the state of the protocol core and its
-- methods. A method that takes `&mut self` returns its result and the new state.
pub mod Leader
pub mod Voting
pub mod Turns
use madara_hotstuff.Base.{
  ℕ, ◌+◌, ◌%◌, ◌<◌, Bool, true, false, List, [], Option, none, some, ◌==◌, ltb, leb, if◌then◌else◌,
  find, length, get_elem?, wrap64, max, not,
}
use madara_hotstuff.Primitives.{
  AuthorityId, AuthoritySignature, AuthorityList, Hash, Bytes, ViewNumber, External, success,
  failure, HotstuffError, not_authority, wrong_proposer, expired_vote, invalid_tc, other, Outcome,
  ok, err, panicked, ◌>>=◌, ◌>>◌, ok_or, map_err,
}
use madara_hotstuff.Crypto.{Crypto, Keystore}
use madara_hotstuff.Message.Qc
use madara_hotstuff.Message.Qc.{Qc}
use madara_hotstuff.Message.Tc
use madara_hotstuff.Message.Tc.{Tc}
use madara_hotstuff.Message.Payload.{Payload}
use madara_hotstuff.Message.Vote
use madara_hotstuff.Message.Vote.{Vote}
use madara_hotstuff.Message.Timeout
use madara_hotstuff.Message.Timeout.{Timeout}
use madara_hotstuff.Message.Proposal
use madara_hotstuff.Message.Proposal.{Proposal}
use madara_hotstuff.Aggregator
use madara_hotstuff.Aggregator.{Aggregator}

pub record ConsensusState : Type 0 where
  pub keystore : Keystore
  pub authorities : AuthorityList
  pub view : ViewNumber
  pub last_voted_view : ViewNumber
  pub high_qc : Qc
  pub aggregator : Aggregator

abbrev pub new : Keystore → AuthorityList → ConsensusState
new keystore authorities = record {
  keystore = keystore;
  authorities = authorities;
  view = 0;
  last_voted_view = 0;
  high_qc = Qc.default;
  aggregator = Aggregator.new;
}

abbrev first_id : Option (AuthorityId × ℕ) → Option AuthorityId
first_id none = none
first_id (some (id, _)) = some id

-- The first authority whose key the keystore holds.
unfoldable pub local_authority_id : ConsensusState → Option AuthorityId
local_authority_id s = first_id (find (λ a. s.keystore.has_keys a.0) s.authorities)

abbrev pub increase_last_voted_view : ConsensusState → ConsensusState
increase_last_voted_view s = record s { last_voted_view = max s.last_voted_view s.view }

-- `.and_then(|data| AuthoritySignature::try_from(data).ok())`.
abbrev signature_of : Keystore → Option Bytes → Option AuthoritySignature
signature_of k none = none
signature_of k (some bytes) = k.try_from bytes

-- `keystore.sign_with(..)` and the conversion of what it returns.
abbrev pub sign : Keystore → AuthorityId → Hash → External (Option AuthoritySignature)
sign k id d = elim (k.sign_with id d) [
  | success bytes ↦ success (signature_of k bytes)
  | failure text ↦ failure text
]

-- The leader of a view: a panic if there is no authority.
unfoldable pub view_leader : ConsensusState → ViewNumber → Outcome AuthorityId
view_leader s view =
    if length s.authorities == 0
    then panicked
    else elim (first_id (get_elem? s.authorities (view % length s.authorities))) [
      | none ↦ panicked
      | some id ↦ ok id
    ]

-- `self.local_authority_id().map_or(false, |id| id == other)`.
abbrev pub is_local : ConsensusState → AuthorityId → Bool
is_local s id = elim (local_authority_id s) [ none ↦ false | some mine ↦ mine == id ]

unfoldable pub is_leader : ConsensusState → Outcome Bool
is_leader s = do leader ← view_leader s s.view; ok (is_local s leader)

-- `if qc.view > self.high_qc.view`.
unfoldable pub update_high_qc : ConsensusState → Qc → ConsensusState
update_high_qc s qc = if ltb s.high_qc.view qc.view then record s { high_qc = qc } else s

-- `if self.view >= view { self.view = view + 1 }`, as the source has it.
unfoldable pub advance_view_from_target : ConsensusState → ViewNumber → ConsensusState
advance_view_from_target s view =
    if leb view s.view then record s { view = wrap64 (view + 1) } else s

module _ (c : Crypto) where
  unfoldable pub make_timeout : ConsensusState → Outcome Timeout
  make_timeout s = do
    id ← ok_or (local_authority_id s) not_authority
    let t : Timeout = record { high_qc = s.high_qc; view = s.view; voter = id; signature = none }
    signature ← map_err (sign s.keystore id (Timeout.digest c t)) other
    ok (record t { signature = signature })

  unfoldable pub make_proposal : ConsensusState → Payload → Option Tc → Outcome Proposal
  make_proposal s payload tc = do
    id ← ok_or (local_authority_id s) not_authority
    let p : Proposal = Proposal.new s.high_qc tc payload s.view id none
    signature ← map_err (sign s.keystore id (Proposal.digest c p)) other
    ok (record p { signature = signature })

  -- The vote that the keystore's answer gives; `.ok()?` drops a failure's text.
  abbrev vote_with : Vote → External (Option AuthoritySignature) → Option Vote
  vote_with v (success signature) = some (record v { signature = signature })
  vote_with v (failure text) = none

  -- `last_voted_view` is raised before the vote is signed, and stays raised if that fails.
  unfoldable pub make_vote : ConsensusState → Proposal → Option Vote × ConsensusState
  make_vote s p = elim (local_authority_id s) [
    | none ↦ (none, s)
    | some id ↦ if leb p.view s.last_voted_view then (none, s) else (
      let v : Vote = Vote.new (Proposal.digest c p) p.view id in
          vote_with v (sign s.keystore id (Vote.digest c v)),
      record s { last_voted_view = max s.last_voted_view p.view },
    )
  ]

  abbrev pub verify_timeout : ConsensusState → Timeout → Outcome (Unit {0})
  verify_timeout s t = Timeout.verify c t s.authorities

  unfoldable pub verify_proposal : ConsensusState → Proposal → Outcome (Unit {0})
  verify_proposal s p = do
    leader ← view_leader s p.view
    (if not (p.author == leader) then err wrong_proposer else Proposal.verify c p s.authorities)

  unfoldable pub verify_vote : ConsensusState → Vote → Outcome (Unit {0})
  verify_vote s v = if ltb v.view s.view then err expired_vote else Vote.verify c v s.authorities

  unfoldable pub verify_tc : ConsensusState → Tc → Outcome (Unit {0})
  verify_tc s tc = if ltb tc.view s.view then err invalid_tc else Tc.verify c tc s.authorities

  unfoldable pub add_vote : ConsensusState → Vote → Outcome (Option Qc) × ConsensusState
  add_vote s v =
      let (result, a) = Aggregator.add_vote c s.aggregator v s.authorities in
      (result, record s { aggregator = a })

unfoldable pub add_timeout : ConsensusState → Timeout → Outcome (Option Tc) × ConsensusState
add_timeout s t =
    let (result, a) = Aggregator.add_timeout s.aggregator t s.authorities in
    (result, record s { aggregator = a })
