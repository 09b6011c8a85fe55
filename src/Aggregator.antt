-- ===== src/Aggregator.antt =====
-- hotstuff/consensus/src/aggregator.rs: votes and timeouts are collected until they make a
-- certificate. A method that changes its receiver returns its result and the new receiver.
pub mod Votes
pub mod Certified
pub mod Timeouts
pub mod Collection
use madara_hotstuff.Base.{
  ℕ, ◌+◌, ◌*◌, ◌/◌, List, [], ◌∷◌, ◌++◌, Option, none, some, ◌==◌, ltb, if◌then◌else◌, any, length,
  wrap64,
}
use madara_hotstuff.Primitives.{
  AuthorityId, AuthoritySignature, AuthorityList, ViewNumber, null_signature, Outcome, ok, err,
}
use madara_hotstuff.Maps.{HashMap, find_or, insert}
use madara_hotstuff.Crypto.{Crypto}
use madara_hotstuff.Message.Qc.{Qc}
use madara_hotstuff.Message.Tc.{Tc}
use madara_hotstuff.Message.Vote
use madara_hotstuff.Message.Vote.{Vote}
use madara_hotstuff.Message.Timeout.{Timeout}

pub record QcMaker : Type 0 where
  pub weight : ℕ
  pub votes : List (AuthorityId × AuthoritySignature)

abbrev pub new_qc_maker : QcMaker
new_qc_maker = record { weight = 0; votes = [] }

-- `self.weight < (authorities.len() * 2 / 3 + 1) as u64`. A `Vec` is bounded by the address space,
-- so twice its length does not wrap.
abbrev pub threshold : AuthorityList → ℕ
threshold authorities = length authorities * 2 / 3 + 1

-- `QCMaker::append` for a vote that has a signature and a voter who is new here.
append_signed : QcMaker → Vote → AuthoritySignature → AuthorityList → Outcome (Option Qc) × QcMaker
append_signed m vote signature authorities =
    let votes = m.votes ++ (vote.voter, signature) ∷ [] in
    let weight = wrap64 (m.weight + 1) in
    let m' : QcMaker = record { weight = weight; votes = votes } in
    if ltb weight (threshold authorities) then (ok none, m') else (
      ok (some (record { proposal_hash = vote.proposal_hash; view = vote.view; votes = votes })),
      m',
    )

-- `QCMaker::append`.
unfoldable pub append_vote : QcMaker → Vote → AuthorityList → Outcome (Option Qc) × QcMaker
unfolding append_signed
append_vote m vote authorities =
    if any (λ v. v.0 == vote.voter) m.votes then (ok none, m) else elim vote.signature [
      | none ↦ (err null_signature, m)
      | some signature ↦ append_signed m vote signature authorities
    ]

pub record TcMaker : Type 0 where
  pub weight : ℕ
  pub votes : List (AuthorityId × AuthoritySignature × ViewNumber)

abbrev pub new_tc_maker : TcMaker
new_tc_maker = record { weight = 0; votes = [] }

-- `TCMaker::append` for a timeout that has a signature and a voter who is new here.
append_signed_timeout :
    TcMaker → Timeout → AuthoritySignature → AuthorityList → Outcome (Option Tc) × TcMaker
append_signed_timeout m timeout signature authorities =
    let votes = m.votes ++ (timeout.voter, signature, timeout.view) ∷ [] in
    let weight = wrap64 (m.weight + 1) in
    let m' : TcMaker = record { weight = weight; votes = votes } in
    if ltb weight (threshold authorities)
    then (ok none, m')
    else (ok (some (record { view = timeout.view; votes = votes })), m')

-- `TCMaker::append`.
unfoldable pub append_timeout : TcMaker → Timeout → AuthorityList → Outcome (Option Tc) × TcMaker
unfolding append_signed_timeout
append_timeout m timeout authorities =
    if any (λ v. v.0 == timeout.voter) m.votes then (ok none, m) else elim timeout.signature [
      | none ↦ (err null_signature, m)
      | some signature ↦ append_signed_timeout m timeout signature authorities
    ]

pub record Aggregator : Type 0 where
  pub votes_aggregator : HashMap (HashMap QcMaker)
  pub timeouts_aggregators : HashMap TcMaker

abbrev pub new : Aggregator
new = record { votes_aggregator = []; timeouts_aggregators = [] }

-- The maker that `add_vote` reaches through the two maps.
abbrev pub qc_maker : Aggregator → ℕ → ℕ → QcMaker
qc_maker a view d = find_or d new_qc_maker (find_or view [] a.votes_aggregator)

abbrev pub tc_maker : Aggregator → ℕ → TcMaker
tc_maker a view = find_or view new_tc_maker a.timeouts_aggregators

unfoldable pub add_vote :
    Crypto → Aggregator → Vote → AuthorityList → Outcome (Option Qc) × Aggregator
add_vote c a vote authorities =
    let makers = find_or vote.view [] a.votes_aggregator in
    let d = Vote.digest c vote in
    let (result, maker) = append_vote (find_or d new_qc_maker makers) vote authorities in
    (
      result,
      record a { votes_aggregator = insert vote.view (insert d maker makers) a.votes_aggregator },
    )

unfoldable pub add_timeout : Aggregator → Timeout → AuthorityList → Outcome (Option Tc) × Aggregator
add_timeout a timeout authorities =
    let (result, maker) = append_timeout (tc_maker a timeout.view) timeout authorities in
    (result, record a { timeouts_aggregators = insert timeout.view maker a.timeouts_aggregators })
