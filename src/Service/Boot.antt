-- ===== src/Service/Boot.antt =====
-- From a chain specification to a running node: chain_spec.rs, command.rs and service.rs of the node,
-- the pallet's genesis, and `start_hotstuff`.
use madara_hotstuff.Base.{
  ℕ, suc, ◌+◌, ◌-◌, ◌<◌, ◌≤◌, ◌≡◌, ◌⊎◌, refl, ap, ◌∙◌, inl, inr, true, List, [], ◌∷◌, Option, some,
  arith, length, Distinct,
}
use madara_hotstuff.Primitives.{AuthorityId, Hash, success, ok, panicked}
use madara_hotstuff.Platform.{Platform}
use madara_hotstuff.Authorities.{get, block_import, with_weight, block_import_branches}
use madara_hotstuff.Worker.Safety.{IsSafe}
use madara_hotstuff.Node.{Channel, Node, Activity, run_node, timer_duration, start_hotstuff}
use madara_hotstuff.Node.Channels.{ChannelLaws}
use madara_hotstuff.Node.Start.{start_hotstuff-IsSafe}
use madara_hotstuff.Pallet.{Storage, empty_storage}
use madara_hotstuff.Runtime.{Frame, api_authorities}
use madara_hotstuff.Runtime.Genesis.{build_branches}
use madara_hotstuff.ChainSpec.{ChainSpec, RuntimeGenesisConfig}
use madara_hotstuff.Service.{
  genesis_storage, Executor, answer, Setting, new_partial, start_voter, new_full, boot,
}

-- What `Client` documents of the executor: block 0 has a hash, a call runs the runtime on the state
-- at that block, and the codec reads what it wrote.
pub record ExecutorLaws (f : Frame) (x : Executor) : Type 0 where
  pub hash : Hash
  pub known : x.genesis_hash ≡ success hash
  pub called : (s : Storage) → x.call s hash ≡ success (f.encode_ids (api_authorities s))
  pub decoded : (ids : List AuthorityId) → x.decode_ids (f.encode_ids ids) ≡ success ids

module _ (f : Frame) (x : Executor) (laws : ExecutorLaws f x) where
  answer-eq : (s : Storage) → answer x s ≡ success (api_authorities s)
  unfolding get
  answer-eq s = rw (laws.known) (ground (arith, laws.called s, laws.decoded (api_authorities s)))

  genesis_storage-ok :
      (config : RuntimeGenesisConfig)
      → 0 < length config.hotstuff.authorities
      → length config.hotstuff.authorities ≤ 32
      → (s : Storage) × (genesis_storage f config ≡ ok s)
        × (api_authorities s ≡ config.hotstuff.authorities)
  unfolding genesis_storage
  genesis_storage-ok config some_there few = elim (build_branches f config.hotstuff.authorities) [
    | inl (empty, _, _) ↦ absurd (omega (arith, ap length empty))
    | inr (inl (_, _, built, answers)) ↦ (_, rw built refl, answers)
    | inr (inr (many, _)) ↦ absurd (omega arith)
  ]

block_import-ok :
    (ids : List AuthorityId)
    → 0 < length ids
    → block_import (success ids)
      ≡ ok (record { current_authorities = with_weight 1 ids; authority_set_changes = [] })
block_import-ok [] h = absurd (omega arith)
block_import-ok (id ∷ ids) h = (block_import_branches id ids).0

module _ {C : Type 0} (e : Platform C) where
  abbrev pub fuel_for : C → ℕ
  fuel_for client =
      suc ((e.client.info client).best_number - (e.client.info client).finalized_number)

  -- What the start needs of the client and of the timer.
  pub record CanStart (g : Setting) (client : C) : Type 0 where
    pub small : (e.client.info client).best_number + 1 < 4294967296
    pub final : (e.client.info client).finalized_number ≤ (e.client.info client).best_number
    pub known : (n : ℕ) → (h : Option Hash) × (e.client.block_hash_from_id client n ≡ success h)
    pub ticks : g.interval (timer_duration g.parse g.variable) ≡ ok tt
    pub role : g.is_authority ≡ true

module _ {C Q : Type 0} (e : Platform C) (ch : Channel Q) where
  -- The schedule causes no panic, leaves the worker safe and the channel bounded.
  abbrev pub RunsSafely : ChannelLaws ch → ℕ → List Activity → Node C Q → Type 0
  RunsSafely laws fuel activities n =
      ((run_node e ch fuel activities n).0 ≡ ok tt)
      × IsSafe e (run_node e ch fuel activities n).1.worker
      × (length (laws.contents (run_node e ch fuel activities n).1.channel) ≤ 1000)

module _ {C Q : Type 0} (e : Platform C) (ch : Channel Q) (f : Frame) (x : Executor)
    (g : Setting) where
  module _ (client : C) where
    -- A specification whose genesis has between 1 and 32 authorities leaves the start to `new_full`.
    boot-new_full :
        (spec : ChainSpec) (config : RuntimeGenesisConfig)
        → ExecutorLaws f x
        → spec.genesis ≡ ok config
        → 0 < length config.hotstuff.authorities
        → length config.hotstuff.authorities ≤ 32
        → boot e ch (fuel_for e client) g f x spec client
          ≡ new_full e ch (fuel_for e client) g (success config.hotstuff.authorities) client
    unfolding boot
    boot-new_full spec config laws made some_there few =
        let (s, stored, answers) = genesis_storage-ok f x laws config some_there few in
        rw (made, stored, answer-eq f x laws s, answers) refl

    new_full-eq :
        (ids : List AuthorityId)
        → 0 < length ids
        → g.is_authority ≡ true
        → (n : Node C Q)
        → start_hotstuff e ch
            (fuel_for e client)
            g.keystore
            (success ids)
            g.parse
            g.variable
            g.interval
            client
          ≡ ok n
        → new_full e ch (fuel_for e client) g (success ids) client ≡ ok (some n)
    unfolding new_full new_partial start_voter
    new_full-eq ids some_there role n started =
        rw (block_import-ok ids some_there, role, started) refl

  pub boot-IsSafe :
      (laws : ChannelLaws ch) (client : C) (spec : ChainSpec) (config : RuntimeGenesisConfig)
      (fuel : ℕ) (activities : List Activity)
      → 3 ≤ fuel
      → ExecutorLaws f x
      → CanStart e g client
      → spec.genesis ≡ ok config
      → 1 < length config.hotstuff.authorities
      → length config.hotstuff.authorities ≤ 32
      → Distinct config.hotstuff.authorities
      → (n : Node C Q) × (boot e ch (fuel_for e client) g f x spec client ≡ ok (some n))
        × RunsSafely e ch laws fuel activities n
  boot-IsSafe laws client spec config fuel activities enough xl can made two few distinct =
      let ids = config.hotstuff.authorities in
      let (n, started, runs, safe, bounded) =
        start_hotstuff-IsSafe e ch laws g.keystore ids g.parse g.variable g.interval client fuel
          activities enough two distinct can.small can.final can.known can.ticks in
      (
        n,
        boot-new_full client spec config xl made (omega arith) few
            ∙ new_full-eq client ids (omega arith) can.role n started,
        (runs, safe, bounded),
      )

  genesis_storage-too_many :
      (config : RuntimeGenesisConfig)
      → 32 < length config.hotstuff.authorities
      → genesis_storage f config ≡ panicked
  unfolding genesis_storage
  genesis_storage-too_many config many = elim (build_branches f config.hotstuff.authorities) [
    | inl (empty, _, _) ↦ absurd (omega (arith, ap length empty))
    | inr (inl (_, few, _, _)) ↦ absurd (omega arith)
    | inr (inr (_, built)) ↦ rw built refl
  ]

  genesis_storage-empty :
      (config : RuntimeGenesisConfig)
      → config.hotstuff.authorities ≡ []
      → (s : Storage) × (genesis_storage f config ≡ ok s) × (api_authorities s ≡ [])
  unfolding genesis_storage
  genesis_storage-empty config empty = elim (build_branches f config.hotstuff.authorities) [
    | inl (_, built, none_there) ↦ (empty_storage, rw built refl, none_there)
    | inr (inl (some_there, _, _, _)) ↦ absurd (omega (arith, ap length empty))
    | inr (inr (many, _)) ↦ absurd (omega (arith, ap length empty))
  ]

  -- With no authority in the genesis, or with more than 32, no node boots: the start panics, on the
  -- empty list in `block_import` and on the long one when the pallet's genesis is built.
  pub boot-panicked :
      (client : C) (spec : ChainSpec) (config : RuntimeGenesisConfig) (fuel : ℕ)
      → ExecutorLaws f x
      → spec.genesis ≡ ok config
      → (config.hotstuff.authorities ≡ []) ⊎ (32 < length config.hotstuff.authorities)
      → boot e ch fuel g f x spec client ≡ panicked
  unfolding boot new_full new_partial
  boot-panicked client spec config fuel xl made (inl empty) =
      let (s, stored, none_there) = genesis_storage-empty config empty in
      rw (made, stored, answer-eq f x xl s, none_there, (block_import_branches 0 []).3) refl
  boot-panicked client spec config fuel xl made (inr many) =
      rw (made, genesis_storage-too_many config many) refl
