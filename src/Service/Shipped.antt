-- ===== src/Service/Shipped.antt =====
-- The nodes that start on the specifications that chain_spec.rs ships, chosen by `load_spec`
-- (command.rs of the node).
use madara_hotstuff.Base.{
  ℕ, ◌<◌, ◌≡◌, ◌⊎◌, refl, sym, ap, subst, ◌≤◌, inl, inr, List, [], ◌∷◌, ◌++◌, some, map, arith,
  length, Distinct,
}
use madara_hotstuff.Primitives.{Bytes, External, success, ok}
use madara_hotstuff.Platform.{Platform}
use madara_hotstuff.Node.{Channel, Node, Activity}
use madara_hotstuff.Node.Channels.{ChannelLaws}
use madara_hotstuff.Runtime.{Frame}
use madara_hotstuff.ChainSpec.{
  Keys, ChainSpec, RuntimeGenesisConfig, development_config, local_testnet_config, six, stash,
  testnet_genesis, alice, bob,
}
use madara_hotstuff.ChainSpec.Derived.{Derives, genesis_of-ok}
use madara_hotstuff.Service.{load_spec, Executor, Setting, boot}
use madara_hotstuff.Service.Boot.{ExecutorLaws, CanStart, RunsSafely, boot-IsSafe, fuel_for}

-- The ids by which `load_spec` knows the two specifications.
abbrev pub dev_id : Bytes
dev_id = b'd' ∷ b'e' ∷ b'v' ∷ []

abbrev pub local_id : Bytes
local_id = b'l' ∷ b'o' ∷ b'c' ∷ b'a' ∷ b'l' ∷ []

-- Every key that the two specifications ask for can be derived, and the six authorities' differ.
pub record Derivable (k : Keys) : Type 0 where
  pub aura : Bytes → ℕ
  pub hotstuff : Bytes → ℕ
  pub account : Bytes → ℕ
  pub auras : Derives k.aura aura six
  pub hotstuffs : Derives k.hotstuff hotstuff six
  pub accounts : Derives k.sr25519 account (six ++ map stash six)
  pub distinct : Distinct (map hotstuff six)

module _ (k : Keys) (wasm : Bytes) (from_json_file : Bytes → External ChainSpec)
    (h : Derivable k) where
  -- What a chosen specification describes.
  abbrev Describes : Bytes → List Bytes → Type 0
  Describes id seeds =
      (spec : ChainSpec) × (config : RuntimeGenesisConfig) × (load_spec k (some wasm) from_json_file
          id
        ≡ success spec)
      × (spec.genesis ≡ ok config)
      × (config.hotstuff.authorities ≡ map h.hotstuff seeds)

  development : Describes dev_id (alice ∷ bob ∷ [])
  unfolding load_spec development_config testnet_genesis
  development =
      let a = h.auras in
      let b = h.hotstuffs in
      let c = h.accounts in
      (
        _,
        _,
        refl,
        genesis_of-ok k h.aura h.hotstuff h.account wasm (alice ∷ bob ∷ []) alice
            (alice ∷ bob ∷ stash alice ∷ stash bob ∷ []) (a.0, (a.1.0, tt)) (b.0, (b.1.0, tt))
            (c.0, (c.0, (c.1.0, (c.1.1.1.1.1.1.0, (c.1.1.1.1.1.1.1.0, tt))))),
        refl,
      )

  picked :
      (id : Bytes)
      → (id ≡ []) ⊎ (id ≡ local_id)
      → load_spec k (some wasm) from_json_file id ≡ local_testnet_config k (some wasm)
  unfolding load_spec
  picked id (inl e) = rw e refl
  picked id (inr e) = rw e refl

  local_testnet : (id : Bytes) → (id ≡ []) ⊎ (id ≡ local_id) → Describes id six
  unfolding local_testnet_config testnet_genesis
  local_testnet id chosen = (
    _,
    _,
    picked id chosen,
    genesis_of-ok k h.aura h.hotstuff h.account wasm six alice (six ++ map stash six) h.auras
        h.hotstuffs (h.accounts.0, h.accounts),
    refl,
  )

  module _ {C Q : Type 0} (e : Platform C) (ch : Channel Q) (f : Frame) (x : Executor)
      (g : Setting) where
    abbrev pub Boots : Bytes → ChannelLaws ch → C → ℕ → List Activity → Type 0
    Boots id laws client fuel activities =
        (spec : ChainSpec) × (n : Node C Q) × (load_spec k (some wasm) from_json_file id
          ≡ success spec)
        × (boot e ch (fuel_for e client) g f x spec client ≡ ok (some n))
        × RunsSafely e ch laws fuel activities n

    boots :
        (id : Bytes) (seeds : List Bytes) (laws : ChannelLaws ch) (client : C) (fuel : ℕ)
        (activities : List Activity)
        → 3 ≤ fuel
        → ExecutorLaws f x
        → CanStart e g client
        → 1 < length (map h.hotstuff seeds)
        → length (map h.hotstuff seeds) ≤ 32
        → Distinct (map h.hotstuff seeds)
        → Describes id seeds
        → Boots id laws client fuel activities
    boots id seeds laws client fuel activities enough xl can two few distinct
          (spec, config, loaded, made, keys) =
        let (n, booted, safe) =
          boot-IsSafe e ch f x g laws client spec config fuel activities enough xl can made
            (omega (arith, two, ap length keys)) (omega (arith, few, ap length keys))
            (subst Distinct (sym keys) distinct) in
        (spec, n, loaded, booted, safe)

    -- Let the keys of the shipped specifications be derivable and those of the six authorities
    -- differ, let the executor run the runtime's call on the genesis state, and let the client, the
    -- timer and the role allow a start. Then for each of the ids `dev`, the empty one and `local`
    -- `load_spec` finds a specification and a node boots from it; over every schedule of its two
    -- tasks, with fuel of three or more, its run ends in `ok`, its worker is safe and no more than
    -- 1000 messages wait for it.
    pub load_spec-Boots :
        (id : Bytes) (laws : ChannelLaws ch) (client : C) (fuel : ℕ) (activities : List Activity)
        → 3 ≤ fuel
        → (id ≡ dev_id) ⊎ ((id ≡ []) ⊎ (id ≡ local_id))
        → ExecutorLaws f x
        → CanStart e g client
        → Boots id laws client fuel activities
    load_spec-Boots id laws client fuel activities enough (inl dev) xl can =
        subst (λ i. Boots i laws client fuel activities) (sym dev)
          (boots dev_id (alice ∷ bob ∷ []) laws client fuel activities enough xl can (omega arith)
            (omega arith) (ground (arith, h.distinct.0), (refl, tt)) development)
    load_spec-Boots id laws client fuel activities enough (inr chosen) xl can =
        boots id six laws client fuel activities enough xl can (omega arith) (omega arith)
          h.distinct (local_testnet id chosen)
