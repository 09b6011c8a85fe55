-- ===== src/Service.antt =====
-- node-template/node: the choice of a chain specification (`load_spec`, src/command.rs) and how a node
-- is put together from it (`new_partial` and `new_full`, src/service.rs): what of these concerns the
-- authorities and the two tasks. The executor that runs the runtime's calls is a parameter.
pub mod Boot
pub mod Shipped
use madara_hotstuff.Base.{ℕ, Bool, List, [], ◌∷◌, Option, none, some, ◌||◌, if◌then◌else◌}
use madara_hotstuff.Primitives.{
  AuthorityId, Bytes, Hash, External, success, failure, Outcome, ok, ◌>>=◌,
}
use madara_hotstuff.Crypto.{Keystore}
use madara_hotstuff.Platform.{Platform}
use madara_hotstuff.Authorities.{AuthoritySet, block_import, get}
use madara_hotstuff.Node.{Channel, Node, start_hotstuff}
use madara_hotstuff.Pallet.{Storage, same, build, empty_storage}
use madara_hotstuff.Runtime.{Frame, hotstuff_config}
use madara_hotstuff.ChainSpec.{
  Keys, ChainSpec, RuntimeGenesisConfig, development_config, local_testnet_config,
}

-- `Cli::load_spec`; `from_json_file` reads a specification from a path.
unfoldable pub load_spec :
    Keys → Option Bytes → (Bytes → External ChainSpec) → Bytes → External ChainSpec
load_spec k wasm from_json_file id =
    if same id (b'd' ∷ b'e' ∷ b'v' ∷ [])
    then development_config k wasm
    else if same id [] || same id (b'l' ∷ b'o' ∷ b'c' ∷ b'a' ∷ b'l' ∷ [])
    then local_testnet_config k wasm
    else from_json_file id

abbrev stored : Outcome (Unit {0}) × Storage → Outcome Storage
stored (r, s) = r >>= λ _. ok s

-- The storage that `GenesisConfig::build` leaves for the pallet at block 0.
unfoldable pub genesis_storage : Frame → RuntimeGenesisConfig → Outcome Storage
genesis_storage f config = stored (build (hotstuff_config f) config.hotstuff empty_storage)

-- What the node takes from the client's executor.
pub record Executor : Type 0 where
  pub genesis_hash : External Hash
  -- A call of `HotstuffApi_authorities` at a block, with the pallet's storage at block 0.
  pub call : Storage → Hash → External Bytes
  pub decode_ids : Bytes → External (List AuthorityId)
  pub call_result_decode : Bytes → Bytes

abbrev pub answer : Executor → Storage → External (List AuthorityId)
answer x storage = get x.genesis_hash (x.call storage) x.decode_ids x.call_result_decode

-- The surroundings of a node: its keystore, the variable `HOTSTUFF_DURATION` and how it is parsed,
-- the timer, and whether the node's role is that of an authority.
pub record Setting : Type 0 where
  pub keystore : Keystore
  pub parse : Bytes → Option ℕ
  pub variable : Option Bytes
  pub interval : ℕ → Outcome (Unit {0})
  pub is_authority : Bool

-- What `new_partial` does for the authorities: it loads their set.
unfoldable pub new_partial : External (List AuthorityId) → Outcome AuthoritySet
new_partial runtime_authorities = block_import runtime_authorities

module _ {C Q : Type 0} (e : Platform C) (ch : Channel Q) where
  -- The call of `start_hotstuff` in `new_full`.
  unfoldable pub start_voter : ℕ → Setting → External (List AuthorityId) → C → Outcome (Node C Q)
  start_voter fuel g runtime_authorities client =
      start_hotstuff e ch fuel g.keystore runtime_authorities g.parse g.variable g.interval client

  -- `new_full` starts the two tasks if the node's role is that of an authority.
  unfoldable pub new_full :
      ℕ → Setting → External (List AuthorityId) → C → Outcome (Option (Node C Q))
  new_full fuel g runtime_authorities client = do
    _ ← new_partial runtime_authorities
    (if g.is_authority
        then (do n ← start_voter fuel g runtime_authorities client; ok (some n))
        else ok none)

  -- From the genesis that a specification describes to the node.
  unfoldable pub boot : ℕ → Setting → Frame → Executor → ChainSpec → C → Outcome (Option (Node C Q))
  boot fuel g f x spec client = do
    config ← spec.genesis
    storage ← genesis_storage f config
    new_full fuel g (answer x storage) client
