-- ===== src/ChainSpec.antt =====
-- node-template/node/src/chain_spec.rs: the chain specifications that the node is shipped with, and
-- the genesis state that they describe. A text is the list of its bytes.
pub mod Derived
use madara_hotstuff.Base.{ℕ, ◌^◌, Bool, true, List, [], ◌∷◌, ◌++◌, Option, none, some, map}
use madara_hotstuff.Primitives.{
  AuthorityId, Bytes, External, success, failure, Outcome, ok, panicked, ◌>>=◌,
}
use madara_hotstuff.Pallet.{GenesisConfig}

abbrev pub AccountId : Type 0
AccountId = ℕ

abbrev pub AuraId : Type 0
AuraId = ℕ

-- `Pair::from_string(..)` followed by `public()`, for each type of key, and
-- `AccountPublic::from(..).into_account()`: code outside the repository.
pub record Keys : Type 0 where
  pub aura : Bytes → Option AuraId
  pub hotstuff : Bytes → Option AuthorityId
  pub sr25519 : Bytes → Option ℕ
  pub into_account : ℕ → AccountId

-- The fields that `testnet_genesis` sets; `transaction_payment` is left to its default.
pub record RuntimeGenesisConfig : Type 0 where
  pub code : Bytes
  pub balances : List (AccountId × ℕ)
  pub aura_authorities : List AuraId
  pub sudo_key : Option AccountId
  pub hotstuff : GenesisConfig

pub data ChainType : Type 0 where
  development local_testnet : ChainType

-- `GenericChainSpec::from_genesis`; the genesis is what the closure returns when it is called.
pub record ChainSpec : Type 0 where
  pub name : Bytes
  pub id : Bytes
  pub chain_type : ChainType
  pub genesis : Outcome RuntimeGenesisConfig

-- `get_from_seed`: the key of `//` and the seed; `expect` panics where there is none.
unfoldable pub get_from_seed : (Bytes → Option ℕ) → Bytes → Outcome ℕ
get_from_seed public seed = elim (public (b'/' ∷ b'/' ∷ seed)) [
  | none ↦ panicked
  | some key ↦ ok key
]

-- The items of a `vec!` that are calls, made in their order.
abbrev pub vec : {A B : Type 0} → (A → Outcome B) → List A → Outcome (List B)
vec f [] = ok []
vec f (x ∷ xs) = do y ← f x; ys ← vec f xs; ok (y ∷ ys)

abbrev pub alice : Bytes
alice = b'A' ∷ b'l' ∷ b'i' ∷ b'c' ∷ b'e' ∷ []

abbrev pub bob : Bytes
bob = b'B' ∷ b'o' ∷ b'b' ∷ []

abbrev pub charlie : Bytes
charlie = b'C' ∷ b'h' ∷ b'a' ∷ b'r' ∷ b'l' ∷ b'i' ∷ b'e' ∷ []

abbrev pub dave : Bytes
dave = b'D' ∷ b'a' ∷ b'v' ∷ b'e' ∷ []

abbrev pub eve : Bytes
eve = b'E' ∷ b'v' ∷ b'e' ∷ []

abbrev pub ferdie : Bytes
ferdie = b'F' ∷ b'e' ∷ b'r' ∷ b'd' ∷ b'i' ∷ b'e' ∷ []

-- `//stash`, after a name.
abbrev pub stash : Bytes → Bytes
stash seed = seed ++ (b'/' ∷ b'/' ∷ b's' ∷ b't' ∷ b'a' ∷ b's' ∷ b'h' ∷ [])

module _ (k : Keys) where
  unfoldable pub get_account_id_from_seed : Bytes → Outcome AccountId
  get_account_id_from_seed seed = do key ← get_from_seed k.sr25519 seed; ok (k.into_account key)

  unfoldable pub authority_keys_from_seed : Bytes → Outcome (AuraId × AuthorityId)
  authority_keys_from_seed seed = do
    aura ← get_from_seed k.aura seed
    hotstuff ← get_from_seed k.hotstuff seed
    ok (aura, hotstuff)

-- `testnet_genesis`: every endowed account has `1 << 60`, and the pairs of keys are split.
unfoldable pub testnet_genesis :
    Bytes → List (AuraId × AuthorityId) → AccountId → List AccountId → Bool → RuntimeGenesisConfig
testnet_genesis wasm_binary initial_authorities root_key endowed_accounts enable_println = record {
  code = wasm_binary;
  balances = map (λ k. (k, 2 ^ 60)) endowed_accounts;
  aura_authorities = map (λ x. x.0) initial_authorities;
  sudo_key = some root_key;
  hotstuff = record { authorities = map (λ x. x.1) initial_authorities };
}

-- The closure that both specifications pass on: the keys of the authorities, of the root account
-- and of the endowed accounts are derived in this order.
unfoldable pub genesis_of :
    Keys → Bytes → List Bytes → Bytes → List Bytes → Outcome RuntimeGenesisConfig
genesis_of k wasm authorities root endowed = do
  initial_authorities ← vec (authority_keys_from_seed k) authorities
  root_key ← get_account_id_from_seed k root
  endowed_accounts ← vec (get_account_id_from_seed k) endowed
  ok (testnet_genesis wasm initial_authorities root_key endowed_accounts true)

-- The text of the error for a missing `WASM_BINARY`.
abbrev pub no_wasm : Bytes
no_wasm =
    b'D' ∷ b'e' ∷ b'v' ∷ b'e' ∷ b'l' ∷ b'o' ∷ b'p' ∷ b'm' ∷ b'e' ∷ b'n' ∷ b't' ∷ 32 ∷ b'w' ∷ b'a'
    ∷ b's' ∷ b'm' ∷ 32 ∷ b'n' ∷ b'o' ∷ b't' ∷ 32 ∷ b'a' ∷ b'v' ∷ b'a' ∷ b'i' ∷ b'l' ∷ b'a' ∷ b'b'
    ∷ b'l' ∷ b'e' ∷ []

unfoldable pub development_config : Keys → Option Bytes → External ChainSpec
development_config k none = failure no_wasm
development_config k (some wasm) = success (record {
  name = b'D' ∷ b'e' ∷ b'v' ∷ b'e' ∷ b'l' ∷ b'o' ∷ b'p' ∷ b'm' ∷ b'e' ∷ b'n' ∷ b't' ∷ [];
  id = b'd' ∷ b'e' ∷ b'v' ∷ [];
  chain_type = ChainType.development;
  genesis = genesis_of k wasm (alice ∷ bob ∷ []) alice (alice ∷ bob ∷ stash alice ∷ stash bob ∷ []);
})

abbrev pub six : List Bytes
six = alice ∷ bob ∷ charlie ∷ dave ∷ eve ∷ ferdie ∷ []

unfoldable pub local_testnet_config : Keys → Option Bytes → External ChainSpec
local_testnet_config k none = failure no_wasm
local_testnet_config k (some wasm) = success (record {
  name =
      b'L' ∷ b'o' ∷ b'c' ∷ b'a' ∷ b'l' ∷ 32 ∷ b'T' ∷ b'e' ∷ b's' ∷ b't' ∷ b'n' ∷ b'e' ∷ b't' ∷ [];
  id =
      b'l' ∷ b'o' ∷ b'c' ∷ b'a' ∷ b'l' ∷ b'_' ∷ b't' ∷ b'e' ∷ b's' ∷ b't' ∷ b'n' ∷ b'e' ∷ b't' ∷ [];
  chain_type = ChainType.local_testnet;
  genesis = genesis_of k wasm six alice (six ++ map stash six);
})
