-- ===== src/ChainSpec/Derived.antt =====
-- What the specifications of chain_spec.rs contain, where every key can be derived.
use madara_hotstuff.Base.{ℕ, true, ◌≡◌, refl, arith, Option, some, List, [], ◌∷◌, map, All}
use madara_hotstuff.Primitives.{Bytes, Outcome, ok}
use madara_hotstuff.ChainSpec.{
  Keys, get_from_seed, vec, genesis_of, authority_keys_from_seed, get_account_id_from_seed,
  testnet_genesis,
}

-- A key for each of the seeds.
abbrev pub Derives : (Bytes → Option ℕ) → (Bytes → ℕ) → List Bytes → Type 0
Derives public key seeds = All (λ s. public (b'/' ∷ b'/' ∷ s) ≡ some (key s)) seeds

get_from_seed-ok :
    (public : Bytes → Option ℕ) (seed : Bytes) {key : ℕ}
    → public (b'/' ∷ b'/' ∷ seed) ≡ some key
    → get_from_seed public seed ≡ ok key
unfolding get_from_seed
get_from_seed-ok public seed h = ground arith

vec-ok :
    {A B : Type 0} (f : A → Outcome B) (g : A → B) (xs : List A)
    → All (λ x. f x ≡ ok (g x)) xs
    → vec f xs ≡ ok (map g xs)
vec-ok f g [] h = refl
vec-ok f g (x ∷ xs) h = rw (h.0, vec-ok f g xs h.1)

module _ (k : Keys) (aura hotstuff account : Bytes → ℕ) where
  authorities-ok :
      (seeds : List Bytes)
      → Derives k.aura aura seeds
      → Derives k.hotstuff hotstuff seeds
      → All (λ s. authority_keys_from_seed k s ≡ ok (aura s, hotstuff s)) seeds
  unfolding authority_keys_from_seed
  authorities-ok [] ha hh = tt
  authorities-ok (s ∷ seeds) ha hh = (
    rw (get_from_seed-ok k.aura s ha.0, get_from_seed-ok k.hotstuff s hh.0),
    authorities-ok seeds ha.1 hh.1,
  )

  accounts-ok :
      (seeds : List Bytes)
      → Derives k.sr25519 account seeds
      → All (λ s. get_account_id_from_seed k s ≡ ok (k.into_account (account s))) seeds
  unfolding get_account_id_from_seed
  accounts-ok [] h = tt
  accounts-ok (s ∷ seeds) h = (rw (get_from_seed-ok k.sr25519 s h.0), accounts-ok seeds h.1)

  -- A genesis whose keys can all be derived.
  pub genesis_of-ok :
      (wasm : Bytes) (authorities : List Bytes) (root : Bytes) (endowed : List Bytes)
      → Derives k.aura aura authorities
      → Derives k.hotstuff hotstuff authorities
      → Derives k.sr25519 account (root ∷ endowed)
      → genesis_of k wasm authorities root endowed
        ≡ ok (
            testnet_genesis wasm
              (map (λ s. (aura s, hotstuff s)) authorities)
              (k.into_account (account root))
              (map (λ s. k.into_account (account s)) endowed)
              true)
  unfolding genesis_of
  genesis_of-ok wasm authorities root endowed ha hh hs = rw (
    vec-ok (authority_keys_from_seed k) (λ s. (aura s, hotstuff s)) authorities
        (authorities-ok authorities ha hh),
    (accounts-ok (root ∷ endowed) hs).0,
    vec-ok (get_account_id_from_seed k) (λ s. k.into_account (account s)) endowed
        (accounts-ok endowed hs.1),
  )
