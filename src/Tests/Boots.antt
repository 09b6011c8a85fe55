-- ===== src/Tests/Boots.antt =====
-- The theorems about the start from a chain specification: a key is the first byte of its seed.
use madara_hotstuff.Base.{
  ℕ, ◌≡◌, refl, inl, inr, false, true, [], ◌∷◌, none, some, arith, head?, get_elem?,
}
use madara_hotstuff.Primitives.{Bytes, success, failure, ok, panicked}
use madara_hotstuff.Node.{timer_duration}
use madara_hotstuff.Runtime.{Frame, api_authorities}
use madara_hotstuff.ChainSpec.{Keys, ChainSpec, ChainType, RuntimeGenesisConfig}
use madara_hotstuff.Service.{Executor, Setting, boot}
use madara_hotstuff.Service.Boot.{ExecutorLaws, CanStart, boot-panicked}
use madara_hotstuff.Service.Shipped.{Derivable, Boots, load_spec-Boots}
use madara_hotstuff.Tests.Sample.{platform, keystore}
use madara_hotstuff.Tests.Nodes.{channel, laws, schedule, interval}

abbrev frame : Frame
frame = record {
  is_disabled = λ i. false;
  decode_slot = λ bytes. head? bytes;
  encode_log = λ log. [];
  encode_ids = λ ids. ids;
}

abbrev executor : Executor
executor = record {
  genesis_hash = success 9;
  call = λ s h. success (frame.encode_ids (api_authorities s));
  decode_ids = λ bytes. success bytes;
  call_result_decode = λ text. text;
}

executor_laws : ExecutorLaws frame executor
executor_laws = record { hash = 9; known = refl; called = λ s. refl; decoded = λ ids. refl }

abbrev setting : Setting
setting = record {
  keystore = keystore;
  parse = λ bytes. head? bytes;
  variable = some (2000 ∷ []);
  interval = interval;
  is_authority = true;
}

can : CanStart platform setting []
unfolding timer_duration
can = record {
  small = omega arith;
  final = omega arith;
  known = λ n. (some n, refl);
  ticks = refl;
  role = refl;
}

abbrev initial : Bytes → ℕ
initial [] = 0
initial (b ∷ bytes) = b

abbrev keys : Keys
keys = record {
  aura = λ text. get_elem? text 2;
  hotstuff = λ text. get_elem? text 2;
  sr25519 = λ text. get_elem? text 2;
  into_account = λ key. key;
}

derivable : Derivable keys
derivable = record {
  aura = initial;
  hotstuff = initial;
  account = initial;
  auras = (refl, (refl, (refl, (refl, (refl, (refl, tt))))));
  hotstuffs = (refl, (refl, (refl, (refl, (refl, (refl, tt))))));
  accounts = (
    refl,
    (refl, (refl, (refl, (refl, (refl, (refl, (refl, (refl, (refl, (refl, (refl, tt))))))))))),
  );
  distinct = (refl, (refl, (refl, (refl, (refl, (refl, tt))))));
}

load_spec-Boots_example :
    Boots keys
      (0 ∷ [])
      (λ path. failure [])
      derivable
      platform
      channel
      frame
      executor
      setting
      []
      laws
      []
      3
      schedule
load_spec-Boots_example =
    load_spec-Boots keys (0 ∷ []) (λ path. failure []) derivable platform channel frame executor
      setting [] laws [] 3 schedule (omega arith) (inr (inl refl)) executor_laws can

abbrev no_authority : RuntimeGenesisConfig
no_authority = record {
  code = [];
  balances = [];
  aura_authorities = [];
  sudo_key = none;
  hotstuff = record { authorities = [] };
}

abbrev empty_spec : ChainSpec
empty_spec = record {
  name = [];
  id = [];
  chain_type = ChainType.development;
  genesis = ok no_authority;
}

boot-panicked_example : boot platform channel 3 setting frame executor empty_spec [] ≡ panicked
boot-panicked_example =
    boot-panicked platform channel frame executor setting [] empty_spec no_authority 3 executor_laws
      refl (inl refl)
