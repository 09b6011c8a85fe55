-- ===== src/Runtime.antt =====
-- node-template/runtime/src/lib.rs: the constants of the runtime, the configuration of the pallet in
-- it and the runtime's side of `HotstuffApi`.
pub mod Genesis
use madara_hotstuff.Base.{ℕ, ◌*◌, ◌/◌, Bool, false, List, Option}
use madara_hotstuff.Primitives.{AuthorityId, Bytes}
use madara_hotstuff.Pallet
use madara_hotstuff.Pallet.{Config, ConsensusLog, Slot, Storage}

-- What the runtime takes from FRAME and from the codec.
pub record Frame : Type 0 where
  -- `DisabledValidators` of the type `()`.
  pub is_disabled : ℕ → Bool
  pub decode_slot : Bytes → Option Slot
  pub encode_log : ConsensusLog → Bytes
  -- The encoding of what `HotstuffApi_authorities` returns.
  pub encode_ids : List AuthorityId → Bytes

abbrev pub millisecs_per_block : ℕ
millisecs_per_block = 6000

abbrev pub slot_duration : ℕ
slot_duration = millisecs_per_block

-- Numbers of blocks, as `u32`.
abbrev pub minutes : ℕ
minutes = 60000 / millisecs_per_block

abbrev pub hours : ℕ
hours = minutes * 60

abbrev pub days : ℕ
days = hours * 24

-- `MinimumPeriod` of `pallet_timestamp`.
abbrev pub minimum_period : ℕ
minimum_period = slot_duration / 2

-- `impl pallet_hotstuff::Config for Runtime`, over that of `pallet_timestamp`.
abbrev pub hotstuff_config : Frame → Config
hotstuff_config f = record {
  max_authorities = 32;
  is_disabled = f.is_disabled;
  allow_multiple_blocks_per_slot = false;
  minimum_period = minimum_period;
  decode_slot = f.decode_slot;
  encode_log = f.encode_log;
}

-- `HotstuffApi::slot_duration` and `HotstuffApi::authorities`.
unfoldable pub api_slot_duration : Frame → ℕ
api_slot_duration f = Pallet.slot_duration (hotstuff_config f)

unfoldable pub api_authorities : Storage → List AuthorityId
api_authorities s = Pallet.authorities s
