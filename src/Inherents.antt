-- ===== src/Inherents.antt =====
-- hotstuff/primitives/src/inherents.rs: the slot as inherent data of a block. The container of
-- inherent data is a parameter.
use madara_hotstuff.Base.{ℕ, [], ◌∷◌, Option}
use madara_hotstuff.Primitives.{Bytes, External}
use madara_hotstuff.Pallet.{Slot}

-- `sp_inherents::InherentData` at the type of slots, and `Slot::from_timestamp`.
pub record InherentOps (D : Type 0) : Type 0 where
  pub get_data : D → Bytes → External (Option Slot)
  pub put_data : Bytes → Slot → D → External (Unit {0}) × D
  pub replace_data : Bytes → Slot → D → D
  pub from_timestamp : ℕ → ℕ → Slot

abbrev pub inherent_identifier : Bytes
inherent_identifier = b'h' ∷ b'o' ∷ b't' ∷ b's' ∷ b's' ∷ b'l' ∷ b'o' ∷ b't' ∷ []

pub record InherentDataProvider : Type 0 where
  pub slot : Slot

abbrev pub new : Slot → InherentDataProvider
new slot = record { slot = slot }

module _ {D : Type 0} (o : InherentOps D) where
  unfoldable pub hotstuff_inherent_data : D → External (Option Slot)
  hotstuff_inherent_data inherents = o.get_data inherents inherent_identifier

  unfoldable pub hotstuff_replace_inherent_data : Slot → D → D
  hotstuff_replace_inherent_data slot inherents = o.replace_data inherent_identifier slot inherents

  unfoldable pub from_timestamp_and_slot_duration : ℕ → ℕ → InherentDataProvider
  from_timestamp_and_slot_duration timestamp duration = new (o.from_timestamp timestamp duration)

  unfoldable pub provide_inherent_data : InherentDataProvider → D → External (Unit {0}) × D
  provide_inherent_data p inherents = o.put_data inherent_identifier p.slot inherents
