-- ===== src/Registry.antt =====
-- hotstuff/primitives/src/payload.rs: values under ids of two bytes, sorted by id. An id is read as
-- the number whose high byte is its first, so that ids compare as the code compares them. The file
-- is not a module of the crate.
pub mod Lookup
pub mod Push
use madara_hotstuff.Base.{
  ℕ, zero, suc, ◌+◌, ◌-◌, ◌/◌, Bool, not, List, [], ◌∷◌, ◌++◌, Option, none, some, ◌==◌, ltb,
  if◌then◌else◌, length, get_elem?,
}
use madara_hotstuff.Primitives.{Bytes, External, success, failure}

abbrev pub HotstuffPayloadId : Type 0
HotstuffPayloadId = ℕ

-- The bytes of `b"mh"`.
abbrev pub mmr_root_id : HotstuffPayloadId
mmr_root_id = 0x6d68

abbrev pub Entry : Type 0
Entry = HotstuffPayloadId × Bytes

pub record Payload : Type 0 where
  pub entries : List Entry

unfoldable pub from_single_entry : HotstuffPayloadId → Bytes → Payload
from_single_entry id value = record { entries = (id, value) ∷ [] }

-- How `binary_search_by` ends; `exhausted` says that the fuel ran out.
pub data Search : Type 0 where
  found : ℕ → Search
  missing : ℕ → Search
  out_of_range : Search
  exhausted : Search

-- The loop of `slice::binary_search_by`: the range from `left` to `right` is halved.
unfoldable pub binary_search : ℕ → List Entry → HotstuffPayloadId → ℕ → ℕ → Search
binary_search zero entries id left right = exhausted
binary_search (suc fuel) entries id left right =
    let mid = left + (right - left) / 2 in
    let upper = binary_search fuel entries id (mid + 1) right in
    let lower = binary_search fuel entries id left mid in
    if not (ltb left right) then missing left else elim (get_elem? entries mid) [
      | none ↦ out_of_range
      | some probe ↦ if probe.0 == id then found mid else if ltb probe.0 id then upper else lower
    ]

abbrev pub value_of : Option Entry → Option Bytes
value_of none = none
value_of (some entry) = some entry.1

-- The value at the index that was found.
abbrev pub raw_at : List Entry → Search → Option Bytes
raw_at entries (found i) = value_of (get_elem? entries i)
raw_at entries (missing i) = none
raw_at entries out_of_range = none
raw_at entries exhausted = none

-- `Payload::get_raw`.
unfoldable pub get_raw : Payload → HotstuffPayloadId → Option Bytes
get_raw p id =
    raw_at p.entries (binary_search (length p.entries + 1) p.entries id 0 (length p.entries))

abbrev pub decoded : {A : Type 0} → (Bytes → External A) → Option Bytes → Option A
decoded decode none = none
decoded decode (some raw) = elim (decode raw) [ success a ↦ some a | failure text ↦ none ]

-- `Payload::get_decoded`, by the decoder of a type.
unfoldable pub get_decoded :
    {A : Type 0} → (Bytes → External A) → Payload → HotstuffPayloadId → Option A
get_decoded decode p id = decoded decode (get_raw p id)

-- An entry after all those whose id is not above its own.
unfoldable pub insert_after : Entry → List Entry → List Entry
insert_after entry [] = entry ∷ []
insert_after entry (x ∷ xs) =
    let rest = insert_after entry xs in if ltb entry.0 x.0 then entry ∷ x ∷ xs else x ∷ rest

-- `slice::sort_by_key`, which is stable: here, insertion of one entry after the other.
unfoldable pub sort_into : List Entry → List Entry → List Entry
sort_into sorted [] = sorted
sort_into sorted (x ∷ xs) = sort_into (insert_after x sorted) xs

-- `Payload::push_raw`.
unfoldable pub push_raw : Payload → HotstuffPayloadId → Bytes → Payload
push_raw p id value = record { entries = sort_into [] (p.entries ++ (id, value) ∷ []) }
