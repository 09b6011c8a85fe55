-- ===== src/Registry/Lookup.antt =====
-- The binary search of `Payload::get_raw` (hotstuff/primitives/src/payload.rs) against a look-up
-- from the front.
use madara_hotstuff.Base.{
  ℕ, zero, suc, ◌+◌, ◌-◌, ◌/◌, ◌<◌, ◌≤◌, ◌≡◌, ◌≢◌, refl, subst, List, [], ◌∷◌, Option, none, some,
  arith, All, length, get_elem?, get_elem?-some, ◌==◌, if◌then◌else◌,
}
use native.Mathlib.Decide.{dec_lt}
use madara_hotstuff.Primitives.{Bytes}
use madara_hotstuff.Registry.{Entry, HotstuffPayloadId, Payload, binary_search, raw_at, get_raw}

-- The ids rise, so that none stands twice.
abbrev pub Ascending : List Entry → Type 0
Ascending [] = Unit
Ascending (x ∷ xs) = All (λ y. x.0 < y.0) xs × Ascending xs

-- The first value under an id.
abbrev pub lookup : HotstuffPayloadId → List Entry → Option Bytes
lookup id [] = none
lookup id (x ∷ xs) = if x.0 == id then some x.1 else lookup id xs

All-get_elem? :
    (P : Entry → Type 0) (xs : List Entry) (i : ℕ) {a : Entry}
    → All P xs
    → get_elem? xs i ≡ some a
    → P a
All-get_elem? P [] i h e = cc
All-get_elem? P (x ∷ xs) zero h e = subst P (cc) h.0
All-get_elem? P (x ∷ xs) (suc i) h e = All-get_elem? P xs i h.1 e

order_of_indices :
    (xs : List Entry) (i j : ℕ) {a b : Entry}
    → Ascending xs
    → get_elem? xs i ≡ some a
    → get_elem? xs j ≡ some b
    → i < j
    → a.0 < b.0
order_of_indices [] i j h ea eb less = cc
order_of_indices (x ∷ xs) i zero h ea eb less = absurd (omega arith)
order_of_indices (x ∷ xs) zero (suc j) {a} {b} h ea eb less =
    let later : x.0 < b.0 = All-get_elem? (λ y. x.0 < y.0) xs j h.0 eb in ground arith
order_of_indices (x ∷ xs) (suc i) (suc j) h ea eb less =
    order_of_indices xs i j h.1 ea eb (omega arith)

lookup-found :
    (xs : List Entry) (i : ℕ) {a : Entry}
    → Ascending xs
    → get_elem? xs i ≡ some a
    → lookup a.0 xs ≡ some a.1
lookup-found [] i h e = cc
lookup-found (x ∷ xs) zero h e = ground arith
lookup-found (x ∷ xs) (suc i) {a} h e =
    let later : x.0 < a.0 = All-get_elem? (λ y. x.0 < y.0) xs i h.0 e in
    ground (arith, lookup-found xs i h.1 e)

lookup-missing :
    (xs : List Entry) (id : ℕ)
    → ((i : ℕ) (a : Entry) → get_elem? xs i ≡ some a → a.0 ≢ id)
    → lookup id xs ≡ none
lookup-missing [] id h = refl
lookup-missing (x ∷ xs) id h =
    ground (arith, h 0 x refl, lookup-missing xs id (λ i a e. h (suc i) a e))

-- Every entry before an index has a lower id, and every entry from an index on a higher one.
abbrev Below : List Entry → ℕ → ℕ → Type 0
Below xs id left = (j : ℕ) (a : Entry) → get_elem? xs j ≡ some a → j < left → a.0 < id

abbrev Above : List Entry → ℕ → ℕ → Type 0
Above xs id right = (j : ℕ) (a : Entry) → get_elem? xs j ≡ some a → right ≤ j → id < a.0

module _ (xs : List Entry) (id : ℕ) (h : Ascending xs) where
  Below-step : (mid : ℕ) (p : Entry) → get_elem? xs mid ≡ some p → p.0 < id → Below xs id (mid + 1)
  Below-step mid p e less j a there before = elim (dec_lt j mid) [
    | yes earlier ↦ omega (arith, order_of_indices xs j mid h there e earlier)
    | no later ↦ let same : j ≡ mid = omega arith in ground (arith, there, e)
  ]

  Above-step : (mid : ℕ) (p : Entry) → get_elem? xs mid ≡ some p → id < p.0 → Above xs id mid
  Above-step mid p e more j a there after = elim (dec_lt mid j) [
    | yes later ↦ omega (arith, order_of_indices xs mid j h e there later)
    | no earlier ↦ let same : j ≡ mid = omega arith in ground (arith, there, e)
  ]

  nothing_left :
      (left right : ℕ) → right ≤ left → Below xs id left → Above xs id right → lookup id xs ≡ none
  nothing_left left right over below above = lookup-missing xs id apart
    where
      apart : (i : ℕ) (a : Entry) → get_elem? xs i ≡ some a → a.0 ≢ id
      apart i a there same = elim (dec_lt i left) [
        | yes before ↦ omega (arith, below i a there before)
        | no after ↦ omega (arith, above i a there (omega arith))
      ]

  -- With enough fuel the search answers what a look-up from the front finds.
  binary_search_lem :
      (fuel left right : ℕ)
      → right ≤ length xs
      → right < left + fuel
      → Below xs id left
      → Above xs id right
      → raw_at xs (binary_search fuel xs id left right) ≡ lookup id xs
  unfolding binary_search
  binary_search_lem zero left right fits few below above =
      rw (nothing_left left right (omega arith) below above) refl
  binary_search_lem (suc fuel) left right fits few below above = elim (dec_lt left right) [
    | yes open_range ↦
        let mid = left + (right - left) / 2 in
        let (p, e) = get_elem?-some xs mid (omega arith) in
        elim (dec_lt p.0 id) [
          | yes less ↦ ground (
            arith,
            e,
            binary_search_lem fuel (mid + 1) right fits (omega arith) (Below-step mid p e less)
                above,
          )
          | no at_least ↦ elim (dec_lt id p.0) [
            | yes more ↦ ground (
              arith,
              e,
              binary_search_lem fuel left mid (omega arith) (omega arith) below
                  (Above-step mid p e more),
            )
            | no at_most ↦
                let hit : p.0 ≡ id = omega arith in ground (arith, e, hit, lookup-found xs mid h e)
          ]
        ]
    | no closed ↦ rw (nothing_left left right (omega arith) below above) (ground arith)
  ]

-- For a payload with rising ids the binary search finds what a look-up from the front finds.
pub get_raw-eq-lookup :
    (p : Payload) (id : HotstuffPayloadId)
    → Ascending p.entries
    → get_raw p id ≡ lookup id p.entries
unfolding get_raw
get_raw-eq-lookup p id h =
    binary_search_lem p.entries id h (length p.entries + 1) 0 (length p.entries) (omega arith)
      (omega arith) (λ j a there before. absurd (omega arith))
      (λ j a there after. beyond p.entries j there after)
  where
    beyond :
        (xs : List Entry) (j : ℕ) {a : Entry} → get_elem? xs j ≡ some a → length xs ≤ j → id < a.0
    beyond [] j e long = cc
    beyond (x ∷ xs) zero e long = absurd (omega arith)
    beyond (x ∷ xs) (suc j) e long = beyond xs j e (omega arith)
