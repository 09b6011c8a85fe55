-- ===== src/Registry/Push.antt =====
-- `Payload::push_raw` (hotstuff/primitives/src/payload.rs): what is found after it.
use madara_hotstuff.Base.{
  ℕ, ◌<◌, ◌≡◌, refl, ap, sym, ◌∙◌, inl, inr, List, [], ◌∷◌, ◌++◌, none, some, arith, All, All-map,
  ◌==◌, ltb, ltb→lt, Bool-cases, if◌then◌else◌,
}
use mathlib.Core.List.{append-nil, append_assoc}
use madara_hotstuff.Primitives.{Bytes}
use madara_hotstuff.Registry.{
  Entry, HotstuffPayloadId, Payload, insert_after, sort_into, push_raw, get_raw,
}
use madara_hotstuff.Registry.Lookup.{Ascending, lookup, get_raw-eq-lookup}

-- Inserting behind a list of lower ids appends.
insert_after-last :
    (e : Entry) (xs : List Entry) → All (λ x. x.0 < e.0) xs → insert_after e xs ≡ xs ++ e ∷ []
unfolding insert_after
insert_after-last e [] h = refl
insert_after-last e (x ∷ xs) h = ground (arith, h.0, insert_after-last e xs h.1)

sort_into-append :
    (sorted xs ys : List Entry) → sort_into sorted (xs ++ ys) ≡ sort_into (sort_into sorted xs) ys
unfolding sort_into
sort_into-append sorted [] ys = refl
sort_into-append sorted (x ∷ xs) ys = sort_into-append (insert_after x sorted) xs ys

-- In a list of rising ids the last one is above all others.
last_is_above :
    (xs : List Entry) (e : Entry) (ys : List Entry)
    → Ascending (xs ++ e ∷ ys)
    → All (λ x. x.0 < e.0) xs
last_is_above [] e ys h = tt
last_is_above (x ∷ xs) e ys h = (front xs h.0, last_is_above xs e ys h.1)
  where
    front : (us : List Entry) → All (λ y. x.0 < y.0) (us ++ e ∷ ys) → x.0 < e.0
    front [] k = k.0
    front (u ∷ us) k = front us k.1

-- A list that is sorted already stays as it is.
sort_into-Ascending :
    (sorted xs : List Entry) → Ascending (sorted ++ xs) → sort_into sorted xs ≡ sorted ++ xs
unfolding sort_into
sort_into-Ascending sorted [] h = sym (append-nil sorted)
sort_into-Ascending sorted (x ∷ xs) h =
    rw (insert_after-last x sorted (last_is_above sorted x xs h)) (
      sort_into-Ascending (sorted ++ x ∷ []) xs (rw append_assoc h)
      ∙ append_assoc sorted (x ∷ []) xs)

module _ (e : Entry) where
  All-insert_after :
      (low : ℕ) (xs : List Entry)
      → low < e.0
      → All (λ y. low < y.0) xs
      → All (λ y. low < y.0) (insert_after e xs)
  unfolding insert_after
  All-insert_after low [] h hs = (h, tt)
  All-insert_after low (x ∷ xs) h hs = elim (Bool-cases (ltb e.0 x.0)) [
    | inl before ↦ rw before (h, hs)
    | inr after ↦ rw after (hs.0, All-insert_after low xs h hs.1)
  ]

  insert_after-Ascending :
      (xs : List Entry) → Ascending xs → lookup e.0 xs ≡ none → Ascending (insert_after e xs)
  unfolding insert_after
  insert_after-Ascending [] h fresh = (tt, tt)
  insert_after-Ascending (x ∷ xs) h fresh = elim (Bool-cases (ltb e.0 x.0)) [
    | inl before ↦
        let less = ltb→lt e.0 x.0 before in
        rw before ((less, All-map (λ y. x.0 < y.0) (λ y. e.0 < y.0) xs (λ y k. omega arith) h.0), h)
    | inr after ↦
        let above : x.0 < e.0 = ground (arith, fresh, after) in
        let rest : lookup e.0 xs ≡ none = ground (arith, fresh) in
        rw after (All-insert_after x.0 xs above h.0, insert_after-Ascending xs h.1 rest)
  ]

  lookup-insert_after :
      (k : HotstuffPayloadId) (xs : List Entry)
      → Ascending xs
      → lookup e.0 xs ≡ none
      → lookup k (insert_after e xs) ≡ (if e.0 == k then some e.1 else lookup k xs)
  unfolding insert_after
  lookup-insert_after k [] h fresh = refl
  lookup-insert_after k (x ∷ xs) h fresh = elim (Bool-cases (ltb e.0 x.0)) [
    | inl before ↦ rw before refl
    | inr after ↦
        let above : x.0 < e.0 = ground (arith, fresh, after) in
        let rest : lookup e.0 xs ≡ none = ground (arith, fresh) in
        rw after (ground (arith, lookup-insert_after k xs h.1 rest))
  ]

push_raw-entries :
    (p : Payload) (id : HotstuffPayloadId) (value : Bytes)
    → Ascending p.entries
    → (push_raw p id value).entries ≡ insert_after (id, value) p.entries
unfolding push_raw sort_into
push_raw-entries p id value h =
    sort_into-append [] p.entries ((id, value) ∷ [])
    ∙ ap (insert_after (id, value)) (sort_into-Ascending [] p.entries h)

-- For a payload with rising ids and an id that it does not hold, `push_raw` gives a payload with
-- rising ids in which `get_raw`, by binary search, finds the new value under that id and under every
-- other id what it found before.
pub get_raw-push_raw :
    (p : Payload) (id : HotstuffPayloadId) (value : Bytes)
    → Ascending p.entries
    → get_raw p id ≡ none
    → Ascending (push_raw p id value).entries
      × ((k : HotstuffPayloadId)
          → get_raw (push_raw p id value) k ≡ (if id == k then some value else get_raw p k))
get_raw-push_raw p id value h absent = (rw pushed rising, found_then)
  where
    e : Entry
    e = (id, value)

    pushed : (push_raw p id value).entries ≡ insert_after e p.entries
    pushed = push_raw-entries p id value h

    fresh : lookup id p.entries ≡ none
    fresh = sym (get_raw-eq-lookup p id h) ∙ absent

    rising : Ascending (insert_after e p.entries)
    rising = insert_after-Ascending e p.entries h fresh

    found_then :
        (k : HotstuffPayloadId)
        → get_raw (push_raw p id value) k ≡ (if id == k then some value else get_raw p k)
    found_then k =
        get_raw-eq-lookup (push_raw p id value) k (rw pushed rising)
        ∙ ap (lookup k) pushed
        ∙ lookup-insert_after e k p.entries h fresh
        ∙ ap (λ r. if id == k then some value else r) (sym (get_raw-eq-lookup p k h))
