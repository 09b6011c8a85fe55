-- ===== src/Maps.antt =====
-- A `HashMap` of the standard library, keyed by a number, as an association list. The code reads it
-- only by key, through `entry(key).or_default()`.
use madara_hotstuff.Base.{ℕ, ◌≡◌, refl, List, [], ◌∷◌, ◌==◌, if◌then◌else◌, arith}

abbrev pub HashMap {ℓ} : Type ℓ → Type ℓ
HashMap V = List (ℕ × V)

module _ {ℓ} {V : Type ℓ} where
  -- The value that `entry(k).or_default()` refers to, before it is changed.
  abbrev pub find_or : ℕ → V → HashMap V → V
  find_or k d [] = d
  find_or k d ((j, v) ∷ m) = if j == k then v else find_or k d m

  abbrev pub insert : ℕ → V → HashMap V → HashMap V
  insert k v [] = (k, v) ∷ []
  insert k v ((j, w) ∷ m) = if j == k then (k, v) ∷ m else (j, w) ∷ insert k v m

  pub find_or-insert :
      (k j : ℕ) (d v : V) (m : HashMap V)
      → find_or j d (insert k v m) ≡ (if k == j then v else find_or j d m)
  find_or-insert k j d v [] = refl
  find_or-insert k j d v ((i, w) ∷ m) = ground (arith, find_or-insert k j d v m)
