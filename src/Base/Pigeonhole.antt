-- ===== src/Base/Pigeonhole.antt =====
-- Sets of numbers as lists: membership by test, no number twice, and the pigeonhole bound.
use Prim.Native.Nat.{ℕ, suc, ◌≤◌}
use mathlib.Core.Path.{◌≡◌, refl}
use mathlib.Core.Logic.{◌≢◌}
use mathlib.Core.Bool.{Bool, true, false, ◌||◌}
use mathlib.Core.List.{List, [], ◌∷◌, ◌++◌}
use native.Mathlib.Omega.{arith}
use madara_hotstuff.Base.Tests.{◌==◌, if◌then◌else◌}
use madara_hotstuff.Base.Lists.{length, All}

abbrev pub contains : List ℕ → ℕ → Bool
contains [] a = false
contains (x ∷ xs) a = x == a || contains xs a

-- No number stands twice.
abbrev pub Distinct : List ℕ → Type 0
Distinct [] = Unit
Distinct (x ∷ xs) = (contains xs x ≡ false) × Distinct xs

pub contains-append :
    (xs ys : List ℕ) (a : ℕ) → contains (xs ++ ys) a ≡ (contains xs a || contains ys a)
contains-append [] ys a = refl
contains-append (x ∷ xs) ys a = ground (arith, contains-append xs ys a)

pub Distinct-append_one :
    (xs : List ℕ) (a : ℕ) → Distinct xs → contains xs a ≡ false → Distinct (xs ++ a ∷ [])
Distinct-append_one [] a d h = (refl, tt)
Distinct-append_one (x ∷ xs) a d h =
    (ground (arith, contains-append xs (a ∷ []) x), Distinct-append_one xs a d.1 (ground arith))

-- The list without the first occurrence of a number.
abbrev remove : ℕ → List ℕ → List ℕ
remove a [] = []
remove a (x ∷ xs) = if x == a then xs else x ∷ remove a xs

length-remove :
    (a : ℕ) (xs : List ℕ) → contains xs a ≡ true → suc (length (remove a xs)) ≡ length xs
length-remove a [] h = ground arith
length-remove a (x ∷ xs) h = ground (arith, length-remove a xs)

contains-remove :
    (a b : ℕ) (xs : List ℕ) → a ≢ b → contains xs b ≡ true → contains (remove a xs) b ≡ true
contains-remove a b [] ne h = h
contains-remove a b (x ∷ xs) ne h = ground (arith, contains-remove a b xs)

All-remove :
    (a : ℕ) (xs ys : List ℕ)
    → contains xs a ≡ false
    → All (λ x. contains ys x ≡ true) xs
    → All (λ x. contains (remove a ys) x ≡ true) xs
All-remove a [] ys n h = tt
All-remove a (x ∷ xs) ys n h =
    (contains-remove a x ys (ground arith) h.0, All-remove a xs ys (ground arith) h.1)

-- Distinct numbers that all stand in a list are at most as many as its items.
pub length-le_of_Distinct :
    (xs ys : List ℕ) → Distinct xs → All (λ x. contains ys x ≡ true) xs → length xs ≤ length ys
length-le_of_Distinct [] ys d h = omega arith
length-le_of_Distinct (x ∷ xs) ys d h = omega (
  arith,
  length-remove x ys h.0,
  length-le_of_Distinct xs (remove x ys) d.1 (All-remove x xs ys d.0 h.1),
)
