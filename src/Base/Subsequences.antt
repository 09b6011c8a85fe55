-- ===== src/Base/Subsequences.antt =====
-- Lists whose items stand in another list in their order.
use Prim.Native.Nat.{ℕ, zero, suc}
use mathlib.Core.List.{List, [], ◌∷◌, ◌++◌}
use madara_hotstuff.Base.Lists.{take}

pub data Subsequence {A : Type 0} : List A → List A → Type 0 where
  end : Subsequence [] []
  keep : {xs ys : List A} (x : A) → Subsequence xs ys → Subsequence (x ∷ xs) (x ∷ ys)
  skip : {xs ys : List A} (y : A) → Subsequence xs ys → Subsequence xs (y ∷ ys)

pub nothing-Subsequence : {A : Type 0} (ys : List A) → Subsequence [] ys
nothing-Subsequence [] = end
nothing-Subsequence (y ∷ ys) = skip y (nothing-Subsequence ys)

pub take-Subsequence : {A : Type 0} (n : ℕ) (xs : List A) → Subsequence (take n xs) xs
take-Subsequence zero xs = nothing-Subsequence xs
take-Subsequence (suc n) [] = end
take-Subsequence (suc n) (x ∷ xs) = keep x (take-Subsequence n xs)

pub append-Subsequence :
    {A : Type 0} {xs ys us vs : List A}
    → Subsequence xs ys
    → Subsequence us vs
    → Subsequence (xs ++ us) (ys ++ vs)
append-Subsequence end t = t
append-Subsequence (keep x s) t = keep x (append-Subsequence s t)
append-Subsequence (skip y s) t = skip y (append-Subsequence s t)
