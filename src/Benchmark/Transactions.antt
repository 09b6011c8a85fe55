-- ===== src/Benchmark/Transactions.antt =====
-- The bytes of a transaction of the benchmark client (client.rs of the node) tell its tag and its
-- number.
use madara_hotstuff.Base.{
  ℕ, zero, suc, ◌+◌, ◌*◌, ◌/◌, ◌%◌, ◌<◌, ◌≤◌, ◌≡◌, refl, sym, ap, ◌∙◌, [], ◌∷◌, ◌++◌, arith, length,
  length-append, u64_mod,
}
use madara_hotstuff.Primitives.{Bytes}
use mathlib.Core.List.{append-nil, append_assoc}
use madara_hotstuff.Benchmark.{big_endian, resize, transaction}

pub length-resize : (n : ℕ) (bytes : Bytes) → length (resize n bytes) ≡ n
unfolding resize
length-resize zero bytes = refl
length-resize (suc n) [] = omega (arith, length-resize n [])
length-resize (suc n) (b ∷ bytes) = omega (arith, length-resize n bytes)

resize_injective :
    (n : ℕ) (xs ys : Bytes)
    → length xs ≡ length ys
    → length xs ≤ n
    → resize n xs ≡ resize n ys
    → xs ≡ ys
unfolding resize
resize_injective n [] [] same fits h = refl
resize_injective n [] (y ∷ ys) same fits h = absurd (omega arith)
resize_injective n (x ∷ xs) [] same fits h = absurd (omega arith)
resize_injective zero (x ∷ xs) (y ∷ ys) same fits h = absurd (omega arith)
resize_injective (suc n) (x ∷ xs) (y ∷ ys) same fits h =
    let head : x ≡ y = cc in
    let tail : resize n xs ≡ resize n ys = cc in
    let rest = resize_injective n xs ys (omega arith) (omega arith) tail in cc

length-big_endian : (n v : ℕ) → length (big_endian n v) ≡ n
unfolding big_endian
length-big_endian zero v = refl
length-big_endian (suc n) v =
    omega (
      arith,
      length-append (big_endian n (v / 256)) ((v % 256) ∷ []),
      length-big_endian n (v / 256),
    )

-- The number whose bytes follow those of another one.
abbrev value : ℕ → Bytes → ℕ
value acc [] = acc
value acc (b ∷ bytes) = value (acc * 256 + b) bytes

abbrev bound : ℕ → ℕ
bound zero = 1
bound (suc n) = 256 * bound n

value-big_endian :
    (n v : ℕ) (rest : Bytes) → v < bound n → value 0 (big_endian n v ++ rest) ≡ value v rest
unfolding big_endian
value-big_endian zero v rest h = ap (λ (t : ℕ). value t rest) (omega arith)
value-big_endian (suc n) v rest h =
    rw (append_assoc (big_endian n (v / 256)) ((v % 256) ∷ []) rest) (
      value-big_endian n (v / 256) ((v % 256) ∷ rest) (omega arith)
      ∙ ap (λ (t : ℕ). value t rest) (omega arith))

value-whole : (v : ℕ) → v < u64_mod → value 0 (big_endian 8 v) ≡ v
value-whole v h = rw append-nil at (value-big_endian 8 v [] (omega arith))

-- With room for nine bytes, a transaction's bytes determine its tag and its number.
pub transaction_injective :
    (size tag tag' v v' : ℕ)
    → 9 ≤ size
    → v < u64_mod
    → v' < u64_mod
    → transaction size tag v ≡ transaction size tag' v'
    → (tag ≡ tag') × (v ≡ v')
unfolding transaction
transaction_injective size tag tag' v v' room hv hv' h =
    let whole =
      resize_injective size (tag ∷ big_endian 8 v) (tag' ∷ big_endian 8 v')
        (omega (arith, length-big_endian 8 v, length-big_endian 8 v'))
        (omega (arith, length-big_endian 8 v)) h in
    let tails : big_endian 8 v ≡ big_endian 8 v' = cc in
    (cc, sym (value-whole v hv) ∙ ap (value 0) tails ∙ value-whole v' hv')
