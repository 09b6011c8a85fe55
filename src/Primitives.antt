-- ===== src/Primitives.antt =====
-- hotstuff/consensus/src/primitives.rs and the type aliases of hotstuff/primitives/src/lib.rs.
-- A public key, a signature and a hash are fixed strings of bytes that the code only copies and
-- compares; each is read as a number. A text is the list of its bytes.
use madara_hotstuff.Base.{ℕ, ◌≡◌, refl, Option, none, some, List, ◌⊎◌, inl, inr}

abbrev pub AuthorityId : Type 0
AuthorityId = ℕ

abbrev pub AuthoritySignature : Type 0
AuthoritySignature = ℕ

abbrev pub Hash : Type 0
Hash = ℕ

abbrev pub Bytes : Type 0
Bytes = List ℕ

-- `u64`.
abbrev pub ViewNumber : Type 0
ViewNumber = ℕ

abbrev pub AuthorityWeight : Type 0
AuthorityWeight = ℕ

abbrev pub AuthorityList : Type 0
AuthorityList = List (AuthorityId × AuthorityWeight)

pub data HotstuffError : Type 0 where
  authority_reuse : AuthorityId → HotstuffError
  insufficient_quorum : HotstuffError
  invalid_signature : AuthorityId → HotstuffError
  null_signature : HotstuffError
  unknown_authority : AuthorityId → HotstuffError
  not_authority : HotstuffError
  wrong_proposer : HotstuffError
  proposal_no_parent : HotstuffError
  expired_vote : HotstuffError
  invalid_tc : HotstuffError
  finalize_block : Bytes → HotstuffError
  save_proposal : Bytes → HotstuffError
  client_error : Bytes → HotstuffError
  other : Bytes → HotstuffError

-- How a call ends: `ok` and `err` are Rust's `Result`, `panicked` is a panic, and `out_of_fuel`
-- says that the bound on nested handler calls was met.
pub data Outcome (A : Type 0) : Type 0 where
  ok : A → Outcome A
  err : HotstuffError → Outcome A
  panicked : Outcome A
  out_of_fuel : Outcome A

-- What an external call returns: its error is the text that `to_string` gives.
pub data External (A : Type 0) : Type 0 where
  success : A → External A
  failure : Bytes → External A

infixl 5 ◌>>=◌ ◌>>◌
abbrev pub ◌>>=◌ : {A B : Type 0} → Outcome A → (A → Outcome B) → Outcome B
ok a >>= f = f a
err e >>= f = err e
panicked >>= f = panicked
out_of_fuel >>= f = out_of_fuel

abbrev pub ◌>>◌ : {B : Type 0} → Outcome (Unit {0}) → Outcome B → Outcome B
m >> k = m >>= λ _. k

-- `Option::ok_or`.
abbrev pub ok_or : {A : Type 0} → Option A → HotstuffError → Outcome A
ok_or none e = err e
ok_or (some a) e = ok a

-- `Result::map_err` on an external call.
abbrev pub map_err : {A : Type 0} → External A → (Bytes → HotstuffError) → Outcome A
map_err (success a) f = ok a
map_err (failure text) f = err (f text)

-- Inversion of a successful bind.
pub >>=-eq-ok :
    {A B : Type 0} (r : Outcome A) (next : A → Outcome B) {answer : B}
    → (r >>= next) ≡ ok answer
    → (x : A) × (r ≡ ok x) × (next x ≡ ok answer)
>>=-eq-ok (ok x) next given = (x, refl, given)
>>=-eq-ok (err e) next given = cc
>>=-eq-ok panicked next given = cc
>>=-eq-ok out_of_fuel next given = cc

-- To split on how a call ended.
pub Outcome-cases :
    {A : Type 0} (r : Outcome A)
    → ((a : A) × (r ≡ ok a))
      ⊎ (((x : HotstuffError) × (r ≡ err x)) ⊎ ((r ≡ panicked) ⊎ (r ≡ out_of_fuel)))
Outcome-cases (ok a) = inl (a, refl)
Outcome-cases (err x) = inr (inl (x, refl))
Outcome-cases panicked = inr (inr (inl refl))
Outcome-cases out_of_fuel = inr (inr (inr refl))
