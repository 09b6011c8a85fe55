-- ===== src/Aggregator/Collection/Pool.antt =====
-- The votes that have reached an aggregator (aggregator.rs) without their order: what a node owes to
-- the set of votes alone.
use mathlib.Core.Bool.{Bool-set}
use mathlib.Core.List.{
  Mem, Mem-prop, mem-cons, mem-cons_self, mem-cons_of_mem, eq-or-mem_of_mem-cons, not-mem-nil,
}
use mathlib.Core.Logic.Or
use mathlib.Core.Quot
use mathlib.Core.Quot.{Quot, Quot-set}
use madara_hotstuff.Base.{
  ◌*◌, ◌<◌, ◌≡◌, ◌↔◌, refl, sym, ◌∙◌, Bool, true, false, Bool-cases, ◌&&◌, ◌==◌, inl, inr, ap, List,
  [], ◌∷◌, arith, length, any, ltb, u64_mod,
}
use madara_hotstuff.Primitives.{AuthorityList, Hash, ViewNumber}
use madara_hotstuff.Crypto.{Crypto}
use madara_hotstuff.Message.Vote.{Vote}
use madara_hotstuff.Aggregator.{new}
use madara_hotstuff.Aggregator.Collection.{
  answers, AllVerified, certifies, backs, backers, Distinct-backers, contains-backers,
}
use madara_hotstuff.Aggregator.Collection.Tally.{length-eq_of_contains, answers-certifies}

-- Two lists hold the same votes, in whatever order and however often.
abbrev pub SameVotes : List Vote → List Vote → Type 0
SameVotes xs ys = (v : Vote) → Mem v xs ↔ Mem v ys

abbrev pub Pool : Type 0
Pool = Quot SameVotes

SameVotes-cons : (v : Vote) (xs ys : List Vote) → SameVotes xs ys → SameVotes (v ∷ xs) (v ∷ ys)
SameVotes-cons v xs ys h w = (add xs ys (h w).0, add ys xs (h w).1)
  where
    add : (us vs : List Vote) → (Mem w us → Mem w vs) → Mem w (v ∷ us) → Mem w (v ∷ vs)
    add us vs f m =
        Or.elim (Mem-prop {a = w} {l = v ∷ vs}) (eq-or-mem_of_mem-cons m)
          (λ e. mem-cons.1 (Or.inl e)) (λ k. mem-cons_of_mem v (f k))

any_of_mem : (p : Vote → Bool) (v : Vote) (xs : List Vote) → Mem v xs → p v ≡ true → any p xs ≡ true
any_of_mem p v [] m e = absurd (not-mem-nil m)
any_of_mem p v (x ∷ xs) m e =
    Or.elim (Bool-set _ _) (eq-or-mem_of_mem-cons m) (λ same. rw (← same, e))
      (λ k. ground (arith, any_of_mem p v xs k e))

any-subset :
    (p : Vote → Bool) (xs ys : List Vote)
    → ((v : Vote) → Mem v xs → Mem v ys)
    → any p xs ≡ true
    → any p ys ≡ true
any-subset p [] ys h e = cc
any-subset p (x ∷ xs) ys h e = elim (Bool-cases (p x)) [
  | inl here ↦ any_of_mem p x ys (h x mem-cons_self) here
  | inr not_here ↦ any-subset p xs ys (λ v m. h v (mem-cons_of_mem x m)) (ground arith)
]

true_both : (a b : Bool) → (a ≡ true → b ≡ true) → (b ≡ true → a ≡ true) → a ≡ b
true_both true b f g = sym (f refl)
true_both false true f g = g refl
true_both false false f g = refl

any-SameVotes : (p : Vote → Bool) (xs ys : List Vote) → SameVotes xs ys → any p xs ≡ any p ys
any-SameVotes p xs ys h =
    true_both _ _ (any-subset p xs ys (λ v. (h v).0)) (any-subset p ys xs (λ v. (h v).1))

-- A vote that reaches the node.
pub deliver : Vote → Pool → Pool
deliver v =
    Quot.lift Quot-set (λ votes. Quot.mk (v ∷ votes))
      (λ xs ys h. Quot.sound (SameVotes-cons v xs ys h))

abbrev pub pool : List Vote → Pool
pool [] = Quot.mk []
pool (v ∷ votes) = deliver v (pool votes)

pool-eq-mk : (votes : List Vote) → pool votes ≡ Quot.mk votes
unfolding deliver
pool-eq-mk [] = refl
pool-eq-mk (v ∷ votes) = ap (deliver v) (pool-eq-mk votes)

module _ (c : Crypto) (authorities : AuthorityList) (view : ViewNumber) (d : Hash) where
  backers-SameVotes :
      (xs ys : List Vote)
      → SameVotes xs ys
      → length (backers c view d xs) ≡ length (backers c view d ys)
  backers-SameVotes xs ys h =
      length-eq_of_contains _ _ (Distinct-backers c view d xs) (Distinct-backers c view d ys) (λ id.
        contains-backers c view d xs id
        ∙ any-SameVotes (λ v. backs c view d v && v.voter == id) xs ys h
        ∙ sym (contains-backers c view d ys id))

  -- More than two thirds of the authorities in number back the digest in the view.
  pub is_certified : Pool → Bool
  is_certified =
      Quot.lift Bool-set
        (λ votes. ltb (2 * length authorities) (3 * length (backers c view d votes)))
        (λ xs ys h. ap (λ n. ltb (2 * length authorities) (3 * n)) (backers-SameVotes xs ys h))

  -- For fewer than 2^64 authorities and verified votes, whether the calls of `add_vote` return a
  -- certificate of a view for a digest is a function of the set of votes that were delivered.
  pub answers-is_certified :
      (votes : List Vote)
      → length authorities < u64_mod
      → AllVerified c authorities votes
      → any (certifies c view d) (answers c authorities new votes) ≡ is_certified (pool votes)
  unfolding is_certified
  answers-is_certified votes fit e =
      rw (pool-eq-mk votes) (answers-certifies c authorities fit view d votes e)
