-- ===== src/Import/Queue.antt =====
-- The queue of blocks that wait for finality (import.rs).
use madara_hotstuff.Base.{
  ℕ, zero, suc, ◌+◌, ◌-◌, ◌<◌, ◌≤◌, ◌≡◌, ◌⊎◌, refl, sym, ap, ◌∙◌, inl, inr, true, false, List, [],
  ◌∷◌, ◌++◌, Option, some, arith, All, All-append, All-map, Bool-cases, ltb, leb, head?, wrap32,
}
use mathlib.Core.List.{append_assoc, append-nil}
use madara_hotstuff.Primitives.{Hash, success, ok}
use madara_hotstuff.Platform.{Platform}
use madara_hotstuff.Import.{
  BlockInfo, ImportNotification, PendingFinalizeBlockQueue, on_imports, on_finalized,
  on_finalizations, poll, collect, new_queue,
}

-- The blocks of the notifications that are a new best.
abbrev pub new_bests : List ImportNotification → List BlockInfo
new_bests [] = []
new_bests (n ∷ notifications) = elim n.is_new_best [
  | true ↦ (record { hash = some n.hash; number = n.number }) ∷ new_bests notifications
  | false ↦ new_bests notifications
]

on_imports_lem :
    (notifications : List ImportNotification) (queue : PendingFinalizeBlockQueue)
    → on_imports notifications queue ≡ queue ++ new_bests notifications
unfolding on_imports
on_imports_lem [] queue = sym (append-nil queue)
on_imports_lem (n ∷ notifications) queue = elim (Bool-cases n.is_new_best) [
  | inl best ↦
      simp best
        (on_imports_lem notifications _ ∙ append_assoc queue (_ ∷ []) (new_bests notifications))
  | inr side ↦ simp side (on_imports_lem notifications queue)
]

on_finalized_lem :
    (n : ℕ) (queue : PendingFinalizeBlockQueue)
    → (dropped : List BlockInfo) × (queue ≡ dropped ++ on_finalized n queue)
      × All (λ b. b.number ≤ n) dropped
      × ((on_finalized n queue ≡ [])
          ⊎ ((block : BlockInfo) × (head? (on_finalized n queue) ≡ some block)
              × (n < block.number)))
unfolding on_finalized
on_finalized_lem n [] = ([], refl, tt, inl refl)
on_finalized_lem n (b ∷ queue) = elim (Bool-cases (ltb n b.number)) [
  | inl above ↦ rw above ([], refl, tt, inr (b, refl, ground arith))
  | inr final ↦
      let (dropped, split, low, front) = on_finalized_lem n queue in
      rw final (b ∷ dropped, ap (λ l. b ∷ l) split, (ground arith, low), front)
]

-- A number is not above one of the final blocks.
abbrev pub Reached : List ℕ → ℕ → Type 0
Reached [] number = ⊥
Reached (n ∷ numbers) number = (number ≤ n) ⊎ Reached numbers number

-- Nothing is left, or the front is above every final block.
abbrev pub IsAbove : List ℕ → List BlockInfo → Type 0
IsAbove numbers left =
    (left ≡ [])
    ⊎ ((block : BlockInfo) × (head? left ≡ some block) × All (λ n. n < block.number) numbers)

Reached-above :
    (numbers : List ℕ) {number m : ℕ}
    → Reached numbers number
    → All (λ n. n < m) numbers
    → number < m
Reached-above [] r above = elim r [ ]
Reached-above (n ∷ numbers) (inl reached) above = omega (arith, above.0)
Reached-above (n ∷ numbers) (inr later) above = Reached-above numbers later above.1

-- A front above `n` stays so when more is taken off below later numbers.
IsAbove-later :
    (n : ℕ) (numbers : List ℕ) (queue dropped left : List BlockInfo)
    → (queue ≡ []) ⊎ ((block : BlockInfo) × (head? queue ≡ some block) × (n < block.number))
    → queue ≡ dropped ++ left
    → All (λ b. Reached numbers b.number) dropped
    → IsAbove numbers left
    → IsAbove (n ∷ numbers) left
IsAbove-later n numbers queue dropped left front split reached (inl empty) = inl empty
IsAbove-later n numbers queue [] left (inl nothing) split reached (inr (block, first, above)) =
    inl (sym split ∙ nothing)
IsAbove-later n numbers queue [] left (inr (b, head, high)) split reached
      (inr (block, first, above)) =
    inr (block, first, (cc_front, above))
  where
    same : some b ≡ some block
    same = sym head ∙ (ap head? split ∙ first)

    cc_front : n < block.number
    cc_front = grind (arith, same, high)
IsAbove-later n numbers queue (d ∷ dropped) left (inl nothing) split reached
      (inr (block, first, above)) =
    cc
IsAbove-later n numbers queue (d ∷ dropped) left (inr (b, head, high)) split reached
      (inr (block, first, above)) =
    inr (block, first, (higher, above))
  where
    same : some b ≡ some d
    same = sym head ∙ ap head? split

    low : d.number < block.number
    low = Reached-above numbers reached.0 above

    higher : n < block.number
    higher = grind (arith, same, high, low)

on_finalizations_lem :
    (numbers : List ℕ) (queue : PendingFinalizeBlockQueue)
    → let left = on_finalizations numbers queue in
      (dropped : List BlockInfo) × (queue ≡ dropped ++ left)
      × All (λ b. Reached numbers b.number) dropped
      × IsAbove numbers left
unfolding on_finalizations
on_finalizations_lem [] [] = ([], refl, tt, inl refl)
on_finalizations_lem [] (block ∷ queue) = ([], refl, tt, inr (block, refl, tt))
on_finalizations_lem (n ∷ numbers) queue =
    let (first, split, low, front) = on_finalized_lem n queue in
    let (later, split', reached, above) = on_finalizations_lem numbers (on_finalized n queue) in
    (
      first ++ later,
      split ∙ (ap (λ l. first ++ l) split' ∙ sym (append_assoc first later _)),
      All-append _ first later (All-map _ _ first (λ b h. inl h) low)
          (All-map _ _ later (λ b h. inr h) reached),
      IsAbove-later n numbers _ later _ front split' reached above,
    )

-- Blocks are appended in the order of their notifications, those that are a new best and no other;
-- then the finality notifications take blocks off the front, each of which is not above one of the
-- final blocks, and leave nothing or a front that is above all of them. With no finality
-- notification nothing is taken off.
pub poll_lem :
    (imports : List ImportNotification) (finalizations : List ℕ) (queue : PendingFinalizeBlockQueue)
    → let left = poll imports finalizations queue in
      (dropped : List BlockInfo) × (queue ++ new_bests imports ≡ dropped ++ left)
      × All (λ b. Reached finalizations b.number) dropped
      × IsAbove finalizations left
unfolding poll
poll_lem imports finalizations queue =
    rw (on_imports_lem imports queue)
      (on_finalizations_lem finalizations (queue ++ new_bests imports))

module _ {C : Type 0} (e : Platform C) where
  collect_total :
      (fuel : ℕ) (client : C) (number best : ℕ) (queue : List (Option Hash × ℕ))
      → best + 1 < 4294967296
      → best < number + fuel
      → number ≤ best + 1
      → ((n : ℕ) → (h : Option Hash) × (e.client.block_hash_from_id client n ≡ success h))
      → (l : List (Option Hash × ℕ)) × (collect e (suc fuel) client number best queue ≡ ok l)
  unfolding collect
  collect_total zero client number best queue small fits low known = (queue, ground arith)
  collect_total (suc fuel) client number best queue small fits low known =
      elim (Bool-cases (leb number best)) [
        | inl inside ↦
            let (h, found) = known number in
            let step : wrap32 (number + 1) ≡ number + 1 = ground arith in
            rw (inside, found, step)
              (collect_total fuel client (number + 1) best (queue ++ (h, number) ∷ []) small
                (omega arith) (ground arith) known)
        | inr done ↦ (queue, rw done)
      ]

  -- Where the client knows the hash of every number, the best block's number is below 2^32 - 1 and
  -- the final one's is at most that, the constructor ends, with fuel for each block above the final
  -- one and one round more, and the queue that it returns is empty, however many blocks above the
  -- final one there are.
  pub new_queue_empty :
      (client : C)
      → (e.client.info client).best_number + 1 < 4294967296
      → (e.client.info client).finalized_number ≤ (e.client.info client).best_number
      → ((n : ℕ) → (h : Option Hash) × (e.client.block_hash_from_id client n ≡ success h))
      → new_queue e
          (suc ((e.client.info client).best_number - (e.client.info client).finalized_number))
          client
        ≡ ok []
  unfolding new_queue
  new_queue_empty client small final known =
      let best = (e.client.info client).best_number in
      let finalized = (e.client.info client).finalized_number in
      let first : wrap32 (finalized + 1) ≡ finalized + 1 = ground arith in
      let (l, collected) =
        collect_total (best - finalized) client (finalized + 1) best [] small (omega arith)
          (omega arith) known in
      rw (first, collected)
