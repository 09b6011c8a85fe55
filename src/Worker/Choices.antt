-- ===== src/Worker/Choices.antt =====
-- Which payload `get_proposal_payload` (consensus.rs) chooses.
use madara_hotstuff.Base.{
  ◌<◌, ◌≤◌, ◌≡◌, refl, ap, ◌⊎◌, inl, inr, List, [], ◌∷◌, Option, none, some, arith, Bool-cases,
  ◌++◌, find, ltb, Option-cases, ℕ, All,
}
use native.Mathlib.Decide.{dec_le}
use madara_hotstuff.Platform.{Platform}
use madara_hotstuff.Message.Payload.{Payload}
use madara_hotstuff.Import.{BlockInfo}
use madara_hotstuff.Worker.{ConsensusWorker, empty_payload}
use madara_hotstuff.Worker.Payloads.{empty_at, payload_of, get_proposal_payload}

-- The first block of a queue above a number: all before it are not.
abbrev pub IsFirstAbove : ℕ → BlockInfo → List BlockInfo → Type 0
IsFirstAbove n block queue =
    (before : List BlockInfo) × (after : List BlockInfo) × (queue ≡ before ++ block ∷ after)
    × All (λ b. b.number ≤ n) before
    × (n < block.number)

find-none :
    (n : ℕ) (queue : List BlockInfo)
    → find (λ b. ltb n b.number) queue ≡ none
    → All (λ b. b.number ≤ n) queue
find-none n [] h = tt
find-none n (b ∷ queue) h = elim (Bool-cases (ltb n b.number)) [
  | inl above ↦ absurd (ground arith)
  | inr not_above ↦ (ground arith, find-none n queue (ground arith))
]

find-IsFirstAbove :
    (n : ℕ) (block : BlockInfo) (queue : List BlockInfo)
    → find (λ b. ltb n b.number) queue ≡ some block
    → IsFirstAbove n block queue
find-IsFirstAbove n block [] h = cc
find-IsFirstAbove n block (b ∷ queue) h = elim (Bool-cases (ltb n b.number)) [
  | inl above ↦
      let same : b ≡ block = ground arith in
      ([], queue, ap (λ b. b ∷ queue) same, tt, ground (arith, same))
  | inr not_above ↦
      let (before, after, split, low, high) = find-IsFirstAbove n block queue (ground arith) in
      (b ∷ before, after, ap (λ l. b ∷ l) split, (ground arith, low), high)
]

module _ {C : Type 0} (e : Platform C) where
  -- A payload is empty, with a block number.
  abbrev pub IsEmptyAt : ℕ → Payload → Type 0
  IsEmptyAt number payload =
      (payload.block_hash ≡ e.crypto.hash empty_payload) × (payload.block_number ≡ number)

  -- A payload is for a block of the queue: it has the number of the block, and the hash, or that of
  -- the empty payload where the block has none.
  abbrev pub IsFor : BlockInfo → Payload → Type 0
  IsFor block payload =
      (payload.block_number ≡ block.number)
      × ((block.hash ≡ some payload.block_hash)
          ⊎ ((block.hash ≡ none) × (payload.block_hash ≡ e.crypto.hash empty_payload)))

  payload_of-IsFor : (block : BlockInfo) → IsFor block (payload_of e block)
  payload_of-IsFor block = elim (Option-cases block.hash) [
    | inl absent ↦ (refl, inr (absent, rw absent refl))
    | inr (hash, known) ↦ (refl, inl (rw known refl))
  ]

  -- What is answered with a block in process, for the number of the last final block.
  abbrev pub Continues :
      ConsensusWorker C
      → List BlockInfo
      → BlockInfo
      → ℕ
      → Option Payload × ConsensusWorker C
      → Type 0
  Continues w queue processing finalized answer =
      (((finalized < processing.number) ⊎ All (λ b. b.number ≤ finalized) queue)
        × ((payload : Payload) × IsEmptyAt processing.number payload
            × (answer ≡ (some payload, w))))
      ⊎ ((processing.number ≤ finalized)
          × ((block : BlockInfo) × (payload : Payload) × IsFirstAbove finalized block queue
              × IsFor block payload
              × (answer ≡ (some payload, record w { processing_block = some block }))))

  -- What is answered with no block in process.
  abbrev pub Starts :
      ConsensusWorker C → List BlockInfo → Option Payload × ConsensusWorker C → Type 0
  Starts w queue answer =
      ((queue ≡ []) × (answer ≡ (none, w)))
      ⊎ ((block : BlockInfo) × (rest : List BlockInfo) × (payload : Payload) × (queue
            ≡ block ∷ rest)
          × IsFor block payload
          × (answer ≡ (some payload, record w { processing_block = some block })))

  -- With a block in process that is not yet final, or with no block of the queue above the last
  -- final one, the payload is empty and has the number of the block in process. Once that is final,
  -- the payload is for the first block of the queue above the last final one, which is then in
  -- process. With no block in process it is for the front of the queue, which is then in process,
  -- and there is none if the queue is empty. A poisoned lock gives none. Nothing but the block in
  -- process changes.
  pub get_proposal_payload_branches :
      (w : ConsensusWorker C)
      → ((w.pending_finalize_queue ≡ none) × (get_proposal_payload e w ≡ (none, w)))
        ⊎ ((queue : List BlockInfo) × (w.pending_finalize_queue ≡ some queue)
            × (((w.processing_block ≡ none) × Starts w queue (get_proposal_payload e w))
                ⊎ ((processing : BlockInfo) × (w.processing_block ≡ some processing)
                    × Continues w queue processing
                        (e.client.info w.client).finalized_number
                        (get_proposal_payload e w))))
  unfolding get_proposal_payload
  get_proposal_payload_branches w = elim (Option-cases w.pending_finalize_queue) [
    | inl poisoned ↦ inl (poisoned, rw poisoned)
    | inr (queue, open_queue) ↦ inr (
      queue,
      open_queue,
      elim (Option-cases w.processing_block) [
        | inl idle ↦ inl (idle, front_of queue open_queue idle)
        | inr (processing, busy) ↦ inr (processing, busy, after queue open_queue processing busy)
      ],
    )
  ]
    where
      finalized : ℕ
      finalized = (e.client.info w.client).finalized_number

      front_of :
          (queue : List BlockInfo)
          → w.pending_finalize_queue ≡ some queue
          → w.processing_block ≡ none
          → Starts w queue (get_proposal_payload e w)
      front_of [] h idle = inl (refl, ground arith)
      front_of (block ∷ queue) h idle =
          inr (block, queue, payload_of e block, refl, payload_of-IsFor block, ground arith)

      after :
          (queue : List BlockInfo)
          → w.pending_finalize_queue ≡ some queue
          → (processing : BlockInfo) → w.processing_block ≡ some processing
          → Continues w queue processing finalized (get_proposal_payload e w)
      after queue h processing busy = elim (dec_le processing.number finalized) [
        | no pending ↦
            inl (inl (omega arith), (empty_at e processing.number, (refl, refl), ground arith))
        | yes final ↦ elim (Option-cases (find (λ b. ltb finalized b.number) queue)) [
          | inl nothing ↦ inl (
            inr (find-none finalized queue nothing),
            (empty_at e processing.number, (refl, refl), ground arith),
          )
          | inr (block, found) ↦ inr (
            final,
            (
              block,
              payload_of e block,
              find-IsFirstAbove finalized block queue found,
              payload_of-IsFor block,
              ground arith,
            ),
          )
        ]
      ]
