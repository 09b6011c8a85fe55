-- ===== src/Tests/Sample.antt =====
-- A concrete platform: hashes are polynomials of bytes, a signature is 7 above the product of the
-- digest and the key, and the auxiliary store is an association list.
use madara_hotstuff.Base.{
  ℕ, ◌+◌, ◌*◌, ◌≡◌, ◌≢◌, refl, sym, ap, subst, inl, inr, true, false, List, [], ◌∷◌, Option, none,
  some, ◌==◌, if◌then◌else◌, Bool-cases,
}
use madara_hotstuff.Primitives.{AuthorityList, Hash, Bytes, External, success, failure}
use madara_hotstuff.Crypto.{Crypto, Keystore}
use madara_hotstuff.Platform.{Platform, Client, StoreLaws, in_chain, unknown}
use madara_hotstuff.Message.Qc
use madara_hotstuff.Message.Qc.{Qc}
use madara_hotstuff.Message.Vote
use madara_hotstuff.Message.Vote.{Vote}
use madara_hotstuff.Message.Proposal
use madara_hotstuff.Message.Proposal.{Proposal}
use madara_hotstuff.Message.Consensus.{ConsensusMessage}
use madara_hotstuff.Pallet.{same}
use madara_hotstuff.Pallet.Sessions.{same_lem}

abbrev pub code : Bytes → Hash
code [] = 0
code (b ∷ bytes) = b + 10 * code bytes

abbrev pub crypto : Crypto
crypto = record {
  encode_hash = λ h. h ∷ [];
  encode_u64 = λ n. n ∷ [];
  encode_id = λ i. i ∷ [];
  encode_number = λ n. n ∷ [];
  hash_of = code;
  hash = code;
  verify = λ s d id. s == d * id + 7;
}

abbrev first_byte : Bytes → Option ℕ
first_byte [] = none
first_byte (b ∷ bytes) = some b

-- It holds the key of authority 1.
abbrev pub keystore : Keystore
keystore = record {
  has_keys = λ id. id == 1;
  sign_with = λ id d. success (some ((d * id + 7) ∷ []));
  try_from = first_byte;
}

abbrev pub authorities : AuthorityList
authorities = (1, 0) ∷ (2, 0) ∷ (3, 0) ∷ (4, 0) ∷ []

abbrev pub others : AuthorityList
others = (5, 0) ∷ (6, 0) ∷ (7, 0) ∷ (8, 0) ∷ []

abbrev pub grandpa : Proposal
grandpa = Proposal.new Qc.default none (record { block_hash = 5; block_number = 2 }) 1 2 none

abbrev pub parent : Proposal
parent =
    Proposal.new (record { proposal_hash = 1252; view = 1; votes = [] }) none
      (record { block_hash = 6; block_number = 3 }) 2 3 none

abbrev pub child : Proposal
child =
    Proposal.new (record { proposal_hash = 12522363; view = 2; votes = [] }) none
      (record { block_hash = 8; block_number = 4 }) 3 4 none

abbrev pub Store : Type 0
Store = List (Bytes × Bytes)

abbrev pub lookup : Bytes → Store → Option Bytes
lookup key [] = none
lookup key ((k, v) ∷ store) = if same k key then some v else lookup key store

abbrev pub client : Client Store
client = record {
  status = λ s h. success (if h == 0 then unknown else in_chain);
  info = λ s. record { best_number = 3; finalized_hash = 9; finalized_number = 1 };
  block_hash_from_id = λ s n. success (some n);
  finalize_block = λ s h. (success tt, s);
  get_aux = λ s key. success (lookup key s);
  insert_aux = λ s key value. (success tt, (key, value) ∷ s);
}

abbrev decode_by_view : Bytes → External Proposal
decode_by_view [] = failure []
decode_by_view (view ∷ bytes) = success (if view == 1 then grandpa else parent)

abbrev decode_vote : Bytes → External ConsensusMessage
decode_vote (view ∷ []) = success (ConsensusMessage.vote (Vote.new 3 view 2))
decode_vote _ = failure []

abbrev pub platform : Platform Store
platform = record {
  crypto = crypto;
  codec = record {
    as_ref = λ h. h ∷ [];
    encode_proposal = λ p. p.view ∷ [];
    decode_proposal = decode_by_view;
    encode_message = λ m. [];
    decode_message = decode_vote;
  };
  client = client;
}

same_refl : (key : Bytes) → same key key ≡ true
same_refl key = (same_lem key key).1 refl

same_ne : (key other : Bytes) → other ≢ key → same key other ≡ false
same_ne key other apart = elim (Bool-cases (same key other)) [
  | inl e ↦ absurd (apart (sym ((same_lem key other).0 e)))
  | inr e ↦ e
]

pub store_laws : StoreLaws client
store_laws = record {
  get-insert_self = λ s s' key value h.
      subst (λ t. client.get_aux t key ≡ success (some value)) (ap (λ r. r.1) h)
        (rw (same_refl key));
  get-insert_ne = λ s s' key value other apart h.
      subst (λ t. client.get_aux t other ≡ client.get_aux s other) (ap (λ r. r.1) h)
        (rw (same_ne key other apart));
}

-- The store after the grandparent, and after the parent too, are saved.
abbrev pub saved : Store
saved = (1252 ∷ [], 1 ∷ []) ∷ []

abbrev pub saved_both : Store
saved_both = (12522363 ∷ [], 2 ∷ []) ∷ saved
