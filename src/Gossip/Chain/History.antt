-- ===== src/Gossip/Chain/History.antt =====
-- The committed blocks form a chain down to the zero hash, on which the check of a block ends.
use mathlib.Core.Path.{subst}
use dsignal.Base.{
  ℕ, zero, suc, ◌≤◌, ◌≡◌, ◌≢◌, ◌∙◌, refl, sym, Bool, true, false, not, ◌&&◌, ◌||◌, none, some,
  Bytes, bytes_dec, length, ite, if_pos, if_neg, inl, inr, arith, Option-cases,
}
use dsignal.Base.Dict.{
  Dict, lookup, insert, lookup-insert, length-insert_fresh, lookup-insert_self, lookup-insert_ne,
}
use dsignal.Gossip.Packet.{BlockPublish, TlcMessage}
use dsignal.Gossip.Chain.{
  BlockchainHandler, zero_hash, new_blockchain_handler, same_name, walk, is_tx_block_valid,
  block_hash, commit, no_consensus,
}

-- From the hash it takes so many blocks to the zero hash.
pub data Chain (history : Dict Bytes BlockPublish) : ℕ → Bytes → Type 0 where
  genesis : Chain history 0 zero_hash
  block :
      {n : ℕ} {hash : Bytes} (b : BlockPublish)
      → lookup bytes_dec hash history ≡ some b
      → hash ≢ zero_hash
      → Chain history n b.prev_hash
      → Chain history (suc n) hash

-- From one hash the predecessors lead to the other.
pub data Reaches (history : Dict Bytes BlockPublish) : Bytes → Bytes → Type 0 where
  here : {hash : Bytes} → Reaches history hash hash
  below :
      {top hash : Bytes} (b : BlockPublish)
      → lookup bytes_dec top history ≡ some b
      → Reaches history b.prev_hash hash
      → Reaches history top hash

-- The top stands on a chain of as many blocks as there are, which passes every committed block; and
-- so every committed block stands on a chain, no longer than the history.
pub record WellChained (h : BlockchainHandler) : Type 0 where
  pub top : Chain h.committed_history (length h.committed_history) h.top_blockchain_hash
  pub passes :
      (hash : Bytes) (b : BlockPublish)
      → lookup bytes_dec hash h.committed_history ≡ some b
      → Reaches h.committed_history h.top_blockchain_hash hash
  pub blocks :
      (hash : Bytes) (b : BlockPublish)
      → lookup bytes_dec hash h.committed_history ≡ some b
      → (n : ℕ) × (n ≤ length h.committed_history) × Chain h.committed_history n hash

pub new-WellChained : WellChained new_blockchain_handler
unfolding lookup
new-WellChained = record { top = genesis; passes = λ hash b e. cc; blocks = λ hash b e. cc }

-- From a hash on a chain the walk comes to the end.
walk-Chain :
    {history : Dict Bytes BlockPublish} {n : ℕ} {hash : Bytes}
    → Chain history n hash
    → (fuel : ℕ) → suc n ≤ fuel
    → walk fuel hash history ≡ some true
unfolding walk
walk-Chain c zero le = absurd (omega arith)
walk-Chain genesis (suc fuel) le = if_pos (bytes_dec zero_hash zero_hash) refl _ _
walk-Chain {hash = hash} (block b e ne c) (suc fuel) le =
    if_neg (bytes_dec hash zero_hash) ne _ _ ∙ rw e (walk-Chain c fuel (omega arith))

-- Whether a hash is that of a committed block.
abbrev pub is_committed : Bytes → Dict Bytes BlockPublish → Bool
is_committed hash history = elim (lookup bytes_dec hash history) [ none ↦ false | some _ ↦ true ]

abbrev pub is_zero_hash : Bytes → Bool
is_zero_hash hash = ite (bytes_dec hash zero_hash) true false

module _ (h : BlockchainHandler) (w : WellChained h) where
  walk-known :
      (hash : Bytes)
      → walk (suc (length h.committed_history)) hash h.committed_history
        ≡ some (is_zero_hash hash || is_committed hash h.committed_history)
  unfolding walk
  walk-known hash = elim (bytes_dec hash zero_hash) [
    | yes z ↦ ground arith
    | no ne ↦ elim (Option-cases (lookup bytes_dec hash h.committed_history)) [
      | inl miss ↦ ground arith
      | inr (b, hit) ↦
          let (n, le, c) = w.blocks hash b hit in
          let there : is_committed hash h.committed_history ≡ true = rw (is_committed, hit) refl in
          let absent : is_zero_hash hash ≡ false = if_neg (bytes_dec hash zero_hash) ne _ _ in
          walk-Chain c (suc (length h.committed_history)) (omega arith) ∙ rw (there, absent) refl
    ]
  ]

  -- On a chain of committed blocks the check of a block ends, and needs to look at one block only:
  -- a block is valid just if no committed block has its name, and its predecessor is the zero hash or
  -- a committed block.
  pub is_tx_block_valid_lem :
      (b : BlockPublish)
      → is_tx_block_valid h b
        ≡ some (
            not (same_name b.transaction.name h.committed_history)
            && (is_zero_hash b.prev_hash || is_committed b.prev_hash h.committed_history))
  unfolding is_tx_block_valid
  is_tx_block_valid_lem b = ground (arith, walk-known b.prev_hash)

module _ (history : Dict Bytes BlockPublish) (key : Bytes) (b : BlockPublish)
    (fresh : lookup bytes_dec key history ≡ none) where
  -- What is found in the history is found in it with the new block.
  still_there :
      (hash : Bytes) (c : BlockPublish)
      → lookup bytes_dec hash history ≡ some c
      → lookup bytes_dec hash (insert bytes_dec key b history) ≡ some c
  still_there hash c e = ground (arith, lookup-insert bytes_dec key hash b history)

  Chain-insert :
      {n : ℕ} {hash : Bytes} → Chain history n hash → Chain (insert bytes_dec key b history) n hash
  Chain-insert genesis = genesis
  Chain-insert (block {hash = hash} c e ne chain) =
      block c (still_there hash c e) ne (Chain-insert chain)

  Reaches-insert :
      {top hash : Bytes}
      → Reaches history top hash
      → Reaches (insert bytes_dec key b history) top hash
  Reaches-insert here = here
  Reaches-insert (below {top = top} c e rest) = below c (still_there top c e) (Reaches-insert rest)

module _ (sha256 : Bytes → Bytes) (m : TlcMessage) (h : BlockchainHandler) where
  -- The block that a commit adds.
  abbrev pub chosen : BlockPublish
  chosen = record m.tx_block { prev_hash = h.top_blockchain_hash }

  -- The committed blocks are one chain if from the top hash the predecessors pass every one of them,
  -- and come to the zero hash after as many steps as there are blocks. A commit whose block has a hash
  -- that is not zero and not that of a committed block keeps them one chain; the end of a round without
  -- a decision keeps it too, and the handler starts with such a chain.
  pub commit-WellChained :
      WellChained h
      → lookup bytes_dec (block_hash sha256 chosen) h.committed_history ≡ none
      → block_hash sha256 chosen ≢ zero_hash
      → WellChained (commit sha256 m h)
        × WellChained (no_consensus sha256 m h)
        × WellChained new_blockchain_handler
  unfolding commit no_consensus
  commit-WellChained w fresh ne =
      let key = block_hash sha256 chosen in
      let grown = length-insert_fresh bytes_dec key chosen h.committed_history fresh in
      let n = length h.committed_history in
      let now = insert bytes_dec key chosen h.committed_history in
      let there = lookup-insert_self bytes_dec key chosen h.committed_history in
      let new : Chain now (suc n) key =
        block chosen there ne (Chain-insert h.committed_history key chosen fresh w.top) in
      (
        record {
          top = subst (λ k. Chain now k key) (sym grown) new;
          passes = λ hash b e. elim (bytes_dec key hash) [
            | yes same ↦ subst (λ x. Reaches now key x) same here
            | no other ↦ below chosen there (
                Reaches-insert h.committed_history key chosen fresh (
                  w.passes hash b (
                    sym (lookup-insert_ne bytes_dec key hash chosen h.committed_history other)
                    ∙ e)))
          ];
          blocks = λ hash b e. elim (bytes_dec key hash) [
            | yes same ↦ (suc n, omega arith, subst (λ x. Chain now (suc n) x) same new)
            | no other ↦
                let (k, le', old) = w.blocks hash b (
                  sym (lookup-insert_ne bytes_dec key hash chosen h.committed_history other) ∙ e) in
                (k, omega arith, Chain-insert h.committed_history key chosen fresh old)
          ];
        },
        record { top = w.top; passes = w.passes; blocks = w.blocks },
        new-WellChained,
      )
