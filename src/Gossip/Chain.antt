-- ===== src/Gossip/Chain.antt =====
-- The blocks of gossiper/: their hashes in gossiper/utils.go, the state of
-- gossiper/blockchainhandler.go, and what gossiper/qsc.go decides and commits. Where a loop runs over
-- a Go map, the order of the association list stands for the order that Go takes.
pub mod History
pub mod Decision
pub mod Ending
use dsignal.Base.{
  ℕ, zero, suc, ◌+◌, ◌==◌, Bool, true, false, not, ◌&&◌, Option, none, some, List, [], ◌∷◌, ◌++◌,
  Bytes, GoString, bytes_dec, ℕ_discrete, length, replicate, if◌then◌else◌, ite,
}
use dsignal.Base.Dict.{Dict, lookup, insert}
use dsignal.Base.Encode.{le_bytes}
use dsignal.Base.Float.{GoFloat, nonneg, float_lt, float_ge}
use dsignal.Gossip.Packet.{TxPublish, BlockPublish, TlcMessage}

-- The zero value of a `[32]byte`.
abbrev pub zero_hash : Bytes
zero_hash = replicate 32 0

-- `SafeTLCMessagesMap`
abbrev pub TlcMessages : Type 0
TlcMessages = Dict GoString TlcMessage

-- The channels are left out. `tlc_status` holds the ids of the confirmed messages of each origin.
pub record BlockchainHandler : Type 0 where
  pub my_time : ℕ
  pub tlc_status : Dict GoString (Dict ℕ Bool)
  pub confirmations : Dict ℕ TlcMessages
  pub message_seen : Dict ℕ TlcMessages
  pub committed_history : Dict Bytes BlockPublish
  pub top_blockchain_hash : Bytes
  pub previous_block_hash : Bytes

abbrev pub new_blockchain_handler : BlockchainHandler
new_blockchain_handler = record {
  my_time = 0;
  tlc_status = [];
  confirmations = [];
  message_seen = [];
  committed_history = [];
  top_blockchain_hash = zero_hash;
  previous_block_hash = zero_hash;
}

-- The zero value of a message.
abbrev pub no_message : TlcMessage
no_message = record {
  origin = [];
  id = 0;
  confirmed = some 0;
  tx_block = record {
    prev_hash = zero_hash;
    transaction = record { name = []; size = 0; metafile_hash = [] };
  };
  vector_clock = record { want = [] };
  fitness = nonneg 0;
}

abbrev highest_from : TlcMessage → TlcMessages → TlcMessage
highest_from best [] = best
highest_from best ((origin, m) ∷ ms) =
    highest_from (if float_lt best.fitness m.fitness then m else best) ms

abbrev pub get_tlc_with_highest_fitness : TlcMessages → TlcMessage
get_tlc_with_highest_fitness = highest_from no_message

-- Whether a committed block has the name.
pub same_name : GoString → Dict Bytes BlockPublish → Bool
same_name name [] = false
same_name name ((key, b) ∷ history) =
    let rest = same_name name history in ite (bytes_dec b.transaction.name name) true rest

-- The loop over the predecessors, `none` where it needs more rounds.
walk : ℕ → Bytes → Dict Bytes BlockPublish → Option Bool
walk zero block_hash history = none
walk (suc fuel) block_hash history =
    ite (bytes_dec block_hash zero_hash) (some true) (elim (lookup bytes_dec block_hash history) [
      | none ↦ some false
      | some b ↦ walk fuel b.prev_hash history
    ])

-- One round more than there are blocks.
pub is_tx_block_valid : BlockchainHandler → BlockPublish → Option Bool
unfolding same_name walk
is_tx_block_valid h b =
    if same_name b.transaction.name h.committed_history
    then some false
    else walk (suc (length h.committed_history)) b.prev_hash h.committed_history

-- sha256, the parameter of the hashes
module _ (sha256 : Bytes → Bytes) where
  abbrev pub tx_hash : TxPublish → Bytes
  tx_hash t = sha256 (le_bytes 4 (length t.name) ++ t.name ++ t.metafile_hash)

  abbrev pub block_hash : BlockPublish → Bytes
  block_hash b = sha256 (b.prev_hash ++ tx_hash b.transaction)

  -- Whether a message seen with no less fitness is of another block.
  beaten : TlcMessage → TlcMessages → Bool
  beaten best [] = false
  beaten best ((origin, saw) ∷ seen) =
      let rest = beaten best seen in
      if float_ge saw.fitness best.fitness
      then ite (bytes_dec (block_hash saw.tx_block) (block_hash best.tx_block)) rest true
      else rest

  reconfirmed : TlcMessage → TlcMessages → Bool
  reconfirmed best [] = false
  reconfirmed best ((origin, m) ∷ ms) =
      let rest = reconfirmed best ms in
      ite (bytes_dec (block_hash m.tx_block) (block_hash best.tx_block)) true rest

  -- `none` is the panic where no message was seen in the round; the inner `none` is nil.
  pub check_if_consensus_reached :
      BlockchainHandler → TlcMessages → TlcMessages → ℕ → Option (Option TlcMessage)
  unfolding beaten reconfirmed
  check_if_consensus_reached h round_s round_s1 initial_round =
      let best = highest_from no_message round_s in
      elim (lookup ℕ_discrete initial_round h.message_seen) [
        | none ↦ none
        | some seen ↦ some (
            if beaten best seen
            then none
            else if reconfirmed best round_s1
            then some best
            else none)
      ]

  -- The block of the decision goes on top of the chain.
  pub commit : TlcMessage → BlockchainHandler → BlockchainHandler
  commit m h =
      let chosen : BlockPublish = record m.tx_block { prev_hash = h.top_blockchain_hash } in
      record h {
        committed_history = insert bytes_dec (block_hash chosen) chosen h.committed_history;
        top_blockchain_hash = block_hash chosen;
        previous_block_hash = block_hash chosen;
      }

  -- Without a decision only the hash for the next own block changes.
  unfoldable pub no_consensus : TlcMessage → BlockchainHandler → BlockchainHandler
  no_consensus highest h = record h { previous_block_hash = block_hash highest.tx_block }

  -- The end of `qscRound`, after its three rounds, the first of which is `round_s`.
  pub qsc_end : ℕ → TlcMessages → TlcMessages → BlockchainHandler → Option BlockchainHandler
  qsc_end round_s confirmations_s confirmations_s1 h =
      elim (check_if_consensus_reached h confirmations_s confirmations_s1 round_s) [
        | none ↦ none
        | some none ↦ some (no_consensus (get_tlc_with_highest_fitness confirmations_s1) h)
        | some (some m) ↦ some (commit m h)
      ]
