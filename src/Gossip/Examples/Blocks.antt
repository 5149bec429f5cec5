-- ===== src/Gossip/Examples/Blocks.antt =====
-- The theorems on rounds, blocks and consensus, at a node with two peers and short hashes.
use dsignal.Base.{
  ◌⊎◌, ◌/◌, ◌<◌, ◌+◌, length, ℕ, ◌+◌, ◌≡◌, ◌≢◌, ap, refl, true, false, not, ◌&&◌, ◌||◌, ◌↔◌, none,
  some, List, [], ◌∷◌, Bytes, codes, bytes_dec, ℕ_discrete, get_or, arith,
}
use dsignal.Base.Dict.{lookup, insert}
use dsignal.Base.Float.{nonneg, float_lt}
use dsignal.Gossip.Packet.{BlockPublish, TlcMessage, TlcAck, ExtendedGossipPacket, empty_packet}
use dsignal.Gossip.Clock.{u32}
use dsignal.Gossip.Node.{new_gossip_handler}
use dsignal.Gossip.Routing.{new_routing_handler}
use dsignal.Gossip.Chain.{
  BlockchainHandler, TlcMessages, zero_hash, no_message, new_blockchain_handler, same_name,
  get_tlc_with_highest_fitness, is_tx_block_valid, block_hash, check_if_consensus_reached, commit,
  no_consensus,
}
use dsignal.Gossip.Chain.History.{
  WellChained, new-WellChained, is_committed, is_zero_hash, is_tx_block_valid_lem,
  commit-WellChained,
}
use dsignal.Gossip.Chain.Decision.{
  AnyMessage, AllMessages, Decided, check_if_consensus_reached-Decided, no_consensus_invalid,
}
use dsignal.Gossip.Tlc.{RoundAction, messages_in, save_confirmation, Modes, TlcNode}
use dsignal.Gossip.Rounds.{
  tick, confirm, tlc_round, Waiting, notified, begin, run, on_ack, on_event, check_round,
  check_for_confirmations_majority,
}
use dsignal.Gossip.Rounds.Majority.{Confirmed, save_confirmation-Confirmed}
use dsignal.Gossip.Rounds.Passes.{Passed}
use dsignal.Gossip.Rounds.Progress.{tlc_round-Passed_notified}

-- In place of sha256 the first byte that is hashed, twice, and one more.
abbrev short_hash : Bytes → Bytes
short_hash b = 1 ∷ get_or b 0 0 ∷ get_or b 4 0 ∷ []

abbrev block : BlockPublish
block = record {
  prev_hash = zero_hash;
  transaction = record { name = codes "a"; size = 3; metafile_hash = [] };
}

abbrev message : TlcMessage
message = record no_message {
  origin = codes "bob";
  id = 1;
  confirmed = none;
  tx_block = block;
  fitness = nonneg 5;
}

fresh :
    lookup bytes_dec (block_hash short_hash block) new_blockchain_handler.committed_history ≡ none
unfolding lookup
fresh = refl

not_zero : block_hash short_hash block ≢ zero_hash
not_zero = λ e. omega (arith, ap (λ (b : Bytes). get_or b 0 0) e)

is_tx_block_valid_lem_example :
    is_tx_block_valid new_blockchain_handler block
    ≡ some (
        not (same_name (codes "a") new_blockchain_handler.committed_history)
        && (is_zero_hash zero_hash
            || is_committed zero_hash new_blockchain_handler.committed_history))
is_tx_block_valid_lem_example = is_tx_block_valid_lem new_blockchain_handler new-WellChained block

commit-WellChained_example :
    WellChained (commit short_hash message new_blockchain_handler)
    × WellChained (no_consensus short_hash message new_blockchain_handler)
    × WellChained new_blockchain_handler
commit-WellChained_example =
    commit-WellChained short_hash message new_blockchain_handler new-WellChained fresh not_zero

-- A message seen in round 0.
abbrev has_seen : BlockchainHandler
has_seen = record new_blockchain_handler { message_seen = (0, (codes "bob", message) ∷ []) ∷ [] }

seen_in_0 : lookup ℕ_discrete 0 has_seen.message_seen ≡ some ((codes "bob", message) ∷ [])
unfolding lookup ℕ_discrete
seen_in_0 = refl

abbrev confirmed : TlcMessages
confirmed = (codes "bob", message) ∷ []

check_if_consensus_reached-Decided_example :
    (check_if_consensus_reached short_hash has_seen confirmed confirmed 0 ≡ some (some message)
      ↔ Decided short_hash confirmed confirmed confirmed message)
    × AllMessages
        (λ c. float_lt (get_tlc_with_highest_fitness confirmed).fitness c.fitness ≡ false)
        confirmed
    × (AnyMessage (λ c. c ≡ get_tlc_with_highest_fitness confirmed) confirmed
        ⊎ (get_tlc_with_highest_fitness confirmed ≡ no_message)
          × AllMessages (λ c. float_lt (nonneg 0) c.fitness ≡ false) confirmed)
check_if_consensus_reached-Decided_example =
    check_if_consensus_reached-Decided short_hash has_seen confirmed confirmed confirmed 0 message
      seen_in_0

no_consensus_invalid_example :
    is_tx_block_valid
      (no_consensus short_hash message new_blockchain_handler)
      (record block { prev_hash = block_hash short_hash block })
    ≡ some false
unfolding no_consensus
no_consensus_invalid_example =
    no_consensus_invalid short_hash new_blockchain_handler message
      (record block { prev_hash = block_hash short_hash block }) new-WellChained fresh not_zero refl

abbrev modes : Modes
modes = record {
  hw3ex2_mode = false;
  hw3ex3_mode = true;
  hw3ex4_mode = true;
  ack_all_mode = false;
  hop_limit = 10;
  stubborn_timeout = 10;
}

abbrev node : TlcNode
node = record {
  node = record {
    name = codes "alice";
    address = codes "127.0.0.1:5000";
    gossip_handler = new_gossip_handler;
    routing_handler = new_routing_handler;
  };
  chain = new_blockchain_handler;
  peers_size = 2;
}

abbrev own : TlcMessage
own = record message { origin = codes "alice" }

abbrev packet : ExtendedGossipPacket
packet = record {
  packet = record empty_packet { tlc_message = some own };
  sender_addr = codes "127.0.0.1:5000";
}

unconfirmed : Confirmed 2 new_blockchain_handler
unfolding lookup
unconfirmed = record { distinct = λ r. tt; passed = λ r lt. absurd (omega arith) }

-- Bob's acknowledgement.
abbrev ack : TlcAck
ack = record { origin = codes "bob"; id = 1; text = []; destination = codes "alice"; hop_limit = 9 }

abbrev delivered : Waiting
delivered = on_ack ack (begin modes true packet own node)

-- A message of Bob that confirms one of his.
abbrev by_bob : ℕ → TlcMessage
by_bob id = record message { id = id + 1; confirmed = some id }

-- Alice with one peer, who has confirmed in round 0.
abbrev ready : TlcNode
ready = record node {
  chain = save_confirmation 0 (codes "bob") (by_bob 1) new_blockchain_handler;
  peers_size = 1;
}

ready-Confirmed : Confirmed 1 ready.chain
ready-Confirmed =
    save_confirmation-Confirmed 1 0 (codes "bob") (by_bob 1) new_blockchain_handler
      (record { distinct = unconfirmed.distinct; passed = λ r lt. absurd (omega arith) })

room : ready.chain.my_time + 1 < u32
unfolding save_confirmation
room = omega arith

ran :
    run modes (tick ∷ []) (begin modes true packet own ready)
    ≡ some (begin modes true packet own ready)
unfolding run on_event begin check_round check_for_confirmations_majority save_confirmation lookup
    insert ℕ_discrete
ran = refl

enough :
    ready.peers_size / 2
    < length (
        messages_in ready.chain.my_time
          (begin modes true packet own ready).state.chain.confirmations)
unfolding begin check_round check_for_confirmations_majority save_confirmation lookup insert
    ℕ_discrete confirm
enough = omega arith

tlc_round-Passed_notified_example :
    (s' : TlcNode) × (sent : List RoundAction) × (tlc_round modes
        (tick ∷ notified ∷ [])
        packet
        own
        ready
      ≡ some (s', sent))
    × Passed modes packet own ready s'
tlc_round-Passed_notified_example =
    tlc_round-Passed_notified modes packet own ready (tick ∷ []) (begin modes true packet own ready)
      (omega arith) room ready-Confirmed ran enough
