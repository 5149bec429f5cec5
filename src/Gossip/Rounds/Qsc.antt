-- ===== src/Gossip/Rounds/Qsc.antt =====
-- The rounds of gossiper/qsc.go, and the publishing of blocks of gossiper/blockchainhandler.go.
use dsignal.Base.{
  ℕ, ◌+◌, ◌%◌, false, not, ◌&&◌, none, some, List, Bytes, ℕ_discrete, if◌then◌else◌, ◌⊎◌, inl, inr,
}
use dsignal.Base.Dict.{lookup}
use dsignal.Base.Float.{GoFloat}
use dsignal.Gossip.Packet.{TxPublish, BlockPublish, TlcMessage, ExtendedGossipPacket}
use dsignal.Gossip.Clock.{u32}
use dsignal.Gossip.Chain.{TlcMessages, get_tlc_with_highest_fitness, qsc_end}
use dsignal.Gossip.Tlc.{Modes, TlcNode, create_tlc_message}
use dsignal.Gossip.Rounds.{Event, Waiting, begin, tlc_round}

-- How `qscRound` comes out, under the events of its three rounds: one of them does not end, it finds
-- no confirmations of a round, it panics, or it ends.
pub data QscResult : Type 0 where
  waits : QscResult
  no_new_round : TlcNode → QscResult
  panics : QscResult
  ends : TlcNode → QscResult

-- The round `s + 1` or `s + 2`: a message for the fittest block goes out, and the confirmations of
-- the given round are handed on.
unfoldable pub qsc_step :
    Modes → List Event → ℕ → TlcMessage → TlcNode → (TlcMessages → TlcNode → QscResult) → QscResult
qsc_step modes events round highest s next =
    let (node, tlc, ext) = create_tlc_message highest.tx_block none highest.fitness s.node in
    elim (tlc_round modes events ext tlc (record s { node = node })) [
      | none ↦ waits
      | some (s', sent) ↦ elim (lookup ℕ_discrete round s'.chain.confirmations) [
        | none ↦ no_new_round s'
        | some confirmations ↦ next confirmations s'
      ]
    ]

-- The end, by sha256.
unfoldable pub qsc_finish : (Bytes → Bytes) → ℕ → TlcMessages → TlcMessages → TlcNode → QscResult
qsc_finish sha256 round_s confirmations_s confirmations_s1 s =
    elim (qsc_end sha256 round_s confirmations_s confirmations_s1 s.chain) [
      | none ↦ panics
      | some h ↦ ends (record s { chain = h })
    ]

unfoldable pub qsc_round :
    (Bytes → Bytes)
    → Modes
    → List Event
    → List Event
    → List Event
    → ExtendedGossipPacket
    → TlcMessage
    → TlcNode
    → QscResult
qsc_round sha256 modes events events1 events2 ext tlc s =
    let round_s = s.chain.my_time in
    elim (tlc_round modes events ext tlc s) [
      | none ↦ waits
      | some (s', sent) ↦ elim (lookup ℕ_discrete round_s s'.chain.confirmations) [
        | none ↦ no_new_round s'
        | some confirmations_s ↦
            qsc_step modes events1 ((round_s + 1) % u32)
              (get_tlc_with_highest_fitness confirmations_s) s'
              (λ confirmations_s1 s1.
                qsc_step modes events2 ((round_s + 2) % u32)
                  (get_tlc_with_highest_fitness confirmations_s1) s1
                  (λ confirmations_s2 s2.
                    qsc_finish sha256 round_s confirmations_s confirmations_s1 s2))
      ]
    ]

-- `createAndPublishTxBlock`: the block of a file goes on the hash that the node keeps for it, with a
-- random fitness. Gossip with confirmation alone begins at once, anything else is queued.
pub create_and_publish_tx_block :
    Modes → TxPublish → GoFloat → TlcNode → TlcNode × (Waiting ⊎ ExtendedGossipPacket)
create_and_publish_tx_block modes tx fitness s =
    let block : BlockPublish = record {
      prev_hash = s.chain.previous_block_hash;
      transaction = tx;
    } in
    let (node, tlc, ext) = create_tlc_message block none fitness s.node in
    let s' : TlcNode = record s { node = node } in
    if modes.hw3ex2_mode && not modes.hw3ex3_mode && not modes.hw3ex4_mode
    then (s', inl (begin modes false ext tlc s'))
    else (s', inr ext)

-- One round of `processClientBlocks`.
pub process_client_block :
    (Bytes → Bytes)
    → Modes
    → List Event
    → List Event
    → List Event
    → ExtendedGossipPacket
    → TlcMessage
    → TlcNode
    → QscResult
process_client_block sha256 modes events events1 events2 ext tlc s =
    if modes.hw3ex4_mode
    then qsc_round sha256 modes events events1 events2 ext tlc s
    else elim (tlc_round modes events ext tlc s) [ none ↦ waits | some (s', sent) ↦ ends s' ]
