-- ===== src/Gossip/Rounds.antt =====
-- Rounds of confirmed messages: gossiper/tlc.go, gossiper/blockchainhandler.go and the rounds of
-- gossiper/qsc.go. What a node sends or starts is a list of actions; a method runs under its locks.
pub mod Qsc
pub mod Majority
pub mod Arrivals
pub mod Safety
pub mod Sources
pub mod Passes
pub mod Progress
pub mod Consensus
use dsignal.Base.{
  ℕ, zero, suc, ◌+◌, ◌/◌, ◌%◌, ◌==◌, Bool, true, false, not, ◌&&◌, ◌||◌, Option, none, some, List,
  [], ◌∷◌, ◌++◌, map, Bytes, GoString, bytes_dec, ℕ_discrete, length, if◌then◌else◌, ite, leb, ltb,
  ◌⊎◌, inl, inr,
}
use dsignal.Base.Dict.{Dict, lookup, insert}
use dsignal.Base.Float.{GoFloat}
use dsignal.Gossip.Packet.{
  Addr, PeerStatus, TxPublish, BlockPublish, TlcMessage, TlcAck, GossipPacket, ExtendedGossipPacket,
  empty_packet, is_set,
}
use dsignal.Gossip.Clock.{
  u32, or_else, GossipHandler, store_message, create_my_status_packet, check_if_i_need_peer_status,
}
use dsignal.Gossip.Node.{GossipNode, next_id_of}
use dsignal.Gossip.Chain.{
  BlockchainHandler, TlcMessages, get_tlc_with_highest_fitness, is_tx_block_valid, qsc_end,
}
use dsignal.Gossip.Tlc.{
  Modes, RoundAction, TlcNode, create_tlc_message, handle_tlc_message, notifies, save_confirmation,
  starts_mongering,
}

-- The confirmation of an own message: made, and mongered.
unfoldable pub confirm : TlcMessage → TlcNode → TlcNode × TlcMessage × List RoundAction
confirm tlc s =
    let (node, confirmed, ext) = create_tlc_message tlc.tx_block (some tlc.id) tlc.fitness s.node in
    (record s { node = node }, confirmed, starts_mongering ext confirmed.origin confirmed.id ∷ [])

-- Whether more than half of the peers have confirmed in the node's round, which then ends.
unfoldable pub check_for_confirmations_majority :
    TlcMessage → Bool → TlcNode → TlcNode × Bool × List RoundAction
check_for_confirmations_majority tlc delivered s =
    elim (lookup ℕ_discrete s.chain.my_time s.chain.confirmations) [
      | none ↦ (s, false, [])
      | some confirmations ↦
          if ltb (s.peers_size / 2) (length confirmations)
          then (let next : TlcNode = record s {
            chain = record s.chain { my_time = (s.chain.my_time + 1) % u32 };
          } in
              if delivered
              then (next, true, [])
              else let (s', confirmed, sent) = confirm tlc next in (s', true, sent))
          else (s, false, [])
    ]

-- `gossipWithConfirmation` while it waits: `tlc` is its message, `wait` its flag.
pub record Waiting : Type 0 where
  pub state : TlcNode
  pub tlc : TlcMessage
  pub ext : ExtendedGossipPacket
  pub wait : Bool
  pub witnesses : Dict GoString ℕ
  pub delivered : Bool
  pub done : Bool
  pub sent : List RoundAction

-- What its `select` receives, and the packets that `handleTLCMessage` takes in between.
pub data Event : Type 0 where
  acked : TlcAck → Event
  notified : Event
  tick : Event
  arrives : ExtendedGossipPacket → TlcMessage → Event

-- The acks are a majority.
unfoldable pub deliver : Waiting → Waiting
deliver w =
    let (s, confirmed, sent) = confirm w.tlc w.state in
    if w.wait
    then record w {
      state = record s {
        chain = save_confirmation s.chain.my_time confirmed.origin confirmed s.chain;
      };
      delivered = true;
      sent = w.sent ++ sent ++ (notifies ∷ []);
    }
    else record w { state = s; delivered = true; done = true; sent = w.sent ++ sent }

unfoldable pub on_ack : TlcAck → Waiting → Waiting
on_ack ack w =
    if ack.id == w.tlc.id && not w.delivered
    then (let w' : Waiting = record w { witnesses = insert bytes_dec ack.origin 0 w.witnesses } in
        if ltb (w.state.peers_size / 2) (length w'.witnesses) then deliver w' else w')
    else w

-- The check of the round, before the loop and at each notification.
unfoldable pub check_round : Waiting → Waiting
check_round w =
    if w.wait
    then (let (s, ended, sent) = check_for_confirmations_majority w.tlc w.delivered w.state in
        record w { state = s; done = w.done || ended; sent = w.sent ++ sent })
    else w

unfoldable pub on_tick : Waiting → Waiting
on_tick w = record w { sent = w.sent ++ (starts_mongering w.ext w.state.node.name w.tlc.id ∷ []) }

-- One event; `none` where a packet is handled for ever.
unfoldable pub on_event : Modes → Event → Waiting → Option Waiting
on_event modes (acked ack) w = some (if w.done then w else on_ack ack w)
on_event modes notified w = some (if w.done then w else check_round w)
on_event modes tick w = some (if w.done then w else on_tick w)
on_event modes (arrives ext tlc) w = elim (handle_tlc_message modes ext tlc w.state) [
  | none ↦ none
  | some (s, sent) ↦ some (record w { state = s; sent = w.sent ++ sent })
]

abbrev pub start : Bool → ExtendedGossipPacket → TlcMessage → TlcNode → Waiting
start wait ext tlc s = record {
  state = s;
  tlc = tlc;
  ext = ext;
  wait = wait;
  witnesses = (s.node.name, 0) ∷ [];
  delivered = false;
  done = false;
  sent = starts_mongering ext s.node.name tlc.id ∷ [];
}

-- The beginning of `gossipWithConfirmation`. Without a timeout it does not wait.
unfoldable pub begin : Modes → Bool → ExtendedGossipPacket → TlcMessage → TlcNode → Waiting
begin modes wait ext tlc s =
    let w = check_round (start wait ext tlc s) in
    record w { done = w.done || (modes.stubborn_timeout == 0) }

unfoldable pub run : Modes → List Event → Waiting → Option Waiting
run modes [] w = some w
run modes (e ∷ es) w = elim (on_event modes e w) [ none ↦ none | some w' ↦ run modes es w' ]

-- A round of TLC under the events that come in it; `none` where it has not ended with them.
pub tlc_round :
    Modes
    → List Event
    → ExtendedGossipPacket
    → TlcMessage
    → TlcNode
    → Option (TlcNode × List RoundAction)
tlc_round modes events ext tlc s = elim (run modes events (begin modes true ext tlc s)) [
  | none ↦ none
  | some w ↦ if w.done then some (w.state, w.sent) else none
]
