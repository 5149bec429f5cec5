-- ===== src/Gossip/Tlc.antt =====
-- The handlers of gossiper/blockchainhandler.go for TLC messages. What a node sends or starts is a list of
-- actions; a method runs under its locks.
use dsignal.Base.{
  ℕ, ◌+◌, ◌%◌, Bool, true, false, not, ◌&&◌, ◌||◌, Option, none, some, List, [], ◌∷◌, ◌++◌,
  GoString, bytes_dec, ℕ_discrete, if◌then◌else◌, leb, ltb,
}
use dsignal.Base.Dict.{Dict, lookup, insert}
use dsignal.Base.Float.{GoFloat}
use dsignal.Gossip.Packet.{
  Addr, PeerStatus, BlockPublish, TlcMessage, TlcAck, GossipPacket, ExtendedGossipPacket,
  empty_packet, is_set,
}
use dsignal.Gossip.Clock.{
  u32, or_else, store_message, create_my_status_packet, check_if_i_need_peer_status,
}
use dsignal.Gossip.Node.{GossipNode, next_id_of}
use dsignal.Gossip.Chain.{BlockchainHandler, TlcMessages, is_tx_block_valid}

-- The flags of gossiper/header.go.
pub record Modes : Type 0 where
  pub hw3ex2_mode : Bool
  pub hw3ex3_mode : Bool
  pub hw3ex4_mode : Bool
  pub ack_all_mode : Bool
  pub hop_limit : ℕ
  pub stubborn_timeout : ℕ

-- `peers_size` is the number of peers that the user gives.
pub record TlcNode : Type 0 where
  pub node : GossipNode
  pub chain : BlockchainHandler
  pub peers_size : ℕ

pub data RoundAction : Type 0 where
  sends_ack : TlcAck → RoundAction
  sends_status_to : List PeerStatus → Addr → RoundAction
  starts_mongering : ExtendedGossipPacket → GoString → ℕ → RoundAction
  -- a value into `tlcConfirmChan`
  notifies : RoundAction
  -- the packet comes again after a time
  requeues : ExtendedGossipPacket → RoundAction

abbrev pub messages_in : ℕ → Dict ℕ TlcMessages → TlcMessages
messages_in round rounds = or_else (lookup ℕ_discrete round rounds) []

-- `LoadOrStore`, and then the message under its origin.
abbrev pub save_in : ℕ → GoString → TlcMessage → Dict ℕ TlcMessages → Dict ℕ TlcMessages
save_in round origin tlc rounds =
    insert ℕ_discrete round (insert bytes_dec origin tlc (messages_in round rounds)) rounds

-- Past rounds are not taken into consideration.
unfoldable pub save_confirmation : ℕ → GoString → TlcMessage → BlockchainHandler → BlockchainHandler
save_confirmation round origin tlc h =
    if leb h.my_time round
    then record h { confirmations = save_in round origin tlc h.confirmations }
    else h

unfoldable pub save_message_seen : ℕ → GoString → TlcMessage → BlockchainHandler → BlockchainHandler
save_message_seen round origin tlc h = record h {
  message_seen = save_in round origin tlc h.message_seen;
}

-- The packet of a message that the node makes.
unfoldable pub create_tlc_message :
    BlockPublish → Option ℕ → GoFloat → GossipNode → GossipNode × TlcMessage × ExtendedGossipPacket
create_tlc_message block confirmed fitness node =
    let (h, id) = next_id_of node.gossip_handler in
    let tlc : TlcMessage = record {
      origin = node.name;
      id = id;
      confirmed = confirmed;
      tx_block = block;
      vector_clock = record { want = create_my_status_packet h.my_status };
      fitness = fitness;
    } in
    let packet : GossipPacket = record empty_packet { tlc_message = some tlc } in
    (
      record node { gossip_handler = (store_message packet node.name id h).0 },
      tlc,
      record { packet = packet; sender_addr = node.address },
    )

-- How many of the ids are lower; the count is a uint32.
abbrev count_below : (ℕ → ℕ) → ℕ → Dict ℕ Bool → ℕ
count_below f id [] = 0
count_below f id ((key, b) ∷ ids) =
    let rest = count_below f id ids in if ltb (f key) id then (rest + 1) % u32 else rest

abbrev ids_of : GoString → BlockchainHandler → Dict ℕ Bool
ids_of origin h = or_else (lookup bytes_dec origin h.tlc_status) []

-- The round of a message: of a confirmed one by the id that it confirms. The ids of an unconfirmed
-- one are compared as uint32. `LoadOrStore` leaves an empty map for a new origin.
unfoldable pub get_message_original_round :
    GoString → ℕ → Option ℕ → BlockchainHandler → BlockchainHandler × ℕ
get_message_original_round origin id confirmed h = (
  record h { tlc_status = insert bytes_dec origin (ids_of origin h) h.tlc_status },
  elim confirmed [
    | some confirmed_id ↦ count_below (λ key. key) confirmed_id (ids_of origin h)
    | none ↦ count_below (λ key. key % u32) id (ids_of origin h)
  ],
)

-- The id that a message of the origin confirms is recorded, if the node has seen what its clock
-- wants.
unfoldable pub check_for_causal_property :
    GoString
    → List PeerStatus
    → Option ℕ
    → Addr
    → GossipNode
    → BlockchainHandler
    → BlockchainHandler × Bool × List RoundAction
check_for_causal_property origin want none address node h = (h, false, [])
check_for_causal_property origin want (some confirmed_id) address node h =
    let mine = node.gossip_handler.my_status in
    if not (check_if_i_need_peer_status mine want)
    then (
      record h {
        tlc_status =
            insert bytes_dec origin (insert ℕ_discrete confirmed_id true (ids_of origin h))
              h.tlc_status;
      },
      true,
      [],
    )
    else (h, false, sends_status_to (create_my_status_packet mine) address ∷ [])

-- Whether the message is acknowledged, by its round; `none` where the check of the block does not
-- end.
abbrev may_ack : Modes → TlcMessage → ℕ → BlockchainHandler → Option Bool
may_ack modes tlc round h =
    let in_time = not modes.hw3ex3_mode || modes.ack_all_mode || leb h.my_time round in
    if modes.hw3ex4_mode
    then elim (is_tx_block_valid h tlc.tx_block) [ none ↦ none | some b ↦ some (b && in_time) ]
    else some in_time

abbrev ack_of : Modes → GossipNode → TlcMessage → TlcAck
ack_of modes node tlc = record {
  origin = node.name;
  id = tlc.id;
  text = [];
  destination = tlc.origin;
  hop_limit = modes.hop_limit % u32;
}

-- The first part of a round of `handleTLCMessage`.
unfoldable pub acknowledge :
    Modes
    → TlcMessage
    → ℕ
    → GossipNode
    → Bool
    → BlockchainHandler
    → BlockchainHandler × List RoundAction
acknowledge modes tlc round node allowed h =
    if allowed && not (is_set tlc.confirmed)
    then (
      if modes.hw3ex4_mode then save_message_seen round tlc.origin tlc h else h,
      sends_ack (ack_of modes node tlc) ∷ [],
    )
    else (h, [])

-- The second part.
unfoldable pub take_confirmation :
    Modes
    → ExtendedGossipPacket
    → TlcMessage
    → ℕ
    → GossipNode
    → BlockchainHandler
    → BlockchainHandler × List RoundAction
take_confirmation modes ext tlc round node h =
    if (modes.hw3ex3_mode || modes.hw3ex4_mode) && is_set tlc.confirmed
    then (let (h', causal, sent) =
          check_for_causal_property tlc.origin tlc.vector_clock.want tlc.confirmed ext.sender_addr
            node h in
        if causal
        then (save_confirmation round tlc.origin tlc h', notifies ∷ [])
        else (h', sent ++ (requeues ext ∷ [])))
    else (h, [])

-- Both parts.
unfoldable pub both_parts :
    Modes
    → ExtendedGossipPacket
    → TlcMessage
    → ℕ
    → BlockchainHandler
    → TlcNode
    → Bool
    → TlcNode × List RoundAction
both_parts modes ext tlc round h s allowed =
    let (h', acks) = acknowledge modes tlc round s.node allowed h in
    let (h'', sent) = take_confirmation modes ext tlc round s.node h' in
    (record s { chain = h'' }, acks ++ sent)

-- One round of `handleTLCMessage`, on the message of the packet.
unfoldable pub handle_tlc_message :
    Modes → ExtendedGossipPacket → TlcMessage → TlcNode → Option (TlcNode × List RoundAction)
unfolding both_parts
handle_tlc_message modes ext tlc s =
    let (h, round) = get_message_original_round tlc.origin tlc.id tlc.confirmed s.chain in
    elim (may_ack modes tlc round h) [
      | none ↦ none
      | some allowed ↦ some (both_parts modes ext tlc round h s allowed)
    ]
