-- ===== src/Gossip/Node.antt =====
-- The operations of gossiper/gossiphandler.go on a whole node, with the rumors of
-- gossiper/mainhandler.go. What a node sends or starts is a list of actions.
pub mod Keeps
use dsignal.Base.{
  ℕ, ◌+◌, ◌%◌, Bool, true, false, Option, none, some, List, [], ◌∷◌, ◌++◌, GoString, bytes_dec, ite,
}
use dsignal.Gossip.Packet.{
  Addr, RumorMessage, WhisperStatus, PeerStatus, GossipPacket, ExtendedGossipPacket, empty_packet,
}
use dsignal.Gossip.Clock.{u32, GossipHandler, store_message, create_my_status_packet}
use dsignal.Gossip.Routing.{RoutingHandler, update_routing_table}

pub record GossipNode : Type 0 where
  pub name : GoString
  pub address : Addr
  pub gossip_handler : GossipHandler
  pub routing_handler : RoutingHandler

abbrev pub new_gossip_handler : GossipHandler
new_gossip_handler = record { seq_id = 1; message_storage = []; my_status = []; latest_rumors = [] }

pub data Action : Type 0 where
  sends_status : List PeerStatus → Addr → Action
  mongers : ExtendedGossipPacket → GoString → ℕ → Action

-- The rumor goes to the list for the interface if it has a text.
pub note_rumor : Option RumorMessage → GossipHandler → GossipHandler
note_rumor none h = h
note_rumor (some r) h =
    ite (bytes_dec r.text []) h (record h { latest_rumors = h.latest_rumors ++ (r ∷ []) })

-- The rumor of a packet, if that is its type.
abbrev pub rumor_of : GossipPacket → Option RumorMessage
rumor_of p = elim p.simple [ none ↦ p.rumor | some _ ↦ none ]

-- The first part: the routes and the storage, unless the message is the node's own.
pub take_message : ExtendedGossipPacket → GoString → ℕ → GossipNode → GossipNode × Bool
take_message ext origin id node =
    ite (bytes_dec origin node.name) (node, true)
      (let (h, known) = store_message ext.packet origin id node.gossip_handler in
        (
          record node {
            gossip_handler = h;
            routing_handler = update_routing_table origin id ext.sender_addr node.routing_handler;
          },
          known,
        ))

-- The rest: the own clock goes to the sender, and a message that was not known is passed on.
pub pass_on : ExtendedGossipPacket → GoString → ℕ → GossipNode × Bool → GossipNode × List Action
pass_on ext origin id (node, true) = (
  node,
  sends_status (create_my_status_packet node.gossip_handler.my_status) ext.sender_addr ∷ [],
)
pass_on ext origin id (node, false) = (
  record node { gossip_handler = note_rumor (rumor_of ext.packet) node.gossip_handler },
  sends_status (create_my_status_packet node.gossip_handler.my_status) ext.sender_addr
      ∷ mongers ext origin id
      ∷ [],
)

pub handle_gossip_message :
    ExtendedGossipPacket → GoString → ℕ → GossipNode → GossipNode × List Action
handle_gossip_message ext origin id node = pass_on ext origin id (take_message ext origin id node)

-- The handler with the next id, and the id that was taken.
abbrev pub next_id_of : GossipHandler → GossipHandler × ℕ
next_id_of h = (record h { seq_id = (h.seq_id + 1) % u32 }, h.seq_id)

pub create_rumor_message : GoString → GossipNode → GossipNode × ExtendedGossipPacket
create_rumor_message text node =
    let (h, id) = next_id_of node.gossip_handler in
    let rumor : RumorMessage = record { origin = node.name; id = id; text = text } in
    let packet : GossipPacket = record empty_packet { rumor = some rumor } in
    let stored = (store_message packet node.name id h).0 in
    (
      record node { gossip_handler = note_rumor (some rumor) stored },
      record { packet = packet; sender_addr = node.address },
    )

pub send_whisper_status : WhisperStatus → GossipNode → GossipNode × List Action
send_whisper_status w node =
    let (h, id) = next_id_of node.gossip_handler in
    let status : WhisperStatus = record w { origin = node.name; id = id } in
    let packet : GossipPacket = record empty_packet { whisper_status = some status } in
    (
      record node { gossip_handler = (store_message packet node.name id h).0 },
      mongers (record { packet = packet; sender_addr = node.address }) node.name id ∷ [],
    )
