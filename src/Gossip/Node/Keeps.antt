-- ===== src/Gossip/Node/Keeps.antt =====
-- What the operations on a node keep.
use dsignal.Base.{
  ℕ, ◌+◌, ◌<◌, ◌≡◌, ◌≢◌, refl, Option, none, some, List, [], ◌∷◌, GoString, bytes_dec, inl, inr,
  if◌then◌else◌, if_pos, if_neg, ◌++◌, Bool-cases,
}
use dsignal.Gossip.Packet.{RumorMessage, ExtendedGossipPacket, is_set}
use dsignal.Gossip.Clock.{u32, GossipHandler, store_message, create_my_status_packet}
use dsignal.Gossip.Clock.Synced.{IsSynced, store_message-IsSynced}
use dsignal.Gossip.Clock.Storing.{packet_at, store_message_records}
use dsignal.Gossip.Routing.{update_routing_table}
use dsignal.Gossip.Node.{
  GossipNode, pass_on, rumor_of, sends_status, mongers, note_rumor, take_message,
  handle_gossip_message,
}

with_rumors-IsSynced :
    (rumors : List RumorMessage) (h : GossipHandler)
    → IsSynced h
    → IsSynced (record h { latest_rumors = rumors })
with_rumors-IsSynced rumors h s = record {
  distinct = s.distinct;
  bounded = s.bounded;
  tracked = s.tracked;
}

note_rumor_rumors :
    (r : Option RumorMessage) (h : GossipHandler)
    → (rumors : List RumorMessage) × (note_rumor r h ≡ record h { latest_rumors = rumors })
unfolding note_rumor
note_rumor_rumors none h = (h.latest_rumors, refl)
note_rumor_rumors (some r) h = elim (bytes_dec r.text []) [
  | yes e ↦ (h.latest_rumors, if_pos (bytes_dec r.text []) e _ _)
  | no ne ↦ (h.latest_rumors ++ (r ∷ []), if_neg (bytes_dec r.text []) ne _ _)
]

module _ (ext : ExtendedGossipPacket) (origin : GoString) (id : ℕ) (node : GossipNode) where
  stored : GossipHandler
  stored = (store_message ext.packet origin id node.gossip_handler).0

  updated : GossipNode
  updated = record node {
    gossip_handler = stored;
    routing_handler = update_routing_table origin id ext.sender_addr node.routing_handler;
  }

  take_other :
      origin ≢ node.name
      → take_message ext origin id node
        ≡ (updated, (store_message ext.packet origin id node.gossip_handler).1)
  unfolding take_message updated stored
  take_other other = if_neg (bytes_dec origin node.name) other _ _

  -- A message of another node whose id is below the largest uint32: the storage stays in step with the clock, the routes are updated,
  -- and the sender gets the own clock. The message is passed on unless it was known.
  pub handle_gossip_message-IsSynced :
      origin ≢ node.name
      → id + 1 < u32
      → IsSynced node.gossip_handler
      → (let (node', actions) = handle_gossip_message ext origin id node in
          IsSynced node'.gossip_handler
          × (node'.routing_handler
              ≡ update_routing_table origin id ext.sender_addr node.routing_handler)
          × (actions
              ≡ sends_status
                  (create_my_status_packet node'.gossip_handler.my_status)
                  ext.sender_addr
                ∷ (if is_set (packet_at node.gossip_handler origin id)
                    then []
                    else mongers ext origin id ∷ [])))
  unfolding handle_gossip_message pass_on updated stored
  handle_gossip_message-IsSynced other small synced =
      let kept = store_message-IsSynced ext.packet origin id node.gossip_handler small synced in
      let known = (store_message_records ext.packet origin id node.gossip_handler).0 in
      elim (Bool-cases (is_set (packet_at node.gossip_handler origin id))) [
        | inl there ↦ rw (take_other other, known, there) (kept, refl, refl)
        | inr new ↦
            let (rumors, noted) = note_rumor_rumors (rumor_of ext.packet) stored in
            rw (take_other other, known, new, noted)
              (with_rumors-IsSynced rumors stored kept, refl, refl)
      ]
