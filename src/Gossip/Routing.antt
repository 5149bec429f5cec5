-- ===== src/Gossip/Routing.antt =====
-- gossiper/routinghandler.go, and the private messages of gossiper/mainhandler.go.
pub mod Freshest
pub mod Forward
use dsignal.Base.{
  ℕ, zero, suc, ◌-◌, Bool, true, false, Option, none, some, List, [], ◌∷◌, GoString, bytes_dec, ite,
  if◌then◌else◌, ltb,
}
use dsignal.Base.Dict.{Dict, lookup, insert}
use dsignal.Gossip.Packet.{Addr, PrivateMessage}
use dsignal.Gossip.Clock.{Clock}

pub record RoutingHandler : Type 0 where
  -- the next hop to each peer
  pub routing_table : Dict GoString Addr
  -- the highest id seen of each origin
  pub origin_last_id : Clock

abbrev pub new_routing_handler : RoutingHandler
new_routing_handler = record { routing_table = []; origin_last_id = [] }

-- The new ids, and whether the packet is new.
unfoldable pub update_last_origin_id : GoString → ℕ → Clock → Clock × Bool
update_last_origin_id origin id entries = elim (lookup bytes_dec origin entries) [
  | none ↦ (insert bytes_dec origin id entries, true)
  | some origin_max_id ↦
      if ltb origin_max_id id then (insert bytes_dec origin id entries, true) else (entries, false)
]

pub update_routing_table : GoString → ℕ → Addr → RoutingHandler → RoutingHandler
unfolding update_last_origin_id
update_routing_table origin id address r =
    let (entries, is_new) = update_last_origin_id origin id r.origin_last_id in
    if is_new
    then record r {
      routing_table = insert bytes_dec origin address r.routing_table;
      origin_last_id = entries;
    }
    else r

-- The hop limit that the packet goes on with, and where it is sent.
unfoldable pub forward_private_message : RoutingHandler → ℕ → GoString → ℕ × Option Addr
forward_private_message r hop_limit destination =
    if ltb 0 hop_limit
    then (hop_limit - 1, lookup bytes_dec destination r.routing_table)
    else (hop_limit, none)

-- What a node does with a private message.
pub data Handled : Type 0 where
  delivered : Handled
  sent : Addr → PrivateMessage → Handled
  dropped : Handled

abbrev forwarded : ℕ × Option Addr → PrivateMessage → Handled
forwarded (hops, none) m = dropped
forwarded (hops, some a) m = sent a (record m { hop_limit = hops })

-- One round of `processPrivateMessages` at the node called `name`.
pub process_private_message :
    GoString → PrivateMessage → Addr → RoutingHandler → RoutingHandler × Handled
unfolding update_routing_table forward_private_message
process_private_message name m sender r =
    let r' = update_routing_table m.destination m.id sender r in
    (
      r',
      ite (bytes_dec m.destination name) delivered
          (forwarded (forward_private_message r' m.hop_limit m.destination) m),
    )
