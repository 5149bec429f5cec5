-- ===== src/Gossip/Clock.antt =====
-- gossiper/status.go and the message storage of gossiper/gossiphandler.go: what a node has stored of
-- each origin, the vector clock over it, and the comparison of clocks. A method runs under its lock.
pub mod Synced
pub mod Exchange
pub mod Storing
use dsignal.Base.{
  ℕ, zero, suc, ◌+◌, ◌%◌, ◌^◌, Bool, true, false, Option, none, some, List, [], ◌∷◌, map, GoString,
  length, bytes_dec, ℕ_discrete, if◌then◌else◌, leb, ltb,
}
use dsignal.Base.Dict.{Dict, lookup, insert}
use dsignal.Gossip.Packet.{GossipPacket, RumorMessage, PeerStatus}

abbrev pub u32 : ℕ
u32 = 2 ^ 32

-- `VectorClock.Entries`: the next id wanted from each origin.
abbrev pub Clock : Type 0
Clock = Dict GoString ℕ

-- `messageStorage`: origin, then id.
abbrev pub Messages : Type 0
Messages = Dict ℕ GossipPacket

abbrev pub Storage : Type 0
Storage = Dict GoString Messages

abbrev pub or_else {ℓ} : {A : Type ℓ} → Option A → A → A
or_else none a = a
or_else (some b) a = b

-- The loop of `updateStatus`: the first id from `max_id` on that is not stored.
scan : ℕ → Messages → ℕ → ℕ
scan zero stored max_id = max_id
scan (suc fuel) stored max_id = elim (lookup ℕ_discrete max_id stored) [
  | none ↦ max_id
  | some _ ↦ scan fuel stored ((max_id + 1) % u32)
]

pub update_status : GoString → ℕ → Messages → Clock → Clock
unfolding scan
update_status origin id stored entries =
    let max_id = or_else (lookup bytes_dec origin entries) 1 in
    if leb max_id id
    then elim (lookup ℕ_discrete max_id stored) [
      | none ↦ entries
      | some _ ↦ insert bytes_dec origin (scan (length stored) stored ((max_id + 1) % u32)) entries
    ]
    else entries

-- The messages of an origin; `LoadOrStore` makes an empty map for a new one.
abbrev pub messages_of : Storage → GoString → Messages
messages_of storage origin = or_else (lookup bytes_dec origin storage) []

-- `LoadOrStore(id, packet)`, with whether it was there.
abbrev pub load_or_store : ℕ → GossipPacket → Messages → Messages × Bool
load_or_store id packet stored = elim (lookup ℕ_discrete id stored) [
  | none ↦ (insert ℕ_discrete id packet stored, false)
  | some _ ↦ (stored, true)
]

pub record GossipHandler : Type 0 where
  pub seq_id : ℕ
  pub message_storage : Storage
  pub my_status : Clock
  pub latest_rumors : List RumorMessage

-- The new handler, and whether the message was known.
pub store_message : GossipPacket → GoString → ℕ → GossipHandler → GossipHandler × Bool
unfolding update_status
store_message packet origin id h =
    let (stored, loaded) = load_or_store id packet (messages_of h.message_storage origin) in
    (
      record h {
        message_storage = insert bytes_dec origin stored h.message_storage;
        my_status = update_status origin id stored h.my_status;
      },
      loaded,
    )

pub create_my_status_packet : Clock → List PeerStatus
create_my_status_packet = map (λ e. record { identifier = e.0; next_id = e.1 })

-- The map that `getPeerStatusForPeer` builds: a later entry replaces an earlier one.
pub origin_id_map : Clock → List PeerStatus → Clock
origin_id_map m [] = m
origin_id_map m (ps ∷ want) = origin_id_map (insert bytes_dec ps.identifier ps.next_id m) want

first_needed : Clock → Clock → Option PeerStatus
first_needed other [] = none
first_needed other ((origin, next_id) ∷ mine) =
    let rest = first_needed other mine in
    elim (lookup bytes_dec origin other) [
      | none ↦ some (record { identifier = origin; next_id = 1 })
      | some id ↦
          if ltb id next_id then some (record { identifier = origin; next_id = id }) else rest
    ]

pub get_peer_status_for_peer : Clock → List PeerStatus → Option PeerStatus
unfolding first_needed origin_id_map
get_peer_status_for_peer mine want = first_needed (origin_id_map [] want) mine

pub check_if_i_need_peer_status : Clock → List PeerStatus → Bool
check_if_i_need_peer_status mine [] = false
check_if_i_need_peer_status mine (ps ∷ want) =
    let rest = check_if_i_need_peer_status mine want in
    elim (lookup bytes_dec ps.identifier mine) [
      | none ↦ true
      | some id ↦ if ltb id ps.next_id then true else rest
    ]

-- `none` is the panic of the type assertion on a missing packet.
pub get_packet_from_peer_status : Storage → PeerStatus → Option GossipPacket
get_packet_from_peer_status storage ps = elim (lookup bytes_dec ps.identifier storage) [
  | none ↦ none
  | some stored ↦ lookup ℕ_discrete ps.next_id stored
]

-- What `handlePeerStatus` answers to one status packet.
pub data Reply : Type 0 where
  send_packet : GossipPacket → Reply
  send_status : List PeerStatus → Reply
  in_sync : Reply
  panics : Reply

pub handle_peer_status : GossipHandler → List PeerStatus → Reply
unfolding get_peer_status_for_peer check_if_i_need_peer_status get_packet_from_peer_status
    create_my_status_packet
handle_peer_status h want = elim (get_peer_status_for_peer h.my_status want) [
  | some to_send ↦ elim (get_packet_from_peer_status h.message_storage to_send) [
    | some packet ↦ send_packet packet
    | none ↦ panics
  ]
  | none ↦
      if check_if_i_need_peer_status h.my_status want
      then send_status (create_my_status_packet h.my_status)
      else in_sync
]
