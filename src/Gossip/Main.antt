-- ===== src/Gossip/Main.antt =====
-- gossiper/mainhandler.go: one round of each loop that takes packets, but for private messages
-- (Gossip.Routing) and client messages (Gossip.Main.Client). Goroutines are what a round returns.
pub mod Data
pub mod Client
pub mod Searches
use dsignal.Base.{
  ℕ, ◌+◌, Bool, true, false, not, ◌&&◌, ◌||◌, Option, none, some, List, [], ◌∷◌, ◌++◌, Bytes,
  GoString, bytes_dec, length, ◌==◌, if◌then◌else◌, ite,
}
use dsignal.Base.Dict.{Dict, lookup, insert}
use dsignal.Base.Encode.{hex_encode}
use dsignal.Gossip.Packet.{
  Addr, SimpleMessage, RumorMessage, TlcMessage, TlcAck, DataRequest, DataReply, SearchRequest,
  SearchResult, SearchReply, GossipPacket, ExtendedGossipPacket, empty_packet,
}
use dsignal.Gossip.Routing.{RoutingHandler, forward_private_message}
use dsignal.Gossip.Search.{process_search_request_forwards, spend_one}
use dsignal.Gossip.Search.Local.{
  is_recent_search_request, search_matching_local_files, sort_strings,
}
use dsignal.Gossip.Files.{FileHandler, get_key_from_string, check_hash, among_names}
use dsignal.Gossip.Node.{GossipNode, Action, handle_gossip_message}
use dsignal.Gossip.Tlc.{Modes}

abbrev pub Sent : Type 0
Sent = List (Addr × GossipPacket)

-- `forwardPrivateMessage`, with the packet that goes on for a hop limit.
abbrev pub sent_on : ℕ × Option Addr → (ℕ → GossipPacket) → Sent
sent_on (hops, none) packet = []
sent_on (hops, some address) packet = (address, packet hops) ∷ []

abbrev pub forward : RoutingHandler → ℕ → GoString → (ℕ → GossipPacket) → Sent
forward r hop_limit destination packet =
    sent_on (forward_private_message r hop_limit destination) packet

-- An acknowledgement for the node, or one that is sent on.
unfoldable pub process_tlc_ack : GoString → RoutingHandler → TlcAck → Option TlcAck × Sent
process_tlc_ack name r ack =
    ite (bytes_dec ack.destination name) (some ack, [])
      (
        none,
        forward r ack.hop_limit ack.destination
            (λ hops. record empty_packet { ack = some (record ack { hop_limit = hops }) }),
      )

-- The answer to a request for data that the node has, or has not.
abbrev pub data_reply_for : GoString → ℕ → Dict GoString Bytes → DataRequest → DataReply
data_reply_for name hop_limit held request = record {
  origin = name;
  destination = request.origin;
  hop_limit = hop_limit;
  hash_value = request.hash_value;
  payload = lookup bytes_dec (hex_encode request.hash_value) held;
}

unfoldable pub process_data_request :
    GoString → ℕ → Dict GoString Bytes → RoutingHandler → DataRequest → Sent
process_data_request name hop_limit held r request =
    let reply = data_reply_for name hop_limit held request in
    ite (bytes_dec request.destination name)
      (forward r reply.hop_limit reply.destination
        (λ hops. record empty_packet { data_reply = some (record reply { hop_limit = hops }) }))
      (forward r request.hop_limit request.destination
        (λ hops. record empty_packet { data_request = some (record request { hop_limit = hops }) }))

pub data DataTaken : Type 0 where
  -- the reply, and the key of its channel
  given : GoString → DataReply → DataTaken
  -- no data, or data with another hash
  refused : DataTaken
  sends : Sent → DataTaken
  -- no channel under the key
  panicked : DataTaken

unfoldable pub process_data_reply :
    (Bytes → Bytes) → GoString → List GoString → RoutingHandler → DataReply → DataTaken
process_data_reply sha256 name hash_channels r reply =
    let key = get_key_from_string sha256 (hex_encode reply.hash_value ++ reply.origin) in
    let taken : DataTaken = if among_names key hash_channels then given key reply else panicked in
    let mine : DataTaken = elim reply.payload [
      | none ↦ refused
      | some payload ↦ if check_hash sha256 reply.hash_value payload then taken else refused
    ] in
    ite (bytes_dec reply.destination name) mine (
      sends (
        forward r reply.hop_limit reply.destination
          (λ hops. record empty_packet { data_reply = some (record reply { hop_limit = hops }) })))

abbrev results_from : GoString → List SearchResult → List (GoString × SearchResult)
results_from origin [] = []
results_from origin (res ∷ results) = (origin, res) ∷ results_from origin results

-- The results for the node, each of which is handled in a goroutine, or what is sent on.
unfoldable pub process_search_reply :
    GoString → RoutingHandler → SearchReply → List (GoString × SearchResult) × Sent
process_search_reply name r reply =
    ite (bytes_dec reply.destination name) (results_from reply.origin reply.results, [])
      (
        [],
        forward r reply.hop_limit reply.destination (λ hops. record empty_packet {
          search_reply = some (record reply { hop_limit = hops });
        }),
      )

-- A request that is not recent is answered, if files match, and goes on with what is left of its budget.
unfoldable pub process_search_request :
    (Bytes → Bytes)
    → (GoString → GoString → Bool)
    → ℕ
    → GoString
    → ℕ
    → (ℕ → ℕ)
    → List Addr
    → ExtendedGossipPacket
    → SearchRequest
    → RoutingHandler
    → FileHandler
    → FileHandler × Sent × List (Addr × ℕ)
process_search_request sha256 matches now name hop_limit draws peers ext request r h =
    let (h', recent) = is_recent_search_request sha256 now request h in
    let results =
      search_matching_local_files matches (sort_strings request.keywords) h.files_metadata in
    let answer =
      if length results == 0
      then []
      else forward r hop_limit request.origin (λ hops. record empty_packet {
        search_reply = some (record {
          origin = name;
          destination = request.origin;
          hop_limit = hops;
          results = results;
        });
      }) in
    if recent then (h', [], []) else (
      h',
      ite (bytes_dec request.origin name) [] answer,
      process_search_request_forwards draws peers ext.sender_addr request.budget,
    )

-- `BroadcastToPeers`
abbrev pub broadcast_to_peers : ExtendedGossipPacket → List Addr → Sent
broadcast_to_peers ext [] = []
broadcast_to_peers ext (peer ∷ peers) =
    let rest = broadcast_to_peers ext peers in
    ite (bytes_dec peer ext.sender_addr) rest ((peer, ext.packet) ∷ rest)

unfoldable pub process_simple_message :
    Addr → List Addr → ExtendedGossipPacket → SimpleMessage → Sent
process_simple_message own peers ext simple =
    broadcast_to_peers
      (record ext {
        packet = record ext.packet { simple = some (record simple { relay_peer_addr = own }) };
      })
      peers

-- The message is gossip, and goes to the rounds too where one of the modes is on.
unfoldable pub process_tlc_message :
    Modes
    → ExtendedGossipPacket
    → TlcMessage
    → GossipNode
    → (GossipNode × List Action) × Option ExtendedGossipPacket
process_tlc_message modes ext m node = (
  handle_gossip_message ext m.origin m.id node,
  if modes.hw3ex2_mode || modes.hw3ex3_mode || modes.hw3ex4_mode
      then ite (bytes_dec m.origin node.name) none (some ext)
      else none,
)

-- The keys of the status channels, the key that gets the packet, and whether a listener is started for it.
unfoldable pub process_status_message : ExtendedGossipPacket → List Addr → List Addr × Addr × Bool
process_status_message ext channels =
    if among_names ext.sender_addr channels
    then (channels, ext.sender_addr, false)
    else (ext.sender_addr ∷ channels, ext.sender_addr, true)
