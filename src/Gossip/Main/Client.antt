-- ===== src/Gossip/Main/Client.antt =====
-- gossiper/utils.go: getTypeFromMessage, and gossiper/mainhandler.go: the loop for the messages of the
-- client. A nil pointer of the message is `none`.
use dsignal.Base.{
  ℕ, Bool, true, false, Option, none, some, List, [], ◌∷◌, Bytes, GoString, ◌&&◌, not, ◌==◌, length,
  if◌then◌else◌,
}
use dsignal.Gossip.Packet.{
  Addr, SimpleMessage, PrivateMessage, SearchRequest, ExtendedGossipPacket, empty_packet,
}
use dsignal.Gossip.Routing.{RoutingHandler}
use dsignal.Gossip.Files.{MapOrder, remove_duplicates_from_string_slice}
use dsignal.Gossip.Node.{GossipNode, create_rumor_message}
use dsignal.Gossip.Main.{Sent, forward, broadcast_to_peers}

pub record Message : Type 0 where
  pub text : GoString
  pub destination : Option GoString
  pub file : Option GoString
  pub request : Option Bytes
  pub keywords : Option GoString
  pub budget : Option ℕ
  pub identity : Option GoString

pub data MessageType : Type 0 where
  simple : MessageType
  private_message : MessageType
  data_request : MessageType
  file : MessageType
  search_request : MessageType
  rumor : MessageType
  unknown : MessageType

-- `p != nil`
abbrev given {ℓ} : {A : Type ℓ} → Option A → Bool
given none = false
given (some x) = true

unfoldable pub get_type_from_message : Bool → Message → MessageType
get_type_from_message simple_mode m =
    let to = given m.destination in
    let text = not (length m.text == 0) in
    let file = given m.file in
    let request = given m.request in
    let keywords = given m.keywords in
    if simple_mode
    then simple
    else if to && text && not file && not request && not keywords
    then private_message
    else if not text && file && request && not keywords
    then data_request
    else if not to && not text && file && not request && not keywords
    then MessageType.file
    else if not to && not text && not file && not request && keywords
    then search_request
    else if text && not to && not file && not request && not keywords
    then rumor
    else unknown

abbrev comma : ℕ
comma = 44

abbrev push : ℕ → List GoString → List GoString
push c [] = []
push c (w ∷ ws) = (c ∷ w) ∷ ws

-- `strings.Split(text, ",")`
unfoldable pub split_comma : GoString → List GoString
split_comma [] = [] ∷ []
split_comma (c ∷ text) =
    let rest = split_comma text in if c == comma then [] ∷ rest else push c rest

abbrev pub default_budget : ℕ
default_budget = 2

-- What a message leads to, but for what is printed or shown.
pub data Handled : Type 0 where
  sends : Sent → Handled
  -- what the Signal handler gets
  to_signal : Message → Handled
  mongers : GossipNode → ExtendedGossipPacket → Handled
  indexes : Option GoString → Handled
  -- the name of the file, the peer and the hash of the metafile
  downloads : GoString → GoString → Bytes → Handled
  -- with whether the budget grows
  searches : SearchRequest → Bool → Handled
  ignored : Handled
  -- a nil pointer is followed
  panicked : Handled

module _ (simple_mode signal_mode : Bool) (order : MapOrder) (hop_limit : ℕ) where
  abbrev private_to : GossipNode → Message → GoString → PrivateMessage
  private_to node m destination = record {
    origin = node.name;
    id = 0;
    text = m.text;
    destination = destination;
    hop_limit = hop_limit;
  }

  -- A budget 0 was not given.
  abbrev search_of : GoString → GoString → ℕ → Handled
  search_of name keywords budget =
      let unset = budget == 0 in
      searches
        (record {
          origin = name;
          budget = if unset then default_budget else budget;
          keywords = remove_duplicates_from_string_slice order (split_comma keywords);
        })
        unset

  abbrev handle : MessageType → List Addr → RoutingHandler → GossipNode → Message → Handled
  handle simple peers r node m =
      let made : SimpleMessage = record {
        original_name = node.name;
        relay_peer_addr = node.address;
        contents = m.text;
      } in
      sends (
        broadcast_to_peers
          (record {
            packet = record empty_packet { simple = some made };
            sender_addr = node.address;
          })
          peers)
  handle private_message peers r node m =
      let sent : Handled = elim m.destination [
        | none ↦ panicked
        | some destination ↦ sends (
            forward r hop_limit destination (λ hops. record empty_packet {
              private_message = some (record (private_to node m destination) { hop_limit = hops });
            }))
      ] in
      if signal_mode then to_signal m else sent
  handle rumor peers r node m =
      let (node', ext) = create_rumor_message m.text node in mongers node' ext
  handle file peers r node m = indexes m.file
  handle data_request peers r node m = elim m.file [
    | none ↦ panicked
    | some name ↦ elim m.destination [
      | none ↦ panicked
      | some destination ↦ elim m.request [
        | none ↦ panicked
        | some meta_hash ↦ downloads name destination meta_hash
      ]
    ]
  ]
  handle search_request peers r node m = elim m.keywords [
    | none ↦ panicked
    | some keywords ↦ elim m.budget [
      | none ↦ panicked
      | some budget ↦ search_of node.name keywords budget
    ]
  ]
  handle unknown peers r node m = ignored

  unfoldable pub process_client_message :
      List Addr → RoutingHandler → GossipNode → Message → Handled
  process_client_message peers r node m =
      handle (get_type_from_message simple_mode m) peers r node m
