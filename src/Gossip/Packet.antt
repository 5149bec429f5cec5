-- ===== src/Gossip/Packet.antt =====
-- gossiper/header.go and the packet kinds of gossiper/utils.go. An address is its string form, which
-- is all that the code compares.
use dsignal.Base.{
  ℕ, Bool, true, false, Option, none, some, List, [], ◌∷◌, Bytes, GoString, codes, if◌then◌else◌,
}
use dsignal.Base.Float.{GoFloat}

abbrev pub Addr : Type 0
Addr = GoString

pub record SimpleMessage : Type 0 where
  pub original_name : GoString
  pub relay_peer_addr : GoString
  pub contents : GoString

pub record RumorMessage : Type 0 where
  pub origin : GoString
  pub id : ℕ
  pub text : GoString

pub record PeerStatus : Type 0 where
  pub identifier : GoString
  pub next_id : ℕ

pub record StatusPacket : Type 0 where
  pub want : List PeerStatus

pub record PrivateMessage : Type 0 where
  pub origin : GoString
  pub id : ℕ
  pub text : GoString
  pub destination : GoString
  pub hop_limit : ℕ

pub record DataRequest : Type 0 where
  pub origin : GoString
  pub destination : GoString
  pub hop_limit : ℕ
  pub hash_value : Bytes

-- `data` is `none` for a nil slice.
pub record DataReply : Type 0 where
  pub origin : GoString
  pub destination : GoString
  pub hop_limit : ℕ
  pub hash_value : Bytes
  pub payload : Option Bytes

pub record SearchRequest : Type 0 where
  pub origin : GoString
  pub budget : ℕ
  pub keywords : List GoString

pub record SearchResult : Type 0 where
  pub file_name : GoString
  pub metafile_hash : Bytes
  pub chunk_map : List ℕ
  pub chunk_count : ℕ

pub record SearchReply : Type 0 where
  pub origin : GoString
  pub destination : GoString
  pub hop_limit : ℕ
  pub results : List SearchResult

pub record TxPublish : Type 0 where
  pub name : GoString
  pub size : ℕ
  pub metafile_hash : Bytes

pub record BlockPublish : Type 0 where
  pub prev_hash : Bytes
  pub transaction : TxPublish

-- `confirmed` is -1 for an unconfirmed message, here `none`. It is an int: other negative numbers, which
-- no code of the repository makes, are not modelled.
pub record TlcMessage : Type 0 where
  pub origin : GoString
  pub id : ℕ
  pub confirmed : Option ℕ
  pub tx_block : BlockPublish
  pub vector_clock : StatusPacket
  pub fitness : GoFloat

abbrev pub TlcAck : Type 0
TlcAck = PrivateMessage

pub record WhisperPacket : Type 0 where
  pub code : ℕ
  pub size : ℕ
  pub payload : Bytes

-- `bloom` is `none` for a nil slice.
pub record WhisperStatus : Type 0 where
  pub origin : GoString
  pub id : ℕ
  pub code : ℕ
  pub bloom : Option Bytes
  pub pow : GoFloat

-- A storage message travels as the bytes of its encoding.
pub record GossipPacket : Type 0 where
  pub simple : Option SimpleMessage
  pub rumor : Option RumorMessage
  pub status : Option StatusPacket
  pub private_message : Option PrivateMessage
  pub data_request : Option DataRequest
  pub data_reply : Option DataReply
  pub search_request : Option SearchRequest
  pub search_reply : Option SearchReply
  pub tlc_message : Option TlcMessage
  pub ack : Option TlcAck
  pub whisper_packet : Option WhisperPacket
  pub whisper_status : Option WhisperStatus
  pub d_store_message : Option Bytes

pub record ExtendedGossipPacket : Type 0 where
  pub packet : GossipPacket
  pub sender_addr : Addr

-- The packet with no field set.
abbrev pub empty_packet : GossipPacket
empty_packet = record {
  simple = none;
  rumor = none;
  status = none;
  private_message = none;
  data_request = none;
  data_reply = none;
  search_request = none;
  search_reply = none;
  tlc_message = none;
  ack = none;
  whisper_packet = none;
  whisper_status = none;
  d_store_message = none;
}

abbrev pub is_set {ℓ} : {A : Type ℓ} → Option A → Bool
is_set none = false
is_set (some _) = true

unfoldable pub get_type_from_gossip : GossipPacket → GoString
get_type_from_gossip p =
    if is_set p.simple
    then codes "simple"
    else if is_set p.rumor
    then codes "rumor"
    else if is_set p.private_message
    then codes "private"
    else if is_set p.status
    then codes "status"
    else if is_set p.data_request
    then codes "dataRequest"
    else if is_set p.data_reply
    then codes "dataReply"
    else if is_set p.search_request
    then codes "searchRequest"
    else if is_set p.search_reply
    then codes "searchReply"
    else if is_set p.tlc_message
    then codes "tlcMes"
    else if is_set p.ack
    then codes "tlcAck"
    else if is_set p.whisper_packet
    then codes "whisperPacket"
    else if is_set p.whisper_status
    then codes "whisperStatus"
    else if is_set p.d_store_message
    then codes "dstorageMessage"
    else codes "unknown"

-- The keys of `PacketChannels`, which main.go makes from `modeTypes`.
abbrev pub mode_types : List GoString
mode_types =
    codes "simple"
    ∷ codes "rumor"
    ∷ codes "status"
    ∷ codes "private"
    ∷ codes "dataRequest"
    ∷ codes "dataReply"
    ∷ codes "searchRequest"
    ∷ codes "searchReply"
    ∷ codes "tlcMes"
    ∷ codes "tlcAck"
    ∷ codes "clientBlock"
    ∷ codes "tlcCausal"
    ∷ codes "whisperPacket"
    ∷ codes "whisperStatus"
    ∷ codes "dstorageMessage"
    ∷ []
