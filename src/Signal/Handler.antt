-- ===== src/Signal/Handler.antt =====
-- adssignal/signalhandler.go: the handler over the ratchets. A packet that it gives to Whisper is an
-- action, and generated keys and random draws are arguments. The outer `none` is a panic, or the exit
-- of the process by `log.Fatal`. A state in the table is a pointer: what the ratchet does to it, it
-- does to the table.
pub mod Unanswered
pub mod Incoming
pub mod Conversation
use dsignal.Base.{
  ℕ, suc, ◌-◌, ◌%◌, ◌^◌, ◌==◌, Bool, true, false, not, ◌&&◌, Option, none, some, List, [], ◌∷◌,
  ◌++◌, Bytes, GoString, get_elem?, bytes_dec, if◌then◌else◌, ite,
}
use dsignal.Base.Dict.{Dict, lookup, insert}
use dsignal.Base.Encode.{hex_encode}
use dsignal.Signal.Elliptic.{EllipticPoint, DhPair, marshal, unmarshal}
use dsignal.Signal.Primitives.{Primitives, RatchetMessage}
use dsignal.Signal.Ratchet.{DRatchetState, ratchet_encrypt, ratchet_decrypt}
use dsignal.Signal.Ratchet.Stored.{DRatchetStateCompressed, compress_ratchet, uncompress_ratchet}
use dsignal.Signal.Identity.{
  Signatures, Ecdsa, SelfIdentity, RemoteIdentity, RemoteIdentityCompressed, SelfIdentityCompressed,
  compress_identity, uncompress_identity, uncompress_remote_identity,
}
use dsignal.Signal.X3dh.{X3dhMessage, StateTable, s_initialize_x3dh}

pub record X3dhIdentity : Type 0 where
  pub origin : GoString
  pub destination : GoString
  pub hop_limit : ℕ
  pub ik : Bytes
  pub spk : Bytes
  pub sign : Option Ecdsa
  pub opk : Option Bytes

pub record SignalPacket : Type 0 where
  pub x3dh_identity : Option X3dhIdentity
  pub x3dh_message : Option X3dhMessage
  pub ratchet_message : Option RatchetMessage

abbrev pub identity_packet : X3dhIdentity → SignalPacket
identity_packet i = record { x3dh_identity = some i; x3dh_message = none; ratchet_message = none }

abbrev pub message_packet : Option X3dhMessage → SignalPacket
message_packet m = record { x3dh_identity = none; x3dh_message = m; ratchet_message = none }

abbrev pub ratchet_packet : RatchetMessage → SignalPacket
ratchet_packet m = record { x3dh_identity = none; x3dh_message = none; ratchet_message = some m }

-- `gossiper.RumorMessage` in `latestMessages`
pub record LatestMessage : Type 0 where
  pub origin : GoString
  pub id : ℕ
  pub text : GoString

-- `ratchet_files` are the files of `StoreRatchet`, by peer. `identity_channels` has the keys of the
-- channels that were made; nothing removes one.
pub record SignalHandler : Type 0 where
  pub name : GoString
  pub self_identity : SelfIdentity
  pub state_table : StateTable
  pub identity_channels : List GoString
  pub latest_messages : Dict GoString (List LatestMessage)
  pub ratchet_files : Dict GoString DRatchetStateCompressed

-- What an operation gives to other goroutines: a packet to Whisper for a destination, a message to
-- an identity channel, or a wait for the answer to an identity.
pub data SignalAction : Type 0 where
  sends : SignalPacket → GoString → SignalAction
  hands_over : X3dhMessage → GoString → SignalAction
  awaits : X3dhIdentity → DhPair → Option GoString → SignalAction

abbrev pub signal_hop_limit : ℕ
signal_hop_limit = 10

abbrev pub messages_of : GoString → Dict GoString (List LatestMessage) → List LatestMessage
messages_of peer latest = elim (lookup bytes_dec peer latest) [ none ↦ [] | some ms ↦ ms ]

-- One message; the number of a ratchet message becomes a uint32.
abbrev pub one_message : GoString → ℕ → GoString → List LatestMessage
one_message origin n text = record { origin = origin; id = n % 2 ^ 32; text = text } ∷ []

-- `append` to the messages of a peer
abbrev pub note : GoString → GoString → ℕ → GoString → SignalHandler → SignalHandler
note peer origin n text h = record h {
  latest_messages =
      insert bytes_dec peer (messages_of peer h.latest_messages ++ one_message origin n text)
        h.latest_messages;
}

-- `StoreRatchet`, without the errors of the file system, which the code prints.
unfoldable pub store_ratchet : DRatchetState → GoString → SignalHandler → Option SignalHandler
store_ratchet state peer h = elim (compress_ratchet state) [
  | none ↦ none
  | some c ↦ some (record h { ratchet_files = insert bytes_dec peer c h.ratchet_files })
]

unfoldable pub set_state : GoString → DRatchetState → SignalHandler → SignalHandler
set_state peer state h = record h { state_table = insert bytes_dec peer state h.state_table }

-- The draws of a new connection: the two key pairs of an opening, the one-time pair of an
-- identity, and the index of a one-time key.
pub record Draws : Type 0 where
  pub ek : DhPair
  pub fresh : DhPair
  pub opk : DhPair
  pub index : ℕ

-- `retrieveRatchets`: the stored ratchets, each under its peer.
abbrev pub load_ratchets :
    (Bytes → EllipticPoint) → List (GoString × DRatchetStateCompressed) → StateTable → StateTable
load_ratchets uncompressed [] states = states
load_ratchets uncompressed ((file, c) ∷ files) states =
    load_ratchets uncompressed files
      (insert bytes_dec c.peer (uncompress_ratchet uncompressed c) states)

abbrev handler_with :
    GoString → StateTable → Dict GoString DRatchetStateCompressed → SelfIdentity → SignalHandler
handler_with name table files identity = record {
  name = name;
  self_identity = identity;
  state_table = table;
  identity_channels = [];
  latest_messages = [];
  ratchet_files = files;
}

-- `NewSignalHandler`, by the identity on disk, if there is one, and the generated one that is stored
-- otherwise: the handler, and the identity that is on disk then.
pub new_signal_handler :
    (Bytes → EllipticPoint)
    → GoString
    → Option SelfIdentityCompressed
    → SelfIdentity
    → Dict GoString DRatchetStateCompressed
    → Option (SignalHandler × SelfIdentityCompressed)
new_signal_handler uncompressed name none generated files = elim (compress_identity generated) [
  | none ↦ none
  | some c ↦ some (handler_with name [] files generated, c)
]
new_signal_handler uncompressed name (some c) generated files =
    elim (uncompress_identity uncompressed c) [
      | none ↦ none
      | some identity ↦
          some (handler_with name (load_ratchets uncompressed files []) files identity, c)
    ]

module _ (p : Primitives) (sg : Signatures) where
  open p use {elliptic_unmarshal, sha256}

  -- `gossiper.GetKeyFromString`
  abbrev pub key_of : GoString → GoString
  key_of text = hex_encode (sha256 text)

  -- `user` is never nil: its callers pass an address. `opk` is the generated one-time pair.
  unfoldable pub s_start_x3dh :
      DhPair → GoString → Option GoString → SignalHandler → SignalHandler × List SignalAction
  s_start_x3dh opk user message h =
      let identity : X3dhIdentity = record {
        origin = h.name;
        destination = user;
        hop_limit = signal_hop_limit;
        ik = marshal h.self_identity.ik.pub_key;
        spk = marshal h.self_identity.spk.pub_key;
        sign = h.self_identity.sign;
        opk = some (marshal opk.pub_key);
      } in
      (
        record h { identity_channels = key_of user ∷ h.identity_channels },
        sends (identity_packet identity) user ∷ awaits identity opk message ∷ [],
      )

  -- The one-time key is the one at a random index.
  unfoldable pub i_start_x3dh :
      ℕ
      → DhPair
      → DhPair
      → GoString
      → GoString
      → RemoteIdentity
      → SignalHandler
      → Option (SignalHandler × List SignalAction)
  i_start_x3dh index ek fresh user message remote h = elim (get_elem? remote.opk index) [
    | none ↦ none
    | some opk ↦
        elim (s_initialize_x3dh p sg ek fresh remote (some opk) h.name user h.self_identity
          (some message) h.state_table) [
            | none ↦ none
            | some (table, msg) ↦
                some (record h { state_table = table }, sends (message_packet msg) user ∷ [])
          ]
  ]

  unfoldable pub r_start_x3dh :
      DhPair → DhPair → X3dhIdentity → SignalHandler → Option (SignalHandler × List SignalAction)
  r_start_x3dh ek fresh r_identity h = elim r_identity.opk [
    | none ↦ none
    | some opk ↦
        let remote : RemoteIdentity = record {
          ik = unmarshal elliptic_unmarshal r_identity.ik;
          spk = unmarshal elliptic_unmarshal r_identity.spk;
          sign = r_identity.sign;
          opk = [];
        } in
        elim (s_initialize_x3dh p sg ek fresh remote (some (unmarshal elliptic_unmarshal opk))
          h.name r_identity.origin h.self_identity none h.state_table) [
            | none ↦ none
            | some (table, msg) ↦ some (
              record h { state_table = table },
              sends (message_packet msg) r_identity.origin ∷ [],
            )
          ]
  ]

  -- The branch of `sendPrivateRatchet` with a ratchet.
  pub send_on_ratchet :
      GoString
      → GoString
      → DRatchetState
      → SignalHandler
      → Option (SignalHandler × List SignalAction)
  send_on_ratchet message destination state h =
      elim (ratchet_encrypt p message h.name destination [] state) [
        | none ↦ none
        | some (state', m) ↦
            elim (store_ratchet state' destination (set_state destination state' h)) [
              | none ↦ none
              | some h' ↦ some (
                note destination h.name m.header.n message h',
                sends (ratchet_packet m) destination ∷ [],
              )
            ]
      ]

  -- `identity` is the hash of a published identity: `none` for the empty string, and for one that is
  -- not hexadecimal `some none`. `retrieve` is the file from the store, decoded from its JSON.
  pub send_private_ratchet :
      (Bytes → Option RemoteIdentityCompressed)
      → Draws
      → GoString
      → GoString
      → Option (Option Bytes)
      → SignalHandler
      → Option (SignalHandler × List SignalAction)
  send_private_ratchet retrieve draws message destination identity h =
      elim (lookup bytes_dec destination h.state_table) [
        | some state ↦ send_on_ratchet message destination state h
        | none ↦ elim identity [
          | none ↦ some (s_start_x3dh draws.opk destination (some message) h)
          | some none ↦ none
          | some (some hash) ↦ elim (retrieve hash) [
            | none ↦ some (s_start_x3dh draws.opk destination (some message) h)
            | some c ↦ elim (uncompress_remote_identity elliptic_unmarshal c) [
              | none ↦ none
              | some remote ↦
                  i_start_x3dh draws.index draws.ek draws.fresh destination message remote h
            ]
          ]
        ]
      ]

  -- The end of `receivePrivateRatchet`, with the ratchet's new state in the table.
  pub keep_plaintext :
      RatchetMessage
      → Option Bytes
      → DRatchetState
      → SignalHandler
      → Option (SignalHandler × Option Bytes)
  keep_plaintext m none state h = some (h, none)
  keep_plaintext m (some plaintext) state h =
      let origin = m.header.origin in
      elim (store_ratchet state origin (note origin origin m.header.n plaintext h)) [
        | none ↦ none
        | some h' ↦ some (h', some plaintext)
      ]

  pub receive_private_ratchet :
      DhPair → RatchetMessage → SignalHandler → Option (SignalHandler × Option Bytes)
  receive_private_ratchet fresh m h = elim (lookup bytes_dec m.header.origin h.state_table) [
    | none ↦ some (h, none)
    | some state ↦ elim (ratchet_decrypt p fresh m.header m.message state) [
      | none ↦ none
      | some (state', plaintext) ↦
          keep_plaintext m plaintext state' (set_state m.header.origin state' h)
    ]
  ]
