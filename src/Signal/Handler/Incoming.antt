-- ===== src/Signal/Handler/Incoming.antt =====
-- adssignal/signalhandler.go: the packets that come from Whisper, and the wait for the answer to an
-- identity.
use dsignal.Base.{
  ℕ, ◌-◌, ◌==◌, Bool, true, false, Option, none, some, List, [], ◌∷◌, Bytes, GoString, bytes_dec,
  if◌then◌else◌, ite,
}
use dsignal.Base.Dict.{lookup}
use dsignal.Signal.Elliptic.{DhPair, marshal}
use dsignal.Signal.Primitives.{Primitives, RatchetMessage}
use dsignal.Signal.Identity.{Signatures, RemoteIdentityCompressed}
use dsignal.Signal.X3dh.{X3dhMessage, StateTable, r_initialize_x3dh, i_initialize_x3dh}
use dsignal.Signal.Handler.{
  X3dhIdentity, SignalHandler, SignalPacket, SignalAction, Draws, sends, hands_over,
  identity_packet, message_packet, ratchet_packet, note, store_ratchet, key_of, r_start_x3dh,
  send_private_ratchet, receive_private_ratchet,
}

-- The channel of a packet from Whisper: `none` for a packet with no message, which is left alone.
pub data Kind : Type 0 where
  identity_dh : X3dhIdentity → Kind
  message_dh : X3dhMessage → Kind
  ratchet : RatchetMessage → Kind

unfoldable pub kind_of : SignalPacket → Option Kind
kind_of packet = elim packet.x3dh_identity [
  | some i ↦ some (identity_dh i)
  | none ↦ elim packet.x3dh_message [
    | some m ↦ some (message_dh m)
    | none ↦ elim packet.ratchet_message [ some r ↦ some (ratchet r) | none ↦ none ]
  ]
]

module _ (p : Primitives) (sg : Signatures) where
  -- One round of `processRatchetMessages`.
  unfoldable pub process_ratchet_message :
      DhPair → RatchetMessage → SignalHandler → Option (SignalHandler × List SignalAction)
  process_ratchet_message fresh m h =
      ite (bytes_dec m.header.destination h.name)
        (elim (receive_private_ratchet p sg fresh m h) [
          | none ↦ none
          | some (h', text) ↦ some (h', [])
        ])
        (some (h, sends (ratchet_packet m) m.header.destination ∷ []))

  -- One round of `processIdentityMessages`.
  pub process_identity_message :
      DhPair → DhPair → X3dhIdentity → SignalHandler → Option (SignalHandler × List SignalAction)
  process_identity_message ek fresh i h =
      ite (bytes_dec i.destination h.name) (r_start_x3dh p sg ek fresh i h)
        (some (h, sends (identity_packet i) i.destination ∷ []))

  abbrev contains : GoString → List GoString → Bool
  contains key [] = false
  contains key (k ∷ keys) = let rest = contains key keys in ite (bytes_dec k key) true rest

  -- The rest of a round of `processDHMessages` where no one waits for the message: the text joins the
  -- latest messages of its sender, whose ratchet is stored.
  pub keep_opening :
      X3dhMessage
      → Option (StateTable × Option GoString)
      → SignalHandler
      → Option (SignalHandler × List SignalAction)
  keep_opening m none h = none
  keep_opening m (some (table, none)) h = some (record h { state_table = table }, [])
  keep_opening m (some (table, some text)) h =
      let header = m.r_message.header in
      let h' = note header.origin header.origin header.n text (record h { state_table = table }) in
      elim (lookup bytes_dec header.origin table) [
        | none ↦ some (h', [])
        | some state ↦ elim (store_ratchet state header.origin h') [
          | none ↦ none
          | some h'' ↦ some (h'', [])
        ]
      ]

  -- A message without a one-time key stops the program: the code prints the key.
  pub process_dh_message :
      DhPair → X3dhMessage → SignalHandler → Option (SignalHandler × List SignalAction)
  process_dh_message fresh m h =
      let header = m.r_message.header in
      ite (bytes_dec header.destination h.name)
        (if contains (key_of p sg header.origin) h.identity_channels
          then some (h, hands_over m (key_of p sg header.origin) ∷ [])
          else elim m.opk [
            | none ↦ none
            | some key ↦
                keep_opening m (i_initialize_x3dh p fresh m h.self_identity h.state_table) h
          ])
        (some (h, sends (message_packet (some m)) header.destination ∷ []))

  -- One packet of `listenForIncomingMessages`, taken by the goroutine of its kind.
  unfoldable pub process_packet :
      DhPair → DhPair → SignalPacket → SignalHandler → Option (SignalHandler × List SignalAction)
  process_packet ek fresh packet h = elim (kind_of packet) [
    | none ↦ some (h, [])
    | some (identity_dh i) ↦ process_identity_message ek fresh i h
    | some (message_dh m) ↦ process_dh_message fresh m h
    | some (ratchet m) ↦ process_ratchet_message fresh m h
  ]

  -- The original message goes out if the answer holds the own name.
  pub send_original :
      (Bytes → Option RemoteIdentityCompressed)
      → Draws
      → GoString
      → Option GoString
      → GoString
      → SignalHandler
      → Option (SignalHandler × List SignalAction)
  send_original retrieve draws text none origin h = some (h, [])
  send_original retrieve draws text (some message) origin h =
      ite (bytes_dec text h.name) (send_private_ratchet p sg retrieve draws message origin none h)
        (some (h, []))

  -- `sendIdentity` with an answer: `opk` is its one-time pair, `message` the original message. An
  -- answer without a one-time key is a panic.
  pub answer_identity :
      (Bytes → Option RemoteIdentityCompressed)
      → Draws
      → DhPair
      → Option GoString
      → X3dhMessage
      → SignalHandler
      → Option (SignalHandler × List SignalAction)
  answer_identity retrieve draws opk message reply h = elim reply.opk [
    | none ↦ none
    | some key ↦
        elim (r_initialize_x3dh p draws.fresh reply (some opk) h.self_identity h.state_table) [
          | none ↦ none
          | some (table, none) ↦ some (record h { state_table = table }, [])
          | some (table, some text) ↦
              send_original retrieve draws text message reply.r_message.header.origin
                (record h { state_table = table })
        ]
  ]

  -- `sendIdentity` after a time: with a new one-time pair the identity goes out again, unless this
  -- was the last of so many tries. The result is what it waits with.
  pub retry_identity :
      ℕ → DhPair → X3dhIdentity → Option ((ℕ × X3dhIdentity × DhPair) × List SignalAction)
  retry_identity retry opk identity =
      if retry - 1 == 0
      then none
      else let again : X3dhIdentity = record identity { opk = some (marshal opk.pub_key) } in
        some ((retry - 1, again, opk), sends (identity_packet again) identity.destination ∷ [])
