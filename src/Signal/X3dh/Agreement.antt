-- ===== src/Signal/X3dh/Agreement.antt =====
-- Both sides of the agreement reach one secret, and the receiver reads the opening message.
use dsignal.Base.{
  ℕ, ◌≡◌, refl, true, false, Option, none, some, List, ◌++◌, Bytes, GoString, get_elem?, bytes_dec,
}
use dsignal.Base.Dict.{insert}
use dsignal.Signal.Elliptic.{EllipticPoint, DhPair, marshal, unmarshal}
use dsignal.Signal.Primitives.{Primitives, Laws, RatchetMessage}
use dsignal.Signal.Ratchet.{DRatchetState, dh}
use dsignal.Signal.Ratchet.Delivery.{Receives, mark}
use dsignal.Signal.Ratchet.Session.{Sends}
use dsignal.Signal.Ratchet.Opening.{Opened, opened}
use dsignal.Signal.Identity.{Ecdsa, Signatures, SelfIdentity, RemoteIdentity, verify_signature}
use dsignal.Signal.X3dh.Texts.{NoColon, before_colon, opening_message, opening_names}
use dsignal.Signal.X3dh.{
  X3dhMessage, StateTable, split_colon, opening, find_opk, sender_secret, receiver_secret,
  send_opening, s_initialize_x3dh, accept_opening, r_initialize_x3dh, i_initialize_x3dh,
}

-- Diffie-Hellman gives two key pairs one secret.
abbrev pub Agree : Primitives → DhPair → DhPair → Type 0
Agree p a b = dh p b a.pub_key ≡ dh p a b.pub_key

abbrev pub Unpacks : Primitives → EllipticPoint → Type 0
Unpacks p q = unmarshal p.elliptic_unmarshal (marshal q) ≡ q

-- What a peer publishes of its identity.
abbrev pub remote_of : SelfIdentity → Ecdsa → List EllipticPoint → RemoteIdentity
remote_of identity sign opks = record {
  ik = identity.ik.pub_key;
  spk = identity.spk.pub_key;
  sign = some sign;
  opk = opks;
}

-- The outcome of an agreement: the sender's table holds its state for the receiver, the receiver's
-- table its own for the sender, both on one chain, whose first message has been received.
abbrev pub Connected :
    Primitives
    → DhPair
    → GoString
    → GoString
    → StateTable
    → StateTable
    → StateTable
    → StateTable
    → Type 0
Connected p pair sender receiver table table' sent received =
    (ck : Bytes) × (alice' bob' : DRatchetState) × (sent ≡ insert bytes_dec receiver alice' table)
    × (received ≡ insert bytes_dec sender bob' table')
    × Sends p pair ck alice'
    × Receives p pair.pub_key ck (mark 0 (λ i. false)) bob'

module _ (p : Primitives) (laws : Laws p) (sg : Signatures) (alice bob : SelfIdentity)
    (sign : Ecdsa) (opks : List EllipticPoint) (ek pair fresh one_time : DhPair)
    (sender receiver : GoString) (table table' : StateTable)
    (signed : verify_signature p sg (marshal bob.spk.pub_key) sign bob.ik.pub_key ≡ true)
    (agree_ik : Agree p alice.ik bob.spk) (agree_ek : Agree p ek bob.ik)
    (agree_ek_spk : Agree p ek bob.spk) (agree_opk : Agree p ek one_time)
    (agree_ratchet : Agree p pair bob.spk) (unpacks_ik : Unpacks p alice.ik.pub_key)
    (unpacks_ek : Unpacks p ek.pub_key) (unpacks_ratchet : Unpacks p pair.pub_key)
    (plain_sender : NoColon sender) where
  shared : Bytes
  shared = sender_secret p ek alice (remote_of bob sign opks) (some one_time.pub_key)

  message_of : RatchetMessage → X3dhMessage
  message_of m = record {
    r_message = m;
    ik = marshal alice.ik.pub_key;
    ek = marshal ek.pub_key;
    opk = some (marshal one_time.pub_key);
  }

  receiver_secret_lem :
      (m : RatchetMessage) → receiver_secret p bob (message_of m) (some one_time) ≡ shared
  unfolding receiver_secret sender_secret shared message_of
  receiver_secret_lem m =
      rw (unpacks_ik, unpacks_ek, agree_ik, agree_ek, agree_ek_spk, agree_opk) refl

  -- The sender's ratchet and the receiver's, after a message with this text.
  first :
      (text : GoString)
      → Opened p pair bob.spk shared fresh text
          (marshal alice.ik.pub_key ++ marshal bob.ik.pub_key)
          sender
          receiver
  first text =
      opened p laws pair bob.spk shared fresh text
        (marshal alice.ik.pub_key ++ marshal bob.ik.pub_key) sender receiver agree_ratchet
        unpacks_ratchet

  sends_opening :
      (message : Option GoString)
      → s_initialize_x3dh p sg ek pair
          (remote_of bob sign opks)
          (some one_time.pub_key)
          sender
          receiver
          alice
          message
          table
        ≡ some (
          insert bytes_dec receiver (first (opening sender receiver message)).sender table,
          some (message_of (first (opening sender receiver message)).message),
        )
  unfolding s_initialize_x3dh send_opening shared message_of
  sends_opening message =
      rw (signed, send_opening, (first (opening sender receiver message)).encrypted) refl

  accepts_opening :
      (index : ℕ) (text part : GoString)
      → get_elem? (split_colon text) 0 ≡ some sender
      → get_elem? (split_colon text) index ≡ some part
      → accept_opening p index shared fresh (message_of (first text).message) bob table'
        ≡ some (
          insert bytes_dec sender (record (first text).receiver { peer = sender }) table',
          some part,
        )
  unfolding accept_opening message_of
  accepts_opening index text part name rest =
      rw (accept_opening, (first text).decrypted, name, rest) refl

  connected :
      (text : GoString)
      → Connected p pair sender receiver table table'
          (insert bytes_dec receiver (first text).sender table)
          (insert bytes_dec sender (record (first text).receiver { peer = sender }) table')
  connected text =
      let o = first text in
      (
        o.ck,
        o.sender,
        record o.receiver { peer = sender },
        refl,
        refl,
        o.sends,
        record {
          remote = o.receives.remote;
          chain = o.receives.chain;
          in_range = o.receives.in_range;
          before = o.receives.before;
          after = o.receives.after;
        },
      )

  -- A peer that has read the receiver's published identity opens a connection with a message, where
  -- neither the peer's name nor the receiver's has a colon, and the receiver, whose identity holds the one-time key that the message names, accepts it. Where
  -- the signature verifies, Diffie-Hellman agrees on the five pairs of keys, and the keys sent unpack
  -- from their compressed forms, the receiver reads the message up to its first colon, and the two
  -- are connected.
  pub i_initialize_x3dh-s_initialize_x3dh :
      (message : GoString)
      → NoColon receiver
      → find_opk (marshal one_time.pub_key) bob.opk ≡ some one_time
      → (sent received : StateTable) × (msg : X3dhMessage) × (s_initialize_x3dh p sg ek pair
            (remote_of bob sign opks)
            (some one_time.pub_key)
            sender
            receiver
            alice
            (some message)
            table
          ≡ some (sent, some msg))
        × (i_initialize_x3dh p fresh msg bob table' ≡ some (received, some (before_colon message)))
        × Connected p pair sender receiver table table' sent received
  unfolding i_initialize_x3dh message_of
  i_initialize_x3dh-s_initialize_x3dh message plain_receiver found =
      let text = opening sender receiver (some message) in
      let parts = opening_message sender receiver plain_sender plain_receiver message in
      (
        _,
        _,
        _,
        sends_opening (some message),
        rw (found, receiver_secret_lem (first text).message)
            (accepts_opening 2 text (before_colon message) parts.0 parts.1),
        connected text,
      )

  -- The answer to an identity that was sent: the sender opens the connection without a message, and
  -- the receiver, which still has the key pair of the one-time key, reads its own name. The
  -- conditions on the keys are the same, and the two are connected.
  pub r_initialize_x3dh-s_initialize_x3dh :
      NoColon receiver
      → (sent received : StateTable) × (msg : X3dhMessage) × (s_initialize_x3dh p sg ek pair
            (remote_of bob sign opks)
            (some one_time.pub_key)
            sender
            receiver
            alice
            none
            table
          ≡ some (sent, some msg))
        × (r_initialize_x3dh p fresh msg (some one_time) bob table'
            ≡ some (received, some receiver))
        × Connected p pair sender receiver table table' sent received
  unfolding r_initialize_x3dh message_of
  r_initialize_x3dh-s_initialize_x3dh plain_receiver =
      let text = opening sender receiver none in
      let parts = opening_names sender receiver plain_sender plain_receiver in
      (
        _,
        _,
        _,
        sends_opening none,
        rw (receiver_secret_lem (first text).message)
            (accepts_opening 1 text receiver parts.0 parts.1),
        connected text,
      )
