-- ===== src/Signal/Handler/Unanswered.antt =====
-- A second message to a peer that has not answered the first one yet.
use dsignal.Base.{
  ◌∷◌, ◌++◌, ℕ, ◌+◌, ◌≡◌, refl, true, Option, none, some, [], Bytes, GoString, bytes_dec, get_elem?,
  List,
}
use dsignal.Base.Dict.{insert, lookup-insert_self}
use dsignal.Signal.Elliptic.{EllipticPoint, DhPair, marshal}
use dsignal.Signal.Primitives.{Primitives, Laws, RatchetMessage}
use dsignal.Signal.Kdf.{kdf_ck, kdf_rk}
use dsignal.Signal.Ratchet.{DRatchetState, dh, ratchet_encrypt, s_initialize_ratchet}
use dsignal.Signal.Ratchet.Session.{encrypts}
use dsignal.Signal.Ratchet.Stored.{compress_ratchet-none}
use dsignal.Signal.Identity.{
  Signatures, Ecdsa, SelfIdentity, RemoteIdentity, RemoteIdentityCompressed, verify_signature,
}
use dsignal.Signal.X3dh.{X3dhMessage, sender_secret, opening, send_opening, s_initialize_x3dh}
use dsignal.Signal.X3dh.Agreement.{remote_of}
use dsignal.Signal.Handler.{
  SignalHandler, Draws, sends, message_packet, store_ratchet, send_on_ratchet, send_private_ratchet,
  i_start_x3dh,
}

module _ (p : Primitives) (laws : Laws p) (sg : Signatures) where
  -- A ratchet without a receiving chain is not stored.
  send_on_ratchet_unstored :
      (text user : GoString) (s : DRatchetState) (h : SignalHandler) (ck : Bytes)
      → s.cks ≡ some ck
      → s.ckr ≡ none
      → send_on_ratchet p sg text user s h ≡ none
  unfolding send_on_ratchet store_ratchet
  send_on_ratchet_unstored text user s h ck chain receives =
      rw
        (
          send_on_ratchet,
          encrypts p laws text [] ck h.name user s chain,
          store_ratchet,
          compress_ratchet-none (record s { cks = some (kdf_ck p ck).0; ns = s.ns + 1 }) receives,
        )
        refl

  opening_sent :
      (ek fresh : DhPair) (remote : RemoteIdentity) (opk : EllipticPoint) (message user : GoString)
      (h : SignalHandler) (s : DRatchetState) (rm : RatchetMessage)
      → ratchet_encrypt p
          (opening h.name user (some message))
          h.name
          user
          (marshal h.self_identity.ik.pub_key ++ marshal remote.ik)
          (s_initialize_ratchet p fresh
            (sender_secret p ek h.self_identity remote (some opk))
            remote.spk
            user)
        ≡ some (s, rm)
      → (m : X3dhMessage) × (send_opening p ek fresh remote
            (some opk)
            h.name
            user
            h.self_identity
            (some message)
            h.state_table
          ≡ some (insert bytes_dec user s h.state_table, some m))
  unfolding send_opening
  opening_sent ek fresh remote opk message user h s rm sent = (
    record {
      r_message = rm;
      ik = marshal h.self_identity.ik.pub_key;
      ek = marshal ek.pub_key;
      opk = some (marshal opk);
    },
    rw (send_opening, sent) refl,
  )

  -- Opening leaves a ratchet that sends and does not receive.
  opening-Sends :
      (ek fresh : DhPair) (remote : RemoteIdentity) (opk : EllipticPoint) (message user : GoString)
      (h : SignalHandler)
      → (s : DRatchetState) × (ck : Bytes) × (m : X3dhMessage) × (send_opening p ek fresh remote
            (some opk)
            h.name
            user
            h.self_identity
            (some message)
            h.state_table
          ≡ some (insert bytes_dec user s h.state_table, some m))
        × (s.cks ≡ some ck)
        × (s.ckr ≡ none)
  unfolding s_initialize_ratchet
  opening-Sends ek fresh remote opk message user h =
      let secret = sender_secret p ek h.self_identity remote (some opk) in
      let start = s_initialize_ratchet p fresh secret remote.spk user in
      let ck = (kdf_rk p secret (dh p fresh remote.spk)).1 in
      let sent =
        encrypts p laws (opening h.name user (some message))
          (marshal h.self_identity.ik.pub_key ++ marshal remote.ik) ck h.name user start refl in
      let s : DRatchetState = record start { cks = some (kdf_ck p ck).0; ns = start.ns + 1 } in
      let (m, opened) = opening_sent ek fresh remote opk message user h s _ sent in
      (s, (kdf_ck p ck).0, m, opened, refl, refl)

  -- A node opens a connection with a message from the identity that a peer has published, whose signature
  -- verifies; the opening is sent. If the peer has not answered, the second message to it stops the
  -- program, whatever it says: the ratchet has no receiving chain yet, and storing it follows the nil
  -- pointer.
  pub send_private_ratchet_unanswered :
      (retrieve : Bytes → Option RemoteIdentityCompressed) (draws : Draws)
      (identity : Option (Option Bytes)) (index : ℕ) (ek fresh : DhPair) (peer : SelfIdentity)
      (sign : Ecdsa) (opks : List EllipticPoint) (opk : EllipticPoint)
      (message text user : GoString) (h : SignalHandler)
      → get_elem? opks index ≡ some opk
      → verify_signature p sg (marshal peer.spk.pub_key) sign peer.ik.pub_key ≡ true
      → (h' : SignalHandler) × (m : X3dhMessage) × (i_start_x3dh p sg index ek fresh user message
            (remote_of peer sign opks)
            h
          ≡ some (h', sends (message_packet (some m)) user ∷ []))
        × (send_private_ratchet p sg retrieve draws text user identity h' ≡ none)
  unfolding i_start_x3dh s_initialize_x3dh send_private_ratchet
  send_private_ratchet_unanswered retrieve draws identity index ek fresh peer sign opks opk message
        text user h key verified =
      let (s, ck, m, opened, chain, receives) =
        opening-Sends ek fresh (remote_of peer sign opks) opk message user h in
      let h' = record h { state_table = insert bytes_dec user s h.state_table } in
      (
        h',
        m,
        rw (i_start_x3dh, key, verified, opened) refl,
        rw (send_private_ratchet, lookup-insert_self bytes_dec user s h.state_table)
            (send_on_ratchet_unstored text user s h' ck chain receives),
      )
