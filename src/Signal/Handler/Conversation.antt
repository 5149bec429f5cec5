-- ===== src/Signal/Handler/Conversation.antt =====
-- Two handlers in a conversation: what one sends, the other notes.
use mathlib.Core.Path.{subst}
use dsignal.Base.{
  ℕ, ◌^◌, ◌<◌, ◌≡◌, ◌∙◌, refl, ap, Bool, false, Option, some, List, [], ◌∷◌, ◌++◌, Bytes, GoString,
  bytes_dec, if_pos,
}
use dsignal.Base.Dict.{Dict, lookup, insert, lookup-insert_self}
use dsignal.Signal.Elliptic.{EllipticPoint, DhPair, marshal, unmarshal}
use dsignal.Signal.Primitives.{Primitives, Laws, RatchetMessage}
use dsignal.Signal.Ratchet.{DRatchetState, ratchet_encrypt, ratchet_decrypt}
use dsignal.Signal.Ratchet.Delivery.{Receives, mark}
use dsignal.Signal.Ratchet.Session.{Sends}
use dsignal.Signal.Ratchet.Chains.{CanSend, ratchet_decrypt-CanSend}
use dsignal.Signal.Ratchet.Exchange.{exchanged}
use dsignal.Signal.Ratchet.Stored.{DRatchetStateCompressed, compress_ratchet}
use dsignal.Signal.Identity.{Signatures, RemoteIdentityCompressed}
use dsignal.Signal.Handler.{
  SignalHandler, LatestMessage, Draws, sends, ratchet_packet, messages_of, one_message, note,
  store_ratchet, set_state, send_on_ratchet, send_private_ratchet, keep_plaintext,
  receive_private_ratchet,
}
use dsignal.Signal.Handler.Incoming.{kind_of, process_ratchet_message, process_packet}

-- What a side has after a message: the state for its peer, its stored form, and the messages with it.
pub record Talks (peer : GoString) (state : DRatchetState) (messages : List LatestMessage)
    (h : SignalHandler) : Type 0 where
  pub holds : lookup bytes_dec peer h.state_table ≡ some state
  pub knows : lookup bytes_dec peer h.latest_messages ≡ some messages
  pub stored :
      (c : DRatchetStateCompressed) × (compress_ratchet state ≡ some c)
      × (lookup bytes_dec peer h.ratchet_files ≡ some c)

-- A ratchet with both chains and a remote key can be stored.
stores :
    (s : DRatchetState) (q : EllipticPoint) (cks ckr : Bytes) (peer : GoString) (h : SignalHandler)
    → s.dhr ≡ some q
    → s.cks ≡ some cks
    → s.ckr ≡ some ckr
    → (h' : SignalHandler) × (store_ratchet s peer h ≡ some h')
      × (h'.state_table ≡ h.state_table)
      × (h'.latest_messages ≡ h.latest_messages)
      × (h'.name ≡ h.name)
      × ((c : DRatchetStateCompressed) × (compress_ratchet s ≡ some c)
          × (lookup bytes_dec peer h'.ratchet_files ≡ some c))
unfolding store_ratchet compress_ratchet
stores s q cks ckr peer h remote sending receiving =
    let c : DRatchetStateCompressed = record {
      peer = s.peer;
      dhs_priv_key = s.dhs.priv_key;
      dhs_pub_key = marshal s.dhs.pub_key;
      dhr = marshal q;
      rk = s.rk;
      cks = cks;
      ckr = ckr;
      ns = s.ns;
      nr = s.nr;
      pn = s.pn;
      mk_skipped = s.mk_skipped;
    } in
    (
      record h { ratchet_files = insert bytes_dec peer c h.ratchet_files },
      rw (store_ratchet, compress_ratchet, remote, sending, receiving) refl,
      refl,
      refl,
      refl,
      (
        c,
        rw (compress_ratchet, remote, sending, receiving) refl,
        lookup-insert_self bytes_dec peer c h.ratchet_files,
      ),
    )

module _ (p : Primitives) (laws : Laws p) (sg : Signatures) where
  sends_packet :
      (retrieve : Bytes → Option RemoteIdentityCompressed) (draws : Draws) (text : GoString)
      (identity : Option (Option Bytes)) (h : SignalHandler) (peer : GoString)
      (state state' : DRatchetState) (m : RatchetMessage) (q : EllipticPoint) (cks ckr : Bytes)
      → lookup bytes_dec peer h.state_table ≡ some state
      → ratchet_encrypt p text h.name peer [] state ≡ some (state', m)
      → state'.dhr ≡ some q
      → state'.cks ≡ some cks
      → state'.ckr ≡ some ckr
      → (h' : SignalHandler) × (send_private_ratchet p sg retrieve draws text peer identity h
          ≡ some (h', sends (ratchet_packet m) peer ∷ []))
        × Talks peer state'
            (messages_of peer h.latest_messages ++ one_message h.name m.header.n text)
            h'
  unfolding send_private_ratchet send_on_ratchet set_state
  sends_packet retrieve draws text identity h peer state state' m q cks ckr has encrypted remote
        sending receiving =
      let (h', stored, table, latest, name, filed) =
        stores state' q cks ckr peer (set_state peer state' h) remote sending receiving in
      (
        note peer h.name m.header.n text h',
        rw (send_private_ratchet, has, send_on_ratchet, encrypted, stored) refl,
        record {
          holds = rw table (lookup-insert_self bytes_dec peer state' h.state_table);
          knows =
              lookup-insert_self bytes_dec peer _ h'.latest_messages
              ∙ ap
                  (λ (l : Dict GoString (List LatestMessage)).
                    some (messages_of peer l ++ one_message h.name m.header.n text))
                  latest;
          stored = filed;
        },
      )

  receives_packet :
      (ek fresh : DhPair) (h : SignalHandler) (state state' : DRatchetState) (m : RatchetMessage)
      (text : Bytes) (q : EllipticPoint) (cks ckr : Bytes)
      → m.header.destination ≡ h.name
      → lookup bytes_dec m.header.origin h.state_table ≡ some state
      → ratchet_decrypt p fresh m.header m.message state ≡ some (state', some text)
      → state'.dhr ≡ some q
      → state'.cks ≡ some cks
      → state'.ckr ≡ some ckr
      → (h' : SignalHandler) × (process_packet p sg ek fresh (ratchet_packet m) h ≡ some (h', []))
        × Talks m.header.origin state'
            (messages_of m.header.origin h.latest_messages
              ++ one_message m.header.origin m.header.n text)
            h'
  unfolding process_packet kind_of process_ratchet_message receive_private_ratchet keep_plaintext
      set_state
  receives_packet ek fresh h state state' m text q cks ckr here has decrypted remote sending
        receiving =
      let peer = m.header.origin in
      let (h', stored, table, latest, name, filed) =
        stores state' q cks ckr peer (note peer peer m.header.n text (set_state peer state' h))
          remote sending receiving in
      (
        h',
        if_pos (bytes_dec m.header.destination h.name) here _ _
            ∙ rw (receive_private_ratchet, has, decrypted, keep_plaintext, stored) refl,
        record {
          holds = rw table (lookup-insert_self bytes_dec peer state' h.state_table);
          knows = rw latest (lookup-insert_self bytes_dec peer _ h.latest_messages);
          stored = filed;
        },
      )

  -- Two handlers that have a ratchet for each other, the first one's on a sending chain on which the
  -- second one's receives, and both with all that is stored of a ratchet. A message from the first
  -- goes out as one packet, whatever identity was given with it; the second takes the packet, and
  -- nothing more is sent. Both append the text, under the sender's name and the number of the message,
  -- to their messages with each other. Both hold their new ratchets and have filed the compressed forms
  -- of just these; the ratchets stand on the chain again, the message marked as received. The conditions on
  -- the chain are those of the ratchet.
  pub process_packet-send_private_ratchet :
      (retrieve : Bytes → Option RemoteIdentityCompressed) (draws : Draws) (text : GoString)
      (identity : Option (Option Bytes)) (alice bob : SignalHandler) (ek fresh pair : DhPair)
      (ck : Bytes) (got : ℕ → Bool) (sender receiver : DRatchetState) (q : EllipticPoint)
      (k : Bytes)
      → lookup bytes_dec bob.name alice.state_table ≡ some sender
      → lookup bytes_dec alice.name bob.state_table ≡ some receiver
      → unmarshal p.elliptic_unmarshal (marshal pair.pub_key) ≡ pair.pub_key
      → sender.ns < 2 ^ 64
      → got sender.ns ≡ false
      → Sends p pair ck sender
      → sender.dhr ≡ some q
      → sender.ckr ≡ some k
      → Receives p pair.pub_key ck got receiver
      → CanSend receiver
      → (alice' bob' : SignalHandler) × (m : RatchetMessage) × (sender' receiver' : DRatchetState)
        × (send_private_ratchet p sg retrieve draws text bob.name identity alice
            ≡ some (alice', sends (ratchet_packet m) bob.name ∷ []))
        × (process_packet p sg ek fresh (ratchet_packet m) bob ≡ some (bob', []))
        × Talks bob.name sender'
            (messages_of bob.name alice.latest_messages ++ one_message alice.name sender.ns text)
            alice'
        × Talks alice.name receiver'
            (messages_of alice.name bob.latest_messages ++ one_message alice.name sender.ns text)
            bob'
        × Sends p pair ck sender'
        × Receives p pair.pub_key ck (mark sender.ns got) receiver'
        × CanSend receiver'
  process_packet-send_private_ratchet retrieve draws text identity alice bob ek fresh pair ck got
        sender receiver q k has has' unpacks small new s remote receiving r can =
      let e =
        exchanged p laws pair fresh ck got sender receiver text [] alice.name bob.name unpacks small
          new s r in
      let can' =
        ratchet_decrypt-CanSend p e.message.header e.message.message (some text) e.receiver' fresh
          receiver e.decrypted can in
      let (alice', sent, talks) =
        sends_packet retrieve draws text identity alice bob.name sender e.sender' e.message q _ k
          has e.encrypted (e.same_dhr ∙ remote) e.sends.chain (e.same_ckr ∙ receiving) in
      let (bob', taken, talks') =
        receives_packet ek fresh bob receiver e.receiver' e.message text pair.pub_key can'.0 _ e.to
          (rw e.from has') e.decrypted e.receives.remote can'.1 e.receives.chain in
      (
        alice',
        bob',
        e.message,
        e.sender',
        e.receiver',
        sent,
        taken,
        subst
            (λ n.
              Talks bob.name e.sender'
                (messages_of bob.name alice.latest_messages ++ one_message alice.name n text)
                alice')
            e.number talks,
        subst
            (λ n.
              Talks alice.name e.receiver'
                (messages_of alice.name bob.latest_messages ++ one_message alice.name n text) bob')
            e.number
            (subst
              (λ o.
                Talks o e.receiver'
                  (messages_of o bob.latest_messages ++ one_message o e.message.header.n text) bob')
              e.from talks'),
        e.sends,
        e.receives,
        can',
      )
