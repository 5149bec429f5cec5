-- ===== src/Signal/Ratchet/Session.antt =====
-- The two sides of a connection: the initiator's chain, and the first message on the other side.
use dsignal.Base.{
  ℕ, ◌+◌, ◌^◌, ◌<◌, ◌≡◌, ◌∙◌, refl, Bool, false, none, some, Bytes, GoString, bytes_dec, arith,
}
use dsignal.Base.Dict.{lookup, lookup-nil}
use dsignal.Signal.Elliptic.{EllipticPoint, DhPair, marshal, unmarshal}
use dsignal.Signal.Primitives.{Primitives, Laws, RatchetHeader, RatchetMessage}
use dsignal.Signal.Kdf.{kdf_rk, kdf_ck}
use dsignal.Signal.Aead.{concat, encrypt_aead}
use dsignal.Signal.Ratchet.{
  DRatchetState, dh, s_initialize_ratchet, r_initialize_ratchet, dh_ratchet, ratchet_encrypt,
  ratchet_decrypt, same_key, skip_message_keys, compose_ratchet_header, get_key_from_ratchet,
}
use dsignal.Signal.Ratchet.Steps.{try_miss, decrypt_other}
use dsignal.Signal.Ratchet.Keys.{chain_key, message_key, chain_key_step}
use dsignal.Signal.Ratchet.Delivery.{
  Receives, mark, receive_on_chain-Receives, ratchet_decrypt-Receives,
}

-- The sender stands on the chain that begins with `ck`, with the key pair `pair`.
pub record Sends (p : Primitives) (pair : DhPair) (ck : Bytes) (state : DRatchetState)
    : Type 0 where
  pub own : state.dhs ≡ pair
  pub chain : state.cks ≡ some (chain_key p ck state.ns)

module _ (p : Primitives) (laws : Laws p) where
  pub encrypts :
      (plaintext ad k : Bytes) (origin destination : GoString) (state : DRatchetState)
      → state.cks ≡ some k
      → ratchet_encrypt p plaintext origin destination ad state
        ≡ some (
          record state { cks = some (kdf_ck p k).0; ns = state.ns + 1 },
          let header = compose_ratchet_header p state.dhs state.pn state.ns origin destination in
              record {
                header = header;
                message = encrypt_aead p (kdf_ck p k).1 plaintext (concat p ad header);
              },
        )
  unfolding ratchet_encrypt
  encrypts plaintext ad k origin destination state e = rw e

  s_initialize_ratchet-Sends :
      (fresh : DhPair) (sk : Bytes) (pub_key : EllipticPoint) (peer : GoString)
      → Sends p fresh
          (kdf_rk p sk (dh p fresh pub_key)).1
          (s_initialize_ratchet p fresh sk pub_key peer)
  unfolding s_initialize_ratchet
  s_initialize_ratchet-Sends fresh sk pub_key peer = record { own = refl; chain = refl }

  -- Between a sender and a receiver on the same chain, a message that is encrypted decrypts to its
  -- plaintext, and both stand on the chain again, the message marked as received. The receiver may
  -- have got messages of the chain in any order, but not this one; the sender's public key unpacks
  -- from its compressed form.
  pub ratchet_decrypt-ratchet_encrypt :
      (pair fresh : DhPair) (ck : Bytes) (got : ℕ → Bool) (sender receiver : DRatchetState)
      (plaintext ad : Bytes) (origin destination : GoString)
      → unmarshal p.elliptic_unmarshal (marshal pair.pub_key) ≡ pair.pub_key
      → sender.ns < 2 ^ 64
      → got sender.ns ≡ false
      → Sends p pair ck sender
      → Receives p pair.pub_key ck got receiver
      → (sender' receiver' : DRatchetState) × (m : RatchetMessage) × (ratchet_encrypt p plaintext
            origin destination ad sender
          ≡ some (sender', m))
        × (ratchet_decrypt p fresh m.header m.message receiver ≡ some (receiver', some plaintext))
        × Sends p pair ck sender'
        × Receives p pair.pub_key ck (mark sender.ns got) receiver'
  unfolding compose_ratchet_header
  ratchet_decrypt-ratchet_encrypt pair fresh ck got sender receiver plaintext ad origin destination
        unpacks small new s r =
      let k = chain_key p ck sender.ns in
      let header = compose_ratchet_header p sender.dhs sender.pn sender.ns origin destination in
      let key_of_header : unmarshal p.elliptic_unmarshal header.pub_key ≡ pair.pub_key =
        rw s.own unpacks in
      let (receiver', received, r') =
        ratchet_decrypt-Receives p laws pair.pub_key ck got header plaintext ad key_of_header small
          new fresh receiver r in
      (
        record sender { cks = some (kdf_ck p k).0; ns = sender.ns + 1 },
        receiver',
        record {
          header = header;
          message = encrypt_aead p (kdf_ck p k).1 plaintext (concat p ad header);
        },
        encrypts plaintext ad k origin destination sender s.chain,
        received,
        record { own = s.own; chain = rw (chain_key_step p ck sender.ns) },
        r',
      )

  module _ (alice bob : DhPair) (sk : Bytes)
      (agreement : dh p bob alice.pub_key ≡ dh p alice bob.pub_key) where
    dh_ratchet-Receives :
        (fresh : DhPair) (header : RatchetHeader)
        → unmarshal p.elliptic_unmarshal header.pub_key ≡ alice.pub_key
        → Receives p alice.pub_key
            (kdf_rk p sk (dh p alice bob.pub_key)).1
            (λ _. false)
            (dh_ratchet p fresh header (r_initialize_ratchet p sk bob))
    unfolding dh_ratchet r_initialize_ratchet
    dh_ratchet-Receives fresh header key_of_header = record {
      remote = rw key_of_header;
      chain = rw (key_of_header, agreement);
      in_range = omega arith;
      before = λ i lt. absurd (omega arith);
      after = λ i le lt. (lookup-nil bytes_dec (get_key_from_ratchet p alice.pub_key i), refl);
    }

    dh_ratchet_nr :
        (fresh : DhPair) (header : RatchetHeader) (state : DRatchetState)
        → (dh_ratchet p fresh header state).nr ≡ 0
    unfolding dh_ratchet
    dh_ratchet_nr fresh header state = refl

    first_miss :
        (header : RatchetHeader)
        → lookup bytes_dec
            (get_key_from_ratchet p (unmarshal p.elliptic_unmarshal header.pub_key) header.n)
            (r_initialize_ratchet p sk bob).mk_skipped
          ≡ none
    unfolding r_initialize_ratchet
    first_miss header = lookup-nil bytes_dec _

    first_key : (header : RatchetHeader) → same_key p (r_initialize_ratchet p sk bob) header ≡ false
    unfolding same_key r_initialize_ratchet
    first_key header = refl

    first_skip :
        (header : RatchetHeader)
        → skip_message_keys p header.n (r_initialize_ratchet p sk bob)
          ≡ some (r_initialize_ratchet p sk bob)
    unfolding skip_message_keys r_initialize_ratchet
    first_skip header = refl

    -- The initiator and the responder start from one secret, and Diffie-Hellman agrees on their key
    -- pairs. Whichever message of the initiator's first chain comes first, the responder decrypts
    -- it to its plaintext, and stands on the initiator's chain with just that message received.
    pub ratchet_decrypt-first :
        (fresh : DhPair) (header : RatchetHeader) (plaintext ad : Bytes) (peer : GoString)
        → unmarshal p.elliptic_unmarshal header.pub_key ≡ alice.pub_key
        → header.n < 2 ^ 64
        → (ck : Bytes) × (bob' : DRatchetState) × Sends p alice ck
            (s_initialize_ratchet p alice sk bob.pub_key peer)
          × (ratchet_decrypt p fresh header
                (encrypt_aead p (message_key p ck header.n) plaintext (concat p ad header))
                (r_initialize_ratchet p sk bob)
              ≡ some (bob', some plaintext))
          × Receives p alice.pub_key ck (mark header.n (λ _. false)) bob'
    ratchet_decrypt-first fresh header plaintext ad peer key_of_header small =
        let ck = (kdf_rk p sk (dh p alice bob.pub_key)).1 in
        let start = r_initialize_ratchet p sk bob in
        let cipher = encrypt_aead p (message_key p ck header.n) plaintext (concat p ad header) in
        let (bob', received, r) =
          receive_on_chain-Receives p laws alice.pub_key ck (λ _. false) header plaintext ad
            key_of_header small refl (dh_ratchet p fresh header start)
            (omega (arith, dh_ratchet_nr fresh header start))
            (dh_ratchet-Receives fresh header key_of_header) in
        (
          ck,
          bob',
          s_initialize_ratchet-Sends alice sk bob.pub_key peer,
          decrypt_other p header cipher start fresh start
                (try_miss p header cipher start (first_miss header)) (first_key header)
                (first_skip header)
              ∙ received,
          r,
        )
