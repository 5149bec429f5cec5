-- ===== src/Signal/Ratchet/Opening.antt =====
-- The first message of a new connection, from the initiator's fresh state to the responder's.
use dsignal.Base.{◌≡◌, refl, false, some, Bytes, GoString, arith}
use dsignal.Signal.Elliptic.{DhPair, marshal, unmarshal}
use dsignal.Signal.Primitives.{Primitives, Laws, RatchetMessage}
use dsignal.Signal.Kdf.{kdf_ck}
use dsignal.Signal.Aead.{concat, encrypt_aead}
use dsignal.Signal.Ratchet.{
  DRatchetState, dh, s_initialize_ratchet, r_initialize_ratchet, ratchet_encrypt, ratchet_decrypt,
  compose_ratchet_header,
}
use dsignal.Signal.Ratchet.Delivery.{Receives, mark}
use dsignal.Signal.Ratchet.Session.{Sends, encrypts, ratchet_decrypt-first}

-- The two states after one message, each on the initiator's chain.
pub record Opened (p : Primitives) (alice bob : DhPair) (sk : Bytes) (fresh : DhPair)
    (plaintext ad : Bytes) (origin destination : GoString) : Type 0 where
  pub ck : Bytes
  pub sender : DRatchetState
  pub receiver : DRatchetState
  pub message : RatchetMessage
  pub encrypted :
      ratchet_encrypt p plaintext origin destination ad
        (s_initialize_ratchet p alice sk bob.pub_key destination)
      ≡ some (sender, message)
  pub decrypted :
      ratchet_decrypt p fresh message.header message.message (r_initialize_ratchet p sk bob)
      ≡ some (receiver, some plaintext)
  pub sends : Sends p alice ck sender
  pub receives : Receives p alice.pub_key ck (mark 0 (λ i. false)) receiver

module _ (p : Primitives) (laws : Laws p) where
  pub opened :
      (alice bob : DhPair) (sk : Bytes) (fresh : DhPair) (plaintext ad : Bytes)
      (origin destination : GoString)
      → dh p bob alice.pub_key ≡ dh p alice bob.pub_key
      → unmarshal p.elliptic_unmarshal (marshal alice.pub_key) ≡ alice.pub_key
      → Opened p alice bob sk fresh plaintext ad origin destination
  unfolding s_initialize_ratchet compose_ratchet_header
  opened alice bob sk fresh plaintext ad origin destination agreement unpacks =
      let state = s_initialize_ratchet p alice sk bob.pub_key destination in
      let header = compose_ratchet_header p alice 0 0 origin destination in
      let (ck, receiver, start, received, r) =
        ratchet_decrypt-first p laws alice bob sk agreement fresh header plaintext ad destination
          unpacks (omega arith) in
      record {
        ck = ck;
        sender = record state { cks = some (kdf_ck p ck).0; ns = 1 };
        receiver = receiver;
        message = record {
          header = header;
          message = encrypt_aead p (kdf_ck p ck).1 plaintext (concat p ad header);
        };
        encrypted = encrypts p laws plaintext ad ck origin destination state start.chain;
        decrypted = received;
        sends = record { own = refl; chain = refl };
        receives = r;
      }
