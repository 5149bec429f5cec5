-- ===== src/Signal/Ratchet/Exchange.antt =====
-- One message from a side to the other, with what its header says and what both sides keep.
use dsignal.Base.{
  ℕ, ◌^◌, ◌<◌, ◌≡◌, ◌∙◌, sym, ap, Bool, false, some, Bytes, GoString, some_injective,
}
use dsignal.Signal.Elliptic.{DhPair, marshal, unmarshal}
use dsignal.Signal.Primitives.{Primitives, Laws, RatchetMessage}
use dsignal.Signal.Ratchet.{DRatchetState, compose_ratchet_header, ratchet_encrypt, ratchet_decrypt}
use dsignal.Signal.Ratchet.Keys.{chain_key}
use dsignal.Signal.Ratchet.Delivery.{Receives, mark}
use dsignal.Signal.Ratchet.Session.{Sends, encrypts, ratchet_decrypt-ratchet_encrypt}

pub record Exchanged (p : Primitives) (pair fresh : DhPair) (ck : Bytes) (got : ℕ → Bool)
    (before receiver : DRatchetState) (plaintext ad : Bytes) (origin destination : GoString)
    : Type 0 where
  pub sender' : DRatchetState
  pub receiver' : DRatchetState
  pub message : RatchetMessage
  pub encrypted : ratchet_encrypt p plaintext origin destination ad before ≡ some (sender', message)
  pub decrypted :
      ratchet_decrypt p fresh message.header message.message receiver
      ≡ some (receiver', some plaintext)
  pub sends : Sends p pair ck sender'
  pub receives : Receives p pair.pub_key ck (mark before.ns got) receiver'
  pub from : message.header.origin ≡ origin
  pub to : message.header.destination ≡ destination
  pub number : message.header.n ≡ before.ns
  pub same_dhr : sender'.dhr ≡ before.dhr
  pub same_ckr : sender'.ckr ≡ before.ckr

module _ (p : Primitives) (laws : Laws p) where
  pub exchanged :
      (pair fresh : DhPair) (ck : Bytes) (got : ℕ → Bool) (sender receiver : DRatchetState)
      (plaintext ad : Bytes) (origin destination : GoString)
      → unmarshal p.elliptic_unmarshal (marshal pair.pub_key) ≡ pair.pub_key
      → sender.ns < 2 ^ 64
      → got sender.ns ≡ false
      → Sends p pair ck sender
      → Receives p pair.pub_key ck got receiver
      → Exchanged p pair fresh ck got sender receiver plaintext ad origin destination
  unfolding compose_ratchet_header
  exchanged pair fresh ck got sender receiver plaintext ad origin destination unpacks small new s
        r =
      let (sender', receiver', m, encrypted, decrypted, s', r') =
        ratchet_decrypt-ratchet_encrypt p laws pair fresh ck got sender receiver plaintext ad origin
          destination unpacks small new s r in
      let known = some_injective (
        sym (
          encrypts p laws plaintext ad (chain_key p ck sender.ns) origin destination sender s.chain)
        ∙ encrypted) in
      record {
        sender' = sender';
        receiver' = receiver';
        message = m;
        encrypted = encrypted;
        decrypted = decrypted;
        sends = s';
        receives = r';
        from = ap (λ (q : DRatchetState × RatchetMessage). q.1.header.origin) (sym known);
        to = ap (λ (q : DRatchetState × RatchetMessage). q.1.header.destination) (sym known);
        number = ap (λ (q : DRatchetState × RatchetMessage). q.1.header.n) (sym known);
        same_dhr = ap (λ (q : DRatchetState × RatchetMessage). q.0.dhr) (sym known);
        same_ckr = ap (λ (q : DRatchetState × RatchetMessage). q.0.ckr) (sym known);
      }
