-- ===== src/Signal/Ratchet/Faults.antt =====
-- What `RatchetDecrypt` does on a replayed message, and on the first one of a new chain.
use dsignal.Base.{
  ℕ, ◌+◌, ◌-◌, ◌^◌, ◌<◌, ◌≡◌, ◌∙◌, refl, Bool, true, false, Option, none, some, Bytes, bytes_dec,
  dec_lt, arith,
}
use dsignal.Base.Dict.{lookup}
use dsignal.Signal.Elliptic.{EllipticPoint, DhPair, unmarshal}
use dsignal.Signal.Primitives.{Primitives, Laws, RatchetHeader, RatchetCipher}
use dsignal.Signal.Kdf.{kdf_rk, kdf_ck}
use dsignal.Signal.Aead.{decrypt_aead}
use dsignal.Signal.Ratchet.{
  DRatchetState, dh, get_key_from_ratchet, skip_loop, skip_message_keys, same_key, dh_ratchet,
  ratchet_decrypt,
}
use dsignal.Signal.Ratchet.Steps.{try_miss, same_key_lem, on_chain, decrypt_same, decrypt_other}
use dsignal.Signal.Ratchet.Keys.{chain_key, message_key}
use dsignal.Signal.Ratchet.Delivery.{Receives, mark, next-Receives}

module _ (p : Primitives) where
  -- Nothing is skipped where the counter has passed the number.
  skip_nothing :
      (until : ℕ) (state : DRatchetState)
      → until - state.nr ≡ 0
      → skip_message_keys p until state ≡ some state
  unfolding skip_message_keys skip_loop
  skip_nothing until state e = ground arith

  module _ (laws : Laws p) (dhr : EllipticPoint) (ck : Bytes) (got : ℕ → Bool)
      (header : RatchetHeader) (key_of_header : unmarshal p.elliptic_unmarshal header.pub_key ≡ dhr)
      (small : header.n < 2 ^ 64) where
    passed :
        (state : DRatchetState)
        → got header.n ≡ true
        → Receives p dhr ck got state
        → header.n < state.nr
    passed state spent r = elim (dec_lt header.n state.nr) [
      | yes lt ↦ lt
      | no ge ↦ let missing = (r.after header.n (omega arith) small).1 in absurd (ground arith)
    ]

    gone :
        (state : DRatchetState)
        → got header.n ≡ true
        → Receives p dhr ck got state
        → lookup bytes_dec (get_key_from_ratchet p dhr header.n) state.mk_skipped ≡ none
    gone state spent r = r.before header.n (passed state spent r) ∙ rw spent

    -- A message that comes again, or any packet with its header, is tried with the key of the next
    -- message that is expected, and that key is used up: its message is marked as received.
    pub ratchet_decrypt_replay :
        (fresh : DhPair) (cipher : RatchetCipher) (out : Option Bytes) (state : DRatchetState)
        → got header.n ≡ true
        → state.nr < 2 ^ 64
        → Receives p dhr ck got state
        → decrypt_aead p (message_key p ck state.nr) cipher header ≡ some out
        → (state' : DRatchetState) × (ratchet_decrypt p fresh header cipher state
            ≡ some (state', out))
          × (state'.nr ≡ state.nr + 1)
          × Receives p dhr ck (mark state.nr got) state'
    ratchet_decrypt_replay fresh cipher out state spent room r tried =
        let lt = passed state spent r in
        let miss : lookup bytes_dec
              (get_key_from_ratchet p (unmarshal p.elliptic_unmarshal header.pub_key) header.n)
              state.mk_skipped
            ≡ none =
          rw key_of_header (gone state spent r) in
        (
          record state { ckr = some (kdf_ck p (chain_key p ck state.nr)).0; nr = state.nr + 1 },
          decrypt_same p header cipher state fresh (try_miss p header cipher state miss)
                (same_key_lem p header cipher state dhr r.remote key_of_header)
              ∙ on_chain p header cipher state state (chain_key p ck state.nr) out
                  (skip_nothing header.n state (omega arith)) r.chain tried,
          refl,
          next-Receives p laws dhr ck got state.nr state room refl r,
        )

  module _ (fresh : DhPair) (header : RatchetHeader) (state : DRatchetState) where
    pub turned : Bytes
    turned = (kdf_rk p state.rk (dh p state.dhs (unmarshal p.elliptic_unmarshal header.pub_key))).1

    dh_ratchet_fields :
        ((dh_ratchet p fresh header state).nr ≡ 0)
        × ((dh_ratchet p fresh header state).ckr ≡ some turned)
        × ((dh_ratchet p fresh header state).mk_skipped ≡ state.mk_skipped)
    unfolding dh_ratchet turned
    dh_ratchet_fields = (refl, refl, refl)

    -- The first message of a new chain, whatever number of messages its header gives for the chain
    -- before it: no key is kept, so those of the chain before it that did not come are lost.
    pub ratchet_decrypt_turn :
        (cipher : RatchetCipher) (out : Option Bytes)
        → header.n ≡ 0
        → same_key p state header ≡ false
        → lookup bytes_dec
            (get_key_from_ratchet p (unmarshal p.elliptic_unmarshal header.pub_key) header.n)
            state.mk_skipped
          ≡ none
        → decrypt_aead p (kdf_ck p turned).1 cipher header ≡ some out
        → (state' : DRatchetState) × (ratchet_decrypt p fresh header cipher state
            ≡ some (state', out))
          × (state'.nr ≡ 1)
          × (state'.mk_skipped ≡ state.mk_skipped)
    ratchet_decrypt_turn cipher out first other miss tried =
        let (nr, chain, kept) = dh_ratchet_fields in
        (
          record (dh_ratchet p fresh header state) {
            ckr = some (kdf_ck p turned).0;
            nr = (dh_ratchet p fresh header state).nr + 1;
          },
          decrypt_other p header cipher state fresh state (try_miss p header cipher state miss)
                other (skip_nothing header.n state (omega arith))
              ∙ on_chain p header cipher (dh_ratchet p fresh header state)
                  (dh_ratchet p fresh header state) turned out
                  (skip_nothing header.n (dh_ratchet p fresh header state) (omega arith)) chain
                  tried,
          omega arith,
          kept,
        )
