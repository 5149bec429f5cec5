-- ===== src/Signal/Ratchet/Steps.antt =====
-- The branches of `RatchetDecrypt` and of what it calls, one lemma each.
use dsignal.Base.{◌+◌, ◌≡◌, true, false, Option, none, some, Bytes, bytes_dec, arith}
use dsignal.Base.Dict.{lookup, delete}
use dsignal.Signal.Elliptic.{EllipticPoint, DhPair, unmarshal, compare_points}
use dsignal.Signal.Primitives.{Primitives, RatchetHeader, RatchetCipher}
use dsignal.Signal.Kdf.{kdf_ck}
use dsignal.Signal.Aead.{decrypt_aead}
use dsignal.Signal.Ratchet.{
  DRatchetState, get_key_from_ratchet, try_skipped_message_keys, skip_message_keys, same_key,
  receive_on_chain, receive, ratchet_decrypt, dh_ratchet,
}

module _ (p : Primitives) (header : RatchetHeader) (cipher : RatchetCipher)
    (state : DRatchetState) where
  pub try_hit :
      (mk : Bytes) (out : Option Bytes)
      → lookup bytes_dec
          (get_key_from_ratchet p (unmarshal p.elliptic_unmarshal header.pub_key) header.n)
          state.mk_skipped
        ≡ some mk
      → decrypt_aead p mk cipher header ≡ some out
      → try_skipped_message_keys p header cipher state
        ≡ some (
          record state {
            mk_skipped =
                delete bytes_dec
                  (get_key_from_ratchet p (unmarshal p.elliptic_unmarshal header.pub_key) header.n)
                  state.mk_skipped;
          },
          out,
        )
  unfolding try_skipped_message_keys
  try_hit mk out hit open_ = ground arith

  pub try_miss :
      lookup bytes_dec
          (get_key_from_ratchet p (unmarshal p.elliptic_unmarshal header.pub_key) header.n)
          state.mk_skipped
        ≡ none
      → try_skipped_message_keys p header cipher state ≡ some (state, none)
  unfolding try_skipped_message_keys
  try_miss miss = ground arith

  pub same_key_lem :
      (dhr : EllipticPoint)
      → state.dhr ≡ some dhr
      → unmarshal p.elliptic_unmarshal header.pub_key ≡ dhr
      → same_key p state header ≡ true
  unfolding same_key compare_points
  same_key_lem dhr remote e = ground arith

  pub on_chain :
      (state' : DRatchetState) (ck : Bytes) (out : Option Bytes)
      → skip_message_keys p header.n state ≡ some state'
      → state'.ckr ≡ some ck
      → decrypt_aead p (kdf_ck p ck).1 cipher header ≡ some out
      → receive_on_chain p header cipher state
        ≡ some (record state' { ckr = some (kdf_ck p ck).0; nr = state'.nr + 1 }, out)
  unfolding receive_on_chain
  on_chain state' ck out skipped chain opened = ground arith

  module _ (fresh : DhPair) where
    pub decrypt_hit :
        (state' : DRatchetState) (plaintext : Bytes)
        → try_skipped_message_keys p header cipher state ≡ some (state', some plaintext)
        → ratchet_decrypt p fresh header cipher state ≡ some (state', some plaintext)
    unfolding ratchet_decrypt
    decrypt_hit state' plaintext e = ground arith

    pub decrypt_same :
        try_skipped_message_keys p header cipher state ≡ some (state, none)
        → same_key p state header ≡ true
        → ratchet_decrypt p fresh header cipher state ≡ receive_on_chain p header cipher state
    unfolding ratchet_decrypt receive
    decrypt_same e same = ground arith

    pub decrypt_other :
        (state' : DRatchetState)
        → try_skipped_message_keys p header cipher state ≡ some (state, none)
        → same_key p state header ≡ false
        → skip_message_keys p header.n state ≡ some state'
        → ratchet_decrypt p fresh header cipher state
          ≡ receive_on_chain p header cipher (dh_ratchet p fresh header state')
    unfolding ratchet_decrypt receive
    decrypt_other state' e other skipped = ground arith
