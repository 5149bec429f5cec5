-- ===== src/Signal/Ratchet.antt =====
-- adssignal/adsDoubleRatchet.go, with `DH` of adssignal/adsECDH.go: the state of one connection and
-- its operations. A key pair that the code generates is an argument. `none` is a panic.
pub mod Keys
pub mod Steps
pub mod Delivery
pub mod Session
pub mod Opening
pub mod Chains
pub mod Exchange
pub mod Stored
pub mod Faults
use dsignal.Base.{
  ℕ, zero, suc, ◌+◌, ◌-◌, Bool, true, false, not, ◌&&◌, Option, none, some, List, [], ◌∷◌, ◌++◌,
  Bytes, GoString, bytes_dec, ltb, if◌then◌else◌,
}
use dsignal.Base.Dict.{Dict, lookup, insert, delete}
use dsignal.Base.Encode.{hex_encode, le_bytes}
use dsignal.Signal.Elliptic.{EllipticPoint, DhPair, marshal, unmarshal, compare_points}
use dsignal.Signal.Primitives.{Primitives, RatchetHeader, RatchetCipher, RatchetMessage}
use dsignal.Signal.Kdf.{kdf_rk, kdf_ck}
use dsignal.Signal.Aead.{concat, encrypt_aead, decrypt_aead}

-- A nil pointer is `none`. The counters are int64 in the source and never negative here.
pub record DRatchetState : Type 0 where
  pub peer : GoString
  pub dhs : DhPair
  pub dhr : Option EllipticPoint
  pub rk : Bytes
  pub cks : Option Bytes
  pub ckr : Option Bytes
  pub ns : ℕ
  pub nr : ℕ
  pub pn : ℕ
  pub mk_skipped : Dict GoString Bytes

abbrev pub ratchet_hop_limit : ℕ
ratchet_hop_limit = 10

abbrev pub max_skip : ℕ
max_skip = 10

module _ (p : Primitives) where
  open p use {scalar_mult, elliptic_unmarshal, sha256}

  pub dh : DhPair → EllipticPoint → Bytes
  dh pair pub_key = marshal (scalar_mult pub_key pair.priv_key)

  unfoldable pub s_initialize_ratchet : DhPair → Bytes → EllipticPoint → GoString → DRatchetState
  s_initialize_ratchet fresh sk pub_key peer =
      let (rk, cks) = kdf_rk p sk (dh fresh pub_key) in
      record {
        peer = peer;
        dhs = fresh;
        dhr = some pub_key;
        rk = rk;
        cks = some cks;
        ckr = none;
        ns = 0;
        nr = 0;
        pn = 0;
        mk_skipped = [];
      }

  unfoldable pub r_initialize_ratchet : Bytes → DhPair → DRatchetState
  r_initialize_ratchet sk dh_pair = record {
    peer = [];
    dhs = dh_pair;
    dhr = none;
    rk = sk;
    cks = none;
    ckr = none;
    ns = 0;
    nr = 0;
    pn = 0;
    mk_skipped = [];
  }

  pub compose_ratchet_header : DhPair → ℕ → ℕ → GoString → GoString → RatchetHeader
  compose_ratchet_header dh_pair pn n origin destination = record {
    pub_key = marshal dh_pair.pub_key;
    pn = pn;
    n = n;
    origin = origin;
    destination = destination;
    hop_limit = ratchet_hop_limit;
  }

  -- A panic where there is no sending chain.
  pub ratchet_encrypt :
      Bytes → GoString → GoString → Bytes → DRatchetState → Option (DRatchetState × RatchetMessage)
  ratchet_encrypt plaintext origin destination ad state = elim state.cks [
    | none ↦ none
    | some ck ↦
        let (cks, mk) = kdf_ck p ck in
        let header = compose_ratchet_header state.dhs state.pn state.ns origin destination in
        some (
          record state { cks = some cks; ns = state.ns + 1 },
          record { header = header; message = encrypt_aead p mk plaintext (concat p ad header) },
        )
  ]

  -- `hasher.Sum(b)` appends the digest to the number.
  pub get_key_from_ratchet : EllipticPoint → ℕ → GoString
  get_key_from_ratchet dhr nr = hex_encode (le_bytes 8 nr ++ sha256 (marshal dhr))

  -- The key is deleted whether or not the ciphertext is refused.
  pub try_skipped_message_keys :
      RatchetHeader → RatchetCipher → DRatchetState → Option (DRatchetState × Option Bytes)
  try_skipped_message_keys header cipher state =
      let key = get_key_from_ratchet (unmarshal elliptic_unmarshal header.pub_key) header.n in
      elim (lookup bytes_dec key state.mk_skipped) [
        | none ↦ some (state, none)
        | some mk ↦ elim (decrypt_aead p mk cipher header) [
          | none ↦ none
          | some plaintext ↦
              some (record state { mk_skipped = delete bytes_dec key state.mk_skipped }, plaintext)
        ]
      ]

  -- One skipped key. A nil remote key would be a panic; the chain is set only together with it.
  pub skip_one : Bytes → EllipticPoint → DRatchetState → DRatchetState
  skip_one ck dhr state =
      let (ckr, mk) = kdf_ck p ck in
      record state {
        ckr = some ckr;
        mk_skipped = insert bytes_dec (get_key_from_ratchet dhr state.nr) mk state.mk_skipped;
        nr = state.nr + 1;
      }

  -- The loop of `SkipMessageKeys`, with so many rounds left.
  pub skip_loop : ℕ → DRatchetState → Option DRatchetState
  skip_loop zero state = some state
  skip_loop (suc rounds) state = elim state.ckr [
    | none ↦ none
    | some ck ↦ elim state.dhr [ none ↦ none | some dhr ↦ skip_loop rounds (skip_one ck dhr state) ]
  ]

  -- Whether it prints the error about too many keys; the keys are skipped all the same.
  pub too_many_skipped : ℕ → DRatchetState → Bool
  too_many_skipped until state = ltb (state.nr + max_skip) until

  pub skip_message_keys : ℕ → DRatchetState → Option DRatchetState
  skip_message_keys until state = elim state.ckr [
    | none ↦ some state
    | some _ ↦ skip_loop (until - state.nr) state
  ]

  pub dh_ratchet : DhPair → RatchetHeader → DRatchetState → DRatchetState
  dh_ratchet fresh header state =
      let dhr = unmarshal elliptic_unmarshal header.pub_key in
      let (rk, ckr) = kdf_rk p state.rk (dh state.dhs dhr) in
      let (rk', cks) = kdf_rk p rk (dh fresh dhr) in
      record state {
        pn = state.ns;
        ns = 0;
        nr = 0;
        dhr = some dhr;
        dhs = fresh;
        rk = rk';
        ckr = some ckr;
        cks = some cks;
      }

  -- Whether the remote key is the one of the header.
  unfoldable pub same_key : DRatchetState → RatchetHeader → Bool
  same_key state header = elim state.dhr [
    | none ↦ false
    | some dhr ↦ compare_points (unmarshal elliptic_unmarshal header.pub_key) dhr
  ]

  -- The end of `RatchetDecrypt`, on the chain of the header.
  pub receive_on_chain :
      RatchetHeader → RatchetCipher → DRatchetState → Option (DRatchetState × Option Bytes)
  receive_on_chain header cipher state = elim (skip_message_keys header.n state) [
    | none ↦ none
    | some state' ↦ elim state'.ckr [
      | none ↦ none
      | some ck ↦
          let (ckr, mk) = kdf_ck p ck in
          elim (decrypt_aead p mk cipher header) [
            | none ↦ none
            | some plaintext ↦
                some (record state' { ckr = some ckr; nr = state'.nr + 1 }, plaintext)
          ]
    ]
  ]

  -- The part after `TrySkippedMessageKeys` found nothing.
  pub receive :
      DhPair → RatchetHeader → RatchetCipher → DRatchetState → Option (DRatchetState × Option Bytes)
  receive fresh header cipher state =
      if same_key state header
      then receive_on_chain header cipher state
      else elim (skip_message_keys header.n state) [
        | none ↦ none
        | some state' ↦ receive_on_chain header cipher (dh_ratchet fresh header state')
      ]

  -- The new state and the plaintext, `none` for one that is refused.
  pub ratchet_decrypt :
      DhPair → RatchetHeader → RatchetCipher → DRatchetState → Option (DRatchetState × Option Bytes)
  ratchet_decrypt fresh header cipher state = elim (try_skipped_message_keys header cipher state) [
    | none ↦ none
    | some (state', some plaintext) ↦ some (state', some plaintext)
    | some (state', none) ↦ receive fresh header cipher state'
  ]
