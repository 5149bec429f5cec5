-- ===== src/Signal/Examples.antt =====
-- The theorems on the Double Ratchet with concrete primitives, at concrete messages. The base point
-- of P-256 is the public key.
mod Agreement
mod Talk
use mathlib.Core.Path.{subst}
use dsignal.Base.{
  ℕ, zero, suc, ◌+◌, ◌%◌, ◌<◌, ◌≡◌, ◌∙◌, refl, false, none, some, [], ◌∷◌, ◌++◌, Bytes, AllBytes,
  ◌==◌, ◌&&◌, ◌^◌, true, List, map, some_injective, codes, bytes_dec, ℕ_discrete, length, take,
  replicate, length-take, length-append, arith,
}
use dsignal.Base.Encode.{le_bytes}
use dsignal.Base.Dict.{lookup}
use dsignal.Signal.Elliptic.{
  EllipticPoint, DhPair, marshal, unmarshal, mod_sqrt, mod_sqrt_loop, from_be, be_bytes,
}
use dsignal.Signal.Primitives.{Primitives, Laws, RatchetHeader, RatchetCipher, RatchetMessage}
use dsignal.Signal.Kdf.{kdf_aead, new_hmac}
use dsignal.Signal.Aead.{padd, unpadd, concat, tag, encrypt_aead, decrypt_aead}
use dsignal.Signal.Aead.Padding.{unpadd-padd}
use dsignal.Signal.Aead.Sealed.{decrypt_aead-encrypt_aead}
use dsignal.Signal.Ratchet.{
  DRatchetState, s_initialize_ratchet, r_initialize_ratchet, ratchet_encrypt, ratchet_decrypt,
  same_key,
}
use dsignal.Signal.Ratchet.Keys.{chain_key, message_key}
use dsignal.Signal.Ratchet.Delivery.{Receives, mark, ratchet_decrypt-Receives}
use dsignal.Signal.Ratchet.Session.{Sends, ratchet_decrypt-ratchet_encrypt, ratchet_decrypt-first}
use dsignal.Signal.Ratchet.Stored.{
  DRatchetStateCompressed, compress_ratchet, uncompress_ratchet,
  uncompress_ratchet-compress_ratchet,
}
use dsignal.Signal.Ratchet.Faults.{ratchet_decrypt_replay, ratchet_decrypt_turn}
use dsignal.Signal.Identity.{
  Ecdsa, Signatures, SelfIdentity, SelfIdentityCompressed, generate_identity, update_identity,
  verify_signature, compress_identity, uncompress_identity,
}
use dsignal.Signal.Identity.Signed.{Accepts, IsSigned, update_identity-IsSigned}
use dsignal.Signal.Identity.Stored.{uncompress_identity_aliased}
use dsignal.Signal.X3dh.{X3dhMessage, StateTable, find_opk, s_initialize_x3dh, i_initialize_x3dh}
use dsignal.Signal.X3dh.Texts.{NoColon, before_colon}
use dsignal.Signal.X3dh.Agreement.{remote_of, Connected, i_initialize_x3dh-s_initialize_x3dh}

abbrev pub base_point : EllipticPoint
base_point = record {
  x = 0x6b17d1f2e12c4247f8bce6e563a440f277037d812deb33a0f4a13945d898c296;
  y = 0x4fe342e2fe1a7f9b8ee7eb4a7c0f9e162bce33576b315ececbb6406837bf51f5;
}

-- Stand-ins with the laws: a tag is the beginning of its input, blocks are not changed.
abbrev pub sample : Primitives
sample = record {
  scalar_mult = λ q d. q;
  elliptic_unmarshal = λ b. base_point;
  hkdf = λ secret salt info offset n. replicate n 7;
  hmac = λ key message. take 32 (message ++ key ++ replicate 32 0);
  sha256 = λ message. replicate 32 0;
  cbc_encrypt = λ key iv blocks. blocks;
  cbc_decrypt = λ key iv blocks. blocks;
  gob = λ h. h.pub_key;
}

zeros-AllBytes : (n : ℕ) → AllBytes (replicate n 0)
zeros-AllBytes zero = tt
zeros-AllBytes (suc n) = (omega arith, zeros-AllBytes n)

tag_length :
    (key message pad : Bytes) → length pad ≡ 32 → length (take 32 (message ++ key ++ pad)) ≡ 32
tag_length key message pad h =
    let front : length (message ++ key) ≡ length message + length key = length-append message key in
    let whole : length (message ++ key ++ pad) ≡ length (message ++ key) + length pad =
      length-append (message ++ key) pad in
    length-take 32 (message ++ key ++ pad) ∙ omega arith

pub sample-Laws : Laws sample
sample-Laws = record {
  cbc_inverse = λ key iv blocks h. refl;
  cbc_length = λ key iv blocks. refl;
  hmac_length = λ key message. tag_length key message (replicate 32 0) refl;
  sha256_bytes = λ message. zeros-AllBytes 32;
}

pub unpacks : unmarshal sample.elliptic_unmarshal (marshal base_point) ≡ base_point
unfolding unmarshal marshal mod_sqrt mod_sqrt_loop from_be be_bytes le_bytes
unpacks = refl

abbrev pub pair : DhPair
pair = record { pub_key = base_point; priv_key = 1 ∷ [] }

abbrev pub secret : Bytes
secret = 5 ∷ []

-- The header of message 1 of the pair's chain.
abbrev header : RatchetHeader
header = record {
  pub_key = marshal base_point;
  pn = 0;
  n = 1;
  origin = codes "alice";
  destination = codes "bob";
  hop_limit = 10;
}

abbrev hello : Bytes
hello = codes "hello"

-- A receiver at the beginning of the chain of `secret`.
abbrev pub receiver : DRatchetState
receiver = record {
  peer = codes "alice";
  dhs = pair;
  dhr = some base_point;
  rk = secret;
  cks = none;
  ckr = some secret;
  ns = 0;
  nr = 0;
  pn = 0;
  mk_skipped = [];
}

abbrev pub sender : DRatchetState
sender = record receiver { cks = some secret }

pub receiver-Receives : Receives sample base_point secret (λ i. false) receiver
unfolding lookup
receiver-Receives = record {
  remote = refl;
  chain = refl;
  in_range = omega arith;
  before = λ i lt. absurd (omega arith);
  after = λ i le lt. (refl, refl);
}

pub sender-Sends : Sends sample pair secret sender
sender-Sends = record { own = refl; chain = refl }

decrypt_aead-encrypt_aead_example :
    decrypt_aead sample secret (encrypt_aead sample secret hello (concat sample [] header)) header
    ≡ some (some hello)
decrypt_aead-encrypt_aead_example =
    decrypt_aead-encrypt_aead sample sample-Laws secret hello [] header

ratchet_decrypt-Receives_example :
    (state' : DRatchetState) × (ratchet_decrypt sample pair header
        (encrypt_aead sample (message_key sample secret 1) hello (concat sample [] header))
        receiver
      ≡ some (state', some hello))
    × Receives sample base_point secret (mark 1 (λ i. false)) state'
ratchet_decrypt-Receives_example =
    ratchet_decrypt-Receives sample sample-Laws base_point secret (λ i. false) header hello []
      unpacks (omega arith) refl pair receiver receiver-Receives

ratchet_decrypt-ratchet_encrypt_example :
    (sender' receiver' : DRatchetState) × (m : RatchetMessage) × (ratchet_encrypt sample hello
        (codes "alice")
        (codes "bob")
        []
        sender
      ≡ some (sender', m))
    × (ratchet_decrypt sample pair m.header m.message receiver ≡ some (receiver', some hello))
    × Sends sample pair secret sender'
    × Receives sample base_point secret (mark 0 (λ i. false)) receiver'
ratchet_decrypt-ratchet_encrypt_example =
    ratchet_decrypt-ratchet_encrypt sample sample-Laws pair pair secret (λ i. false) sender receiver
      hello [] (codes "alice") (codes "bob") unpacks (omega arith) refl sender-Sends
      receiver-Receives

ratchet_decrypt-first_example :
    (ck : Bytes) × (bob' : DRatchetState) × Sends sample pair ck
      (s_initialize_ratchet sample pair secret base_point (codes "bob"))
    × (ratchet_decrypt sample pair header
          (encrypt_aead sample (message_key sample ck 1) hello (concat sample [] header))
          (r_initialize_ratchet sample secret pair)
        ≡ some (bob', some hello))
    × Receives sample base_point ck (mark 1 (λ i. false)) bob'
ratchet_decrypt-first_example =
    ratchet_decrypt-first sample sample-Laws pair pair secret refl pair header hello []
      (codes "bob") unpacks (omega arith)

abbrev first_header : RatchetHeader
first_header = record header { n = 0 }

-- The receiver after message 0.
abbrev later : DRatchetState
later = record receiver { ckr = some (chain_key sample secret 1); nr = 1 }

later-Receives : Receives sample base_point secret (mark 0 (λ i. false)) later
unfolding lookup
later-Receives = record {
  remote = refl;
  chain = refl;
  in_range = omega arith;
  before = λ i lt. let z : i ≡ 0 = omega arith in rw z refl;
  after = λ i le lt. (refl, ground arith);
}

-- No message: 16 bytes that are not the tag of nothing.
abbrev junk : RatchetCipher
junk = record { ad = []; ciph = replicate 16 9 }

junk_refused : (mk : Bytes) → decrypt_aead sample mk junk first_header ≡ some none
unfolding decrypt_aead concat tag kdf_aead new_hmac marshal bytes_dec ℕ_discrete be_bytes le_bytes
junk_refused mk = refl

ratchet_decrypt_replay_example :
    (state' : DRatchetState) × (ratchet_decrypt sample pair first_header junk later
      ≡ some (state', none))
    × (state'.nr ≡ 1 + 1)
    × Receives sample base_point secret (mark 1 (mark 0 (λ i. false))) state'
ratchet_decrypt_replay_example =
    ratchet_decrypt_replay sample sample-Laws base_point secret (mark 0 (λ i. false)) first_header
      unpacks (omega arith) pair junk none later refl (omega arith) later-Receives
      (junk_refused (message_key sample secret 1))

ratchet_decrypt_turn_example :
    (state' : DRatchetState) × (ratchet_decrypt sample pair first_header junk
        (r_initialize_ratchet sample secret pair)
      ≡ some (state', none))
    × (state'.nr ≡ 1)
    × (state'.mk_skipped ≡ (r_initialize_ratchet sample secret pair).mk_skipped)
unfolding same_key r_initialize_ratchet lookup
ratchet_decrypt_turn_example =
    ratchet_decrypt_turn sample pair first_header (r_initialize_ratchet sample secret pair) junk
      none refl refl refl (junk_refused _)

abbrev pub both_chains : DRatchetState
both_chains = record receiver { cks = some secret }

-- The initiator before the first reply.
abbrev no_reply : DRatchetState
no_reply = record receiver { cks = some secret; ckr = none }
