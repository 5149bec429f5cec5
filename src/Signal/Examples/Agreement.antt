-- ===== src/Signal/Examples/Agreement.antt =====
-- The theorems on identities and on the key agreement, with the stand-ins of the other examples.
use mathlib.Core.Path.{subst}
use dsignal.Base.{
  none, ◌∷◌, ℕ, ◌<◌, ◌≡◌, refl, some, [], ◌∷◌, ◌==◌, ◌&&◌, ◌^◌, true, List, map, some_injective,
  codes, bytes_dec, ℕ_discrete, replicate, arith,
}
use dsignal.Base.Encode.{le_bytes}
use dsignal.Signal.Elliptic.{DhPair, marshal, from_be, be_bytes}
use dsignal.Signal.Identity.{
  Ecdsa, Signatures, SelfIdentity, SelfIdentityCompressed, verify_signature, compress_identity,
  uncompress_identity,
}
use dsignal.Signal.Identity.Signed.{Accepts}
use dsignal.Signal.Identity.Stored.{uncompress_identity_aliased}
use dsignal.Signal.X3dh.{X3dhMessage, StateTable, find_opk, s_initialize_x3dh, i_initialize_x3dh}
use dsignal.Signal.X3dh.Texts.{NoColon, before_colon}
use dsignal.Signal.X3dh.Agreement.{remote_of, Connected, i_initialize_x3dh-s_initialize_x3dh}
use dsignal.Signal.Handler.{
  SignalHandler, sends, message_packet, i_start_x3dh, send_private_ratchet,
}
use dsignal.Signal.Handler.Unanswered.{send_private_ratchet_unanswered}
use dsignal.Signal.Examples.{base_point, sample, sample-Laws, unpacks, pair}

-- Signatures that are always 1 and 2.
abbrev signatures : Signatures
signatures = record {
  ecdsa_sign = λ random d pk hash. some (1, 2);
  ecdsa_verify = λ pk hash r s. (r == 1) && (s == 2);
}

signatures-Accepts : Accepts signatures pair
unfolding Accepts
signatures-Accepts random hash r s e =
    subst (λ (q : ℕ × ℕ). (q.0 < 2 ^ 256) × (q.1 < 2 ^ 256) × (((q.0 == 1) && (q.1 == 2)) ≡ true))
      (some_injective e) (omega arith, omega arith, refl)

abbrev key_pair : ℕ → DhPair
key_pair d = record { pub_key = base_point; priv_key = d ∷ [] }

abbrev signature : Ecdsa
signature = record { r = 1 ∷ []; s = 2 ∷ [] }

abbrev ten_keys : List DhPair
ten_keys = map key_pair (1 ∷ 2 ∷ 3 ∷ 4 ∷ 5 ∷ 6 ∷ 7 ∷ 8 ∷ 9 ∷ 10 ∷ [])

abbrev identity : SelfIdentity
identity = record { ik = pair; spk = pair; sign = some signature; opk = ten_keys }

uncompress_identity_aliased_example :
    (c : SelfIdentityCompressed) × (compress_identity identity ≡ some c)
    × (uncompress_identity sample.elliptic_unmarshal c
        ≡ some (record {
          ik = pair;
          spk = pair;
          sign = some signature;
          opk = replicate 10 (key_pair 10);
        }))
uncompress_identity_aliased_example =
    uncompress_identity_aliased sample.elliptic_unmarshal identity signature refl (omega arith)
      unpacks unpacks (key_pair 10) refl unpacks

verified :
    verify_signature sample signatures (marshal identity.spk.pub_key) signature identity.ik.pub_key
    ≡ true
unfolding verify_signature from_be
verified = refl

alice_plain : NoColon (codes "alice")
alice_plain = (
  λ e. omega arith,
  (λ e. omega arith, (λ e. omega arith, (λ e. omega arith, (λ e. omega arith, tt)))),
)

bob_plain : NoColon (codes "bob")
bob_plain = (λ e. omega arith, (λ e. omega arith, (λ e. omega arith, tt)))

found : find_opk (marshal base_point) identity.opk ≡ some (key_pair 1)
unfolding find_opk marshal be_bytes le_bytes bytes_dec ℕ_discrete
found = refl

i_initialize_x3dh-s_initialize_x3dh_example :
    (sent received : StateTable) × (msg : X3dhMessage) × (s_initialize_x3dh sample signatures pair
        pair
        (remote_of identity signature [])
        (some base_point)
        (codes "alice")
        (codes "bob")
        identity
        (some (codes "hi"))
        []
      ≡ some (sent, some msg))
    × (i_initialize_x3dh sample pair msg identity []
        ≡ some (received, some (before_colon (codes "hi"))))
    × Connected sample pair (codes "alice") (codes "bob") [] [] sent received
i_initialize_x3dh-s_initialize_x3dh_example =
    i_initialize_x3dh-s_initialize_x3dh sample sample-Laws signatures identity identity signature []
      pair pair pair (key_pair 1) (codes "alice") (codes "bob") [] [] verified refl refl refl refl
      refl unpacks unpacks unpacks alice_plain (codes "hi") bob_plain found

abbrev opener : SignalHandler
opener = record {
  name = codes "alice";
  self_identity = identity;
  state_table = [];
  identity_channels = [];
  latest_messages = [];
  ratchet_files = [];
}

send_private_ratchet_unanswered_example :
    (h' : SignalHandler) × (m : X3dhMessage) × (i_start_x3dh sample signatures 0 pair pair
        (codes "bob")
        (codes "hi")
        (remote_of identity signature (base_point ∷ []))
        opener
      ≡ some (h', sends (message_packet (some m)) (codes "bob") ∷ []))
    × (send_private_ratchet sample signatures
          (λ hash. none)
          (record { ek = pair; fresh = pair; opk = pair; index = 0 })
          (codes "hello")
          (codes "bob")
          none
          h'
        ≡ none)
send_private_ratchet_unanswered_example =
    send_private_ratchet_unanswered sample sample-Laws signatures (λ hash. none)
      (record { ek = pair; fresh = pair; opk = pair; index = 0 }) none 0 pair pair identity
      signature (base_point ∷ []) base_point (codes "hi") (codes "hello") (codes "bob") opener refl
      verified
