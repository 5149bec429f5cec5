-- ===== src/Signal/Examples/Talk.antt =====
-- A conversation of two handlers, with the stand-ins of the other examples.
use dsignal.Base.{
  ◌≡◌, refl, false, none, some, [], ◌∷◌, ◌++◌, GoString, codes, bytes_dec, ℕ_discrete, arith,
}
use dsignal.Base.Dict.{lookup}
use dsignal.Signal.Primitives.{RatchetMessage}
use dsignal.Signal.Ratchet.{DRatchetState}
use dsignal.Signal.Ratchet.Delivery.{Receives, mark}
use dsignal.Signal.Ratchet.Session.{Sends}
use dsignal.Signal.Ratchet.Chains.{CanSend}
use dsignal.Signal.Identity.{SelfIdentity, Signatures}
use dsignal.Signal.Handler.{
  SignalHandler, Draws, sends, ratchet_packet, messages_of, one_message, send_private_ratchet,
}
use dsignal.Signal.Handler.Incoming.{process_packet}
use dsignal.Signal.Handler.Conversation.{Talks, process_packet-send_private_ratchet}
use dsignal.Signal.Examples.{
  base_point, sample, sample-Laws, unpacks, pair, secret, sender, both_chains, sender-Sends,
  receiver-Receives,
}

abbrev signatures : Signatures
signatures = record { ecdsa_sign = λ random d pk hash. none; ecdsa_verify = λ pk hash r s. false }

abbrev identity : SelfIdentity
identity = record { ik = pair; spk = pair; sign = none; opk = [] }

abbrev handler : GoString → GoString → DRatchetState → SignalHandler
handler name peer state = record {
  name = name;
  self_identity = identity;
  state_table = (peer, state) ∷ [];
  identity_channels = [];
  latest_messages = [];
  ratchet_files = [];
}

abbrev alice : SignalHandler
alice = handler (codes "alice") (codes "bob") sender

abbrev bob : SignalHandler
bob = handler (codes "bob") (codes "alice") both_chains

alice_has : lookup bytes_dec (codes "bob") alice.state_table ≡ some sender
unfolding lookup bytes_dec ℕ_discrete
alice_has = refl

bob_has : lookup bytes_dec (codes "alice") bob.state_table ≡ some both_chains
unfolding lookup bytes_dec ℕ_discrete
bob_has = refl

bob-Receives : Receives sample base_point secret (λ i. false) both_chains
bob-Receives =
    let r = receiver-Receives in
    record {
      remote = r.remote;
      chain = r.chain;
      in_range = r.in_range;
      before = r.before;
      after = r.after;
    }

abbrev draws : Draws
draws = record { ek = pair; fresh = pair; opk = pair; index = 0 }

process_packet-send_private_ratchet_example :
    (alice' bob' : SignalHandler) × (m : RatchetMessage) × (sender' receiver' : DRatchetState)
    × (send_private_ratchet sample signatures
          (λ hash. none)
          draws
          (codes "hi")
          (codes "bob")
          none
          alice
        ≡ some (alice', sends (ratchet_packet m) (codes "bob") ∷ []))
    × (process_packet sample signatures pair pair (ratchet_packet m) bob ≡ some (bob', []))
    × Talks
        (codes "bob")
        sender'
        (messages_of (codes "bob") [] ++ one_message (codes "alice") 0 (codes "hi"))
        alice'
    × Talks
        (codes "alice")
        receiver'
        (messages_of (codes "alice") [] ++ one_message (codes "alice") 0 (codes "hi"))
        bob'
    × Sends sample pair secret sender'
    × Receives sample base_point secret (mark 0 (λ i. false)) receiver'
    × CanSend receiver'
process_packet-send_private_ratchet_example =
    process_packet-send_private_ratchet sample sample-Laws signatures (λ hash. none) draws
      (codes "hi") none alice bob pair pair pair secret (λ i. false) sender both_chains base_point
      secret alice_has bob_has unpacks (omega arith) refl sender-Sends refl refl bob-Receives
      (secret, refl)
