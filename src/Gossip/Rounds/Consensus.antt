-- ===== src/Gossip/Rounds/Consensus.antt =====
-- The three rounds of `qscRound`.
use mathlib.Core.Path.{subst}
use dsignal.Base.{
  ℕ, ◌+◌, ◌%◌, ◌<◌, ◌≡◌, ◌∙◌, refl, sym, ap, none, some, List, Bytes, ℕ_discrete, Option-cases,
  arith, inl, inr,
}
use dsignal.Base.Dict.{lookup}
use dsignal.Gossip.Packet.{TlcMessage, ExtendedGossipPacket}
use dsignal.Gossip.Clock.{u32}
use dsignal.Gossip.Node.{GossipNode}
use dsignal.Gossip.Chain.{TlcMessages, qsc_end}
use dsignal.Gossip.Chain.Ending.{qsc_end_keeps}
use dsignal.Gossip.Tlc.{Modes, TlcNode}
use dsignal.Gossip.Rounds.{Event, tlc_round}
use dsignal.Gossip.Rounds.Qsc.{
  QscResult, waits, no_new_round, panics, ends, qsc_step, qsc_finish, qsc_round,
}
use dsignal.Gossip.Rounds.Majority.{Confirmed, Same-Confirmed}
use dsignal.Gossip.Rounds.Passes.{tlc_round-Passed}

-- The node at a time, with more than half of the peers having confirmed every round passed.
pub record StandsAt (size time : ℕ) (s : TlcNode) : Type 0 where
  pub now : s.chain.my_time ≡ time
  pub peers : s.peers_size ≡ size
  pub confirmed : Confirmed size s.chain

moved :
    {size a b : ℕ} {s : TlcNode} {node : GossipNode}
    → a ≡ b
    → StandsAt size a s
    → StandsAt size b (record s { node = node })
moved e at = record { now = at.now ∙ e; peers = at.peers; confirmed = at.confirmed }

-- The round waits, panics, or ends at the time; confirmations are found.
abbrev pub Ends : ℕ → ℕ → QscResult → Type 0
Ends size time waits = Unit
Ends size time panics = Unit
Ends size time (no_new_round s) = ⊥
Ends size time (ends s) = StandsAt size time s

module _ (size : ℕ) (sha256 : Bytes → Bytes) (modes : Modes)
    (timeout : 0 < modes.stubborn_timeout) where
  -- A round of TLC and the confirmations after it.
  round-Ends :
      (time last : ℕ) (events : List Event) (ext : ExtendedGossipPacket) (tlc : TlcMessage)
      (s : TlcNode) (next : TlcMessages → TlcNode → QscResult)
      → time + 1 < u32
      → StandsAt size time s
      → ((c : TlcMessages) (s' : TlcNode)
          → StandsAt size (time + 1) s'
          → Ends size last (next c s'))
      → Ends size last (elim (tlc_round modes events ext tlc s) [
        | none ↦ waits
        | some (s', sent) ↦ elim (lookup ℕ_discrete time s'.chain.confirmations) [
          | none ↦ no_new_round s'
          | some c ↦ next c s'
        ]
      ])
  round-Ends time last events ext tlc s next room at go =
      elim (Option-cases (tlc_round modes events ext tlc s)) [
        | inl stuck ↦ rw stuck tt
        | inr ((s', sent), ended) ↦
            let own = subst (λ n. Confirmed n s.chain) (sym at.peers) at.confirmed in
            let p =
              tlc_round-Passed modes ext tlc s events s' sent timeout (omega (arith, at.now)) own
                ended in
            let loaded : lookup ℕ_discrete time s'.chain.confirmations ≡ some p.found =
              subst (λ t. lookup ℕ_discrete t s'.chain.confirmations ≡ some p.found) at.now
                p.loaded in
            rw (ended, loaded)
              (go p.found s' (record {
                now = p.time ∙ ap (λ (t : ℕ). t + 1) at.now;
                peers = p.peers ∙ at.peers;
                confirmed = subst (λ n. Confirmed n s'.chain) at.peers p.confirmed;
              }))
      ]

  finish-Ends :
      (time round_s : ℕ) (c c1 : TlcMessages) (s : TlcNode)
      → StandsAt size time s
      → Ends size time (qsc_finish sha256 round_s c c1 s)
  unfolding qsc_finish
  finish-Ends time round_s c c1 s at = elim (Option-cases (qsc_end sha256 round_s c c1 s.chain)) [
    | inl stuck ↦ rw (qsc_finish, stuck) tt
    | inr (h, ended) ↦
        let (now, kept) = qsc_end_keeps sha256 round_s c c1 s.chain h ended in
        rw (qsc_finish, ended)
          (record {
            now = now ∙ at.now;
            peers = at.peers;
            confirmed =
                Same-Confirmed size s.chain h (record { time = now; kept = kept }) at.confirmed;
          })
  ]

  -- With a timeout, and where more than half of the peers have confirmed every round passed, a round
  -- of consensus finds the confirmations of each of its three rounds of TLC, whatever comes in them;
  -- where it ends, the node has passed exactly three rounds, each confirmed by more than half of the
  -- peers.
  qsc_round-Ends :
      (events events1 events2 : List Event) (ext : ExtendedGossipPacket) (tlc : TlcMessage)
      (s : TlcNode)
      → s.chain.my_time + 3 < u32
      → Confirmed size s.chain
      → s.peers_size ≡ size
      → Ends size (s.chain.my_time + 3) (qsc_round sha256 modes events events1 events2 ext tlc s)
  unfolding qsc_round qsc_step
  qsc_round-Ends events events1 events2 ext tlc s room c peers =
      let t = s.chain.my_time in
      round-Ends t (t + 3) events ext tlc s _ (omega arith)
        (record { now = refl; peers = peers; confirmed = c })
        (λ c0 s0 at0.
          let first : (t + 1) % u32 ≡ t + 1 = omega arith in
          rw first (
            round-Ends (t + 1) (t + 3) events1 _ _ _ _ (omega arith) (moved refl at0) (λ c1 s1 at1.
              let second : (t + 2) % u32 ≡ t + 2 = omega arith in
              rw second (
                round-Ends (t + 2) (t + 3) events2 _ _ _ _ (omega arith) (moved (omega arith) at1)
                  (λ c2 s2 at2. finish-Ends (t + 3) t c0 c1 s2 (moved (omega arith) at2))))))
