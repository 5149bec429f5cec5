-- ===== src/Gossip/Rounds/Passes.antt =====
-- A whole round of TLC: where it begins, what it keeps, and that it passes one round.
use mathlib.Core.Path.{subst}
use dsignal.Base.{
  ◌+◌, ◌/◌, ◌<◌, ◌==◌, ◌≡◌, ◌∙◌, refl, sym, ap, Bool, true, false, ◌||◌, Option, none, some, List,
  [], bytes_dec, ℕ_discrete, length, if◌then◌else◌, Option-cases, arith, inl, inr, some_injective,
  bind_case,
}
use dsignal.Base.Dict.{lookup, lookup-nil}
use dsignal.Gossip.Packet.{TlcMessage, ExtendedGossipPacket}
use dsignal.Gossip.Clock.{u32, or_else}
use dsignal.Gossip.Chain.{TlcMessages}
use dsignal.Gossip.Tlc.{Modes, TlcNode, RoundAction}
use dsignal.Gossip.Rounds.{Waiting, Event, check_round, start, begin, run, tlc_round}
use dsignal.Gossip.Rounds.Majority.{Confirmed}
use dsignal.Gossip.Rounds.Sources.{Sourced, run_from-Sourced, begin-Sourced}
use dsignal.Gossip.Rounds.Safety.{Safe, time_of, check_round-Safe, run_from-Safe}

if_some :
    {A : Type 0} (b : Bool) (x y : A) → (if b then some x else none) ≡ some y → (b ≡ true) × (x ≡ y)
if_some true x y e = (refl, some_injective e)
if_some false x y e = cc

module _ (modes : Modes) (ext : ExtendedGossipPacket) (tlc : TlcMessage) (s : TlcNode) where
  begin-Safe :
      0 < modes.stubborn_timeout
      → Confirmed s.peers_size s.chain
      → Safe s.peers_size s.chain.my_time (begin modes true ext tlc s)
  unfolding begin
  begin-Safe timeout c =
      let w = start true ext tlc s in
      let at_start : Safe s.peers_size s.chain.my_time w = record {
        rounds = c;
        peers = refl;
        acks = (lookup-nil bytes_dec s.node.name, tt);
        majority = λ d. cc;
        waits = refl;
        time = refl;
      } in
      let r = check_round-Safe s.peers_size s.chain.my_time modes w refl at_start in
      let ends : ((check_round w).done || (modes.stubborn_timeout == 0)) ≡ (check_round w).done =
        ground arith in
      record {
        rounds = r.rounds;
        peers = r.peers;
        acks = r.acks;
        majority = r.majority;
        waits = r.waits;
        time = r.time ∙ sym (ap (time_of s.chain.my_time) ends);
      }

  pub run-Safe :
      (events : List Event) (w : Waiting)
      → 0 < modes.stubborn_timeout
      → Confirmed s.peers_size s.chain
      → run modes events (begin modes true ext tlc s) ≡ some w
      → Safe s.peers_size s.chain.my_time w × Sourced tlc s events w
  run-Safe events w timeout c ran = (
    run_from-Safe s.peers_size s.chain.my_time modes events (begin modes true ext tlc s) w ran
        (begin-Safe timeout c),
    run_from-Sourced tlc s events modes events (begin modes true ext tlc s) w (λ event there. there)
        ran (begin-Sourced tlc s events modes ext),
  )

  -- The node after a round that began at its time.
  pub record Passed (s' : TlcNode) : Type 0 where
    pub time : s'.chain.my_time ≡ s.chain.my_time + 1
    pub peers : s'.peers_size ≡ s.peers_size
    pub confirmed : Confirmed s.peers_size s'.chain
    pub found : TlcMessages
    pub loaded : lookup ℕ_discrete s.chain.my_time s'.chain.confirmations ≡ some found
    pub enough : s.peers_size / 2 < length found

  Safe-Passed :
      (w : Waiting)
      → s.chain.my_time + 1 < u32
      → w.done ≡ true
      → Safe s.peers_size s.chain.my_time w
      → Passed w.state
  Safe-Passed w room done r =
      let t = s.chain.my_time in
      let time : w.state.chain.my_time ≡ t + 1 = r.time ∙ rw done (omega arith) in
      let many = r.rounds.passed t (omega arith) in
      elim (Option-cases (lookup ℕ_discrete t w.state.chain.confirmations)) [
        | inl miss ↦ absurd (ground (arith, many))
        | inr (found, loaded) ↦ record {
          time = time;
          peers = r.peers;
          confirmed = r.rounds;
          found = found;
          loaded = loaded;
          enough =
              subst (λ (m : TlcMessages). s.peers_size / 2 < length m)
                (ap (λ (o : Option TlcMessages). or_else o []) loaded) many;
        }
      ]

  -- With a timeout, a round of TLC that comes to its end has passed just one round, which more than
  -- half of the peers have confirmed, and more than half have confirmed every round passed before.
  pub tlc_round-Passed :
      (events : List Event) (s' : TlcNode) (sent : List RoundAction)
      → 0 < modes.stubborn_timeout
      → s.chain.my_time + 1 < u32
      → Confirmed s.peers_size s.chain
      → tlc_round modes events ext tlc s ≡ some (s', sent)
      → Passed s'
  unfolding tlc_round
  tlc_round-Passed events s' sent timeout room c e =
      let (w, ran, out) =
        bind_case (run modes events (begin modes true ext tlc s)) _ (s', sent) e in
      let (done, same) = if_some w.done (w.state, w.sent) (s', sent) out in
      subst (λ (r : TlcNode × List RoundAction). Passed r.0) same
        (Safe-Passed w room done (run-Safe events w timeout c ran).0)
