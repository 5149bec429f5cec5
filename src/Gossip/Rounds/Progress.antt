-- ===== src/Gossip/Rounds/Progress.antt =====
-- A round of TLC comes to its end once more than half of the peers have confirmed in it.
use mathlib.Core.Path.{subst}
use dsignal.Base.{
  ℕ, ◌+◌, ◌/◌, ◌<◌, ◌≡◌, ◌∙◌, refl, sym, ap, Bool, true, Option, some, List, [], ◌∷◌, ◌++◌,
  ℕ_discrete, length, if◌then◌else◌, ltb, Option-cases, inl, inr, arith, some_injective, bind_case,
}
use dsignal.Base.Dict.{lookup}
use dsignal.Gossip.Packet.{TlcMessage, ExtendedGossipPacket}
use dsignal.Gossip.Clock.{u32, or_else}
use dsignal.Gossip.Chain.{TlcMessages}
use dsignal.Gossip.Tlc.{Modes, TlcNode, RoundAction, messages_in}
use dsignal.Gossip.Rounds.{
  Waiting, Event, notified, confirm, check_for_confirmations_majority, check_round, on_event, begin,
  run, tlc_round,
}
use dsignal.Gossip.Rounds.Majority.{Confirmed, if_ind}
use dsignal.Gossip.Rounds.Safety.{Safe}
use dsignal.Gossip.Rounds.Passes.{Passed, run-Safe, tlc_round-Passed}

run_snoc :
    (modes : Modes) (events : List Event) (e : Event) (w w' w'' : Waiting)
    → run modes events w ≡ some w'
    → on_event modes e w' ≡ some w''
    → run modes (events ++ (e ∷ [])) w ≡ some w''
unfolding run
run_snoc modes [] e w w' w'' ran next =
    let moved : on_event modes e w ≡ some w'' = ap (on_event modes e) (some_injective ran) ∙ next in
    rw (run, moved) refl
run_snoc modes (f ∷ events) e w w' w'' ran next =
    let (v, moved, rest) = bind_case (on_event modes f w) (run modes events) w' ran in
    rw (run, moved) (run_snoc modes events e v w' w'' rest next)

majority_ends :
    (tlc : TlcMessage) (delivered : Bool) (s : TlcNode) (c : TlcMessages)
    → lookup ℕ_discrete s.chain.my_time s.chain.confirmations ≡ some c
    → s.peers_size / 2 < length c
    → (check_for_confirmations_majority tlc delivered s).1 ≡ true
unfolding check_for_confirmations_majority confirm
majority_ends tlc delivered s c hit enough =
    let P = λ (r : TlcNode × Bool × List RoundAction). r.1 ≡ true in
    rw (check_for_confirmations_majority, hit)
      (if_ind P (ltb (s.peers_size / 2) (length c)) _ _
        (λ many. if_ind P delivered _ _ (λ d. refl) (λ d. refl)) (λ few. absurd (ground arith)))

-- The messages of a round that has some are found.
loaded :
    (t : ℕ) (w : Waiting) (n : ℕ)
    → n < length (messages_in t w.state.chain.confirmations)
    → (c : TlcMessages) × (lookup ℕ_discrete t w.state.chain.confirmations ≡ some c)
      × (n < length c)
loaded t w n many = elim (Option-cases (lookup ℕ_discrete t w.state.chain.confirmations)) [
  | inl miss ↦ absurd (ground (arith, many))
  | inr (c, hit) ↦ (
    c,
    hit,
    subst (λ (m : TlcMessages). n < length m) (ap (λ (o : Option TlcMessages). or_else o []) hit)
        many,
  )
]

module _ (modes : Modes) (ext : ExtendedGossipPacket) (tlc : TlcMessage) (s : TlcNode) where
  notified_done :
      (w : Waiting)
      → Safe s.peers_size s.chain.my_time w
      → s.peers_size / 2 < length (messages_in s.chain.my_time w.state.chain.confirmations)
      → (if w.done then w else check_round w).done ≡ true
  unfolding check_round
  notified_done w r enough =
      let Done = λ (v : Waiting). v.done ≡ true in
      if_ind Done w.done w (check_round w) (λ d. d)
        (λ running.
          let now : w.state.chain.my_time ≡ s.chain.my_time = r.time ∙ rw running refl in
          let here : s.peers_size / 2
              < length (messages_in w.state.chain.my_time w.state.chain.confirmations) =
            subst (λ t. s.peers_size / 2 < length (messages_in t w.state.chain.confirmations))
              (sym now) enough in
          let (c, hit, many) = loaded w.state.chain.my_time w (s.peers_size / 2) here in
          let ends =
            majority_ends w.tlc w.delivered w.state c hit
              (subst (λ n. n / 2 < length c) (sym r.peers) many) in
          if_ind Done w.wait _ w (λ e. rw (running, ends) refl)
            (λ e. absurd (ground (arith, r.waits))))

  -- With a timeout, a round of TLC begins at a time below the largest uint32, where more than half of the
  -- peers have confirmed in every round passed. It ends with the next notification after more than half of the peers
  -- have confirmed in it, whatever came before; and it has then passed just one round, which more
  -- than half of the peers have confirmed.
  pub tlc_round-Passed_notified :
      (events : List Event) (w : Waiting)
      → 0 < modes.stubborn_timeout
      → s.chain.my_time + 1 < u32
      → Confirmed s.peers_size s.chain
      → run modes events (begin modes true ext tlc s) ≡ some w
      → s.peers_size / 2 < length (messages_in s.chain.my_time w.state.chain.confirmations)
      → (s' : TlcNode) × (sent : List RoundAction) × (tlc_round modes
            (events ++ (notified ∷ []))
            ext
            tlc
            s
          ≡ some (s', sent))
        × Passed modes ext tlc s s'
  unfolding tlc_round on_event
  tlc_round-Passed_notified events w timeout room c ran enough =
      let r = (run-Safe modes ext tlc s events w timeout c ran).0 in
      let last : Waiting = if w.done then w else check_round w in
      let ended : run modes (events ++ (notified ∷ [])) (begin modes true ext tlc s) ≡ some last =
        run_snoc modes events notified (begin modes true ext tlc s) w last ran refl in
      let out : tlc_round modes (events ++ (notified ∷ [])) ext tlc s
          ≡ some (last.state, last.sent) =
        rw (tlc_round, ended, notified_done w r enough) refl in
      (
        last.state,
        last.sent,
        out,
        tlc_round-Passed modes ext tlc s (events ++ (notified ∷ [])) last.state last.sent timeout
            room c out,
      )
