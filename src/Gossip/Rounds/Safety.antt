-- ===== src/Gossip/Rounds/Safety.antt =====
-- Safety of the rounds: under any events a node passes a round only when more than half of the peers
-- have confirmed in it, and takes its own message as delivered only with the acks of more than half.
use mathlib.Core.Path.{subst}
use dsignal.Base.{
  ℕ, ◌+◌, ◌/◌, ◌%◌, ◌<◌, ◌==◌, ◌≡◌, ◌∙◌, refl, Bool, true, false, not, ◌&&◌, some, List, [], ◌∷◌,
  GoString, bytes_dec, ℕ_discrete, length, if◌then◌else◌, ltb, Option-cases, arith, inl, inr,
  some_injective, bind_case,
}
use dsignal.Base.Dict.{lookup, insert, length-insert-le, DistinctKeys, insert-DistinctKeys}
use dsignal.Gossip.Packet.{TlcMessage, TlcAck}
use dsignal.Gossip.Clock.{u32}
use dsignal.Gossip.Chain.{BlockchainHandler, TlcMessages}
use dsignal.Gossip.Tlc.{Modes, TlcNode, RoundAction, save_confirmation, handle_tlc_message}
use dsignal.Gossip.Rounds.{
  Waiting, Event, acked, notified, tick, arrives, confirm, check_for_confirmations_majority,
  deliver, on_ack, check_round, on_tick, on_event, run,
}
use dsignal.Gossip.Rounds.Majority.{Confirmed, if_ind, save_confirmation-Confirmed}
use dsignal.Gossip.Rounds.Arrivals.{some_case, handle_tlc_message-Keeps}

-- The time of a round that began at `t`: one more once it is done.
abbrev pub time_of : ℕ → Bool → ℕ
time_of t done = if done then (t + 1) % u32 else t

-- The state of a round that began at `t`, with that many peers.
pub record Safe (size t : ℕ) (w : Waiting) : Type 0 where
  pub rounds : Confirmed size w.state.chain
  pub peers : w.state.peers_size ≡ size
  pub acks : DistinctKeys bytes_dec w.witnesses
  pub majority : w.delivered ≡ true → size / 2 < length w.witnesses
  pub waits : w.wait ≡ true
  pub time : w.state.chain.my_time ≡ time_of t w.done

-- The outcome of the check for a majority.
record Checked (size t : ℕ) (r : TlcNode × Bool × List RoundAction) : Type 0 where
  rounds : Confirmed size r.0.chain
  peers : r.0.peers_size ≡ size
  time : r.0.chain.my_time ≡ time_of t r.1

advance-Confirmed :
    (size : ℕ) (h : BlockchainHandler) (c : TlcMessages)
    → Confirmed size h
    → lookup ℕ_discrete h.my_time h.confirmations ≡ some c
    → size / 2 < length c
    → Confirmed size (record h { my_time = (h.my_time + 1) % u32 })
advance-Confirmed size h c confirmed loaded enough = record {
  distinct = confirmed.distinct;
  passed = λ round lt. elim (ℕ_discrete round h.my_time) [
    | yes e ↦ rw (e, loaded) enough
    | no ne ↦ confirmed.passed round (omega (arith, ne))
  ];
}

check-Checked :
    (size : ℕ) (tlc : TlcMessage) (delivered : Bool) (s : TlcNode)
    → Confirmed size s.chain
    → s.peers_size ≡ size
    → Checked size s.chain.my_time (check_for_confirmations_majority tlc delivered s)
unfolding check_for_confirmations_majority confirm
check-Checked size tlc delivered s c e =
    let idle : Checked size s.chain.my_time (s, false, []) = record {
      rounds = c;
      peers = e;
      time = refl;
    } in
    elim (Option-cases (lookup ℕ_discrete s.chain.my_time s.chain.confirmations)) [
      | inl miss ↦ rw (check_for_confirmations_majority, miss) idle
      | inr (found, hit) ↦
          rw (check_for_confirmations_majority, hit)
            (if_ind (Checked size s.chain.my_time) (ltb (s.peers_size / 2) (length found)) _ _
              (λ enough.
                let up = advance-Confirmed size s.chain found c hit (ground arith) in
                if_ind (Checked size s.chain.my_time) delivered _ _
                  (λ d. record { rounds = up; peers = e; time = refl })
                  (λ d. record { rounds = up; peers = e; time = refl }))
              (λ few. idle))
    ]

module _ (size t : ℕ) (modes : Modes) where
  now : (w : Waiting) → w.done ≡ false → Safe size t w → w.state.chain.my_time ≡ t
  now w running s = s.time ∙ rw running refl

  save_time :
      (round : ℕ) (origin : GoString) (tlc : TlcMessage) (h : BlockchainHandler)
      → (save_confirmation round origin tlc h).my_time ≡ h.my_time
  unfolding save_confirmation
  save_time round origin tlc h = ground arith

  pub check_round-Safe :
      (w : Waiting) → w.done ≡ false → Safe size t w → Safe size t (check_round w)
  unfolding check_round
  check_round-Safe w running s =
      let checked = check-Checked size w.tlc w.delivered w.state s.rounds s.peers in
      if_ind (Safe size t) w.wait _ w
        (λ e. record {
          rounds = checked.rounds;
          peers = checked.peers;
          acks = s.acks;
          majority = s.majority;
          waits = s.waits;
          time = checked.time ∙ rw (running, now w running s) refl;
        })
        (λ e. s)

  deliver-Safe :
      (w : Waiting)
      → w.done ≡ false
      → size / 2 < length w.witnesses
      → Safe size t w
      → Safe size t (deliver w)
  unfolding deliver confirm
  deliver-Safe w running enough s =
      if_ind (Safe size t) w.wait _ _
        (λ e. record {
          rounds = save_confirmation-Confirmed size _ _ _ _ s.rounds;
          peers = s.peers;
          acks = s.acks;
          majority = λ d. enough;
          waits = s.waits;
          time = save_time w.state.chain.my_time _ _ w.state.chain ∙ s.time;
        })
        (λ e. absurd (ground (arith, s.waits)))

  on_ack-Safe :
      (ack : TlcAck) (w : Waiting) → w.done ≡ false → Safe size t w → Safe size t (on_ack ack w)
  unfolding on_ack
  on_ack-Safe ack w running s =
      let more : Safe size t (record w { witnesses = insert bytes_dec ack.origin 0 w.witnesses }) =
        record {
          rounds = s.rounds;
          peers = s.peers;
          acks = insert-DistinctKeys bytes_dec ack.origin 0 w.witnesses s.acks;
          majority =
              λ d. omega (arith, s.majority d, length-insert-le bytes_dec ack.origin 0 w.witnesses);
          waits = s.waits;
          time = s.time;
        } in
      if_ind (Safe size t) (ack.id == w.tlc.id && not w.delivered) _ w
        (λ e.
          if_ind (Safe size t)
            (ltb (w.state.peers_size / 2) (length (insert bytes_dec ack.origin 0 w.witnesses))) _ _
            (λ enough. deliver-Safe _ running (ground (arith, s.peers)) more) (λ few. more))
        (λ e. s)

  on_event-Safe :
      (event : Event) (w w' : Waiting)
      → on_event modes event w ≡ some w'
      → Safe size t w
      → Safe size t w'
  unfolding on_event on_tick
  on_event-Safe (acked ack) w w' e s =
      subst (Safe size t) (some_injective e)
        (if_ind (Safe size t) w.done w _ (λ d. s) (λ d. on_ack-Safe ack w d s))
  on_event-Safe notified w w' e s =
      subst (Safe size t) (some_injective e)
        (if_ind (Safe size t) w.done w _ (λ d. s) (λ d. check_round-Safe w d s))
  on_event-Safe tick w w' e s = subst (Safe size t) (some_injective e) (
      if_ind (Safe size t) w.done w _ (λ d. s)
        (λ d. record {
          rounds = s.rounds;
          peers = s.peers;
          acks = s.acks;
          majority = s.majority;
          waits = s.waits;
          time = s.time;
        }))
  on_event-Safe (arrives ext tlc) w w' e s =
      let ((s', sent), handled, same) =
        some_case (handle_tlc_message modes ext tlc w.state) _ w' e in
      let (keeps, size_kept) =
        handle_tlc_message-Keeps size modes ext tlc w.state s' sent handled in
      subst (Safe size t) same (record {
        rounds = keeps.confirmed s.rounds;
        peers = size_kept ∙ s.peers;
        acks = s.acks;
        majority = s.majority;
        waits = s.waits;
        time = keeps.time ∙ s.time;
      })

  pub run_from-Safe :
      (events : List Event) (w w' : Waiting)
      → run modes events w ≡ some w'
      → Safe size t w
      → Safe size t w'
  unfolding run
  run_from-Safe [] w w' e s = subst (Safe size t) (some_injective e) s
  run_from-Safe (event ∷ events) w w' e s =
      let (v, moved, rest) = bind_case (on_event modes event w) (run modes events) w' e in
      run_from-Safe events v w' rest (on_event-Safe event w v moved s)
