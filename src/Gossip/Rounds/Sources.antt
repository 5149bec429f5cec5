-- ===== src/Gossip/Rounds/Sources.antt =====
-- Where the acks and the confirmations of a round come from.
use mathlib.Core.Path.{subst}
use dsignal.Base.{
  ℕ, ◌==◌, ◌≡◌, ◌≢◌, ◌⊎◌, inl, inr, ◌∙◌, refl, sym, ap, ◌/◌, Bool, true, not, ◌&&◌, none, some,
  List, [], ◌∷◌, GoString, bytes_dec, ℕ_discrete, length, ltb, Option-cases, arith, if_neg,
  some_injective, bind_case,
}
use dsignal.Base.Dict.{lookup, insert, lookup-insert_ne}
use dsignal.Gossip.Packet.{TlcMessage, TlcAck, ExtendedGossipPacket, is_set}
use dsignal.Gossip.Tlc.{
  Modes, TlcNode, RoundAction, messages_in, create_tlc_message, handle_tlc_message,
}
use dsignal.Gossip.Rounds.{
  Waiting, Event, acked, notified, tick, arrives, confirm, check_for_confirmations_majority,
  deliver, on_ack, check_round, on_tick, on_event, start, begin, run,
}
use dsignal.Gossip.Rounds.Majority.{if_ind}
use dsignal.Gossip.Rounds.Arrivals.{some_case, saved_source, handle_tlc_message-Saves}

abbrev pub Among : Event → List Event → Type 0
Among event [] = ⊥
Among event (e ∷ events) = (e ≡ event) ⊎ Among event events

-- Where a confirmation that stands in a round under an origin comes from: it was there before, or its
-- origin is that one, and it is the node's own for its message, which counts as delivered, or came in a
-- packet.
abbrev pub Source : TlcMessage → TlcNode → List Event → Bool → ℕ → GoString → TlcMessage → Type 0
Source tlc s all delivered round origin m =
    (lookup bytes_dec origin (messages_in round s.chain.confirmations) ≡ some m)
    ⊎ (m.origin ≡ origin)
      × ((delivered ≡ true) × (m.confirmed ≡ some tlc.id)
          ⊎ (ext : ExtendedGossipPacket) × Among (arrives ext m) all × (is_set m.confirmed ≡ true))

-- The acks that count are the node's own and those that came for the message.
pub record Sourced (tlc : TlcMessage) (s : TlcNode) (all : List Event) (w : Waiting) : Type 0 where
  pub message : w.tlc ≡ tlc
  pub acks :
      (origin : GoString)
      → lookup bytes_dec origin w.witnesses ≢ none
      → (s.node.name ≡ origin)
        ⊎ (ack : TlcAck) × Among (acked ack) all × (ack.origin ≡ origin) × (ack.id ≡ tlc.id)
  pub confirmations :
      (round : ℕ) (origin : GoString) (m : TlcMessage)
      → lookup bytes_dec origin (messages_in round w.state.chain.confirmations) ≡ some m
      → Source tlc s all w.delivered round origin m

Source-delivered :
    (tlc : TlcMessage) (s : TlcNode) (all : List Event) (delivered : Bool) (round : ℕ)
    (origin : GoString) (m : TlcMessage)
    → Source tlc s all delivered round origin m
    → Source tlc s all true round origin m
Source-delivered tlc s all delivered round origin m (inl before) = inl before
Source-delivered tlc s all delivered round origin m (inr (from, inl (d, c))) =
    inr (from, inl (refl, c))
Source-delivered tlc s all delivered round origin m (inr (from, inr came)) = inr (from, inr came)

-- The check for a majority leaves the confirmations.
check-kept :
    (tlc : TlcMessage) (delivered : Bool) (s : TlcNode)
    → (check_for_confirmations_majority tlc delivered s).0.chain.confirmations
      ≡ s.chain.confirmations
unfolding check_for_confirmations_majority confirm
check-kept tlc delivered s =
    elim (Option-cases (lookup ℕ_discrete s.chain.my_time s.chain.confirmations)) [
      | inl miss ↦ rw (check_for_confirmations_majority, miss) refl
      | inr (found, hit) ↦
          let P = λ (r : TlcNode × Bool × List RoundAction).
            r.0.chain.confirmations ≡ s.chain.confirmations in
          rw (check_for_confirmations_majority, hit)
            (if_ind P (ltb (s.peers_size / 2) (length found)) _ _
              (λ enough. if_ind P delivered _ _ (λ d. refl) (λ d. refl)) (λ few. refl))
    ]

module _ (tlc : TlcMessage) (s : TlcNode) (all : List Event) (modes : Modes) where
  check_round-Sourced : (w : Waiting) → Sourced tlc s all w → Sourced tlc s all (check_round w)
  unfolding check_round
  check_round-Sourced w o =
      if_ind (Sourced tlc s all) w.wait _ w
        (λ e. record {
          message = o.message;
          acks = o.acks;
          confirmations = λ round origin m found. o.confirmations round origin m (
              ap (λ c. lookup bytes_dec origin (messages_in round c))
                (sym (check-kept w.tlc w.delivered w.state))
              ∙ found);
        })
        (λ e. o)

  deliver-Sourced : (w : Waiting) → Sourced tlc s all w → Sourced tlc s all (deliver w)
  unfolding deliver confirm create_tlc_message
  deliver-Sourced w o =
      let own = (confirm w.tlc w.state).1 in
      if_ind (Sourced tlc s all) w.wait _ _
        (λ e. record {
          message = o.message;
          acks = o.acks;
          confirmations = λ round origin m found.
              elim (saved_source w.state.chain.my_time round origin own m w.state.chain found) [
                | inl before ↦
                    Source-delivered tlc s all w.delivered round origin m
                      (o.confirmations round origin m before)
                | inr (mine, same) ↦ inr (
                  ap (λ (x : TlcMessage). x.origin) (sym same) ∙ mine,
                  inl (
                    refl,
                    ap (λ (x : TlcMessage). x.confirmed) (sym same)
                        ∙ ap (λ (x : TlcMessage). some x.id) o.message,
                  ),
                )
              ];
        })
        (λ e. record {
          message = o.message;
          acks = o.acks;
          confirmations = λ round origin m found.
              Source-delivered tlc s all w.delivered round origin m
                (o.confirmations round origin m found);
        })

  on_ack-Sourced :
      (ack : TlcAck) (w : Waiting)
      → Among (acked ack) all
      → Sourced tlc s all w
      → Sourced tlc s all (on_ack ack w)
  unfolding on_ack
  on_ack-Sourced ack w came o =
      if_ind (Sourced tlc s all) (ack.id == w.tlc.id && not w.delivered) _ w
        (λ e.
          let same : ack.id ≡ w.tlc.id = ground (arith, e) in
          let more : Sourced tlc s all
              (record w { witnesses = insert bytes_dec ack.origin 0 w.witnesses }) =
            record {
              message = o.message;
              acks = λ origin there. elim (bytes_dec ack.origin origin) [
                | yes here ↦ inr (ack, came, here, same ∙ ap (λ (x : TlcMessage). x.id) o.message)
                | no other ↦ o.acks origin (λ miss.
                    there (lookup-insert_ne bytes_dec ack.origin origin 0 w.witnesses other ∙ miss))
              ];
              confirmations = o.confirmations;
            } in
          if_ind (Sourced tlc s all)
            (ltb (w.state.peers_size / 2) (length (insert bytes_dec ack.origin 0 w.witnesses))) _ _
            (λ enough. deliver-Sourced _ more) (λ few. more))
        (λ e. o)

  on_event-Sourced :
      (event : Event) (w w' : Waiting)
      → Among event all
      → on_event modes event w ≡ some w'
      → Sourced tlc s all w
      → Sourced tlc s all w'
  unfolding on_event on_tick
  on_event-Sourced (acked ack) w w' came e o =
      subst (Sourced tlc s all) (some_injective e)
        (if_ind (Sourced tlc s all) w.done w _ (λ d. o) (λ d. on_ack-Sourced ack w came o))
  on_event-Sourced notified w w' came e o =
      subst (Sourced tlc s all) (some_injective e)
        (if_ind (Sourced tlc s all) w.done w _ (λ d. o) (λ d. check_round-Sourced w o))
  on_event-Sourced tick w w' came e o = subst (Sourced tlc s all) (some_injective e) (
      if_ind (Sourced tlc s all) w.done w _ (λ d. o)
        (λ d. record { message = o.message; acks = o.acks; confirmations = o.confirmations }))
  on_event-Sourced (arrives ext m) w w' came e o =
      let ((s', sent), handled, same) = some_case (handle_tlc_message modes ext m w.state) _ w' e in
      let saves = handle_tlc_message-Saves 0 modes ext m w.state s' sent handled in
      subst (Sourced tlc s all) same (record {
        message = o.message;
        acks = o.acks;
        confirmations = λ round origin c found. elim (saves.source round origin c found) [
          | inl before ↦ o.confirmations round origin c before
          | inr (from, is, set) ↦ inr (
            ap (λ (x : TlcMessage). x.origin) (sym is) ∙ from,
            inr (
              ext,
              subst (λ (x : TlcMessage). Among (arrives ext x) all) is came,
              ap (λ (x : TlcMessage). is_set x.confirmed) (sym is) ∙ set,
            ),
          )
        ];
      })

  pub run_from-Sourced :
      (events : List Event) (w w' : Waiting)
      → ((event : Event) → Among event events → Among event all)
      → run modes events w ≡ some w'
      → Sourced tlc s all w
      → Sourced tlc s all w'
  unfolding run
  run_from-Sourced [] w w' each e o = subst (Sourced tlc s all) (some_injective e) o
  run_from-Sourced (event ∷ events) w w' each e o =
      let (v, moved, rest) = bind_case (on_event modes event w) (run modes events) w' e in
      run_from-Sourced events v w' (λ x there. each x (inr there)) rest
        (on_event-Sourced event w v (each event (inl refl)) moved o)

  pub begin-Sourced : (ext : ExtendedGossipPacket) → Sourced tlc s all (begin modes true ext tlc s)
  unfolding begin lookup
  begin-Sourced ext =
      let w = start true ext tlc s in
      let at_start : Sourced tlc s all w = record {
        message = refl;
        acks = λ origin there. elim (bytes_dec s.node.name origin) [
          | yes own ↦ inl own
          | no other ↦ absurd (there (if_neg (bytes_dec s.node.name origin) other _ _))
        ];
        confirmations = λ round origin m found. inl found;
      } in
      let r = check_round-Sourced w at_start in
      record { message = r.message; acks = r.acks; confirmations = r.confirmations }
