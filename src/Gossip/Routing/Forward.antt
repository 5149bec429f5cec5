-- ===== src/Gossip/Routing/Forward.antt =====
-- Private messages hop by hop: the hop limit ends every journey, and a destination without a route.
use dsignal.Base.{
  ◌⊎◌, ◌∙◌, sym, ap, Bool-cases, if◌then◌else◌, ltb, ℕ, zero, suc, ◌+◌, ◌-◌, ◌≤◌, ◌<◌, ◌≡◌, refl,
  ◌≢◌, inl, inr, none, some, GoString, bytes_dec, arith, Option-cases,
}
use dsignal.Base.Dict.{Dict, lookup, insert, lookup-insert_self, lookup-insert_ne}
use dsignal.Gossip.Packet.{Addr, PrivateMessage}
use dsignal.Gossip.Routing.{
  RoutingHandler, Handled, delivered, sent, dropped, update_last_origin_id, update_routing_table,
  process_private_message,
}

pub record Node : Type 0 where
  pub name : GoString
  pub routing : RoutingHandler

-- The nodes of a network by their addresses.
abbrev pub Net : Type 0
Net = Dict Addr Node

pub data Journey : Type 0 where
  -- after so many sends, at the destination or nowhere
  arrived : ℕ → Journey
  lost : ℕ → Journey
  out_of_fuel : Journey

go_on : (Addr → PrivateMessage → Journey) → Handled → ℕ → Journey
go_on next delivered n = arrived n
go_on next dropped n = lost n
go_on next (sent a m) n = next a m

-- The message reaches address `at` from address `sender`, after `n` sends. Every node that it
-- passes updates its table.
pub travel : ℕ → Net → Addr → Addr → PrivateMessage → ℕ → Journey
unfolding go_on
travel zero net at sender m n = out_of_fuel
travel (suc fuel) net at sender m n = elim (lookup bytes_dec at net) [
  | none ↦ lost n
  | some node ↦
      let (r, handled) = process_private_message node.name m sender node.routing in
      go_on
        (λ a m'.
          travel fuel (insert bytes_dec at (record node { routing = r }) net) a at m' (n + 1))
        handled n
]

-- The journey ends, after at most `k` sends.
abbrev pub Ends : ℕ → Journey → Type 0
Ends k (arrived n) = n ≤ k
Ends k (lost n) = n ≤ k
Ends k out_of_fuel = ⊥

go_on-Ends :
    (next : Addr → PrivateMessage → Journey) (handled : Handled) (n k : ℕ)
    → n ≤ k
    → ((a : Addr) (m : PrivateMessage) → handled ≡ sent a m → Ends k (next a m))
    → Ends k (go_on next handled n)
unfolding go_on
go_on-Ends next delivered n k le each = le
go_on-Ends next dropped n k le each = le
go_on-Ends next (sent a m) n k le each = each a m refl

Ends-mono : (j k : ℕ) (journey : Journey) → j ≡ k → Ends j journey → Ends k journey
Ends-mono j k journey e h = rw (← e) h

process-hop_limit :
    (name : GoString) (m m' : PrivateMessage) (sender a : Addr) (r : RoutingHandler)
    → (process_private_message name m sender r).1 ≡ sent a m'
    → m.hop_limit ≡ m'.hop_limit + 1
unfolding process_private_message
process-hop_limit name m m' sender a r e = ground arith

-- A private message is sent on at most as often as its hop limit says, whatever the routing tables
-- of the nodes are, routing loops included, and then its journey ends.
pub travel-Ends :
    (fuel : ℕ) (net : Net) (at sender : Addr) (m : PrivateMessage) (n : ℕ)
    → m.hop_limit < fuel
    → Ends (n + m.hop_limit) (travel fuel net at sender m n)
unfolding travel
travel-Ends zero net at sender m n h = absurd (omega arith)
travel-Ends (suc fuel) net at sender m n h = elim (Option-cases (lookup bytes_dec at net)) [
  | inl miss ↦ rw (miss, travel) (omega arith)
  | inr (node, found) ↦
      rw (found, travel)
        (let done = process_private_message node.name m sender node.routing in
          let net' = insert bytes_dec at (record node { routing = done.0 }) net in
          go_on-Ends (λ a m'. travel fuel net' a at m' (n + 1)) done.1 n (n + m.hop_limit)
            (omega arith)
            (λ a m' e.
              let fewer : m.hop_limit ≡ m'.hop_limit + 1 =
                process-hop_limit node.name m m' sender a node.routing e in
              Ends-mono (n + 1 + m'.hop_limit) (n + m.hop_limit) (travel fuel net' a at m' (n + 1))
                (omega arith) (travel-Ends fuel net' a at m' (n + 1) (omega arith))))
]

-- A node that would hand messages for the destination to a neighbour that sends it one: it has never
-- heard of the destination, or its route goes there.
abbrev pub Faces : GoString → Addr → RoutingHandler → Type 0
Faces destination neighbour r =
    (lookup bytes_dec destination r.origin_last_id ≡ none)
    ⊎ (lookup bytes_dec destination r.routing_table ≡ some neighbour)

-- After a message of the neighbour the route goes to the neighbour.
update_routing_table-route :
    (destination : GoString) (id : ℕ) (neighbour : Addr) (r : RoutingHandler)
    → Faces destination neighbour r
    → lookup bytes_dec destination (update_routing_table destination id neighbour r).routing_table
      ≡ some neighbour
unfolding update_routing_table update_last_origin_id
update_routing_table-route destination id neighbour r (inl unknown) =
    ground (arith, lookup-insert_self bytes_dec destination neighbour r.routing_table)
update_routing_table-route destination id neighbour r (inr route) =
    ground (arith, lookup-insert_self bytes_dec destination neighbour r.routing_table)

bounced : Addr → PrivateMessage → Handled
bounced neighbour m =
    if ltb 0 m.hop_limit then sent neighbour (record m { hop_limit = m.hop_limit - 1 }) else dropped

process-bounced :
    (name : GoString) (m : PrivateMessage) (neighbour : Addr) (r : RoutingHandler)
    → m.destination ≢ name
    → Faces m.destination neighbour r
    → (lookup bytes_dec m.destination (process_private_message name m neighbour r).0.routing_table
        ≡ some neighbour)
      × ((process_private_message name m neighbour r).1 ≡ bounced neighbour m)
unfolding process_private_message bounced
process-bounced name m neighbour r other faces =
    let route = update_routing_table-route m.destination m.id neighbour r faces in
    (route, ground (arith, route))

-- Two nodes, neither of them the destination of a private message, where each has never heard of the
-- destination or has its route to it over the other one. When one gets the message from the other, it
-- sends it back, since the route that a message renews is that of its destination and not that of its
-- origin; the message goes to and fro until its hop limit is used up, and is lost.
pub travel_bounces :
    (fuel : ℕ) (net : Net) (a b : Addr) (left right : Node) (m : PrivateMessage) (n : ℕ)
    → m.hop_limit < fuel
    → a ≢ b
    → lookup bytes_dec a net ≡ some left
    → lookup bytes_dec b net ≡ some right
    → m.destination ≢ left.name
    → m.destination ≢ right.name
    → Faces m.destination b left.routing
    → Faces m.destination a right.routing
    → travel fuel net a b m n ≡ lost (n + m.hop_limit)
unfolding travel go_on bounced
travel_bounces zero net a b left right m n enough ne at_a at_b other other' faces faces' =
    absurd (omega arith)
travel_bounces (suc fuel) net a b left right m n enough ne at_a at_b other other' faces faces' =
    let done = process_private_message left.name m b left.routing in
    let net' = insert bytes_dec a (record left { routing = done.0 }) net in
    let next = λ (to : Addr) (m' : PrivateMessage). travel fuel net' to a m' (n + 1) in
    let (route, handled) = process-bounced left.name m b left.routing other faces in
    elim (Bool-cases (ltb 0 m.hop_limit)) [
      | inr over ↦
          let e : done.1 ≡ dropped = handled ∙ rw over refl in
          let still : n ≡ n + m.hop_limit = ground arith in
          rw (at_a, travel) (ap (λ h. go_on next h n) e ∙ ap lost still)
      | inl more ↦
          let m' : PrivateMessage = record m { hop_limit = m.hop_limit - 1 } in
          let e : done.1 ≡ sent b m' = handled ∙ rw more refl in
          let count : n + 1 + m'.hop_limit ≡ n + m.hop_limit = ground arith in
          let fewer : m'.hop_limit < fuel = ground arith in
          rw (at_a, travel)
            (ap (λ h. go_on next h n) e
              ∙ travel_bounces fuel net' b a right (record left { routing = done.0 }) m' (n + 1)
                  fewer (λ q. ne (sym q))
                  (lookup-insert_ne bytes_dec a b (record left { routing = done.0 }) net ne ∙ at_b)
                  (lookup-insert_self bytes_dec a (record left { routing = done.0 }) net) other'
                  other faces' (inr route)
              ∙ ap lost count)
    ]
