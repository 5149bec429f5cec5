-- ===== src/Gossip/Routing/Freshest.antt =====
-- The routing table against the history of packets.
use dsignal.Base.{
  ℕ, ◌≤◌, ◌<◌, ◌≡◌, refl, ◌≢◌, ◌⊎◌, inl, inr, Option, none, some, List, [], ◌∷◌, GoString,
  bytes_dec, arith, dec_lt, Option-cases,
}
use dsignal.Base.Dict.{lookup, insert, lookup-insert_self, lookup-insert_ne}
use dsignal.Gossip.Packet.{Addr}
use dsignal.Gossip.Routing.{RoutingHandler, new_routing_handler, update_routing_table}

-- A packet as the table sees it.
pub record Arrival : Type 0 where
  pub origin : GoString
  pub id : ℕ
  pub address : Addr

-- The handler after a history, the last packet at the head.
unfoldable pub run : List Arrival → RoutingHandler
run [] = new_routing_handler
run (u ∷ past) = update_routing_table u.origin u.id u.address (run past)

-- No packet of the origin has an id above `n`.
abbrev pub NoneAbove : GoString → ℕ → List Arrival → Type 0
NoneAbove o n [] = Unit
NoneAbove o n (u ∷ past) = (u.origin ≡ o → u.id ≤ n) × NoneAbove o n past

-- All packets of the origin have ids below `n`.
abbrev pub AllBelow : GoString → ℕ → List Arrival → Type 0
AllBelow o n [] = Unit
AllBelow o n (u ∷ past) = (u.origin ≡ o → u.id < n) × AllBelow o n past

-- The first packet of the origin with id `n` came from address `a`.
abbrev pub FirstFrom : GoString → ℕ → Addr → List Arrival → Type 0
FirstFrom o n a [] = ⊥
FirstFrom o n a (u ∷ past) =
    (u.origin ≡ o) × (u.id ≡ n) × (u.address ≡ a) × AllBelow o n past ⊎ FirstFrom o n a past

abbrev pub NoneOf : GoString → List Arrival → Type 0
NoneOf o [] = Unit
NoneOf o (u ∷ past) = (u.origin ≢ o) × NoneOf o past

-- What the history says of the next hop and of the last id.
abbrev pub Freshest : GoString → List Arrival → Option Addr → Option ℕ → Type 0
Freshest o past (some a) (some n) = NoneAbove o n past × FirstFrom o n a past
Freshest o past none none = NoneOf o past
Freshest o past _ _ = ⊥

NoneOf-AllBelow : (o : GoString) (n : ℕ) (past : List Arrival) → NoneOf o past → AllBelow o n past
NoneOf-AllBelow o n [] h = tt
NoneOf-AllBelow o n (u ∷ past) (ne, h) = (λ e. absurd (ne e), NoneOf-AllBelow o n past h)

NoneAbove-AllBelow :
    (o : GoString) (m n : ℕ) (past : List Arrival) → NoneAbove o m past → m < n → AllBelow o n past
NoneAbove-AllBelow o m n [] h lt = tt
NoneAbove-AllBelow o m n (u ∷ past) (le, h) lt =
    (λ e. let q : u.id ≤ m = le e in omega arith, NoneAbove-AllBelow o m n past h lt)

AllBelow-NoneAbove :
    (o : GoString) (n : ℕ) (past : List Arrival) → AllBelow o n past → NoneAbove o n past
AllBelow-NoneAbove o n [] h = tt
AllBelow-NoneAbove o n (u ∷ past) (lt, h) =
    (λ e. let q : u.id < n = lt e in omega arith, AllBelow-NoneAbove o n past h)

Freshest-cons_ne :
    (u : Arrival) (past : List Arrival) (o : GoString) (x : Option Addr) (y : Option ℕ)
    → u.origin ≢ o
    → Freshest o past x y
    → Freshest o (u ∷ past) x y
Freshest-cons_ne u past o none none ne f = (ne, f)
Freshest-cons_ne u past o (some a) (some n) ne (above, first) =
    ((λ e. absurd (ne e), above), inr first)
Freshest-cons_ne u past o none (some n) ne f = f
Freshest-cons_ne u past o (some a) none ne f = f

-- A packet with an id above all others.
Freshest-cons_new :
    (u : Arrival) (past : List Arrival)
    → AllBelow u.origin u.id past
    → Freshest u.origin (u ∷ past) (some u.address) (some u.id)
Freshest-cons_new u past below =
    ((λ e. omega arith, AllBelow-NoneAbove u.origin u.id past below), inl (refl, refl, refl, below))

Freshest-cons_old :
    (u : Arrival) (past : List Arrival) (x : Option Addr) (n : ℕ)
    → u.id ≤ n
    → Freshest u.origin past x (some n)
    → Freshest u.origin (u ∷ past) x (some n)
Freshest-cons_old u past none n le f = f
Freshest-cons_old u past (some a) n le (above, first) = ((λ e. le, above), inr first)

Freshest-AllBelow-none :
    (o : GoString) (n : ℕ) (past : List Arrival) (x : Option Addr)
    → Freshest o past x none
    → AllBelow o n past
Freshest-AllBelow-none o n past none f = NoneOf-AllBelow o n past f
Freshest-AllBelow-none o n past (some a) f = absurd f

Freshest-AllBelow-some :
    (o : GoString) (m n : ℕ) (past : List Arrival) (x : Option Addr)
    → Freshest o past x (some m)
    → m < n
    → AllBelow o n past
Freshest-AllBelow-some o m n past none f lt = absurd f
Freshest-AllBelow-some o m n past (some a) f lt = NoneAbove-AllBelow o m n past f.0 lt

module _ (u : Arrival) (r : RoutingHandler) where
  after : RoutingHandler
  after = update_routing_table u.origin u.id u.address r

  -- A packet that is no newer changes nothing.
  after_old : (m : ℕ) → lookup bytes_dec u.origin r.origin_last_id ≡ some m → u.id ≤ m → after ≡ r
  unfolding after update_routing_table
  after_old m held le = ground arith

  -- A new one sets both entries.
  after_new :
      ((m : ℕ) → lookup bytes_dec u.origin r.origin_last_id ≡ some m → m < u.id)
      → after ≡ record {
        routing_table = insert bytes_dec u.origin u.address r.routing_table;
        origin_last_id = insert bytes_dec u.origin u.id r.origin_last_id;
      }
  unfolding after update_routing_table
  after_new newer = elim (Option-cases (lookup bytes_dec u.origin r.origin_last_id)) [
    | inl miss ↦ ground arith
    | inr (m, held) ↦ let lt : m < u.id = newer m held in ground arith
  ]

  after_new-Freshest :
      (past : List Arrival)
      → ((m : ℕ) → lookup bytes_dec u.origin r.origin_last_id ≡ some m → m < u.id)
      → AllBelow u.origin u.id past
      → Freshest u.origin
          (u ∷ past)
          (lookup bytes_dec u.origin after.routing_table)
          (lookup bytes_dec u.origin after.origin_last_id)
  after_new-Freshest past newer below =
      rw (after_new newer, lookup-insert_self, lookup-insert_self) (Freshest-cons_new u past below)

  -- One more packet of the origin itself.
  step_self :
      (past : List Arrival)
      → Freshest u.origin past
          (lookup bytes_dec u.origin r.routing_table)
          (lookup bytes_dec u.origin r.origin_last_id)
      → Freshest u.origin
          (u ∷ past)
          (lookup bytes_dec u.origin after.routing_table)
          (lookup bytes_dec u.origin after.origin_last_id)
  step_self past f =
      let route = lookup bytes_dec u.origin r.routing_table in
      elim (Option-cases (lookup bytes_dec u.origin r.origin_last_id)) [
        | inl miss ↦
            after_new-Freshest past (λ m held. absurd (ground arith))
              (Freshest-AllBelow-none u.origin u.id past route (rw miss at f))
        | inr (n, held) ↦ elim (dec_lt n u.id) [
          | yes lt ↦
              after_new-Freshest past (λ m held'. ground arith)
                (Freshest-AllBelow-some u.origin n u.id past route (rw held at f) lt)
          | no ge ↦
              rw (after_old n held (omega arith), held)
                (Freshest-cons_old u past route n (omega arith) (rw held at f))
        ]
      ]

  after_ne :
      (o : GoString)
      → u.origin ≢ o
      → (lookup bytes_dec o after.routing_table ≡ lookup bytes_dec o r.routing_table)
        × (lookup bytes_dec o after.origin_last_id ≡ lookup bytes_dec o r.origin_last_id)
  unfolding after update_routing_table
  after_ne o ne = (
    ground (arith, lookup-insert_ne bytes_dec u.origin o u.address r.routing_table ne),
    ground (arith, lookup-insert_ne bytes_dec u.origin o u.id r.origin_last_id ne),
  )

  -- Or of another one.
  step_ne :
      (past : List Arrival) (o : GoString)
      → u.origin ≢ o
      → Freshest o past (lookup bytes_dec o r.routing_table) (lookup bytes_dec o r.origin_last_id)
      → Freshest o
          (u ∷ past)
          (lookup bytes_dec o after.routing_table)
          (lookup bytes_dec o after.origin_last_id)
  step_ne past o ne f =
      let g : Freshest o (u ∷ past) (lookup bytes_dec o r.routing_table)
          (lookup bytes_dec o r.origin_last_id) =
        Freshest-cons_ne u past o (lookup bytes_dec o r.routing_table)
          (lookup bytes_dec o r.origin_last_id) ne f in
      rw ((after_ne o ne).0, (after_ne o ne).1) g

-- After any history the table sends to the address from which the freshest packet of the origin
-- came first, and the last id is the highest one: packets that are older or repeated change
-- nothing. An origin that never showed up has no entry.
pub run-Freshest :
    (history : List Arrival) (o : GoString)
    → Freshest o history
        (lookup bytes_dec o (run history).routing_table)
        (lookup bytes_dec o (run history).origin_last_id)
unfolding run lookup after
run-Freshest [] o = tt
run-Freshest (u ∷ past) o = elim (bytes_dec u.origin o) [
  | yes e ↦ rw (← e) (step_self u (run past) past (run-Freshest past u.origin))
  | no ne ↦ step_ne u (run past) past o ne (run-Freshest past o)
]
