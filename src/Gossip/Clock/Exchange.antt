-- ===== src/Gossip/Clock/Exchange.antt =====
-- What a node answers to the vector clock of another one (`handlePeerStatus`).
use dsignal.Base.{
  ℕ, suc, ◌≤◌, ◌<◌, ◌≡◌, ◌∙◌, sym, refl, ◌≢◌, ◌⊎◌, inl, inr, true, false, none, some, List, [], ◌∷◌,
  GoString, bytes_dec, ℕ_discrete, arith, Option-cases, Bool-cases, ltb, get_elem?, if_neg,
}
use dsignal.Base.Dict.{lookup, insert, lookup-insert_self, lookup-insert_ne, DistinctKeys}
use dsignal.Gossip.Packet.{PeerStatus}
use dsignal.Gossip.Clock.{
  Clock, Storage, messages_of, GossipHandler, origin_id_map, first_needed, get_peer_status_for_peer,
  check_if_i_need_peer_status, get_packet_from_peer_status, Reply, send_packet, send_status,
  in_sync, panics, handle_peer_status, create_my_status_packet,
}
use dsignal.Gossip.Clock.Synced.{IsSynced, IsTracked}

-- The clock that a status packet stands for.
abbrev pub clock_of : List PeerStatus → Clock
clock_of want = origin_id_map [] want

-- The origin and id of a message that the other lacks, next in its order.
abbrev pub Lacks : Clock → Clock → GoString → ℕ → Type 0
Lacks mine other o id =
    (n : ℕ) × (lookup bytes_dec o mine ≡ some n)
    × ((lookup bytes_dec o other ≡ none) × (id ≡ 1)
        ⊎ (lookup bytes_dec o other ≡ some id) × (id < n))

first_needed-some :
    (other mine : Clock) {ps : PeerStatus}
    → DistinctKeys bytes_dec mine
    → first_needed other mine ≡ some ps
    → Lacks mine other ps.identifier ps.next_id
unfolding first_needed lookup
first_needed-some other [] d e = cc
first_needed-some other ((o, n) ∷ mine) {ps} (fresh, d) e =
    elim (Option-cases (lookup bytes_dec o other)) [
      | inl miss ↦ (n, ground arith, inl (ground arith, ground arith))
      | inr (id, hit) ↦ elim (Bool-cases (ltb id n)) [
        | inl lt ↦ (n, ground arith, inr (ground arith, ground arith))
        | inr ge ↦
            let (k, held, rest) = first_needed-some other mine {ps = ps} d (ground arith) in
            (
              k,
              elim (bytes_dec o ps.identifier) [
                | yes q ↦ absurd (ground arith)
                | no ne ↦ rw (if_neg (bytes_dec o ps.identifier) ne) held
              ],
              rest,
            )
      ]
    ]

first_needed-none :
    (other mine : Clock) (o : GoString) (n : ℕ)
    → first_needed other mine ≡ none
    → lookup bytes_dec o mine ≡ some n
    → (id : ℕ) × (lookup bytes_dec o other ≡ some id) × (n ≤ id)
unfolding first_needed lookup
first_needed-none other [] o n e h = cc
first_needed-none other ((p, k) ∷ mine) o n e h = elim (Option-cases (lookup bytes_dec p other)) [
  | inl miss ↦ absurd (ground arith)
  | inr (id, hit) ↦ elim (bytes_dec p o) [
    | yes q ↦ (id, rw (← q) hit, ground arith)
    | no ne ↦ first_needed-none other mine o n (ground arith) (ground arith)
  ]
]

check-false :
    (mine : Clock) (want : List PeerStatus) (m : Clock) (o : GoString) (n : ℕ)
    → check_if_i_need_peer_status mine want ≡ false
    → lookup bytes_dec o (origin_id_map m want) ≡ some n
    → (lookup bytes_dec o m ≡ some n) ⊎ ((id : ℕ) × (lookup bytes_dec o mine ≡ some id) × (n ≤ id))
unfolding check_if_i_need_peer_status origin_id_map
check-false mine [] m o n e h = inl h
check-false mine (ps ∷ want) m o n e h =
    let next : Clock = insert bytes_dec ps.identifier ps.next_id m in
    elim (Option-cases (lookup bytes_dec ps.identifier mine)) [
      | inl miss ↦ absurd (ground arith)
      | inr (id, hit) ↦ elim (Bool-cases (ltb id ps.next_id)) [
        | inl lt ↦ absurd (ground arith)
        | inr ge ↦ elim (check-false mine want next o n (ground arith) h) [
          | inr found ↦ inr found
          | inl there ↦ elim (bytes_dec ps.identifier o) [
            | yes q ↦ inr (
              id,
              rw (← q) hit,
              ground (arith, lookup-insert_self bytes_dec ps.identifier ps.next_id m),
            )
            | no ne ↦ inl (sym (lookup-insert_ne bytes_dec ps.identifier o ps.next_id m ne) ∙ there)
          ]
        ]
      ]
    ]

check-true :
    (mine : Clock) (want : List PeerStatus)
    → check_if_i_need_peer_status mine want ≡ true
    → (i : ℕ) × (ps : PeerStatus) × (get_elem? want i ≡ some ps)
      × ((lookup bytes_dec ps.identifier mine ≡ none)
          ⊎ ((id : ℕ) × (lookup bytes_dec ps.identifier mine ≡ some id) × (id < ps.next_id)))
unfolding check_if_i_need_peer_status
check-true mine [] e = cc
check-true mine (ps ∷ want) e = elim (Option-cases (lookup bytes_dec ps.identifier mine)) [
  | inl miss ↦ (0, ps, refl, inl miss)
  | inr (id, hit) ↦ elim (Bool-cases (ltb id ps.next_id)) [
    | inl lt ↦ (0, ps, refl, inr (id, hit, ground arith))
    | inr ge ↦ let (i, qs, at, more) = check-true mine want (ground arith) in (suc i, qs, at, more)
  ]
]

-- Message ids start at 1.
abbrev pub AllPositive : List PeerStatus → Type 0
AllPositive [] = Unit
AllPositive (ps ∷ want) = (1 ≤ ps.next_id) × AllPositive want

origin_id_map-positive :
    (want : List PeerStatus) (m : Clock) (o : GoString) (n : ℕ)
    → AllPositive want
    → ((k : ℕ) → lookup bytes_dec o m ≡ some k → 1 ≤ k)
    → lookup bytes_dec o (origin_id_map m want) ≡ some n
    → 1 ≤ n
unfolding origin_id_map
origin_id_map-positive [] m o n all start h = start n h
origin_id_map-positive (ps ∷ want) m o n (first, all) start h =
    origin_id_map-positive want (insert bytes_dec ps.identifier ps.next_id m) o n all
      (λ k e. elim (bytes_dec ps.identifier o) [
        | yes q ↦ ground (arith, lookup-insert_self bytes_dec ps.identifier ps.next_id m)
        | no ne ↦ start k (sym (lookup-insert_ne bytes_dec ps.identifier o ps.next_id m ne) ∙ e)
      ])
      h

pub get_packet-messages_of :
    (storage : Storage) (ps : PeerStatus)
    → get_packet_from_peer_status storage ps
      ≡ lookup ℕ_discrete ps.next_id (messages_of storage ps.identifier)
unfolding get_packet_from_peer_status lookup
get_packet-messages_of storage ps = elim (Option-cases (lookup bytes_dec ps.identifier storage)) [
  | inl miss ↦ rw (miss, get_packet_from_peer_status)
  | inr (v, hit) ↦ rw (hit, get_packet_from_peer_status)
]

-- What the other lacks, and is next in its order, is stored.
lacked_stored :
    (h : GossipHandler) (want : List PeerStatus) (o : GoString) (id : ℕ)
    → IsSynced h
    → AllPositive want
    → Lacks h.my_status (clock_of want) o id
    → lookup ℕ_discrete id (messages_of h.message_storage o) ≢ none
unfolding lookup
lacked_stored h want o id s all (n, held, why) =
    let t : IsTracked (messages_of h.message_storage o) (lookup bytes_dec o h.my_status) =
      s.tracked o in
    let t' : IsTracked (messages_of h.message_storage o) (some n) = rw held at t in
    let two : 2 ≤ n = t'.two n refl in
    elim why [
      | inl (unheard, one) ↦ t'.least.known id (omega arith) (omega arith)
      | inr (heard, lt) ↦
          t'.least.known id (origin_id_map-positive want [] o id all (λ k e. ground arith) heard) lt
    ]

-- What each reply promises.
abbrev pub Answers : GossipHandler → List PeerStatus → Reply → Type 0
Answers h want (send_packet packet) =
    (o : GoString) × (id : ℕ) × Lacks h.my_status (clock_of want) o id
    × (lookup ℕ_discrete id (messages_of h.message_storage o) ≡ some packet)
Answers h want (send_status mine) =
    (mine ≡ create_my_status_packet h.my_status)
    × ((o : GoString) (n : ℕ)
        → lookup bytes_dec o h.my_status ≡ some n
        → (id : ℕ) × (lookup bytes_dec o (clock_of want) ≡ some id) × (n ≤ id))
    × (i : ℕ) × (ps : PeerStatus) × (get_elem? want i ≡ some ps)
    × ((lookup bytes_dec ps.identifier h.my_status ≡ none)
        ⊎ ((id : ℕ) × (lookup bytes_dec ps.identifier h.my_status ≡ some id) × (id < ps.next_id)))
Answers h want in_sync =
    (o : GoString) → lookup bytes_dec o h.my_status ≡ lookup bytes_dec o (clock_of want)
Answers h want panics = ⊥

agree :
    (h : GossipHandler) (want : List PeerStatus)
    → first_needed (clock_of want) h.my_status ≡ none
    → check_if_i_need_peer_status h.my_status want ≡ false
    → (o : GoString) → lookup bytes_dec o h.my_status ≡ lookup bytes_dec o (clock_of want)
unfolding lookup
agree h want nothing_to_send nothing_wanted o =
    let mine = h.my_status in
    let other = clock_of want in
    elim (Option-cases (lookup bytes_dec o mine)) [
      | inr (n, held) ↦
          let (k, heard, le) = first_needed-none other mine o n nothing_to_send held in
          elim (check-false mine want [] o k nothing_wanted heard) [
            | inl absent ↦ absurd (ground (arith, absent))
            | inr (id, held', ge) ↦ ground arith
          ]
      | inl unknown ↦ elim (Option-cases (lookup bytes_dec o other)) [
        | inl unheard ↦ unknown ∙ sym unheard
        | inr (k, heard) ↦ elim (check-false mine want [] o k nothing_wanted heard) [
          | inl absent ↦ absurd (ground (arith, absent))
          | inr (id, held', ge) ↦ absurd (ground arith)
        ]
      ]
    ]

-- On a handler whose clock is in step, a status packet with ids from 1 on is answered by a packet
-- that the sender lacks and is next in its order, or by the own clock where only this node is
-- behind, or by nothing where both clocks agree on every origin. The answer never panics.
pub handle_peer_status-Answers :
    (h : GossipHandler) (want : List PeerStatus)
    → IsSynced h
    → AllPositive want
    → Answers h want (handle_peer_status h want)
unfolding handle_peer_status get_peer_status_for_peer
handle_peer_status-Answers h want s all =
    elim (Option-cases (first_needed (clock_of want) h.my_status)) [
      | inr (ps, found) ↦
          let lacks = first_needed-some (clock_of want) h.my_status {ps = ps} s.distinct found in
          elim (Option-cases (get_packet_from_peer_status h.message_storage ps)) [
            | inl miss ↦ absurd (
                lacked_stored h want ps.identifier ps.next_id s all lacks
                  (sym (get_packet-messages_of h.message_storage ps) ∙ miss))
            | inr (packet, got) ↦
                rw (found, handle_peer_status, got)
                  (
                    ps.identifier,
                    ps.next_id,
                    lacks,
                    sym (get_packet-messages_of h.message_storage ps) ∙ got,
                  )
          ]
      | inl nothing_to_send ↦ elim (Bool-cases (check_if_i_need_peer_status h.my_status want)) [
        | inl wanted ↦
            let (i, ps, at, more) = check-true h.my_status want wanted in
            rw (nothing_to_send, handle_peer_status, wanted)
              (
                refl,
                λ o n. first_needed-none (clock_of want) h.my_status o n nothing_to_send,
                i,
                ps,
                at,
                more,
              )
        | inr unwanted ↦
            rw (nothing_to_send, handle_peer_status, unwanted)
              (agree h want nothing_to_send unwanted)
      ]
    ]
