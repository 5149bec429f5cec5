-- ===== src/Gossip/Clock/Synced.antt =====
-- The vector clock names, for each origin, the least id that is not stored.
use dsignal.Base.{
  ℕ, zero, suc, ◌+◌, ◌-◌, ◌%◌, ◌≤◌, ◌<◌, ◌≡◌, ◌∙◌, refl, ◌≢◌, inl, inr, Option, none, some,
  GoString, length, bytes_dec, ℕ_discrete, arith, Option-cases, Bool-cases, eq_of_some, leb,
}
use native.Mathlib.Nat.{mod-eq_of_lt}
use dsignal.Base.Dict.{
  DistinctKeys, insert-DistinctKeys, lookup, insert, lookup-insert_self, lookup-insert_ne,
  run-le-length,
}
use dsignal.Gossip.Packet.{GossipPacket}
use dsignal.Gossip.Clock.{
  u32, Clock, Messages, or_else, scan, update_status, messages_of, load_or_store, GossipHandler,
  store_message,
}

abbrev Stored : Messages → ℕ → Type 0
Stored stored id = lookup ℕ_discrete id stored ≢ none

-- `n` is the least id from `m` on that is not stored.
pub record IsLeastUnknown (stored : Messages) (m n : ℕ) : Type 0 where
  pub from : m ≤ n
  pub unknown : lookup ℕ_discrete n stored ≡ none
  pub known : (i : ℕ) → m ≤ i → i < n → lookup ℕ_discrete i stored ≢ none

-- No id is the last 32-bit number.
abbrev pub IsBounded : Messages → Type 0
IsBounded stored = (i : ℕ) → lookup ℕ_discrete i stored ≢ none → i + 1 < u32

-- The fuel suffices: the loop passes only stored ids, each once.
scan-IsLeastUnknown :
    (fuel : ℕ) (stored : Messages) (m n : ℕ)
    → IsBounded stored
    → m ≤ n
    → ((i : ℕ) → m ≤ i → i < n → lookup ℕ_discrete i stored ≢ none)
    → length stored < fuel + (n - m)
    → IsLeastUnknown stored m (scan fuel stored n)
unfolding scan
scan-IsLeastUnknown zero stored m n b le known enough = absurd (
    omega (
      arith,
      run-le-length ℕ_discrete (n - m) m stored (λ i h. known (m + i) (omega arith) (omega arith)),
    ))
scan-IsLeastUnknown (suc fuel) stored m n b le known enough =
    elim (Option-cases (lookup ℕ_discrete n stored)) [
      | inl miss ↦ rw (miss, scan) (record { from = le; unknown = miss; known = known })
      | inr (v, hit) ↦
          let below : n + 1 < u32 = b n (λ e. ground arith) in
          rw (hit, scan, mod-eq_of_lt below)
            (scan-IsLeastUnknown fuel stored m (n + 1) b (omega arith)
              (λ i p q. elim (ℕ_discrete i n) [
                | yes e ↦ rw e (λ miss. ground arith)
                | no ne ↦ known i p (omega arith)
              ])
              (omega arith))
    ]

-- What the clock says of one origin.
pub record IsTracked (stored : Messages) (entry : Option ℕ) : Type 0 where
  pub least : IsLeastUnknown stored 1 (or_else entry 1)
  pub two : (n : ℕ) → entry ≡ some n → 2 ≤ n

pub record IsSynced (h : GossipHandler) : Type 0 where
  pub distinct : DistinctKeys bytes_dec h.my_status
  pub bounded : (o : GoString) → IsBounded (messages_of h.message_storage o)
  pub tracked :
      (o : GoString) → IsTracked (messages_of h.message_storage o) (lookup bytes_dec o h.my_status)

module _ (id : ℕ) (packet : GossipPacket) (stored : Messages) where
  lookup-load_or_store_self : lookup ℕ_discrete id (load_or_store id packet stored).0 ≢ none
  lookup-load_or_store_self = elim (Option-cases (lookup ℕ_discrete id stored)) [
    | inl miss ↦
        rw (miss, load_or_store)
          (λ e. ground (arith, lookup-insert_self ℕ_discrete id packet stored))
    | inr (v, hit) ↦ rw (hit, load_or_store) (λ e. ground arith)
  ]

  lookup-load_or_store_ne :
      (i : ℕ)
      → id ≢ i
      → lookup ℕ_discrete i (load_or_store id packet stored).0 ≡ lookup ℕ_discrete i stored
  lookup-load_or_store_ne i ne = elim (Option-cases (lookup ℕ_discrete id stored)) [
    | inl miss ↦ rw (miss, load_or_store) (lookup-insert_ne ℕ_discrete id i packet stored ne)
    | inr (v, hit) ↦ rw (hit, load_or_store)
  ]

  -- What was stored stays stored.
  load_or_store_keeps :
      (i : ℕ)
      → lookup ℕ_discrete i stored ≢ none
      → lookup ℕ_discrete i (load_or_store id packet stored).0 ≢ none
  load_or_store_keeps i h = elim (ℕ_discrete id i) [
    | yes e ↦ rw (← e) lookup-load_or_store_self
    | no ne ↦ rw (lookup-load_or_store_ne i ne) h
  ]

  load_or_store-IsBounded :
      id + 1 < u32 → IsBounded stored → IsBounded (load_or_store id packet stored).0
  load_or_store-IsBounded small b i h = elim (ℕ_discrete id i) [
    | yes e ↦ rw (← e) small
    | no ne ↦ b i (rw (← lookup-load_or_store_ne i ne) h)
  ]

-- The loop of `updateStatus`, from an id that is stored.
advance-IsTracked :
    (stored : Messages) (m : ℕ) (v : GossipPacket)
    → IsBounded stored
    → 1 ≤ m
    → ((i : ℕ) → 1 ≤ i → i < m → lookup ℕ_discrete i stored ≢ none)
    → lookup ℕ_discrete m stored ≡ some v
    → IsTracked stored (some (scan (length stored) stored ((m + 1) % u32)))
advance-IsTracked stored m v b pos known hit =
    let below : m + 1 < u32 = b m (λ e. ground arith) in
    let upto : (i : ℕ) → 1 ≤ i → i < m + 1 → lookup ℕ_discrete i stored ≢ none = λ i p q.
      elim (ℕ_discrete i m) [
        | yes e ↦ rw e (λ miss. ground arith)
        | no ne ↦ known i p (omega arith)
      ] in
    let least : IsLeastUnknown stored 1 (scan (length stored) stored (m + 1)) =
      scan-IsLeastUnknown (length stored) stored 1 (m + 1) b (omega arith) upto (omega arith) in
    rw (mod-eq_of_lt below) (record {
      least = least;
      two = λ n e. two_le n (eq_of_some e) least (upto 1 (omega arith) (omega arith));
    })
  where
    two_le :
        (n : ℕ)
        → scan (length stored) stored (m + 1) ≡ n
        → IsLeastUnknown stored 1 (scan (length stored) stored (m + 1))
        → lookup ℕ_discrete 1 stored ≢ none
        → 2 ≤ n
    two_le n e least one = elim (ℕ_discrete n 1) [
      | yes u ↦ absurd (one (rw (← (e ∙ u)) least.unknown))
      | no ne ↦ let from : 1 ≤ scan (length stored) stored (m + 1) = least.from in omega arith
    ]

-- The entry of the origin after `updateStatus`.
update_status-IsTracked :
    (origin : GoString) (id : ℕ) (stored : Messages) (entries : Clock)
    → IsBounded stored
    → (let m = or_else (lookup bytes_dec origin entries) 1 in
        (1 ≤ m)
        × ((i : ℕ) → 1 ≤ i → i < m → lookup ℕ_discrete i stored ≢ none)
        × (id < m → lookup ℕ_discrete m stored ≡ none))
    → ((n : ℕ) → lookup bytes_dec origin entries ≡ some n → 2 ≤ n)
    → IsTracked stored (lookup bytes_dec origin (update_status origin id stored entries))
unfolding update_status
update_status-IsTracked origin id stored entries b (pos, known, old) two =
    let m = or_else (lookup bytes_dec origin entries) 1 in
    elim (Bool-cases (leb m id)) [
      | inr above ↦ rw above (record {
        least = record { from = pos; unknown = old (ground arith); known = known };
        two = two;
      })
      | inl le ↦ elim (Option-cases (lookup ℕ_discrete m stored)) [
        | inl miss ↦
            rw (le, miss)
              (record { least = record { from = pos; unknown = miss; known = known }; two = two })
        | inr (v, hit) ↦
            rw (le, hit, lookup-insert_self) (advance-IsTracked stored m v b pos known hit)
      ]
    ]

lookup-update_status_ne :
    (origin o : GoString) (id : ℕ) (stored : Messages) (entries : Clock)
    → origin ≢ o
    → lookup bytes_dec o (update_status origin id stored entries) ≡ lookup bytes_dec o entries
unfolding update_status
lookup-update_status_ne origin o id stored entries ne =
    let m = or_else (lookup bytes_dec origin entries) 1 in
    let n = scan (length stored) stored ((m + 1) % u32) in
    ground (arith, lookup-insert_ne bytes_dec origin o n entries ne)

module _ (packet : GossipPacket) (origin : GoString) (id : ℕ) (h : GossipHandler) where
  after : Messages
  after = (load_or_store id packet (messages_of h.message_storage origin)).0

  stored_self : messages_of (store_message packet origin id h).0.message_storage origin ≡ after
  unfolding store_message after
  stored_self = rw lookup-insert_self

  stored_ne :
      (o : GoString)
      → origin ≢ o
      → messages_of (store_message packet origin id h).0.message_storage o
        ≡ messages_of h.message_storage o
  unfolding store_message after
  stored_ne o ne = rw (lookup-insert_ne bytes_dec origin o after h.message_storage ne)

  status_self :
      lookup bytes_dec origin (store_message packet origin id h).0.my_status
      ≡ lookup bytes_dec origin (update_status origin id after h.my_status)
  unfolding store_message after
  status_self = refl

  status_ne :
      (o : GoString)
      → origin ≢ o
      → lookup bytes_dec o (store_message packet origin id h).0.my_status
        ≡ lookup bytes_dec o h.my_status
  unfolding store_message after
  status_ne o ne = lookup-update_status_ne origin o id after h.my_status ne

  status-DistinctKeys :
      IsSynced h → DistinctKeys bytes_dec (store_message packet origin id h).0.my_status
  unfolding store_message after update_status
  status-DistinctKeys s =
      let m = or_else (lookup bytes_dec origin h.my_status) 1 in
      let n = scan (length after) after ((m + 1) % u32) in
      let d : DistinctKeys bytes_dec (insert bytes_dec origin n h.my_status) =
        insert-DistinctKeys bytes_dec origin n h.my_status s.distinct in
      elim (Bool-cases (leb m id)) [
        | inr above ↦ rw above s.distinct
        | inl le ↦ elim (Option-cases (lookup ℕ_discrete m after)) [
          | inl miss ↦ rw (le, miss) s.distinct
          | inr (v, hit) ↦ rw (le, hit) d
        ]
      ]

  after-IsBounded : id + 1 < u32 → IsSynced h → IsBounded after
  unfolding after
  after-IsBounded small s =
      load_or_store-IsBounded id packet (messages_of h.message_storage origin) small
        (s.bounded origin)

  after-IsTracked :
      id + 1 < u32
      → IsSynced h
      → IsTracked after (lookup bytes_dec origin (update_status origin id after h.my_status))
  unfolding after
  after-IsTracked small s =
      let old = messages_of h.message_storage origin in
      let t : IsTracked old (lookup bytes_dec origin h.my_status) = s.tracked origin in
      update_status-IsTracked origin id after h.my_status (after-IsBounded small s)
        (
          t.least.from,
          λ i p q. load_or_store_keeps id packet old i (t.least.known i p q),
          λ lt.
              lookup-load_or_store_ne id packet old
                (or_else (lookup bytes_dec origin h.my_status) 1) (λ e. absurd (omega arith))
              ∙ t.least.unknown,
        )
        t.two

  -- Storing a message keeps the clock in step with the storage, for every origin. The id is a
  -- 32-bit number other than the last one.
  pub store_message-IsSynced :
      id + 1 < u32 → IsSynced h → IsSynced (store_message packet origin id h).0
  store_message-IsSynced small s = record {
    distinct = status-DistinctKeys s;
    bounded = λ o. elim (bytes_dec origin o) [
      | yes e ↦ rw (← e, stored_self) (after-IsBounded small s)
      | no ne ↦ rw (stored_ne o ne) (s.bounded o)
    ];
    tracked = λ o. elim (bytes_dec origin o) [
      | yes e ↦ rw (← e, stored_self, status_self) (after-IsTracked small s)
      | no ne ↦ rw (stored_ne o ne, status_ne o ne) (s.tracked o)
    ];
  }
