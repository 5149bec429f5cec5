-- ===== src/Whisper/Routing/Statuses.antt =====
-- What a peer's status messages make of its entry.
use dsignal.Base.{
  ◌⊎◌, ℕ, zero, suc, ◌≡◌, ◌≢◌, ◌∙◌, inl, inr, refl, sym, ap, true, false, none, some, [], ◌∷◌,
  Bytes, GoString, bytes_dec, length, bit_or, arith, ltb, if◌then◌else◌, eq_of_some, Option-cases,
}
use dsignal.Base.Bits.{or_assoc}
use dsignal.Base.Dict.{Dict, lookup, insert, lookup-insert_self, lookup-insert_ne}
use dsignal.Base.Float.{GoFloat, nan, neg_inf, negative, nonneg, pos_inf, float_ge, float_min}
use dsignal.Gossip.Packet.{Addr, WhisperStatus}
use dsignal.Gossip.Clock.{Clock}
use dsignal.Gossip.Routing.{update_last_origin_id}
use dsignal.Whisper.Bloom.{
  bloom_filter_size, match_loop, check_filter_match, aggregate_loop, aggregate_bloom,
}
use dsignal.Whisper.Bloom.Aggregate.{aggregate_bloom-IsLeast, match_uncons, match_cons}
use dsignal.Whisper.Routing.{
  status_code, pow_requirement_code, bloom_filter_ex_code, Status, RoutingHandler, new_status,
  update_bloom, update_pow, load_status, update_routing_table, wants,
}

-- The first `n` bytes of `given` are covered by `filter`.
match_trans :
    (n : ℕ) (c b e : Bytes)
    → match_loop n c b ≡ some true
    → match_loop n b e ≡ some true
    → match_loop n c e ≡ some true
unfolding match_loop
match_trans zero c b e p q = refl
match_trans (suc n) [] b e p q = absurd (ground arith)
match_trans (suc n) (z ∷ c) [] e p q = absurd (ground arith)
match_trans (suc n) (z ∷ c) (y ∷ b) [] p q = absurd (ground arith)
match_trans (suc n) (z ∷ c) (y ∷ b) (x ∷ e) p q =
    let (cover, p') = match_uncons n z y c b p in
    let (cover', q') = match_uncons n y x b e q in
    let covers : bit_or z x ≡ z =
      ap (λ u. bit_or u x) (sym cover) ∙ or_assoc z y x ∙ rw (cover', cover) in
    match_cons n z x c e covers (match_trans n c b e p' q')

-- The demand of a peer on the proof of work is a number, and it has a filter.
pub record IsComplete (s : Status) : Type 0 where
  pub required : ℕ
  pub finite : s.pow ≡ nonneg required
  pub filter : Bytes
  pub has_filter : s.bloom ≡ some filter
  pub sized : length filter ≡ bloom_filter_size

float_min_ge :
    (m n : ℕ) (pow : GoFloat)
    → float_ge pow (nonneg n) ≡ true
    → float_ge pow (float_min (nonneg m) (nonneg n)) ≡ true
float_min_ge m n nan h = ground arith
float_min_ge m n neg_inf h = ground arith
float_min_ge m n (negative k) h = ground arith
float_min_ge m n (nonneg k) h = ground arith
float_min_ge m n pos_inf h = ground arith

float_min_nonneg : (m n : ℕ) → float_min (nonneg m) (nonneg n) ≡ nonneg (if ltb m n then m else n)
float_min_nonneg m n = ground arith

load_new :
    (address : Addr) (m : Dict GoString Status)
    → lookup bytes_dec address m ≡ none
    → load_status address m ≡ (new_status, false)
unfolding load_status
load_new address m e = rw (e, load_status)

load_known :
    (address : Addr) (m : Dict GoString Status) (s : Status)
    → lookup bytes_dec address m ≡ some s
    → load_status address m ≡ (s, true)
unfolding load_status
load_known address m s e = rw (e, load_status)

aggregate_empty : (b : Bytes) → aggregate_bloom b [] ≡ none
unfolding aggregate_bloom aggregate_loop
aggregate_empty [] = refl
aggregate_empty (x ∷ b) = refl

bloom_panics :
    (w : WhisperStatus) (b : Bytes) (s : Status)
    → (w.code ≡ status_code) ⊎ (w.code ≡ bloom_filter_ex_code)
    → w.bloom ≡ some b
    → length b ≡ bloom_filter_size
    → s.bloom ≡ none
    → update_bloom true w s ≡ none
unfolding update_bloom
bloom_panics w b s (inl code) has size empty = ground (arith, aggregate_empty b)
bloom_panics w b s (inr code) has size empty = ground (arith, aggregate_empty b)

-- What a peer asks for by a filter and a proof of work is wanted.
abbrev pub Serves : Bytes → ℕ → Status → Type 0
Serves b n s =
    (e : Bytes) (pow : GoFloat)
    → check_filter_match (some b) e ≡ some true
    → float_ge pow (nonneg n) ≡ true
    → wants s e pow ≡ some true

module _ (w : WhisperStatus) (b : Bytes) (n : ℕ) (full : w.code ≡ status_code)
    (has_bloom : w.bloom ≡ some b) (size : length b ≡ bloom_filter_size)
    (has_pow : w.pow ≡ nonneg n) where
  bloom_new : update_bloom false w new_status ≡ some (record new_status { bloom = some b })
  unfolding update_bloom
  bloom_new = ground arith

  bloom_sum :
      (s : Status) (filter c : Bytes)
      → s.bloom ≡ some filter
      → aggregate_bloom b filter ≡ some c
      → update_bloom true w s ≡ some (record s { bloom = some c })
  unfolding update_bloom
  bloom_sum s filter c has e = ground arith

  pow_new : (s : Status) → update_pow false w s ≡ record s { pow = nonneg n }
  unfolding update_pow
  pow_new s = ground arith

  pow_min : (s : Status) → update_pow true w s ≡ record s { pow = float_min s.pow (nonneg n) }
  unfolding update_pow
  pow_min s = ground arith

  wants_lem :
      (s : Status) (c e : Bytes) (pow : GoFloat)
      → s.bloom ≡ some c
      → check_filter_match (some c) e ≡ some true
      → float_ge pow s.pow ≡ true
      → wants s e pow ≡ some true
  unfolding wants
  wants_lem s c e pow has covers enough = ground arith

  update_new :
      (s : Status)
      → update_bloom false w new_status ≡ some s
      → IsComplete (update_pow false w s) × Serves b n (update_pow false w s)
  update_new s e =
      let same : s ≡ record new_status { bloom = some b } = eq_of_some (sym e ∙ bloom_new) in
      rw same (
        rw (pow_new (record new_status { bloom = some b })) (
          record { required = n; finite = refl; filter = b; has_filter = refl; sized = size },
          λ e pow covers enough. wants_lem _ b e pow refl covers enough,
        ))

  update_sum :
      (s : Status) (m : ℕ) (c : Bytes)
      → s.pow ≡ nonneg m
      → length c ≡ bloom_filter_size
      → check_filter_match (some c) b ≡ some true
      → IsComplete (update_pow true w (record s { bloom = some c }))
        × Serves b n (update_pow true w (record s { bloom = some c }))
  unfolding check_filter_match
  update_sum s m c finite long covered = rw (pow_min (record s { bloom = some c })) (
    record {
      required = if ltb m n then m else n;
      finite = ap (λ q. float_min q (nonneg n)) finite ∙ float_min_nonneg m n;
      filter = c;
      has_filter = refl;
      sized = long;
    },
    λ e pow covers enough.
        wants_lem _ c e pow refl (match_trans bloom_filter_size c b e covered covers)
          (ap (λ q. float_ge pow (float_min q (nonneg n))) finite ∙ float_min_ge m n pow enough),
  )

  update_known :
      (s : Status)
      → IsComplete s
      → (s' : Status) × (update_bloom true w s ≡ some s')
        × IsComplete (update_pow true w s')
        × Serves b n (update_pow true w s')
  update_known s k =
      let (c, sum, long, left, right, least) = aggregate_bloom-IsLeast b k.filter size k.sized in
      let s' : Status = record s { bloom = some c } in
      let (complete, serves) = update_sum s k.required c k.finite long left in
      (s', bloom_sum s k.filter c k.has_filter sum, complete, serves)

  table_new :
      (address : Addr) (r : RoutingHandler) (entries : Clock) (s : Status)
      → update_last_origin_id w.origin w.id r.origin_last_id ≡ (entries, true)
      → lookup bytes_dec address r.peer_status ≡ none
      → update_bloom false w new_status ≡ some s
      → update_routing_table w address r
        ≡ some (record {
          peer_status = insert bytes_dec address (update_pow false w s) r.peer_status;
          origin_last_id = entries;
        })
  unfolding update_routing_table
  table_new address r entries s new miss e = ground (arith, load_new address r.peer_status miss)

  table_known :
      (address : Addr) (r : RoutingHandler) (entries : Clock) (s s' : Status)
      → update_last_origin_id w.origin w.id r.origin_last_id ≡ (entries, true)
      → lookup bytes_dec address r.peer_status ≡ some s
      → update_bloom true w s ≡ some s'
      → update_routing_table w address r
        ≡ some (record {
          peer_status = insert bytes_dec address (update_pow true w s') r.peer_status;
          origin_last_id = entries;
        })
  unfolding update_routing_table
  table_known address r entries s s' new hit e =
      ground (arith, load_known address r.peer_status s hit)

  -- A new and complete status message of a peer that is unknown, or whose entry is complete: the
  -- update succeeds, the peer's entry is complete, every envelope that matches what the peer asks
  -- for is wanted, and the entries of the other peers stay.
  pub update_routing_table-Serves :
      (address : Addr) (r : RoutingHandler) (entries : Clock)
      → update_last_origin_id w.origin w.id r.origin_last_id ≡ (entries, true)
      → ((s : Status) → lookup bytes_dec address r.peer_status ≡ some s → IsComplete s)
      → (r' : RoutingHandler) × (s' : Status) × (update_routing_table w address r ≡ some r')
        × (lookup bytes_dec address r'.peer_status ≡ some s')
        × IsComplete s'
        × Serves b n s'
        × ((a : Addr)
            → address ≢ a
            → lookup bytes_dec a r'.peer_status ≡ lookup bytes_dec a r.peer_status)
  update_routing_table-Serves address r entries new known =
      elim (Option-cases (lookup bytes_dec address r.peer_status)) [
        | inl miss ↦
            let s : Status = record new_status { bloom = some b } in
            let (complete, serves) = update_new s bloom_new in
            (
              record {
                peer_status = insert bytes_dec address (update_pow false w s) r.peer_status;
                origin_last_id = entries;
              },
              update_pow false w s,
              table_new address r entries s new miss bloom_new,
              lookup-insert_self bytes_dec address (update_pow false w s) r.peer_status,
              complete,
              serves,
              λ a ne. lookup-insert_ne bytes_dec address a (update_pow false w s) r.peer_status ne,
            )
        | inr (s, hit) ↦
            let (s', updated, complete, serves) = update_known s (known s hit) in
            (
              record {
                peer_status = insert bytes_dec address (update_pow true w s') r.peer_status;
                origin_last_id = entries;
              },
              update_pow true w s',
              table_known address r entries s s' new hit updated,
              lookup-insert_self bytes_dec address (update_pow true w s') r.peer_status,
              complete,
              serves,
              λ a ne. lookup-insert_ne bytes_dec address a (update_pow true w s') r.peer_status ne,
            )
      ]

bloom_bare :
    (w : WhisperStatus)
    → (w.code ≡ pow_requirement_code) ⊎ (w.bloom ≡ none)
    → update_bloom false w new_status ≡ some new_status
unfolding update_bloom
bloom_bare w (inl code) = ground arith
bloom_bare w (inr empty) = ground arith

-- What a first status without a filter leaves.
first_status :
    (w : WhisperStatus) (address : Addr) (r : RoutingHandler) (entries : Clock)
    → (w.code ≡ pow_requirement_code) ⊎ (w.bloom ≡ none)
    → update_last_origin_id w.origin w.id r.origin_last_id ≡ (entries, true)
    → lookup bytes_dec address r.peer_status ≡ none
    → update_routing_table w address r
      ≡ some (record {
        peer_status = insert bytes_dec address (update_pow false w new_status) r.peer_status;
        origin_last_id = entries;
      })
unfolding update_routing_table
first_status w address r entries bare new miss =
    ground (arith, load_new address r.peer_status miss, bloom_bare w bare)

update_pow-bloom : (w : WhisperStatus) (s : Status) → (update_pow false w s).bloom ≡ s.bloom
unfolding update_pow
update_pow-bloom w s = ground arith

-- A peer that is unknown sends a status that tells a proof of work only, or that has no filter; it is taken.
-- The next status of that peer with a filter of the right size, be it the periodic one or one for the
-- filter only, stops the program, if its id is new: the sum of the filters reads an empty slice.
pub update_routing_table_panics :
    (first next : WhisperStatus) (b : Bytes) (address : Addr) (r : RoutingHandler)
    (entries entries' : Clock)
    → lookup bytes_dec address r.peer_status ≡ none
    → (first.code ≡ pow_requirement_code) ⊎ (first.bloom ≡ none)
    → update_last_origin_id first.origin first.id r.origin_last_id ≡ (entries, true)
    → (next.code ≡ status_code) ⊎ (next.code ≡ bloom_filter_ex_code)
    → next.bloom ≡ some b
    → length b ≡ bloom_filter_size
    → update_last_origin_id next.origin next.id entries ≡ (entries', true)
    → (r' : RoutingHandler) × (update_routing_table first address r ≡ some r')
      × (update_routing_table next address r' ≡ none)
unfolding update_routing_table
update_routing_table_panics first next b address r entries entries' unknown bare new code has size
      new' =
    let s = update_pow false first new_status in
    let r' : RoutingHandler = record {
      peer_status = insert bytes_dec address s r.peer_status;
      origin_last_id = entries;
    } in
    (
      r',
      first_status first address r entries bare new unknown,
      rw
          (
            new',
            load_known address r'.peer_status s
                (lookup-insert_self bytes_dec address s r.peer_status),
            bloom_panics next b s code has size (update_pow-bloom first new_status),
          )
          refl,
    )
