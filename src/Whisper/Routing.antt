-- ===== src/Whisper/Routing.antt =====
-- whisper/routing.go: what each peer wants to receive, and whom an envelope is forwarded to.
pub mod Statuses
use dsignal.Base.{
  ℕ, zero, suc, Bool, true, false, not, ◌&&◌, ◌||◌, Option, none, some, List, [], ◌∷◌, Bytes,
  GoString, bytes_dec, ite, length, ltb, ◌==◌, if◌then◌else◌,
}
use dsignal.Base.Dict.{Dict, lookup, insert}
use dsignal.Base.Float.{GoFloat, nonneg, is_inf, is_nan, float_lt, float_ge, float_min}
use dsignal.Gossip.Packet.{Addr, WhisperStatus}
use dsignal.Gossip.Routing.{update_last_origin_id}
use dsignal.Gossip.Peers.{get_peer_from_string}
use dsignal.Gossip.Clock.{Clock}
use dsignal.Whisper.Bloom.{bloom_filter_size, check_filter_match, aggregate_bloom}

abbrev pub status_code : ℕ
status_code = 0

abbrev pub pow_requirement_code : ℕ
pow_requirement_code = 2

abbrev pub bloom_filter_ex_code : ℕ
bloom_filter_ex_code = 3

pub record Status : Type 0 where
  pub pow : GoFloat
  pub bloom : Option Bytes

pub record RoutingHandler : Type 0 where
  pub peer_status : Dict GoString Status
  pub origin_last_id : Clock

abbrev pub new_routing_handler : RoutingHandler
new_routing_handler = record { peer_status = []; origin_last_id = [] }

-- `&Status{}`
abbrev pub new_status : Status
new_status = record { pow = nonneg 0; bloom = none }

-- A nil slice has no bytes.
abbrev slice : Option Bytes → Bytes
slice none = []
slice (some b) = b

-- The part on the bloom filter; `none` is a panic of `AggregateBloom`.
pub update_bloom : Bool → WhisperStatus → Status → Option Status
update_bloom loaded w status =
    if not (w.code == bloom_filter_ex_code || w.code == status_code)
    then some status
    else elim w.bloom [
      | none ↦ some status
      | some bloom ↦
          if not (length bloom == bloom_filter_size)
          then some status
          else if not loaded
          then some (record status { bloom = some bloom })
          else elim (aggregate_bloom bloom (slice status.bloom)) [
            | none ↦ none
            | some sum ↦ some (record status { bloom = some sum })
          ]
    ]

-- The part on the proof of work.
pub update_pow : Bool → WhisperStatus → Status → Status
update_pow loaded w status =
    if not (w.code == pow_requirement_code || w.code == status_code)
    then status
    else if is_inf w.pow || is_nan w.pow || float_lt w.pow (nonneg 0)
    then status
    else record status { pow = if loaded then float_min status.pow w.pow else w.pow }

-- The status of a peer, a new one for a new peer, and whether there was one.
pub load_status : GoString → Dict GoString Status → Status × Bool
load_status address m = elim (lookup bytes_dec address m) [
  | none ↦ (new_status, false)
  | some status ↦ (status, true)
]

-- The new id of an origin is recorded as in gossiper/routinghandler.go. The status is changed in
-- place; `none` is a panic.
pub update_routing_table : WhisperStatus → Addr → RoutingHandler → Option RoutingHandler
update_routing_table w address r =
    let (entries, is_new) = update_last_origin_id w.origin w.id r.origin_last_id in
    if not is_new
    then some r
    else let (status, loaded) = load_status address r.peer_status in
      elim (update_bloom loaded w status) [
        | none ↦ none
        | some status' ↦ some (record {
          peer_status = insert bytes_dec address (update_pow loaded w status') r.peer_status;
          origin_last_id = entries;
        })
      ]

-- `CheckFilterMatch(status.Bloom, bloom) && pow >= status.Pow`
pub wants : Status → Bytes → GoFloat → Option Bool
wants status bloom pow = elim (check_filter_match status.bloom bloom) [
  | none ↦ none
  | some false ↦ some false
  | some true ↦ some (float_ge pow status.pow)
]

-- The addresses that `forwardEnvelope` sends to, of the peers of `m` in their order.
pub forward_targets :
    List Addr → GoString → Bytes → GoFloat → Dict GoString Status → Option (List Addr)
forward_targets peers origin bloom pow [] = some []
forward_targets peers origin bloom pow ((peer, status) ∷ m) =
    elim (forward_targets peers origin bloom pow m) [
      | none ↦ none
      | some rest ↦ ite (bytes_dec peer origin) (some rest) (elim (wants status bloom pow) [
        | none ↦ none
        | some false ↦ some rest
        | some true ↦ elim (get_peer_from_string peer peers) [
          | none ↦ some rest
          | some address ↦ some (address ∷ rest)
        ]
      ])
    ]
