-- ===== src/Whisper/Node.antt =====
-- The other operations of whisper/whisper.go on the parameters, the packets and the blacklist.
use dsignal.Base.{
  ℕ, ◌+◌, ◌%◌, ◌^◌, bytes_dec, true, false, not, Option, none, some, List, [], ◌∷◌, Bytes, GoString,
  length, ◌==◌, if◌then◌else◌,
}
use dsignal.Base.Float.{GoFloat, nonneg, float_lt}
use dsignal.Base.Dict.{Dict, lookup}
use dsignal.Gossip.Packet.{Addr, WhisperPacket, WhisperStatus}
use dsignal.Gossip.Peers.{contains}
use dsignal.Whisper.Bloom.{
  bloom_filter_size, check_filter_match, aggregate_bloom, get_empty_bloom_filter,
}
use dsignal.Whisper.Topic.{Topic, convert_bytes_to_topic, convert_topic_to_bloom}
use dsignal.Whisper.Routing.{Status, bloom_filter_ex_code, pow_requirement_code, forward_targets}
use dsignal.Whisper.Envelopes.{
  Envelope, EnvelopeOrigin, Encoding, Whisper, get_pow, handle_envelope,
}

-- A new node of a network: the parameters of `NewWhisper`.
unfoldable pub new_whisper : Encoding → Whisper
new_whisper c = record {
  min_pow = some c.default_minimum_pow;
  min_pow_tolerance = none;
  bloom_filter = some get_empty_bloom_filter;
  bloom_filter_tolerance = none;
  envelopes = [];
  peer_status = [];
  message_queue = [];
}

abbrev slice : Option Bytes → Bytes
slice none = []
slice (some b) = b

-- The new parameters and the status that is sent, `none` for an error. The gossiper fills in origin
-- and id.
unfoldable pub set_bloom_filter : Bytes → Whisper → Option (Whisper × WhisperStatus)
set_bloom_filter bloom w =
    if not (length bloom == bloom_filter_size)
    then none
    else some (
      record w { bloom_filter = some bloom },
      record {
        origin = [];
        id = 0;
        code = bloom_filter_ex_code;
        bloom = some bloom;
        pow = nonneg 0;
      },
    )

-- What the goroutine of `SetBloomFilter` does after the wait.
abbrev pub tolerate_bloom_filter : Bytes → Whisper → Whisper
tolerate_bloom_filter bloom w = record w { bloom_filter_tolerance = some bloom }

unfoldable pub set_min_pow : GoFloat → Whisper → Option (Whisper × WhisperStatus)
set_min_pow pow w =
    if float_lt pow (nonneg 0)
    then none
    else some (
      record w { min_pow = some pow },
      record { origin = []; id = 0; code = pow_requirement_code; bloom = none; pow = pow },
    )

abbrev pub tolerate_min_pow : GoFloat → Whisper → Whisper
tolerate_min_pow pow w = record w { min_pow_tolerance = some pow }

-- The sum of the filters of the topics, `none` for a panic.
unfoldable pub aggregate_topics : Bytes → List Bytes → Option Bytes
aggregate_topics aggregate [] = some aggregate
aggregate_topics aggregate (t ∷ topics) =
    elim (aggregate_bloom aggregate (convert_topic_to_bloom (convert_bytes_to_topic t))) [
      | none ↦ none
      | some sum ↦ aggregate_topics sum topics
    ]

-- The error of `SetBloomFilter` is dropped.
abbrev or_same : Whisper → Option (Whisper × WhisperStatus) → Whisper
or_same w none = w
or_same w (some (w', status)) = w'

-- `updateBloomFilter` with the topics of a filter. `none` is a panic.
unfoldable pub update_bloom_filter : List Bytes → Whisper → Option Whisper
update_bloom_filter topics w = elim (aggregate_topics get_empty_bloom_filter topics) [
  | none ↦ none
  | some aggregate ↦ elim (check_filter_match w.bloom_filter aggregate) [
    | none ↦ none
    | some true ↦ some w
    | some false ↦ elim (aggregate_bloom (slice w.bloom_filter) aggregate) [
      | none ↦ none
      | some sum ↦ some (or_same w (set_bloom_filter sum w))
    ]
  ]
]

-- One round of `processWhisperPacket` at the time `now`, with the blacklist. `decode` is the protobuf
-- decoder; the code goes on with what it makes of a payload that it refuses.
unfoldable pub process_whisper_packet :
    Encoding
    → (Bytes → Envelope)
    → ℕ
    → WhisperPacket
    → Addr
    → Whisper
    → List Addr
    → Option (Whisper × List Addr)
process_whisper_packet c decode now packet sender w blacklist =
    if contains sender blacklist
    then some (w, blacklist)
    else if not (packet.code == 1)
    then some (w, blacklist)
    else elim (handle_envelope c now (record { envelope = decode packet.payload; origin = sender })
        w) [
          | none ↦ none
          | some (w', none) ↦ some (w', blacklist)
          | some (w', some err) ↦ some (w', sender ∷ blacklist)
        ]

-- `Envelopes`, in the order of the map.
unfoldable pub envelopes_of : Dict Bytes EnvelopeOrigin → List EnvelopeOrigin
envelopes_of [] = []
envelopes_of ((hash, eo) ∷ m) = eo ∷ envelopes_of m

-- Whom `broadcastMessages` sends each envelope to. `none` is a panic.
unfoldable pub broadcast_messages :
    Encoding
    → List Addr
    → Dict GoString Status
    → List EnvelopeOrigin
    → Option (List (EnvelopeOrigin × List Addr))
broadcast_messages c peers m [] = some []
broadcast_messages c peers m (eo ∷ rest) =
    let e = get_pow c eo.envelope in
    elim (forward_targets peers eo.origin (convert_topic_to_bloom e.topic) e.pow m) [
      | none ↦ none
      | some targets ↦ elim (broadcast_messages c peers m rest) [
        | none ↦ none
        | some sends ↦ some ((eo, targets) ∷ sends)
      ]
    ]

-- `NewEnvelope` at the Unix time `now`.
unfoldable pub new_envelope : ℕ → ℕ → Topic → Bytes → Envelope
new_envelope now ttl topic body = record {
  expiry = (now + ttl) % 2 ^ 32;
  ttl = ttl;
  topic = topic;
  data_ = body;
  nonce = 0;
  pow = nonneg 0;
}

unfoldable pub get_envelope : Bytes → Whisper → Option EnvelopeOrigin
get_envelope hash w = lookup bytes_dec hash w.envelopes
