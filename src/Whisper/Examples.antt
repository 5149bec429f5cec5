-- ===== src/Whisper/Examples.antt =====
-- The theorems on Whisper at concrete filters, topics, peers and envelopes.
mod Filters
use dsignal.Base.{
  inl, ℕ, ◌/◌, ◌%◌, ◌^◌, ◌≡◌, ◌≢◌, ◌⊎◌, refl, false, none, some, [], ◌∷◌, ◌++◌, Bytes, codes,
  bytes_dec, ℕ_discrete, length, get_elem?, replicate, arith,
}
use dsignal.Base.Dict.{lookup, insert}
use dsignal.Base.Float.{nonneg}
use dsignal.Gossip.Packet.{Addr, WhisperStatus}
use dsignal.Gossip.Routing.{update_last_origin_id}
use dsignal.Whisper.Bloom.{bloom_filter_size, check_filter_match}
use dsignal.Whisper.Topic.{Topic, convert_topic_to_bloom}
use dsignal.Whisper.Topic.Bits.{index0, index1, index2, convert_topic_to_bloom_bytes}
use dsignal.Whisper.Routing.{Status, RoutingHandler, new_routing_handler, update_routing_table}
use dsignal.Whisper.Routing.Statuses.{
  IsComplete, Serves, update_routing_table-Serves, update_routing_table_panics,
}
use dsignal.Whisper.Envelopes.{
  Envelope, EnvelopeOrigin, Encoding, Whisper, EnvelopeError, get_hash, get_size, get_pow,
  or_default, interesting, handle_envelope,
}
use dsignal.Whisper.Envelopes.Kept.{Stored, handle_envelope-Stored}
use dsignal.Whisper.Envelopes.Expired.{handle_envelope_expired}

abbrev full : Bytes
full = replicate 64 255

abbrev low : Bytes
low = replicate 64 15

-- Two of its indices point into one byte.
abbrev topic : Topic
topic = record { b0 = 200; b1 = 8; b2 = 9; b3 = 1 }

convert_topic_to_bloom_bytes_example :
    (length (convert_topic_to_bloom topic) ≡ bloom_filter_size)
    × (get_elem? (convert_topic_to_bloom topic) (index2 topic / 8) ≡ some (2 ^ (index2 topic % 8)))
    × (index1 topic / 8 ≢ index2 topic / 8
        → get_elem? (convert_topic_to_bloom topic) (index1 topic / 8)
          ≡ some (2 ^ (index1 topic % 8)))
    × (index0 topic / 8 ≢ index1 topic / 8
        → index0 topic / 8 ≢ index2 topic / 8
        → get_elem? (convert_topic_to_bloom topic) (index0 topic / 8)
          ≡ some (2 ^ (index0 topic % 8)))
    × ((i : ℕ)
        → i ≢ index0 topic / 8
        → i ≢ index1 topic / 8
        → i ≢ index2 topic / 8
        → get_elem? (convert_topic_to_bloom topic) i ≡ get_elem? (replicate bloom_filter_size 0) i)
convert_topic_to_bloom_bytes_example =
    convert_topic_to_bloom_bytes topic (omega arith) (omega arith) (omega arith)

abbrev peer : Addr
peer = codes "10.0.0.1:5000"

abbrev status : WhisperStatus
status = record { origin = codes "alice"; id = 1; code = 0; bloom = some low; pow = nonneg 2 }

update_routing_table-Serves_example :
    (r' : RoutingHandler) × (s' : Status) × (update_routing_table status peer new_routing_handler
      ≡ some r')
    × (lookup bytes_dec peer r'.peer_status ≡ some s')
    × IsComplete s'
    × Serves low 2 s'
    × ((a : Addr)
        → peer ≢ a
        → lookup bytes_dec a r'.peer_status ≡ lookup bytes_dec a new_routing_handler.peer_status)
unfolding lookup insert update_last_origin_id
update_routing_table-Serves_example =
    update_routing_table-Serves status low 2 refl refl refl refl peer new_routing_handler
      ((codes "alice", 1) ∷ []) refl (λ s e. absurd (ground arith))

-- The peer tells its proof of work first, and then sends a periodic status.
update_routing_table_panics_example :
    (r' : RoutingHandler) × (update_routing_table
        (record status { code = 2; bloom = none })
        peer
        new_routing_handler
      ≡ some r')
    × (update_routing_table (record status { id = 2 }) peer r' ≡ none)
unfolding lookup insert update_last_origin_id bytes_dec ℕ_discrete
update_routing_table_panics_example =
    update_routing_table_panics (record status { code = 2; bloom = none })
      (record status { id = 2 }) low peer new_routing_handler ((codes "alice", 1) ∷ [])
      ((codes "alice", 2) ∷ []) refl (inl refl) refl (inl refl) refl refl refl

abbrev sample : Encoding
sample = record {
  size = λ expiry ttl t body nonce. 100;
  hash = λ expiry ttl t body nonce. expiry ∷ body;
  work = λ expiry ttl t body nonce diff. nonneg 5;
  default_minimum_pow = nonneg 1;
}

abbrev envelope : Envelope
envelope = record {
  expiry = 1000;
  ttl = 60;
  topic = topic;
  data_ = codes "hi";
  nonce = 0;
  pow = nonneg 5;
}

abbrev from_peer : EnvelopeOrigin
from_peer = record { envelope = envelope; origin = peer }

abbrev node : Whisper
node = record {
  min_pow = some (nonneg 1);
  min_pow_tolerance = none;
  bloom_filter = none;
  bloom_filter_tolerance = none;
  envelopes = [];
  peer_status = [];
  message_queue = [];
}

handle_envelope-Stored_example :
    ((x : EnvelopeError) × (handle_envelope sample 990 from_peer node ≡ some (node, some x)))
    ⊎ ((e : Envelope) × (w' : Whisper) × (handle_envelope sample 990 from_peer node
          ≡ some (w', none))
        × (get_hash sample e ≡ get_hash sample envelope)
        × Stored sample (record from_peer { envelope = e }) node w')
handle_envelope-Stored_example = handle_envelope-Stored sample 990 from_peer node tt tt tt

handle_envelope_expired_example :
    (w' : Whisper) × (handle_envelope sample 1010 from_peer node ≡ some (w', none))
    × (lookup bytes_dec (get_hash sample (get_pow sample envelope)) w'.envelopes
        ≡ some (record from_peer { envelope = get_pow sample envelope }))
    × ((hash : Bytes)
        → get_hash sample (get_pow sample envelope) ≢ hash
        → lookup bytes_dec hash w'.envelopes ≡ lookup bytes_dec hash node.envelopes)
    × (w'.message_queue ≡ node.message_queue ++ (get_pow sample envelope ∷ []))
unfolding lookup get_size get_pow or_default interesting check_filter_match get_hash
handle_envelope_expired_example =
    handle_envelope_expired sample 1010 from_peer node false envelope (omega arith) (omega arith)
      (omega arith) (omega arith) (omega arith) refl refl refl refl
