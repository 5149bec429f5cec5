-- ===== src/Whisper/Filters.antt =====
-- whisper/filter.go: filters by id and by topic. A filter is an object behind a pointer, here a number in a
-- store of filters, since the two maps share it.
pub mod Topics
pub mod Notified
use dsignal.Base.{
  ℕ, Bool, true, false, not, ◌&&◌, ◌||◌, Option, none, some, List, [], ◌∷◌, ◌++◌, Bytes, GoString,
  bytes_dec, ℕ_discrete, ◌==◌, if◌then◌else◌, ite,
}
use dsignal.Base.Dict.{Dict, lookup, insert, delete}
use dsignal.Base.Float.{GoFloat, nonneg, float_ge}
use dsignal.Whisper.Topic.{Topic, convert_bytes_to_topic}
use dsignal.Whisper.Envelopes.{Envelope, Encoding, get_hash, sub32}

-- A public key is its bytes.
pub record ReceivedMessage : Type 0 where
  pub sent : ℕ
  pub ttl : ℕ
  pub src : Option Bytes
  pub dst : Option Bytes
  pub payload : Option Bytes
  pub topic : Topic
  pub sym_key_hash : Option Bytes
  pub envelope_hash : Bytes

-- A nil key is `none`.
pub record Filter : Type 0 where
  pub key_asym : Option Bytes
  pub key_sym : Option Bytes
  pub pow : GoFloat
  pub topics : List Bytes
  pub messages : Dict Bytes ReceivedMessage

pub record FilterStorage : Type 0 where
  pub subscribers : Dict GoString ℕ
  pub topic_to_filters : Dict Bytes (List ℕ)

abbrev pub new_filter_storage : FilterStorage
new_filter_storage = record { subscribers = []; topic_to_filters = [] }

-- A topic as a key of a map.
abbrev pub topic_key : Bytes → Bytes
topic_key t = let topic = convert_bytes_to_topic t in topic.b0 ∷ topic.b1 ∷ topic.b2 ∷ topic.b3 ∷ []

abbrev pub refs_of : Option (List ℕ) → List ℕ
refs_of none = []
refs_of (some refs) = refs

-- `fs.topicToFilters[topic]`
unfoldable pub filters_at : Bytes → Dict Bytes (List ℕ) → List ℕ
filters_at key m = refs_of (lookup bytes_dec key m)

unfoldable pub without : ℕ → List ℕ → List ℕ
without r [] = []
without r (x ∷ xs) = let rest = without r xs in if x == r then rest else x ∷ rest

-- The loop of `AddFilter` over the topics.
unfoldable pub add_topics : ℕ → List Bytes → Dict Bytes (List ℕ) → Dict Bytes (List ℕ)
add_topics r [] m = m
add_topics r (t ∷ ts) m =
    let key = topic_key t in
    add_topics r ts (insert bytes_dec key (r ∷ without r (filters_at key m)) m)

-- A delete in a nil map does nothing.
unfoldable pub remove_one : ℕ → Bytes → Dict Bytes (List ℕ) → Dict Bytes (List ℕ)
remove_one r key m = elim (lookup bytes_dec key m) [
  | none ↦ m
  | some refs ↦ insert bytes_dec key (without r refs) m
]

-- The loop of `RemoveFilter`.
unfoldable pub remove_topics : ℕ → List Bytes → Dict Bytes (List ℕ) → Dict Bytes (List ℕ)
remove_topics r [] m = m
remove_topics r (t ∷ ts) m = remove_topics r ts (remove_one r (topic_key t) m)

pub data Added : Type 0 where
  both_keys : Added
  no_random : Added
  -- the code returns with the lock held
  same_id : Added
  added : GoString → FilterStorage → Added

-- `id` is the random id, if there is one, and `r` the pointer.
unfoldable pub add_filter : Option GoString → ℕ → Filter → FilterStorage → Added
add_filter id r f fs =
    let stored : GoString → Added = λ i. elim (lookup bytes_dec i fs.subscribers) [
      | some _ ↦ same_id
      | none ↦ added i (record {
        subscribers = insert bytes_dec i r fs.subscribers;
        topic_to_filters = add_topics r f.topics fs.topic_to_filters;
      })
    ] in
    let named : Added = elim id [ none ↦ no_random | some i ↦ stored i ] in
    elim f.key_sym [ none ↦ named | some _ ↦ elim f.key_asym [ none ↦ named | some _ ↦ both_keys ] ]

-- `filters` are the objects.
unfoldable pub remove_filter : Dict ℕ Filter → GoString → FilterStorage → FilterStorage × Bool
remove_filter filters id fs = elim (lookup bytes_dec id fs.subscribers) [
  | none ↦ (fs, false)
  | some r ↦ (
    record {
      subscribers = delete bytes_dec id fs.subscribers;
      topic_to_filters = elim (lookup ℕ_discrete r filters) [
        | none ↦ fs.topic_to_filters
        | some f ↦ remove_topics r f.topics fs.topic_to_filters
      ];
    },
    true,
  )
]

abbrev pub get_filter_from_id : GoString → FilterStorage → Option ℕ
get_filter_from_id id fs = lookup bytes_dec id fs.subscribers

-- In the order in which Go walks the map.
unfoldable pub get_subscribers_by_topic : Bytes → FilterStorage → List ℕ
get_subscribers_by_topic key fs = filters_at key fs.topic_to_filters
