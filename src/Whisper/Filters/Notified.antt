-- ===== src/Whisper/Filters/Notified.antt =====
-- whisper/filter.go: `NotifySubscribers`, with the opening of envelopes of whisper/envelope.go and
-- whisper/message.go.
use dsignal.Base.{
  ℕ, Bool, ◌||◌, Option, none, some, List, [], ◌∷◌, Bytes, bytes_dec, ℕ_discrete, length, take,
  drop, ltb, if◌then◌else◌,
}
use dsignal.Base.Dict.{Dict, lookup, insert}
use dsignal.Base.Float.{nonneg, float_ge}
use dsignal.Whisper.Envelopes.{Envelope, Encoding, get_hash, sub32}
use dsignal.Whisper.Filters.{Filter, ReceivedMessage}

-- What opening data comes to; a nil slice is `none`.
pub data Opened : Type 0 where
  failed : Opened
  opened : Option Bytes → Opened
  panicked : Opened

-- ecies, crypto/aes and crypto/cipher, and sha3.
pub record Ciphers : Type 0 where
  pub ecies_decrypt : Bytes → Bytes → Option (Option Bytes)
  pub public_key : Bytes → Bytes
  -- whether `aes.NewCipher` takes the key
  pub is_key : Bytes → Bool
  pub gcm_open : Bytes → Bytes → Bytes → Option (Option Bytes)
  pub sum256 : Bytes → Bytes

-- The nonce size of `cipher.NewGCM`.
abbrev pub nonce_size : ℕ
nonce_size = 12

-- `none` is an error.
abbrev pub as_opened : Option (Option Bytes) → Opened
as_opened none = failed
as_opened (some payload) = opened payload

-- The envelope's data are cut at the nonce size, and panic if they are shorter.
unfoldable pub decrypt_with_symmetric_key : Ciphers → Bytes → Bytes → Opened
decrypt_with_symmetric_key c encrypted key =
    if c.is_key key
    then (if ltb (length encrypted) nonce_size
        then panicked
        else as_opened (c.gcm_open key (take nonce_size encrypted) (drop nonce_size encrypted)))
    else failed

-- What a filter does with an envelope: nothing, a message, or a panic.
pub data Taken : Type 0 where
  unopened : Taken
  taken : ReceivedMessage → Taken
  crashed : Taken

module _ (c : Ciphers) (enc : Encoding) where
  abbrev message_from : Envelope → Option Bytes → Option Bytes → Option Bytes → ReceivedMessage
  message_from e payload dst sym_key_hash = record {
    sent = sub32 e.expiry e.ttl;
    ttl = e.ttl;
    src = none;
    dst = dst;
    payload = payload;
    topic = e.topic;
    sym_key_hash = sym_key_hash;
    envelope_hash = get_hash enc e;
  }

  -- `some x` where there is a payload
  abbrev where_payload : Option Bytes → Bytes → Option Bytes
  where_payload none x = none
  where_payload (some payload) x = some x

  abbrev pub get_message_from_envelope : Envelope → Filter → Taken
  get_message_from_envelope e f = elim f.key_asym [
    | some key ↦ elim (as_opened (c.ecies_decrypt key e.data_)) [
      | failed ↦ unopened
      | panicked ↦ crashed
      | opened payload ↦
          taken (message_from e payload (where_payload payload (c.public_key key)) none)
    ]
    | none ↦ elim f.key_sym [
      | some key ↦ elim (decrypt_with_symmetric_key c e.data_ key) [
        | failed ↦ unopened
        | panicked ↦ crashed
        | opened payload ↦
            taken (message_from e payload none (where_payload payload (c.sum256 key)))
      ]
      | none ↦ taken (message_from e (some e.data_) none none)
    ]
  ]

  -- The first message with a hash stays.
  abbrev keep_message : ReceivedMessage → Filter → Filter
  keep_message m f = record f {
    messages = elim (lookup bytes_dec m.envelope_hash f.messages) [
      | none ↦ insert bytes_dec m.envelope_hash m f.messages
      | some _ ↦ f.messages
    ];
  }

  -- One candidate; `none` is a panic.
  unfoldable pub notify : Envelope → Filter → Option Filter
  notify e f =
      if float_ge (nonneg 0) f.pow || float_ge e.pow f.pow
      then elim (get_message_from_envelope e f) [
        | unopened ↦ some f
        | taken m ↦ some (keep_message m f)
        | crashed ↦ none
      ]
      else some f

  -- The candidates one after the other.
  unfoldable pub notify_subscribers : Envelope → List ℕ → Dict ℕ Filter → Option (Dict ℕ Filter)
  notify_subscribers e [] filters = some filters
  notify_subscribers e (r ∷ refs) filters = elim (lookup ℕ_discrete r filters) [
    | none ↦ notify_subscribers e refs filters
    | some f ↦ elim (notify e f) [
      | none ↦ none
      | some f' ↦ notify_subscribers e refs (insert ℕ_discrete r f' filters)
    ]
  ]

abbrev messages_in : Dict Bytes ReceivedMessage → List ReceivedMessage
messages_in [] = []
messages_in ((k, m) ∷ ms) = m ∷ messages_in ms

-- The messages of a filter, in the order in which Go walks the map, which is then empty.
abbrev pub get_received_messages_from_filter : Filter → Filter × List ReceivedMessage
get_received_messages_from_filter f = (record f { messages = [] }, messages_in f.messages)
