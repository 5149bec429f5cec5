-- ===== src/Whisper/Envelopes.antt =====
-- whisper/envelope.go and the envelopes of whisper/whisper.go: which ones a node keeps, and when it
-- drops them. `none` is a panic.
pub mod Checks
pub mod Kept
pub mod Expired
use dsignal.Base.{
  ℕ, zero, suc, ◌+◌, ◌-◌, ◌*◌, ◌%◌, ◌^◌, Bool, true, false, not, ◌&&◌, ◌||◌, Option, none, some,
  List, [], ◌∷◌, ◌++◌, Bytes, GoString, bytes_dec, ite, ltb, ◌==◌, if◌then◌else◌,
}
use dsignal.Base.Dict.{Dict, lookup, insert}
use dsignal.Base.Float.{GoFloat, nonneg, float_lt, float_ge}
use dsignal.Gossip.Packet.{Addr}
use dsignal.Whisper.Bloom.{check_filter_match}
use dsignal.Whisper.Topic.{Topic, convert_topic_to_bloom}
use dsignal.Whisper.Routing.{Status}

-- The cached bloom filter is a function of the topic and is not kept here.
pub record Envelope : Type 0 where
  pub expiry : ℕ
  pub ttl : ℕ
  pub topic : Topic
  pub data_ : Bytes
  pub nonce : ℕ
  -- the cached proof of work, 0 before it is computed
  pub pow : GoFloat

pub record EnvelopeOrigin : Type 0 where
  pub envelope : Envelope
  pub origin : Addr

-- What the code takes from the encoding (protobuf, which leaves out the cached fields) and from
-- SHA3, of the exported fields of an envelope; and the constant 0.2.
pub record Encoding : Type 0 where
  pub size : ℕ → ℕ → Topic → Bytes → ℕ → ℕ
  pub hash : ℕ → ℕ → Topic → Bytes → ℕ → Bytes
  -- what `computePow` computes, by the difference in its argument
  pub work : ℕ → ℕ → Topic → Bytes → ℕ → ℕ → GoFloat
  pub default_minimum_pow : GoFloat

-- An absent parameter is `none`.
pub record Whisper : Type 0 where
  pub min_pow : Option GoFloat
  pub min_pow_tolerance : Option GoFloat
  pub bloom_filter : Option Bytes
  pub bloom_filter_tolerance : Option Bytes
  pub envelopes : Dict Bytes EnvelopeOrigin
  pub peer_status : Dict GoString Status
  -- what the code puts into the message queue, the last at the end
  pub message_queue : List Envelope

pub data EnvelopeError : Type 0 where
  in_the_future : EnvelopeError
  very_old : EnvelopeError
  huge : EnvelopeError
  low_pow : EnvelopeError
  no_bloom_match : EnvelopeError

abbrev pub default_sync_allowance : ℕ
default_sync_allowance = 10

abbrev pub max_message_size : ℕ
max_message_size = 10 * 1024 * 1024

-- Subtraction on uint32.
abbrev pub sub32 : ℕ → ℕ → ℕ
sub32 a b = (a + 2 ^ 32 - b) % 2 ^ 32

module _ (c : Encoding) where
  unfoldable pub get_hash : Envelope → Bytes
  get_hash e = c.hash e.expiry e.ttl e.topic e.data_ e.nonce

  unfoldable pub get_size : Envelope → ℕ
  get_size e = c.size e.expiry e.ttl e.topic e.data_ e.nonce

  pub compute_pow : ℕ → Envelope → Envelope
  compute_pow diff e = record e { pow = c.work e.expiry e.ttl e.topic e.data_ e.nonce diff }

  abbrev is_zero : GoFloat → Bool
  is_zero f = elim f [ nonneg n ↦ n == 0 | _ ↦ false ]

  -- The envelope with its proof of work computed, which is then its field.
  unfoldable pub get_pow : Envelope → Envelope
  get_pow e = if is_zero e.pow then compute_pow 0 e else e

  -- A missing or nil parameter.
  unfoldable pub or_default : Option GoFloat → GoFloat
  or_default none = c.default_minimum_pow
  or_default (some f) = f

  -- Whether some peer but the origin wants the envelope, and the envelope afterwards.
  unfoldable pub interesting : Addr → Envelope → Dict GoString Status → Option (Bool × Envelope)
  interesting origin e [] = some (false, e)
  interesting origin e ((peer, status) ∷ m) =
      let skip = interesting origin e m in
      let e' = get_pow e in
      let next = interesting origin e' m in
      ite (bytes_dec peer origin) skip
        (elim (check_filter_match status.bloom (convert_topic_to_bloom e.topic)) [
          | none ↦ none
          | some false ↦ skip
          | some true ↦ if float_ge e'.pow status.pow then some (true, e') else next
        ])

  -- An envelope that was sent in the future has its proof of work computed again.
  pub check_sent : ℕ → Envelope → Envelope × Option EnvelopeError
  check_sent now e =
      let sent = sub32 e.expiry e.ttl in
      if ltb now sent
      then (
        compute_pow ((sub32 sent now + 1) % 2 ^ 32) e,
        if ltb now (sub32 sent default_sync_allowance) then some in_the_future else none,
      )
      else (e, none)

  pub check_expiry : ℕ → Envelope → Option EnvelopeError → Option EnvelopeError
  check_expiry now e err =
      if ltb e.expiry now && ltb ((e.expiry + default_sync_allowance * 2) % 2 ^ 32) now
      then some very_old
      else err

  pub check_size : Envelope → Option EnvelopeError → Option EnvelopeError
  check_size e err = if ltb max_message_size (get_size e % 2 ^ 32) then some huge else err

  pub check_pow : Whisper → Envelope → Option EnvelopeError → Option EnvelopeError
  check_pow w e err =
      if float_lt e.pow (or_default w.min_pow) && float_lt e.pow (or_default w.min_pow_tolerance)
      then some low_pow
      else err

  -- A filter that is tolerated is not looked at where the main one matches.
  pub check_bloom : Whisper → Envelope → Option EnvelopeError → Option (Option EnvelopeError)
  check_bloom w e err =
      let bloom = convert_topic_to_bloom e.topic in
      elim (check_filter_match w.bloom_filter bloom) [
        | none ↦ none
        | some true ↦ some err
        | some false ↦ elim (check_filter_match w.bloom_filter_tolerance bloom) [
          | none ↦ none
          | some true ↦ some err
          | some false ↦ some (some no_bloom_match)
        ]
      ]

  -- The last error found, and the envelope afterwards.
  pub check_envelope : ℕ → Whisper → Envelope → Option (Envelope × Option EnvelopeError)
  check_envelope now w e =
      let (e', err) = check_sent now e in
      let e'' = get_pow e' in
      elim (check_bloom w e'' (check_pow w e'' (check_size e' (check_expiry now e' err)))) [
        | none ↦ none
        | some err' ↦ some (e'', err')
      ]

  -- An envelope is kept under its hash, and queued, the first time.
  pub store_envelope : EnvelopeOrigin → Whisper → Whisper
  store_envelope eo w = elim (lookup bytes_dec (get_hash eo.envelope) w.envelopes) [
    | none ↦ record w {
      envelopes = insert bytes_dec (get_hash eo.envelope) eo w.envelopes;
      message_queue = w.message_queue ++ (eo.envelope ∷ []);
    }
    | some _ ↦ w
  ]

  pub handle_envelope : ℕ → EnvelopeOrigin → Whisper → Option (Whisper × Option EnvelopeError)
  handle_envelope now eo w = elim (interesting eo.origin eo.envelope w.peer_status) [
    | none ↦ none
    | some (is_interesting, e) ↦ elim (check_envelope now w e) [
      | none ↦ none
      | some (e', err) ↦ elim err [
        | none ↦ some (store_envelope (record eo { envelope = e' }) w, none)
        | some x ↦
            if is_interesting
            then some (store_envelope (record eo { envelope = e' }) w, none)
            else some (w, some x)
      ]
    ]
  ]

-- The loop over the kept envelopes at the time `now`.
pub remove_expired_envelopes : ℕ → Dict Bytes EnvelopeOrigin → Dict Bytes EnvelopeOrigin
remove_expired_envelopes now [] = []
remove_expired_envelopes now ((hash, eo) ∷ m) =
    let rest = remove_expired_envelopes now m in
    if ltb eo.envelope.expiry now then rest else (hash, eo) ∷ rest
