-- ===== src/Whisper/Envelopes/Expired.antt =====
-- An envelope that has just expired.
use dsignal.Base.{
  ℕ, ◌+◌, ◌^◌, ◌≤◌, ◌<◌, ◌≡◌, ◌≢◌, refl, [], ◌∷◌, ◌++◌, Bytes, Bool, true, false, none, some,
  bytes_dec, arith,
}
use dsignal.Base.Dict.{lookup, lookup-insert_self, lookup-insert_ne}
use dsignal.Base.Float.{float_lt}
use dsignal.Whisper.Bloom.{check_filter_match}
use dsignal.Whisper.Topic.{convert_topic_to_bloom}
use dsignal.Whisper.Envelopes.{
  Envelope, EnvelopeOrigin, Encoding, Whisper, get_hash, get_size, get_pow, or_default, interesting,
  check_sent, check_expiry, check_size, check_pow, check_bloom, check_envelope, store_envelope,
  handle_envelope, max_message_size,
}
use dsignal.Whisper.Envelopes.Kept.{store_new}

module _ (c : Encoding) where
  handle_accepted :
      (now : ℕ) (eo : EnvelopeOrigin) (w : Whisper) (b : Bool) (e e' : Envelope)
      → interesting c eo.origin eo.envelope w.peer_status ≡ some (b, e)
      → check_envelope c now w e ≡ some (e', none)
      → handle_envelope c now eo w ≡ some (store_envelope c (record eo { envelope = e' }) w, none)
  unfolding handle_envelope
  handle_accepted now eo w b e e' p q = ground arith

  sent_past :
      (now : ℕ) (e : Envelope)
      → e.expiry < now
      → e.ttl ≤ e.expiry
      → e.expiry < 2 ^ 32
      → check_sent c now e ≡ (e, none)
  unfolding check_sent
  sent_past now e past young small = ground arith

  expiry_recent :
      (now : ℕ) (e : Envelope)
      → now ≤ e.expiry + 20
      → e.expiry + 20 < 2 ^ 32
      → check_expiry c now e none ≡ none
  unfolding check_expiry
  expiry_recent now e recent small = ground arith

  size_light : (e : Envelope) → get_size c e ≤ max_message_size → check_size c e none ≡ none
  unfolding check_size
  size_light e light = ground arith

  pow_enough :
      (w : Whisper) (e : Envelope)
      → float_lt e.pow (or_default c w.min_pow) ≡ false
      → check_pow c w e none ≡ none
  unfolding check_pow
  pow_enough w e work = ground arith

  bloom_matched :
      (w : Whisper) (e : Envelope)
      → check_filter_match w.bloom_filter (convert_topic_to_bloom e.topic) ≡ some true
      → check_bloom c w e none ≡ some none
  unfolding check_bloom
  bloom_matched w e matched = ground arith

  check_envelope_expired :
      (now : ℕ) (w : Whisper) (e : Envelope)
      → e.expiry < now
      → now ≤ e.expiry + 20
      → e.expiry + 20 < 2 ^ 32
      → e.ttl ≤ e.expiry
      → get_size c e ≤ max_message_size
      → float_lt (get_pow c e).pow (or_default c w.min_pow) ≡ false
      → check_filter_match w.bloom_filter (convert_topic_to_bloom (get_pow c e).topic) ≡ some true
      → check_envelope c now w e ≡ some (get_pow c e, none)
  unfolding check_envelope
  check_envelope_expired now w e past recent small young light work matched = ground (
    arith,
    sent_past now e past young (omega arith),
    expiry_recent now e recent small,
    size_light e light,
    pow_enough w (get_pow c e) work,
    bloom_matched w (get_pow c e) matched,
  )

  -- An envelope that has expired at most 20 seconds ago, for which the code prints that it is dropped,
  -- passes the check of its expiry and so the whole, if its proof of work, its size and its topic do,
  -- the time to live is not above the expiry, and the expiry lies more than 20 seconds below 2^32. If none
  -- with its hash is kept yet, it is kept under its hash, with what is kept under other hashes as before,
  -- and it is put at the end of the queue.
  pub handle_envelope_expired :
      (now : ℕ) (eo : EnvelopeOrigin) (w : Whisper) (b : Bool) (e : Envelope)
      → e.expiry < now
      → now ≤ e.expiry + 20
      → e.expiry + 20 < 2 ^ 32
      → e.ttl ≤ e.expiry
      → get_size c e ≤ max_message_size
      → float_lt (get_pow c e).pow (or_default c w.min_pow) ≡ false
      → check_filter_match w.bloom_filter (convert_topic_to_bloom (get_pow c e).topic) ≡ some true
      → interesting c eo.origin eo.envelope w.peer_status ≡ some (b, e)
      → lookup bytes_dec (get_hash c (get_pow c e)) w.envelopes ≡ none
      → (w' : Whisper) × (handle_envelope c now eo w ≡ some (w', none))
        × (lookup bytes_dec (get_hash c (get_pow c e)) w'.envelopes
            ≡ some (record eo { envelope = get_pow c e }))
        × ((hash : Bytes)
            → get_hash c (get_pow c e) ≢ hash
            → lookup bytes_dec hash w'.envelopes ≡ lookup bytes_dec hash w.envelopes)
        × (w'.message_queue ≡ w.message_queue ++ (get_pow c e ∷ []))
  handle_envelope_expired now eo w b e past recent small young light work matched r new =
      let eo' : EnvelopeOrigin = record eo { envelope = get_pow c e } in
      let accepted = check_envelope_expired now w e past recent small young light work matched in
      (
        store_envelope c eo' w,
        handle_accepted now eo w b e (get_pow c e) r accepted,
        rw (store_new c eo' w new)
            (lookup-insert_self bytes_dec (get_hash c (get_pow c e)) eo' w.envelopes),
        λ hash ne.
            rw (store_new c eo' w new)
              (lookup-insert_ne bytes_dec (get_hash c (get_pow c e)) hash eo' w.envelopes ne),
        rw (store_new c eo' w new) refl,
      )
