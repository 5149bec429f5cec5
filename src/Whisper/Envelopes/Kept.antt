-- ===== src/Whisper/Envelopes/Kept.antt =====
-- Which envelopes are kept, and for how long.
use dsignal.Base.{
  ℕ, ◌≡◌, ◌≢◌, ◌⊎◌, ◌∙◌, inl, inr, refl, Bool, true, false, Option, none, some, [], ◌∷◌, ◌++◌,
  Bytes, bytes_dec, ltb, if◌then◌else◌, arith, Option-cases,
}
use dsignal.Base.Dict.{Dict, lookup, insert, DistinctKeys}
use dsignal.Whisper.Envelopes.{
  Envelope, EnvelopeOrigin, Encoding, Whisper, EnvelopeError, get_hash, interesting, check_envelope,
  store_envelope, handle_envelope, remove_expired_envelopes,
}
use dsignal.Whisper.Envelopes.Checks.{Sized, AllSized, interesting_total, check_envelope_total}

-- What becomes of an entry.
abbrev pub unless_expired : ℕ → Option EnvelopeOrigin → Option EnvelopeOrigin
unless_expired now none = none
unless_expired now (some eo) = if ltb eo.envelope.expiry now then none else some eo

lookup-remove_none :
    (now : ℕ) (hash : Bytes) (m : Dict Bytes EnvelopeOrigin)
    → lookup bytes_dec hash m ≡ none
    → lookup bytes_dec hash (remove_expired_envelopes now m) ≡ none
unfolding remove_expired_envelopes lookup
lookup-remove_none now hash [] e = refl
lookup-remove_none now hash ((h, eo) ∷ m) e = ground (arith, lookup-remove_none now hash m)

-- After the expired envelopes are removed, exactly those are missing: an entry whose expiry lies
-- before the present is gone, and every other one is as before.
pub lookup-remove_expired_envelopes :
    (now : ℕ) (hash : Bytes) (m : Dict Bytes EnvelopeOrigin)
    → DistinctKeys bytes_dec m
    → lookup bytes_dec hash (remove_expired_envelopes now m)
      ≡ unless_expired now (lookup bytes_dec hash m)
unfolding remove_expired_envelopes lookup
lookup-remove_expired_envelopes now hash [] d = refl
lookup-remove_expired_envelopes now hash ((h, eo) ∷ m) (fresh, d) =
    ground (arith, lookup-remove_expired_envelopes now hash m d, lookup-remove_none now h m fresh)

module _ (c : Encoding) where
  -- The result of `store_envelope`.
  abbrev pub Stored : EnvelopeOrigin → Whisper → Whisper → Type 0
  Stored eo w w' =
      ((lookup bytes_dec (get_hash c eo.envelope) w.envelopes ≡ none)
        × (w'.envelopes ≡ insert bytes_dec (get_hash c eo.envelope) eo w.envelopes)
        × (w'.message_queue ≡ w.message_queue ++ (eo.envelope ∷ [])))
      ⊎ ((lookup bytes_dec (get_hash c eo.envelope) w.envelopes ≢ none) × (w' ≡ w))

  pub store_new :
      (eo : EnvelopeOrigin) (w : Whisper)
      → lookup bytes_dec (get_hash c eo.envelope) w.envelopes ≡ none
      → store_envelope c eo w ≡ record w {
        envelopes = insert bytes_dec (get_hash c eo.envelope) eo w.envelopes;
        message_queue = w.message_queue ++ (eo.envelope ∷ []);
      }
  unfolding store_envelope
  store_new eo w miss = rw (miss, store_envelope)

  store_old :
      (eo o : EnvelopeOrigin) (w : Whisper)
      → lookup bytes_dec (get_hash c eo.envelope) w.envelopes ≡ some o
      → store_envelope c eo w ≡ w
  unfolding store_envelope
  store_old eo o w hit = rw (hit, store_envelope)

  store_envelope-Stored : (eo : EnvelopeOrigin) (w : Whisper) → Stored eo w (store_envelope c eo w)
  store_envelope-Stored eo w =
      elim (Option-cases (lookup bytes_dec (get_hash c eo.envelope) w.envelopes)) [
        | inl miss ↦ rw (store_new eo w miss) (inl (miss, refl, refl))
        | inr (o, hit) ↦ inr (λ e. absurd (ground arith), store_old eo o w hit)
      ]

  handle_cases :
      (now : ℕ) (eo : EnvelopeOrigin) (w : Whisper) (b : Bool) (e e' : Envelope)
      (err : Option EnvelopeError)
      → interesting c eo.origin eo.envelope w.peer_status ≡ some (b, e)
      → check_envelope c now w e ≡ some (e', err)
      → (handle_envelope c now eo w ≡ some (store_envelope c (record eo { envelope = e' }) w, none))
        ⊎ ((x : EnvelopeError) × (handle_envelope c now eo w ≡ some (w, some x)))
  unfolding handle_envelope
  handle_cases now eo w b e e' none p q = inl (ground arith)
  handle_cases now eo w true e e' (some x) p q = inl (ground arith)
  handle_cases now eo w false e e' (some x) p q = inr (x, ground arith)

  -- Where all the filters have the right length, an envelope is handled, and one of two things
  -- happens. It is refused with an error, and nothing changes. Or it is accepted: if no envelope
  -- with its hash was kept, it is kept under its hash and queued; otherwise nothing changes.
  pub handle_envelope-Stored :
      (now : ℕ) (eo : EnvelopeOrigin) (w : Whisper)
      → AllSized w.peer_status
      → Sized w.bloom_filter
      → Sized w.bloom_filter_tolerance
      → ((x : EnvelopeError) × (handle_envelope c now eo w ≡ some (w, some x)))
        ⊎ ((e : Envelope) × (w' : Whisper) × (handle_envelope c now eo w ≡ some (w', none))
            × (get_hash c e ≡ get_hash c eo.envelope)
            × Stored (record eo { envelope = e }) w w')
  handle_envelope-Stored now eo w sized p q =
      let (b, e, r, same) = interesting_total c eo.origin eo.envelope w.peer_status sized in
      let (e', err, r', same') = check_envelope_total c now w e p q in
      elim (handle_cases now eo w b e e' err r r') [
        | inl accepted ↦ inr (
          e',
          store_envelope c (record eo { envelope = e' }) w,
          accepted,
          same' ∙ same,
          store_envelope-Stored (record eo { envelope = e' }) w,
        )
        | inr refused ↦ inl refused
      ]
