-- ===== src/Whisper/Envelopes/Checks.antt =====
-- The checks of an envelope come to an end where all filters have the right length.
use dsignal.Base.{
  ℕ, zero, suc, ◌≡◌, ◌⊎◌, ◌∙◌, inl, inr, refl, Bool, true, false, not, ◌||◌, Option, none, some, [],
  ◌∷◌, Bytes, GoString, bit_or, length, length-set, replicate, length-replicate, ◌==◌,
  if◌then◌else◌, arith,
}
use dsignal.Base.Dict.{Dict}
use dsignal.Whisper.Bloom.{bloom_filter_size, match_loop, check_filter_match}
use dsignal.Whisper.Topic.{Topic, topic_index, set_index, convert_topic_to_bloom}
use dsignal.Whisper.Routing.{Status}
use dsignal.Gossip.Packet.{Addr}
use dsignal.Whisper.Envelopes.{
  Envelope, Encoding, Whisper, EnvelopeError, no_bloom_match, get_hash, get_pow, compute_pow,
  interesting, check_sent, check_expiry, check_size, check_pow, check_bloom, check_envelope,
}

-- A filter that is nil or has the right length.
abbrev pub Sized : Option Bytes → Type 0
Sized none = Unit
Sized (some f) = length f ≡ bloom_filter_size

abbrev pub AllSized : Dict GoString Status → Type 0
AllSized [] = Unit
AllSized ((peer, status) ∷ m) = Sized status.bloom × AllSized m

match_total :
    (n : ℕ) (a b : Bytes) → length a ≡ n → length b ≡ n → (r : Bool) × (match_loop n a b ≡ some r)
unfolding match_loop
match_total zero a b p q = (true, refl)
match_total (suc n) [] b p q = absurd (omega arith)
match_total (suc n) (x ∷ a) [] p q = absurd (omega arith)
match_total (suc n) (x ∷ a) (y ∷ b) p q =
    let (r, e) = match_total n a b (omega arith) (omega arith) in
    (if not (bit_or x y == x) then false else r, ground arith)

length-set_index : (b : Bytes) (i : ℕ) → length (set_index b i) ≡ length b
unfolding set_index
length-set_index b i = length-set b _ _

topic_sized : (t : Topic) → length (convert_topic_to_bloom t) ≡ bloom_filter_size
unfolding convert_topic_to_bloom
topic_sized t =
    let empty : Bytes = replicate bloom_filter_size 0 in
    let i0 = topic_index 0 t.b0 t.b3 in
    let i1 = topic_index 1 t.b1 t.b3 in
    length-set_index (set_index (set_index empty i0) i1) (topic_index 2 t.b2 t.b3)
    ∙ length-set_index (set_index empty i0) i1
    ∙ length-set_index empty i0
    ∙ length-replicate {A = ℕ} bloom_filter_size 0

check_total :
    (f : Option Bytes) (t : Topic)
    → Sized f
    → (r : Bool) × (check_filter_match f (convert_topic_to_bloom t) ≡ some r)
unfolding check_filter_match
check_total none t p = (true, refl)
check_total (some f) t p =
    match_total bloom_filter_size f (convert_topic_to_bloom t) p (topic_sized t)

module _ (c : Encoding) where
  get_pow_hash : (e : Envelope) → get_hash c (get_pow c e) ≡ get_hash c e
  unfolding get_pow compute_pow get_hash
  get_pow_hash e = ground arith

  check_sent_hash : (now : ℕ) (e : Envelope) → get_hash c (check_sent c now e).0 ≡ get_hash c e
  unfolding check_sent compute_pow get_hash
  check_sent_hash now e = ground arith

  interesting_cons :
      (origin peer : Addr) (e : Envelope) (status : Status) (m : Dict GoString Status) (b : Bool)
      → check_filter_match status.bloom (convert_topic_to_bloom e.topic) ≡ some b
      → (interesting c origin e ((peer, status) ∷ m) ≡ interesting c origin e m)
        ⊎ (interesting c origin e ((peer, status) ∷ m) ≡ some (true, get_pow c e))
        ⊎ (interesting c origin e ((peer, status) ∷ m) ≡ interesting c origin (get_pow c e) m)
  unfolding interesting
  interesting_cons origin peer e status m true h = ground arith
  interesting_cons origin peer e status m false h = ground arith

  pub interesting_total :
      (origin : Addr) (e : Envelope) (m : Dict GoString Status)
      → AllSized m
      → (b : Bool) × (e' : Envelope) × (interesting c origin e m ≡ some (b, e'))
        × (get_hash c e' ≡ get_hash c e)
  unfolding interesting
  interesting_total origin e [] sized = (false, e, refl, refl)
  interesting_total origin e ((peer, status) ∷ m) (size, sized) =
      let (b, matched) = check_total status.bloom e.topic size in
      elim (interesting_cons origin peer e status m b matched) [
        | inl skip ↦
            let (b', e', r, same) = interesting_total origin e m sized in (b', e', skip ∙ r, same)
        | inr (inl found) ↦ (true, get_pow c e, found, get_pow_hash e)
        | inr (inr next) ↦
            let (b', e', r, same) = interesting_total origin (get_pow c e) m sized in
            (b', e', next ∙ r, same ∙ get_pow_hash e)
      ]

  check_bloom_cases :
      (w : Whisper) (e : Envelope) (err : Option EnvelopeError) (b b' : Bool)
      → check_filter_match w.bloom_filter (convert_topic_to_bloom e.topic) ≡ some b
      → check_filter_match w.bloom_filter_tolerance (convert_topic_to_bloom e.topic) ≡ some b'
      → check_bloom c w e err ≡ some (if b || b' then err else some no_bloom_match)
  unfolding check_bloom
  check_bloom_cases w e err true b' p q = ground arith
  check_bloom_cases w e err false true p q = ground arith
  check_bloom_cases w e err false false p q = ground arith

  -- What the checks find, in one value: the last that fails decides.
  checked : ℕ → Whisper → Envelope → Option EnvelopeError
  checked now w e =
      let (e', err) = check_sent c now e in
      check_pow c w (get_pow c e') (check_size c e' (check_expiry c now e' err))

  pub check_envelope_total :
      (now : ℕ) (w : Whisper) (e : Envelope)
      → Sized w.bloom_filter
      → Sized w.bloom_filter_tolerance
      → (e' : Envelope) × (err : Option EnvelopeError) × (check_envelope c now w e ≡ some (e', err))
        × (get_hash c e' ≡ get_hash c e)
  unfolding check_envelope checked
  check_envelope_total now w e p q =
      let e' = get_pow c (check_sent c now e).0 in
      let (b, h) = check_total w.bloom_filter e'.topic p in
      let (b', h') = check_total w.bloom_filter_tolerance e'.topic q in
      (
        e',
        if b || b' then checked now w e else some no_bloom_match,
        rw (check_bloom_cases w e' (checked now w e) b b' h h', check_envelope),
        get_pow_hash (check_sent c now e).0 ∙ check_sent_hash now e,
      )
