-- ===== src/Whisper/Filters/Topics.antt =====
-- whisper/filter.go: which filters a topic has after filters were added and removed.
use dsignal.Base.{
  ◌≢◌, ℕ, ◌≡◌, refl, ◌∙◌, ap, sym, Bool, true, false, not, ◌&&◌, ◌||◌, none, some, List, [], ◌∷◌,
  Bytes, GoString, bytes_dec, ℕ_discrete, ◌==◌, if◌then◌else◌, ite, arith, Option-cases, inl, inr,
  ◌⊎◌,
}
use mathlib.Core.Path.{subst}
use dsignal.Base.Dict.{
  Dict, lookup, insert, delete, lookup-insert, lookup-insert_self, lookup-insert_ne,
  lookup-delete_self, lookup-delete_ne,
}
use dsignal.Gossip.Files.{among}
use dsignal.Whisper.Filters.{
  Filter, FilterStorage, added, topic_key, filters_at, without, refs_of, add_topics, remove_one,
  remove_topics, add_filter, remove_filter, get_subscribers_by_topic, get_filter_from_id,
}

-- Whether one of the topics has the key.
unfoldable pub has_topic : Bytes → List Bytes → Bool
has_topic key [] = false
has_topic key (t ∷ ts) = let rest = has_topic key ts in ite (bytes_dec (topic_key t) key) true rest

among-without : (x r : ℕ) (xs : List ℕ) → among x (without r xs) ≡ (not (r == x) && among x xs)
unfolding among without
among-without x r [] = ground arith
among-without x r (y ∷ ys) = ground (arith, among-without x r ys)

filters_at-insert :
    (j k : Bytes) (refs : List ℕ) (m : Dict Bytes (List ℕ))
    → filters_at j (insert bytes_dec k refs m) ≡ ite (bytes_dec k j) refs (filters_at j m)
unfolding filters_at
filters_at-insert j k refs m =
    ap refs_of (lookup-insert bytes_dec k j refs m)
    ∙ elim (bytes_dec k j)
        as (λ d.
          refs_of (ite d (some refs) (lookup bytes_dec j m))
          ≡ ite d refs (refs_of (lookup bytes_dec j m))) [ yes e ↦ refl | no ne ↦ refl ]

-- Where nothing is kept under the key, nothing is taken away.
filters_at-remove_none :
    (r : ℕ) (j k : Bytes) (m : Dict Bytes (List ℕ)) (d : Dec (k ≡ j))
    → lookup bytes_dec k m ≡ none
    → filters_at j m ≡ ite d (without r (filters_at j m)) (filters_at j m)
unfolding filters_at without
filters_at-remove_none r j k m (yes e) missing =
    subst
      (λ (i : Bytes). refs_of (lookup bytes_dec i m) ≡ without r (refs_of (lookup bytes_dec i m))) e
      (rw missing refl)
filters_at-remove_none r j k m (no ne) missing = refl

filters_at-same :
    (r : ℕ) (j k : Bytes) (m : Dict Bytes (List ℕ)) (refs : List ℕ) (d : Dec (k ≡ j))
    → lookup bytes_dec k m ≡ some refs
    → ite d (without r refs) (filters_at j m) ≡ ite d (without r (filters_at j m)) (filters_at j m)
unfolding filters_at
filters_at-same r j k m refs (yes e) found =
    ap (without r) (ap refs_of (sym found ∙ ap (λ (i : Bytes). lookup bytes_dec i m) e))
filters_at-same r j k m refs (no ne) found = refl

filters_at-remove_one :
    (r : ℕ) (j k : Bytes) (m : Dict Bytes (List ℕ))
    → filters_at j (remove_one r k m)
      ≡ ite (bytes_dec k j) (without r (filters_at j m)) (filters_at j m)
unfolding remove_one
filters_at-remove_one r j k m = elim (Option-cases (lookup bytes_dec k m)) [
  | inl missing ↦ rw (remove_one, missing) (filters_at-remove_none r j k m (bytes_dec k j) missing)
  | inr (refs, found) ↦
      rw (remove_one, found)
        (filters_at-insert j k (without r refs) m
          ∙ filters_at-same r j k m refs (bytes_dec k j) found)
]

among-add_one :
    (x r : ℕ) (j k : Bytes) (m : Dict Bytes (List ℕ))
    → among x (filters_at j (insert bytes_dec k (r ∷ without r (filters_at k m)) m))
      ≡ (ite (bytes_dec k j) (r == x) false || among x (filters_at j m))
unfolding among
among-add_one x r j k m =
    ap (among x) (filters_at-insert j k (r ∷ without r (filters_at k m)) m)
    ∙ elim (bytes_dec k j)
        as (λ d.
          among x (ite d (r ∷ without r (filters_at k m)) (filters_at j m))
          ≡ (ite d (r == x) false || among x (filters_at j m))) [
            | yes e ↦
                subst
                  (λ (i : Bytes).
                    (if r == x then true else among x (without r (filters_at k m)))
                    ≡ (r == x || among x (filters_at i m)))
                  e (rw (among-without x r (filters_at k m)) (ground arith))
            | no ne ↦ refl
          ]

among-remove_one :
    (x r : ℕ) (j k : Bytes) (m : Dict Bytes (List ℕ))
    → among x (filters_at j (remove_one r k m))
      ≡ (not (ite (bytes_dec k j) (r == x) false) && among x (filters_at j m))
among-remove_one x r j k m =
    ap (among x) (filters_at-remove_one r j k m)
    ∙ elim (bytes_dec k j)
        as (λ d.
          among x (ite d (without r (filters_at j m)) (filters_at j m))
          ≡ (not (ite d (r == x) false) && among x (filters_at j m))) [
            | yes e ↦ among-without x r (filters_at j m)
            | no ne ↦ refl
          ]

-- A filter is under a topic after it was added if it was there, or has the topic.
among-add_topics :
    (x r : ℕ) (j : Bytes) (ts : List Bytes) (m : Dict Bytes (List ℕ))
    → among x (filters_at j (add_topics r ts m))
      ≡ ((has_topic j ts && r == x) || among x (filters_at j m))
unfolding add_topics has_topic
among-add_topics x r j [] m = refl
among-add_topics x r j (t ∷ ts) m =
    among-add_topics x r j ts
      (insert bytes_dec (topic_key t) (r ∷ without r (filters_at (topic_key t) m)) m)
    ∙ rw (among-add_one x r j (topic_key t) m)
        (elim (bytes_dec (topic_key t) j)
          as (λ d.
            ((has_topic j ts && r == x) || (ite d (r == x) false || among x (filters_at j m)))
            ≡ ((ite d true (has_topic j ts) && r == x) || among x (filters_at j m))) [
              | yes e ↦ ground arith
              | no ne ↦ refl
            ])

among-remove_topics :
    (x r : ℕ) (j : Bytes) (ts : List Bytes) (m : Dict Bytes (List ℕ))
    → among x (filters_at j (remove_topics r ts m))
      ≡ (not (has_topic j ts && r == x) && among x (filters_at j m))
unfolding remove_topics has_topic
among-remove_topics x r j [] m = refl
among-remove_topics x r j (t ∷ ts) m =
    among-remove_topics x r j ts (remove_one r (topic_key t) m)
    ∙ rw (among-remove_one x r j (topic_key t) m)
        (elim (bytes_dec (topic_key t) j)
          as (λ d.
            (not (has_topic j ts && r == x)
              && (not (ite d (r == x) false) && among x (filters_at j m)))
            ≡ (not (ite d true (has_topic j ts) && r == x) && among x (filters_at j m))) [
              | yes e ↦ ground arith
              | no ne ↦ ground arith
            ])

-- What was added and removed again is as it was, where the filter was not there before.
restored :
    (r x : ℕ) (has old : Bool)
    → (r ≡ x → old ≡ false)
    → (not (has && r == x) && ((has && r == x) || old)) ≡ old
restored r x true old fresh = elim (ℕ_discrete r x) [
  | yes e ↦ let gone : old ≡ false = fresh e in ground arith
  | no ne ↦ ground arith
]
restored r x false old fresh = refl

lookup-delete_inserted :
    (i id : GoString) (r : ℕ) (m : Dict GoString ℕ)
    → lookup bytes_dec id m ≡ none
    → lookup bytes_dec i (delete bytes_dec id (insert bytes_dec id r m)) ≡ lookup bytes_dec i m
lookup-delete_inserted i id r m new = elim (bytes_dec id i) [
  | yes e ↦
      subst
        (λ (k : GoString).
          lookup bytes_dec k (delete bytes_dec id (insert bytes_dec id r m)) ≡ lookup bytes_dec k m)
        e (lookup-delete_self bytes_dec id (insert bytes_dec id r m) ∙ sym new)
  | no ne ↦
      lookup-delete_ne bytes_dec id i (insert bytes_dec id r m) ne
      ∙ lookup-insert_ne bytes_dec id i r m ne
]

-- The storage with a filter more.
abbrev with_filter : GoString → ℕ → Filter → FilterStorage → FilterStorage
with_filter id r f fs = record {
  subscribers = insert bytes_dec id r fs.subscribers;
  topic_to_filters = add_topics r f.topics fs.topic_to_filters;
}

add_filter_new :
    (id : GoString) (r : ℕ) (f : Filter) (fs : FilterStorage)
    → lookup bytes_dec id fs.subscribers ≡ none
    → (f.key_sym ≡ none) ⊎ (f.key_asym ≡ none)
    → add_filter (some id) r f fs ≡ added id (with_filter id r f fs)
unfolding add_filter
add_filter_new id r f fs new (inl e) = rw (add_filter, e, new) refl
add_filter_new id r f fs new (inr e) = elim (Option-cases f.key_sym) [
  | inl none_sym ↦ rw (add_filter, none_sym, new) refl
  | inr (key, found) ↦ rw (add_filter, found, e, new) refl
]

remove_filter_known :
    (filters : Dict ℕ Filter) (id : GoString) (r : ℕ) (f : Filter) (fs : FilterStorage)
    → lookup bytes_dec id fs.subscribers ≡ some r
    → lookup ℕ_discrete r filters ≡ some f
    → remove_filter filters id fs ≡ (
      record {
        subscribers = delete bytes_dec id fs.subscribers;
        topic_to_filters = remove_topics r f.topics fs.topic_to_filters;
      },
      true,
    )
unfolding remove_filter
remove_filter_known filters id r f fs named found = rw (remove_filter, named, found) refl

-- A filter that no topic has and that has at most one kind of key is added under an id that is not taken.
-- Then it is found under the id, every other id has the filter that it had, and the topics have it besides
-- the filters that they had exactly if it names them. Once its id is removed, the removal says that it was
-- there, and every topic has the filters, and every id the filter, that they had before.
pub remove_filter-add_filter :
    (filters : Dict ℕ Filter) (id : GoString) (r : ℕ) (f : Filter) (fs : FilterStorage)
    → lookup ℕ_discrete r filters ≡ some f
    → ((j : Bytes) → among r (get_subscribers_by_topic j fs) ≡ false)
    → lookup bytes_dec id fs.subscribers ≡ none
    → (f.key_sym ≡ none) ⊎ (f.key_asym ≡ none)
    → (fs' : FilterStorage) × (add_filter (some id) r f fs ≡ added id fs')
      × (get_filter_from_id id fs' ≡ some r)
      × ((i : GoString) → id ≢ i → get_filter_from_id i fs' ≡ get_filter_from_id i fs)
      × ((remove_filter filters id fs').1 ≡ true)
      × ((j : Bytes) (x : ℕ)
          → among x (get_subscribers_by_topic j fs')
            ≡ ((has_topic j f.topics && r == x) || among x (get_subscribers_by_topic j fs)))
      × ((j : Bytes) (x : ℕ)
          → among x (get_subscribers_by_topic j (remove_filter filters id fs').0)
            ≡ among x (get_subscribers_by_topic j fs))
      × ((i : GoString)
          → lookup bytes_dec i (remove_filter filters id fs').0.subscribers
            ≡ lookup bytes_dec i fs.subscribers)
unfolding get_subscribers_by_topic
remove_filter-add_filter filters id r f fs object fresh new keys =
    let fs' = with_filter id r f fs in
    let gone =
      remove_filter_known filters id r f fs' (lookup-insert_self bytes_dec id r fs.subscribers)
        object in
    (
      fs',
      add_filter_new id r f fs new keys,
      lookup-insert_self bytes_dec id r fs.subscribers,
      λ i ne. lookup-insert_ne bytes_dec id i r fs.subscribers ne,
      ap (λ (p : FilterStorage × Bool). p.1) gone,
      λ j x. among-add_topics x r j f.topics fs.topic_to_filters,
      λ j x.
          ap (λ (p : FilterStorage × Bool). among x (filters_at j p.0.topic_to_filters)) gone
          ∙ among-remove_topics x r j f.topics fs'.topic_to_filters
          ∙ ap (λ b. not (has_topic j f.topics && r == x) && b)
              (among-add_topics x r j f.topics fs.topic_to_filters)
          ∙ restored r x (has_topic j f.topics) (among x (filters_at j fs.topic_to_filters))
              (λ e. ap (λ y. among y (filters_at j fs.topic_to_filters)) (sym e) ∙ fresh j),
      λ i.
          ap (λ (p : FilterStorage × Bool). lookup bytes_dec i p.0.subscribers) gone
          ∙ lookup-delete_inserted i id r fs.subscribers new,
    )
