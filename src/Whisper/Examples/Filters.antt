-- ===== src/Whisper/Examples/Filters.antt =====
-- Filters at concrete topics.
use dsignal.Base.{
  true, ℕ, ◌≡◌, ◌≢◌, refl, ◌||◌, ◌&&◌, ◌==◌, none, some, false, inr, ite, [], ◌∷◌, Bytes, GoString,
  bytes_dec, ℕ_discrete,
}
use dsignal.Base.Dict.{Dict, lookup}
use dsignal.Base.Float.{nonneg}
use dsignal.Gossip.Files.{among}
use dsignal.Whisper.Filters.{
  Filter, FilterStorage, added, refs_of, filters_at, add_filter, remove_filter,
  get_subscribers_by_topic, get_filter_from_id,
}
use dsignal.Whisper.Filters.Topics.{has_topic, remove_filter-add_filter}

-- The topic stands there twice.
abbrev filter : Filter
filter = record {
  key_asym = none;
  key_sym = some (7 ∷ []);
  pow = nonneg 1;
  topics = (1 ∷ 2 ∷ 3 ∷ 4 ∷ []) ∷ (1 ∷ 2 ∷ 3 ∷ 4 ∷ 5 ∷ []) ∷ [];
  messages = [];
}

-- Another filter has the same topic.
abbrev storage : FilterStorage
storage = record {
  subscribers = (97 ∷ [], 1) ∷ [];
  topic_to_filters = (1 ∷ 2 ∷ 3 ∷ 4 ∷ [], 1 ∷ []) ∷ [];
}

abbrev objects : Dict ℕ Filter
objects = (2, filter) ∷ []

storage-fresh : (j : Bytes) → among 2 (get_subscribers_by_topic j storage) ≡ false
unfolding among filters_at lookup get_subscribers_by_topic
storage-fresh j =
    elim (bytes_dec (1 ∷ 2 ∷ 3 ∷ 4 ∷ []) j)
      as (λ d. among 2 (refs_of (ite d (some (1 ∷ [])) none)) ≡ false) [
        | yes e ↦ refl
        | no ne ↦ refl
      ]

remove_filter-add_filter_example :
    (fs' : FilterStorage) × (add_filter (some (98 ∷ [])) 2 filter storage ≡ added (98 ∷ []) fs')
    × (get_filter_from_id (98 ∷ []) fs' ≡ some 2)
    × ((i : GoString) → 98 ∷ [] ≢ i → get_filter_from_id i fs' ≡ get_filter_from_id i storage)
    × ((remove_filter objects (98 ∷ []) fs').1 ≡ true)
    × ((j : Bytes) (x : ℕ)
        → among x (get_subscribers_by_topic j fs')
          ≡ ((has_topic j filter.topics && 2 == x) || among x (get_subscribers_by_topic j storage)))
    × ((j : Bytes) (x : ℕ)
        → among x (get_subscribers_by_topic j (remove_filter objects (98 ∷ []) fs').0)
          ≡ among x (get_subscribers_by_topic j storage))
    × ((i : GoString)
        → lookup bytes_dec i (remove_filter objects (98 ∷ []) fs').0.subscribers
          ≡ lookup bytes_dec i storage.subscribers)
unfolding lookup bytes_dec ℕ_discrete
remove_filter-add_filter_example =
    remove_filter-add_filter objects (98 ∷ []) 2 filter storage refl storage-fresh refl (inr refl)
