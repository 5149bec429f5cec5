-- ===== src/Storage/Table/Bounded.antt =====
-- The buckets stay bounded, with distinct ids; and an id that shares its first byte with the store's
-- has no bucket.
use dsignal.Base.{
  ℕ, suc, ◌≤◌, ◌<◌, ◌≡◌, ◌≢◌, ◌∙◌, refl, sym, ap, none, some, [], ◌∷◌, ◌++◌, Bytes, bytes_dec,
  length, length-append, arith, if_pos, if_neg, some_injective,
}
use dsignal.Storage.Table.{RoutingEntry, Bucket, find_entry, remove_entry}

-- No id stands twice.
abbrev pub DistinctIds : Bucket → Type 0
DistinctIds [] = Unit
DistinctIds (e ∷ b) = (find_entry e.id b ≡ none) × DistinctIds b

-- No more than `k` entries, with distinct ids.
pub record IsBucket (k : ℕ) (b : Bucket) : Type 0 where
  pub bounded : length b ≤ k
  pub distinct : DistinctIds b

find_append :
    (id : Bytes) (b : Bucket) (e : RoutingEntry)
    → find_entry id b ≡ none
    → e.id ≢ id
    → find_entry id (b ++ (e ∷ [])) ≡ none
unfolding find_entry
find_append id [] e miss ne = ground arith
find_append id (x ∷ b) e miss ne = ground (arith, find_append id b e)

append-DistinctIds :
    (b : Bucket) (e : RoutingEntry)
    → find_entry e.id b ≡ none
    → DistinctIds b
    → DistinctIds (b ++ (e ∷ []))
unfolding find_entry
append-DistinctIds [] e miss d = (refl, tt)
append-DistinctIds (x ∷ b) e miss (fresh, d) = (
  find_append x.id b e fresh (λ (same : e.id ≡ x.id). absurd (ground (arith, same))),
  append-DistinctIds b e (ground arith) d,
)

pub found_id : (id : Bytes) (b : Bucket) (e : RoutingEntry) → find_entry id b ≡ some e → e.id ≡ id
unfolding find_entry
found_id id [] e hit = cc
found_id id (x ∷ b) e hit = elim (bytes_dec x.id id) [
  | yes same ↦
      ap (λ (r : RoutingEntry). r.id)
        (some_injective (sym hit ∙ if_pos (bytes_dec x.id id) same _ _))
      ∙ same
  | no other ↦ found_id id b e (sym (if_neg (bytes_dec x.id id) other _ _) ∙ hit)
]

remove_miss :
    (id id' : Bytes) (b : Bucket)
    → find_entry id b ≡ none
    → find_entry id (remove_entry id' b) ≡ none
unfolding find_entry remove_entry
remove_miss id id' [] miss = refl
remove_miss id id' (x ∷ b) miss = ground (arith, remove_miss id id' b)

pub remove_gone :
    (id : Bytes) (b : Bucket) → DistinctIds b → find_entry id (remove_entry id b) ≡ none
unfolding find_entry remove_entry
remove_gone id [] d = refl
remove_gone id (x ∷ b) (fresh, d) = ground (arith, remove_gone id b d)

pub remove-DistinctIds : (id : Bytes) (b : Bucket) → DistinctIds b → DistinctIds (remove_entry id b)
unfolding remove_entry
remove-DistinctIds id [] d = tt
remove-DistinctIds id (x ∷ b) (fresh, d) = elim (bytes_dec x.id id) [
  | yes same ↦ rw (if_pos (bytes_dec x.id id) same) d
  | no other ↦
      rw (if_neg (bytes_dec x.id id) other) (remove_miss x.id id b fresh, remove-DistinctIds id b d)
]

pub length-remove :
    (id : Bytes) (b : Bucket) (e : RoutingEntry)
    → find_entry id b ≡ some e
    → suc (length (remove_entry id b)) ≡ length b
unfolding find_entry remove_entry
length-remove id [] e hit = cc
length-remove id (x ∷ b) e hit = ground (arith, length-remove id b e)

-- Putting an entry at the tail.
pub put_last :
    (k : ℕ) (b : Bucket) (e : RoutingEntry)
    → length b < k
    → find_entry e.id b ≡ none
    → DistinctIds b
    → IsBucket k (b ++ (e ∷ []))
put_last k b e room miss d = record {
  bounded = omega (arith, length-append b (e ∷ []));
  distinct = append-DistinctIds b e miss d;
}
