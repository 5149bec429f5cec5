-- ===== src/Storage/Table/Updated.antt =====
-- A whole update of the table: it keeps every bucket bounded with distinct ids, or it panics.
use dsignal.Base.{
  ℕ, zero, suc, ◌≤◌, ◌<◌, ◌≡◌, ◌∙◌, ◌⊎◌, refl, Bool, true, false, Option, none, some, List, [], ◌∷◌,
  ◌++◌, GoString, length, length-set, set, get_elem?, if◌then◌else◌, Option-cases, inl, inr, dec_lt,
  arith,
}
use dsignal.Storage.Bytes.{max_prefix_len}
use dsignal.Storage.Table.{
  RoutingEntry, Bucket, RoutingTable, find_entry, remove_entry, replace_head, update_bucket, update,
}
use dsignal.Storage.Table.Bounded.{
  IsBucket, found_id, remove_gone, remove-DistinctIds, length-remove, put_last,
}

abbrev pub AllBuckets : ℕ → List Bucket → Type 0
AllBuckets k [] = Unit
AllBuckets k (b ∷ bs) = IsBucket k b × AllBuckets k bs

get-AllBuckets :
    (k i : ℕ) (bs : List Bucket)
    → AllBuckets k bs
    → i < length bs
    → (b : Bucket) × (get_elem? bs i ≡ some b) × IsBucket k b
get-AllBuckets k i [] all lt = absurd (omega arith)
get-AllBuckets k zero (b ∷ bs) (here, all) lt = (b, refl, here)
get-AllBuckets k (suc i) (b ∷ bs) (here, all) lt = get-AllBuckets k i bs all (omega arith)

set-AllBuckets :
    (k i : ℕ) (bs : List Bucket) (b : Bucket)
    → AllBuckets k bs
    → IsBucket k b
    → AllBuckets k (set bs i b)
set-AllBuckets k i [] b all is = tt
set-AllBuckets k zero (x ∷ bs) b (here, all) is = (is, all)
set-AllBuckets k (suc i) (x ∷ bs) b (here, all) is = (here, set-AllBuckets k i bs b all is)

get_none : (i : ℕ) (bs : List Bucket) → length bs ≤ i → get_elem? bs i ≡ none
get_none i [] le = refl
get_none zero (b ∷ bs) le = absurd (omega arith)
get_none (suc i) (b ∷ bs) le = get_none i bs (omega arith)

-- What becomes of a bucket.
Put : ℕ → Option Bucket → Type 0
Put k o = (b : Bucket) × (o ≡ some b) × IsBucket k b

bool_ind : {A : Type 0} (P : A → Type 0) (b : Bool) (x y : A) → P x → P y → P (if b then x else y)
bool_ind P true x y p q = p
bool_ind P false x y p q = q

module _ (alive : GoString → Bool) (re : RoutingEntry) where
  replace_head-Put :
      (k : ℕ) (b : Bucket)
      → 0 < length b
      → find_entry re.id b ≡ none
      → IsBucket k b
      → Put k (replace_head alive re b)
  unfolding Put replace_head find_entry
  replace_head-Put k [] some_entry miss is = absurd (omega arith)
  replace_head-Put k (head ∷ b) some_entry miss is =
      let (fresh, d) = is.distinct in
      (
        _,
        refl,
        bool_ind (IsBucket k) (alive head.address) (head ∷ b) (b ++ (re ∷ [])) is
            (put_last k b re (omega (arith, is.bounded)) (ground arith) d),
      )

  update_bucket-Put :
      (k : ℕ) (b : Bucket) → 0 < k → IsBucket k b → Put k (update_bucket alive k re b)
  unfolding Put update_bucket
  update_bucket-Put k b room is = elim (Option-cases (find_entry re.id b)) [
    | inr (e, hit) ↦
        let same = found_id re.id b e hit in
        let gone = remove_gone re.id b is.distinct in
        (
          remove_entry re.id b ++ (e ∷ []),
          rw (update_bucket, hit) refl,
          put_last k (remove_entry re.id b) e
              (omega (arith, length-remove re.id b e hit, is.bounded)) (rw same gone)
              (remove-DistinctIds re.id b is.distinct),
        )
    | inl miss ↦ elim (dec_lt (length b) k) [
      | yes lt ↦ (
        b ++ (re ∷ []),
        rw (update_bucket, miss) (ground (arith, lt)),
        put_last k b re lt miss is.distinct,
      )
      | no ge ↦
          let (b', e, is') = replace_head-Put k b (omega arith) miss is in
          (b', rw (update_bucket, miss) (ground (arith, ge, e)), is')
    ]
  ]

  -- The table has eight buckets, each with at most as many entries as the replication parameter says
  -- (at least one) and with distinct ids; both ids are of eight bytes. An update with an id whose
  -- common prefix with the store's has less than 8 bits, or all 64, gives such a table again; with
  -- one whose common prefix has from 8 to 63 bits the update panics.
  pub update-AllBuckets :
      (rt : RoutingTable) (n : ℕ)
      → 0 < rt.replication_param
      → length rt.prefix_match_buckets ≡ 8
      → AllBuckets rt.replication_param rt.prefix_match_buckets
      → max_prefix_len rt.d_store_id re.id ≡ some n
      → ((rt' : RoutingTable) × (update alive re rt ≡ some rt')
          × (length rt'.prefix_match_buckets ≡ 8)
          × AllBuckets rt.replication_param rt'.prefix_match_buckets
          × ((n < 8) ⊎ (64 ≤ n)))
        ⊎ ((update alive re rt ≡ none) × (8 ≤ n) × (n < 64))
  unfolding update Put
  update-AllBuckets rt n room eight all prefix = elim (dec_lt n 8) [
    | yes lt ↦
        let k = rt.replication_param in
        let (b, hit, is) = get-AllBuckets k n rt.prefix_match_buckets all (omega arith) in
        let (b', put, is') = update_bucket-Put k b room is in
        inl (
          record rt { prefix_match_buckets = set rt.prefix_match_buckets n b' },
          (rw (update, prefix) (ground (arith, hit, put))),
          length-set rt.prefix_match_buckets n b' ∙ eight,
          set-AllBuckets k n rt.prefix_match_buckets b' all is',
          inl lt,
        )
    | no ge ↦ elim (dec_lt n 64) [
      | yes lt ↦ inr (
        rw (update, prefix) (ground (arith, get_none n rt.prefix_match_buckets (omega arith))),
        omega arith,
        lt,
      )
      | no large ↦ inl (rt, rw (update, prefix) (ground arith), eight, all, inr (omega arith))
    ]
  ]
