-- ===== src/Storage/Examples.antt =====
-- The theorems on ids and on the routing table at concrete ids.
mod Files
mod Lookup
use Prim.Native.Nat.{compare}
use dsignal.Base.{
  ℕ, ◌≡◌, ◌≤◌, ◌<◌, ◌⊎◌, refl, none, some, true, [], ◌∷◌, Bytes, length, replicate, arith,
}
use dsignal.Storage.Bytes.{
  d_store_id_size, compare_bytes, xor_distance, max_prefix_len, prefix_loop,
}
use dsignal.Storage.Bytes.Order.{compare_bytes-value}
use dsignal.Storage.Bytes.Distance.{xor_distance_metric}
use dsignal.Storage.Bytes.Prefix.{IsLongest, max_prefix_len-IsLongest}
use dsignal.Storage.Table.{RoutingEntry, RoutingTable, new_routing_table, update}
use dsignal.Storage.Table.Bounded.{IsBucket}
use dsignal.Storage.Table.Updated.{AllBuckets, update-AllBuckets}

abbrev id1 : Bytes
id1 = 1 ∷ 2 ∷ 3 ∷ 4 ∷ 5 ∷ 6 ∷ 7 ∷ 8 ∷ []

abbrev id2 : Bytes
id2 = 1 ∷ 2 ∷ 3 ∷ 4 ∷ 5 ∷ 6 ∷ 7 ∷ 9 ∷ []

compare_bytes-value_example : compare_bytes (255 ∷ 1 ∷ []) (0 ∷ 2 ∷ []) ≡ compare 511 512
compare_bytes-value_example =
    compare_bytes-value (255 ∷ 1 ∷ []) (0 ∷ 2 ∷ []) (omega arith, (omega arith, tt))
      (omega arith, (omega arith, tt)) refl

max_prefix_len-IsLongest_example :
    (n : ℕ) × (max_prefix_len id1 id2 ≡ some n) × IsLongest id1 id2 64 n
max_prefix_len-IsLongest_example = max_prefix_len-IsLongest id1 id2 refl refl

abbrev id3 : Bytes
id3 = 1 ∷ 2 ∷ 3 ∷ 4 ∷ 5 ∷ 6 ∷ 7 ∷ 136 ∷ []

abbrev neighbour : RoutingEntry
neighbour = record { id = id3; address = 97 ∷ [] }

-- A first entry of an empty table.
update-AllBuckets_example :
    ((rt' : RoutingTable) × (update (λ _. true) neighbour (new_routing_table id1 2) ≡ some rt')
      × (length rt'.prefix_match_buckets ≡ 8)
      × AllBuckets 2 rt'.prefix_match_buckets
      × ((0 < 8) ⊎ (64 ≤ 0)))
    ⊎ ((update (λ _. true) neighbour (new_routing_table id1 2) ≡ none) × (8 ≤ 0) × (0 < 64))
unfolding max_prefix_len prefix_loop
update-AllBuckets_example =
    let empty : IsBucket 2 [] = record { bounded = omega arith; distinct = tt } in
    update-AllBuckets (λ _. true) neighbour (new_routing_table id1 2) 0 (omega arith) refl
      (empty, (empty, (empty, (empty, (empty, (empty, (empty, (empty, tt)))))))) refl
