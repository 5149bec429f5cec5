-- ===== src/Storage/Table.antt =====
-- storage/rtable.go: the routing table of the store. A bucket is its linked list, the head first: its
-- `EntryMap` holds the nodes of the list under their ids.
pub mod Bounded
pub mod Updated
use dsignal.Base.{
  ℕ, zero, suc, ◌==◌, Bool, true, false, Option, none, some, List, [], ◌∷◌, ◌++◌, Bytes, GoString,
  bytes_dec, length, take, set, get_elem?, replicate, if◌then◌else◌, ite, leb, ltb,
}
use Prim.Native.Nat.{Ordering}
use dsignal.Storage.Bytes.{d_store_id_size, compare_bytes, xor_distance, max_prefix_len}

pub record RoutingEntry : Type 0 where
  pub id : Bytes
  pub address : GoString

abbrev pub Bucket : Type 0
Bucket = List RoutingEntry

-- With the id and the replication parameter of its store.
pub record RoutingTable : Type 0 where
  pub d_store_id : Bytes
  pub replication_param : ℕ
  pub prefix_match_buckets : List Bucket

-- There are as many buckets as an id has bytes.
abbrev pub new_routing_table : Bytes → ℕ → RoutingTable
new_routing_table id k = record {
  d_store_id = id;
  replication_param = k;
  prefix_match_buckets = replicate d_store_id_size [];
}

-- The entry with the id, and the list without it.
unfoldable pub find_entry : Bytes → Bucket → Option RoutingEntry
find_entry id [] = none
find_entry id (e ∷ b) = let rest = find_entry id b in ite (bytes_dec e.id id) (some e) rest

unfoldable pub remove_entry : Bytes → Bucket → Bucket
remove_entry id [] = []
remove_entry id (e ∷ b) = let rest = remove_entry id b in ite (bytes_dec e.id id) b (e ∷ rest)

-- A full bucket: the head makes room if it does not answer. An empty list is a panic, when the
-- replication parameter is 0. `alive` is `PingNode`.
unfoldable pub replace_head : (GoString → Bool) → RoutingEntry → Bucket → Option Bucket
replace_head alive re [] = none
replace_head alive re (head ∷ b) = some (if alive head.address then head ∷ b else b ++ (re ∷ []))

-- An entry that is known goes to the tail as it was.
unfoldable pub update_bucket : (GoString → Bool) → ℕ → RoutingEntry → Bucket → Option Bucket
update_bucket alive k re b = elim (find_entry re.id b) [
  | some e ↦ some (remove_entry re.id b ++ (e ∷ []))
  | none ↦ if ltb (length b) k then some (b ++ (re ∷ [])) else replace_head alive re b
]

-- `none` is a panic: the index of the bucket is out of range.
unfoldable pub update : (GoString → Bool) → RoutingEntry → RoutingTable → Option RoutingTable
update alive re rt = elim (max_prefix_len rt.d_store_id re.id) [
  | none ↦ some rt
  | some n ↦ if leb 64 n then some rt else elim (get_elem? rt.prefix_match_buckets n) [
    | none ↦ none
    | some b ↦ elim (update_bucket alive rt.replication_param re b) [
      | none ↦ none
      | some b' ↦ some (record rt { prefix_match_buckets = set rt.prefix_match_buckets n b' })
    ]
  ]
]

-- The distance of an id from the target; nil for an id of another length.
abbrev pub distance : Bytes → RoutingEntry → Bytes
distance target e = elim (xor_distance target e.id) [ none ↦ [] | some d ↦ d ]

abbrev pub nearer : Bytes → RoutingEntry → RoutingEntry → Bool
nearer target a b = elim (compare_bytes (distance target a) (distance target b)) [
  | Ordering.lt ↦ true
  | _ ↦ false
]

unfoldable pub insert_near : Bytes → RoutingEntry → List RoutingEntry → List RoutingEntry
insert_near target e [] = e ∷ []
insert_near target e (x ∷ xs) =
    let rest = insert_near target e xs in if nearer target x e then x ∷ rest else e ∷ x ∷ xs

-- `sort.Slice` by distance; entries at one distance may come in any order.
unfoldable pub sort_near : Bytes → List RoutingEntry → List RoutingEntry
sort_near target [] = []
sort_near target (e ∷ es) = insert_near target e (sort_near target es)

unfoldable pub all_entries : List Bucket → List RoutingEntry
all_entries [] = []
all_entries (b ∷ bs) = b ++ all_entries bs

unfoldable pub find_k_closest : Bytes → ℕ → RoutingTable → List RoutingEntry
find_k_closest target k rt = take k (sort_near target (all_entries rt.prefix_match_buckets))
