-- ===== src/Storage/Lookup.antt =====
-- What `NodeLookUp` and `ValueLookUp` of storage/lookup.go share: the list of contacts, the nodes to ask
-- at once, and what is learnt from an answer.
pub mod Nodes
pub mod Values
pub mod Settled
pub mod Measure
pub mod Answered
pub mod Returns
pub mod Unheld
use dsignal.Base.{
  ℕ, zero, suc, Bool, true, false, Option, none, some, List, [], ◌∷◌, ◌++◌, ◌||◌, Bytes, GoString,
  bytes_dec, length, get_elem?, take, drop, ite, ltb, if◌then◌else◌,
}
use Prim.Native.Nat.{Ordering}
use dsignal.Base.Encode.{hex_encode}
use dsignal.Storage.Bytes.{compare_bytes}
use dsignal.Storage.Table.{RoutingEntry, distance}
use dsignal.Storage.Message.{MessageAddrPair}

-- `DistEntryPair`
pub record Contact : Type 0 where
  pub dist : Bytes
  pub entry : RoutingEntry
  pub contacted : Bool
  pub responded : Bool

-- The list, and the keys of the map, which keeps the contacts that are taken off the list.
pub record Search : Type 0 where
  pub entry_list : List Contact
  pub entry_map : List GoString

-- What comes over the channels: in the `k`-th round from the end the answers to requests sent at once, in
-- the order of their arrival, or the answer to one request. `none` is a request that timed out.
pub record Network : Type 0 where
  pub arrivals : ℕ → List GoString → List (Option MessageAddrPair)
  pub answer : ℕ → GoString → Option MessageAddrPair

unfoldable pub is_known : GoString → List GoString → Bool
is_known k [] = false
is_known k (j ∷ keys) = ite (bytes_dec j k) true (is_known k keys)

unfoldable pub closer : Bytes → Bytes → Bool
closer a b = elim (compare_bytes a b) [ Ordering.lt ↦ true | _ ↦ false ]

unfoldable pub insert_contact : Contact → List Contact → List Contact
insert_contact c [] = c ∷ []
insert_contact c (x ∷ xs) =
    let rest = insert_contact c xs in if closer x.dist c.dist then x ∷ rest else c ∷ x ∷ xs

-- `sort.Slice` by distance, of ids with the length that all ids of the store have.
unfoldable pub sort_contacts : List Contact → List Contact
sort_contacts [] = []
sort_contacts (c ∷ cs) = insert_contact c (sort_contacts cs)

abbrev pub new_contact : Bytes → RoutingEntry → Contact
new_contact id re = record {
  dist = distance id re;
  entry = re;
  contacted = false;
  responded = false;
}

abbrev pub contacts_of : Bytes → List RoutingEntry → List Contact
contacts_of id [] = []
contacts_of id (re ∷ nodes) = new_contact id re ∷ contacts_of id nodes

abbrev keys_of : List RoutingEntry → List GoString
keys_of [] = []
keys_of (re ∷ nodes) = hex_encode re.id ∷ keys_of nodes

abbrev pub start_search : Bytes → List RoutingEntry → Search
start_search id nodes = record {
  entry_list = sort_contacts (contacts_of id nodes);
  entry_map = keys_of nodes;
}

-- The closest contacts that were not asked yet, at most so many, are asked at once.
unfoldable pub contact_closest : ℕ → List Contact → List Contact × List GoString
contact_closest zero cs = (cs, [])
contact_closest (suc alpha) [] = ([], [])
contact_closest (suc alpha) (c ∷ cs) = elim c.contacted [
  | true ↦ let (cs', asked) = contact_closest (suc alpha) cs in (c ∷ cs', asked)
  | false ↦
      let (cs', asked) = contact_closest alpha cs in
      (record c { contacted = true } ∷ cs', c.entry.address ∷ asked)
]

-- A contact of a node answered. The ids of contacts are distinct.
unfoldable pub mark_responded : GoString → List Contact → List Contact
mark_responded key [] = []
mark_responded key (c ∷ cs) =
    ite (bytes_dec (hex_encode c.entry.id) key) (record c { responded = true }) c
    ∷ mark_responded key cs

unfoldable pub add_contact : Bytes → RoutingEntry → Search → Search
add_contact id re s = record {
  entry_list = s.entry_list ++ (new_contact id re ∷ []);
  entry_map = hex_encode re.id ∷ s.entry_map;
}

-- Whether a new node is among the closest; `none` is a panic, when the replication parameter is 0.
unfoldable pub improves : ℕ → Bytes → List Contact → Option Bool
improves zero dist cs = none
improves (suc r) dist cs =
    if ltb (length cs) (suc r)
    then some true
    else elim (get_elem? cs r) [ none ↦ none | some c ↦ some (closer dist c.dist) ]

-- The nodes of an answer in the first phase, and whether one of them was among the closest.
unfoldable pub learn : Bytes → ℕ → List RoutingEntry → Search → Bool → Option (Search × Bool)
learn id replication [] s updated = some (s, updated)
learn id replication (re ∷ nodes) s updated = elim (is_known (hex_encode re.id) s.entry_map) [
  | true ↦ learn id replication nodes s updated
  | false ↦ elim (improves replication (distance id re) s.entry_list) [
    | none ↦ none
    | some better ↦ learn id replication nodes (add_contact id re s) (updated || better)
  ]
]

-- The nodes of an answer in the second phase.
unfoldable pub learn_all : Bytes → List RoutingEntry → Search → Search
learn_all id [] s = s
learn_all id (re ∷ nodes) s =
    learn_all id nodes (if is_known (hex_encode re.id) s.entry_map then s else add_contact id re s)

-- What the second phase does next with the contacts that would be returned.
pub data Next : Type 0 where
  settled : Next
  -- it was asked and did not answer
  remove_at : ℕ → Next
  ask_at : ℕ → GoString → Next

unfoldable pub next_contact : ℕ → List Contact → ℕ → Next
next_contact zero cs k = settled
next_contact (suc r) [] k = settled
next_contact (suc r) (c ∷ cs) k = elim c.contacted [
  | false ↦ ask_at k c.entry.address
  | true ↦ elim c.responded [ false ↦ remove_at k | true ↦ next_contact r cs (suc k) ]
]

abbrev pub take_out : ℕ → List Contact → List Contact
take_out k cs = take k cs ++ drop (suc k) cs

unfoldable pub mark_at : ℕ → Bool → List Contact → List Contact
mark_at k answered [] = []
mark_at zero answered (c ∷ cs) =
    record c { contacted = true; responded = c.responded || answered } ∷ cs
mark_at (suc k) answered (c ∷ cs) = c ∷ mark_at k answered cs
