-- ===== src/Storage/Lookup/Nodes.antt =====
-- `NodeLookUp`.
use dsignal.Base.{
  ℕ, zero, suc, Bool, true, false, Option, none, some, List, [], ◌∷◌, Bytes, length, take, not,
  ◌==◌, if◌then◌else◌,
}
use dsignal.Base.Encode.{hex_encode}
use dsignal.Storage.Bytes.{d_store_id_size}
use dsignal.Storage.Table.{RoutingEntry, find_k_closest}
use dsignal.Storage.Message.{MessageAddrPair}
use dsignal.Storage.Node.{DStore}
use dsignal.Storage.Lookup.{
  Contact, Search, Network, is_known, sort_contacts, start_search, contact_closest, mark_responded,
  learn, learn_all, settled, remove_at, ask_at, next_contact, take_out, mark_at,
}

-- `panicked` is a nil answer that is read.
pub data LookedUp : Type 0 where
  nodes : List RoutingEntry → LookedUp
  panicked : LookedUp
  out_of_fuel : LookedUp

-- The answers to the requests of one round; `none` is a panic.
unfoldable pub take_node_replies :
    Bytes → ℕ → List (Option MessageAddrPair) → Search → Bool → Option (Search × Bool)
take_node_replies id replication [] s updated = some (s, updated)
take_node_replies id replication (none ∷ replies) s updated =
    take_node_replies id replication replies s updated
take_node_replies id replication (some pair ∷ replies) s updated =
    let key = hex_encode pair.message.source_id in
    elim (is_known key s.entry_map) [
      | false ↦ take_node_replies id replication replies s updated
      | true ↦ elim pair.message.find_node_reply [
        | none ↦ none
        | some found ↦
            elim (learn id replication found
              (record s { entry_list = mark_responded key s.entry_list }) updated) [
                | none ↦ none
                | some (s', updated') ↦ take_node_replies id replication replies s' updated'
              ]
      ]
    ]

abbrev pub entries : List Contact → List RoutingEntry
entries [] = []
entries (c ∷ cs) = c.entry ∷ entries cs

module _ (net : Network) (id : Bytes) (replication : ℕ) where
  -- The second phase: until all that would be returned have answered.
  unfoldable pub settle : ℕ → Search → LookedUp
  settle zero s = out_of_fuel
  settle (suc fuel) s = elim (next_contact replication s.entry_list 0) [
    | settled ↦ nodes (entries (take replication s.entry_list))
    | remove_at k ↦ settle fuel (record s { entry_list = sort_contacts (take_out k s.entry_list) })
    | ask_at k address ↦ elim (net.answer fuel address) [
      | none ↦ settle fuel (record s { entry_list = sort_contacts (mark_at k false s.entry_list) })
      | some pair ↦ elim pair.message.find_node_reply [
        | none ↦ panicked
        | some found ↦
            let s' = learn_all id found (record s { entry_list = mark_at k true s.entry_list }) in
            settle fuel (record s' { entry_list = sort_contacts s'.entry_list })
      ]
    ]
  ]

module _ (net : Network) (id : Bytes) (replication concurrency : ℕ) where
  -- The first phase: as long as closer nodes are found.
  unfoldable pub approach : ℕ → Search → LookedUp
  approach zero s = out_of_fuel
  approach (suc fuel) s =
      let (cs, asked) = contact_closest concurrency s.entry_list in
      elim (take_node_replies id replication (net.arrivals fuel asked)
        (record s { entry_list = cs }) false) [
          | none ↦ panicked
          | some (s', updated) ↦
              let sorted = record s' { entry_list = sort_contacts s'.entry_list } in
              elim updated [
                | true ↦ approach fuel sorted
                | false ↦ settle net id replication fuel sorted
              ]
        ]

-- An id of another length has no nodes.
unfoldable pub node_look_up : Network → ℕ → Bytes → DStore → LookedUp
node_look_up net fuel id ds =
    if not (length id == d_store_id_size)
    then nodes []
    else approach net id ds.replication_param ds.concurrency_param fuel
        (start_search id (find_k_closest id ds.replication_param ds.routing_table))
