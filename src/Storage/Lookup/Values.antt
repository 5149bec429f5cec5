-- ===== src/Storage/Lookup/Values.antt =====
-- `ValueLookUp`.
use dsignal.Base.{
  ℕ, zero, suc, ◌+◌, Bool, true, false, Option, none, some, List, [], ◌∷◌, Bytes, GoString, length,
  take, drop, ltb, if◌then◌else◌,
}
use dsignal.Base.Encode.{hex_encode}
use dsignal.Storage.Bytes.{d_store_id_size}
use dsignal.Storage.Table.{find_k_closest}
use dsignal.Storage.Chunks.{get}
use dsignal.Storage.Message.{MessageAddrPair}
use dsignal.Storage.Node.{DStore}
use dsignal.Storage.Lookup.{
  Search, Network, is_known, sort_contacts, start_search, contact_closest, mark_responded, learn,
  learn_all, settled, remove_at, ask_at, next_contact, take_out, mark_at,
}

-- A value and the address that it came from, or the nil value.
pub data LookedUp : Type 0 where
  found : Bytes → GoString → LookedUp
  not_found : LookedUp
  panicked : LookedUp
  out_of_fuel : LookedUp

pub record Round : Type 0 where
  pub search : Search
  pub updated : Bool
  pub found_val : Option (Bytes × GoString)

-- What is noted of an answer before its nodes are read; `none` is a panic.
abbrev answer_value :
    MessageAddrPair → Option (Bytes × GoString) → Option (Option (Bytes × GoString))
answer_value pair before = elim pair.message.find_value_reply [
  | none ↦ none
  | some reply ↦ elim reply.value [ some v ↦ some (some (v, pair.address)) | none ↦ some before ]
]

-- The answers to the requests of one round. Nodes are read from the answer's `FindNodeReply`.
unfoldable pub take_value_replies : Bytes → ℕ → List (Option MessageAddrPair) → Round → Option Round
take_value_replies id replication [] r = some r
take_value_replies id replication (none ∷ replies) r = take_value_replies id replication replies r
take_value_replies id replication (some pair ∷ replies) r =
    let key = hex_encode pair.message.source_id in
    let s = r.search in
    let marked = record s { entry_list = mark_responded key s.entry_list } in
    elim (is_known key s.entry_map) [
      | false ↦ take_value_replies id replication replies r
      | true ↦ elim (answer_value pair r.found_val) [
        | none ↦ none
        | some (some v) ↦
            take_value_replies id replication replies
              (record r { search = marked; found_val = some v })
        | some none ↦ elim pair.message.find_node_reply [
          | none ↦ none
          | some nodes ↦ elim (learn id replication nodes marked r.updated) [
            | none ↦ none
            | some (s', updated') ↦
                take_value_replies id replication replies
                  (record r { search = s'; updated = updated' })
          ]
        ]
      ]
    ]

module _ (net : Network) (id : Bytes) (replication : ℕ) where
  -- The second phase.
  unfoldable pub settle : ℕ → Search → LookedUp
  settle zero s = out_of_fuel
  settle (suc fuel) s = elim (next_contact replication s.entry_list 0) [
    | settled ↦ not_found
    | remove_at k ↦ settle fuel (record s { entry_list = sort_contacts (take_out k s.entry_list) })
    | ask_at k address ↦ elim (net.answer fuel address) [
      | none ↦ settle fuel (record s { entry_list = sort_contacts (mark_at k false s.entry_list) })
      | some pair ↦ elim (answer_value pair none) [
        | none ↦ panicked
        | some (some (v, where_from)) ↦ found v where_from
        | some none ↦ elim pair.message.find_node_reply [
          | none ↦ panicked
          | some nodes ↦
              let s' = learn_all id nodes (record s { entry_list = mark_at k true s.entry_list }) in
              settle fuel (record s' { entry_list = sort_contacts s'.entry_list })
        ]
      ]
    ]
  ]

module _ (net : Network) (id : Bytes) (replication concurrency : ℕ) where
  -- The first phase.
  unfoldable pub approach : ℕ → Search → LookedUp
  approach zero s = out_of_fuel
  approach (suc fuel) s =
      let (cs, asked) = contact_closest concurrency s.entry_list in
      elim (take_value_replies id replication (net.arrivals fuel asked)
        (record { search = record s { entry_list = cs }; updated = false; found_val = none })) [
          | none ↦ panicked
          | some r ↦
              let sorted = record r.search { entry_list = sort_contacts r.search.entry_list } in
              elim r.found_val [
                | some (v, where_from) ↦ found v where_from
                | none ↦ elim r.updated [
                  | true ↦ approach fuel sorted
                  | false ↦ settle net id replication fuel sorted
                ]
              ]
        ]

-- A key that is too short to hold the id of a node is not found.
unfoldable pub value_look_up : Network → ℕ → Bytes → DStore → LookedUp
value_look_up net fuel key ds =
    let id = take d_store_id_size (drop 2 key) in
    if ltb (length key) (2 + d_store_id_size) then not_found else elim (get key ds.chunk_store) [
      | some val ↦ found val ds.address
      | none ↦
          approach net id ds.replication_param ds.concurrency_param fuel
            (start_search id (find_k_closest id ds.replication_param ds.routing_table))
    ]
