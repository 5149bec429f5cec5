-- ===== src/Storage/Node.antt =====
-- storage/handlers.go, storage/channel_store.go and the sending of storage/store.go. The log is not
-- modelled; a channel is a number.
use dsignal.Base.{
  ℕ, ◌+◌, Bool, Option, none, some, List, [], ◌∷◌, Bytes, GoString, bytes_dec, length, take, drop,
  ltb, if◌then◌else◌,
}
use dsignal.Base.Dict.{Dict, lookup, insert}
use dsignal.Storage.Bytes.{d_store_id_size}
use dsignal.Storage.Hash.{Sha, get_d_store_id_for_name}
use dsignal.Storage.Chunks.{ChunkStore, new_chunk_store, put, get}
use dsignal.Storage.Table.{RoutingEntry, RoutingTable, new_routing_table, find_k_closest, update}
use dsignal.Storage.Message.{
  DStoreMessage, MessageAddrPair, empty_message, FindValueReply, StoreRequest,
}

-- The table holds the id and the replication parameter.
pub record DStore : Type 0 where
  pub replication_param : ℕ
  pub concurrency_param : ℕ
  pub d_store_id : Bytes
  pub common_name : GoString
  pub address : GoString
  pub routing_table : RoutingTable
  pub chunk_store : ChunkStore
  pub rpc_receiver_store : Dict GoString ℕ

unfoldable pub new_d_store : Sha → GoString → GoString → ℕ → ℕ → DStore
new_d_store sha name addr replication concurrency =
    let id = get_d_store_id_for_name sha addr in
    record {
      replication_param = replication;
      concurrency_param = concurrency;
      d_store_id = id;
      common_name = name;
      address = addr;
      routing_table = new_routing_table id replication;
      chunk_store = new_chunk_store;
      rpc_receiver_store = [];
    }

-- `Init`: the contacts enter the table one by one; `none` is a panic.
unfoldable pub add_contacts : Sha → (GoString → Bool) → List GoString → DStore → Option DStore
add_contacts sha alive [] ds = some ds
add_contacts sha alive (c ∷ contacts) ds =
    elim (update alive (record { id = get_d_store_id_for_name sha c; address = c })
      ds.routing_table) [
        | none ↦ none
        | some rt ↦ add_contacts sha alive contacts (record ds { routing_table = rt })
      ]

-- What a handler starts besides changing the state.
pub data Action : Type 0 where
  -- `Update` of the routing table, in a goroutine of its own
  update_table : RoutingEntry → Action
  send_message : MessageAddrPair → Action
  -- a reply for the request that waits on a channel
  give_reply : ℕ → MessageAddrPair → Action

abbrev pub send_async_reply : DStoreMessage → GoString → DStore → Action
send_async_reply msg addr ds =
    send_message (record { message = record msg { source_id = ds.d_store_id }; address = addr })

-- `rpc_id` is drawn, and `channel` is new.
unfoldable pub send_async_request :
    GoString → ℕ → DStoreMessage → GoString → DStore → DStore × Action
send_async_request rpc_id channel msg addr ds = (
  record ds { rpc_receiver_store = insert bytes_dec rpc_id channel ds.rpc_receiver_store },
  send_message (record {
    message = record msg { source_id = ds.d_store_id; rpc_id = rpc_id };
    address = addr;
  }),
)

unfoldable pub invoke_ping_rpc : GoString → GoString → DStore → List Action
invoke_ping_rpc rpc_id addr ds =
    send_async_reply (record empty_message { rpc_id = rpc_id; ping_reply = some tt }) addr ds ∷ []

unfoldable pub invoke_store_rpc :
    GoString → Bytes → Bytes → GoString → DStore → DStore × List Action
invoke_store_rpc rpc_id key value addr ds =
    let ds' = record ds { chunk_store = put key value ds.chunk_store } in
    let reply = record empty_message {
      rpc_id = rpc_id;
      store_reply = some (record { key = key; value = value });
    } in
    (ds', send_async_reply reply addr ds' ∷ [])

unfoldable pub invoke_find_node_rpc : GoString → Bytes → GoString → DStore → List Action
invoke_find_node_rpc rpc_id to_find addr ds =
    let nodes = find_k_closest to_find ds.replication_param ds.routing_table in
    send_async_reply (record empty_message { rpc_id = rpc_id; find_node_reply = some nodes }) addr
      ds
    ∷ []

-- `none` is a key too short to hold the id of a node.
unfoldable pub find_value_answer : Bytes → DStore → Option FindValueReply
find_value_answer to_find ds = elim (get to_find ds.chunk_store) [
  | some val ↦ some (record { key = to_find; value = some val; nodes = [] })
  | none ↦
      if ltb (length to_find) (2 + d_store_id_size)
      then none
      else some (record {
        key = to_find;
        value = none;
        nodes =
            find_k_closest (take d_store_id_size (drop 2 to_find)) ds.replication_param
              ds.routing_table;
      })
]

unfoldable pub invoke_find_value_rpc : GoString → Bytes → GoString → DStore → Option (List Action)
invoke_find_value_rpc rpc_id to_find addr ds = elim (find_value_answer to_find ds) [
  | none ↦ none
  | some answer ↦ some (
      send_async_reply (record empty_message { rpc_id = rpc_id; find_value_reply = some answer })
        addr ds
      ∷ [])
]

-- A reply to an unknown request is dropped.
unfoldable pub handle_rpc_reply : MessageAddrPair → DStore → List Action
handle_rpc_reply pair ds = elim (lookup bytes_dec pair.message.rpc_id ds.rpc_receiver_store) [
  | none ↦ []
  | some channel ↦ give_reply channel pair ∷ []
]

dispatch :
    Option (Unit {0})
    → Option Bytes
    → Option Bytes
    → Option StoreRequest
    → MessageAddrPair
    → DStore
    → Option (DStore × List Action)
dispatch (some _) target key store pair ds =
    some (ds, invoke_ping_rpc pair.message.rpc_id pair.address ds)
dispatch none (some target) key store pair ds =
    some (ds, invoke_find_node_rpc pair.message.rpc_id target pair.address ds)
dispatch none none (some key) store pair ds =
    elim (invoke_find_value_rpc pair.message.rpc_id key pair.address ds) [
      | none ↦ none
      | some actions ↦ some (ds, actions)
    ]
dispatch none none none (some request) pair ds =
    some (invoke_store_rpc pair.message.rpc_id request.key request.value pair.address ds)
dispatch none none none none pair ds = some (ds, handle_rpc_reply pair ds)

-- One round of `handleIncomingMessages`; `none` is a panic.
unfoldable pub handle_incoming_message : MessageAddrPair → DStore → Option (DStore × List Action)
unfolding dispatch
handle_incoming_message pair ds =
    let m = pair.message in
    elim (dispatch m.ping_request m.find_node_request m.find_value_request m.store_request pair
      ds) [
        | none ↦ none
        | some (ds', actions) ↦
            some (ds', update_table (record { id = m.source_id; address = pair.address }) ∷ actions)
      ]
