-- ===== src/Storage/Message.antt =====
-- storage/message.go and `MessageAddrPair` of storage/utils.go.
use dsignal.Base.{ℕ, Option, none, some, List, [], Bytes, GoString}
use dsignal.Storage.Table.{RoutingEntry}

pub record StoreRequest : Type 0 where
  pub key : Bytes
  pub value : Bytes
  pub expiry_time : ℕ
  pub re_publish_time : ℕ

pub record StoreReply : Type 0 where
  pub key : Bytes
  pub value : Bytes

-- `value` is `none` for a nil slice.
pub record FindValueReply : Type 0 where
  pub key : Bytes
  pub value : Option Bytes
  pub nodes : List RoutingEntry

-- Empty structs are units; a request for nodes is its target, one for a value its key, and a reply with
-- nodes is the nodes.
pub record DStoreMessage : Type 0 where
  pub source_id : Bytes
  pub rpc_id : GoString
  pub ping_request : Option (Unit {0})
  pub ping_reply : Option (Unit {0})
  pub find_node_request : Option Bytes
  pub find_node_reply : Option (List RoutingEntry)
  pub store_request : Option StoreRequest
  pub store_reply : Option StoreReply
  pub find_value_request : Option Bytes
  pub find_value_reply : Option FindValueReply

-- The message with no field set.
abbrev pub empty_message : DStoreMessage
empty_message = record {
  source_id = [];
  rpc_id = [];
  ping_request = none;
  ping_reply = none;
  find_node_request = none;
  find_node_reply = none;
  store_request = none;
  store_reply = none;
  find_value_request = none;
  find_value_reply = none;
}

abbrev pub new_ping_request : DStoreMessage
new_ping_request = record empty_message { ping_request = some tt }

abbrev pub new_find_node_request : Bytes → DStoreMessage
new_find_node_request target = record empty_message { find_node_request = some target }

abbrev pub new_store_request : Bytes → Bytes → ℕ → ℕ → DStoreMessage
new_store_request key value te tr = record empty_message {
  store_request =
      some (record { key = key; value = value; expiry_time = te; re_publish_time = tr });
}

abbrev pub new_find_value_request : Bytes → DStoreMessage
new_find_value_request key = record empty_message { find_value_request = some key }

pub record MessageAddrPair : Type 0 where
  pub message : DStoreMessage
  pub address : GoString
