-- ===== src/Storage/Examples/Lookup.antt =====
-- Look-ups on a concrete network.
use dsignal.Storage.Bytes.{d_store_id_size}
use dsignal.Base.{
  ℕ, ◌≢◌, length, ◌≡◌, refl, none, some, List, [], ◌∷◌, Bytes, GoString, bytes_dec, ℕ_discrete,
  replicate, arith,
}
use dsignal.Base.Dict.{lookup}
use dsignal.Base.Encode.{hex_encode}
use dsignal.Storage.Chunks.{new_chunk_store, get}
use dsignal.Storage.Table.{RoutingEntry, find_k_closest, sort_near, all_entries, insert_near}
use dsignal.Storage.Message.{MessageAddrPair, empty_message}
use dsignal.Storage.Node.{DStore, invoke_find_value_rpc, find_value_answer}
use dsignal.Storage.Lookup.{Network, is_known}
use dsignal.Storage.Lookup.Nodes.{nodes, node_look_up}
use dsignal.Storage.Lookup.Values.{panicked, value_look_up}
use dsignal.Storage.Lookup.Returns.{Answers, Returns, node_look_up-Returns}
use dsignal.Storage.Lookup.Unheld.{value_look_up_unheld}

abbrev far : Bytes
far = replicate 8 9

abbrev near : Bytes
near = replicate 8 5

-- A node that knows one other one.
abbrev node : Bytes → List RoutingEntry → DStore
node id known = record {
  replication_param = 2;
  concurrency_param = 1;
  d_store_id = id;
  common_name = [];
  address = id;
  routing_table = record {
    d_store_id = id;
    replication_param = 2;
    prefix_match_buckets = known ∷ [];
  };
  chunk_store = new_chunk_store;
  rpc_receiver_store = [];
}

abbrev client : DStore
client = node (replicate 8 1) (record { id = far; address = far } ∷ [])

-- Each request is answered by the far node, which tells of the near one.
abbrev told : MessageAddrPair
told = record {
  message = record empty_message {
    source_id = far;
    find_node_reply = some (record { id = near; address = near } ∷ []);
  };
  address = far;
}

abbrev net : Network
net = record { arrivals = λ k asked. some told ∷ []; answer = λ k address. some told }

abbrev all : List GoString
all = hex_encode near ∷ hex_encode far ∷ []

net-Answers : Answers all net
unfolding is_known hex_encode bytes_dec ℕ_discrete
net-Answers = record {
  at_once = λ k asked. ((record { id = near; address = near } ∷ [], refl, (refl, tt)), tt);
  single = λ k address. (record { id = near; address = near } ∷ [], refl, (refl, tt));
}

node_look_up-Returns_example :
    Returns net (replicate 8 4) 2 (node_look_up net 10 (replicate 8 4) client)
    × (length (replicate {A = ℕ} 8 4) ≢ d_store_id_size
        → node_look_up net 10 (replicate 8 4) client ≡ nodes [])
unfolding find_k_closest sort_near all_entries insert_near
node_look_up-Returns_example =
    node_look_up-Returns all net (replicate 8 4) client 10 net-Answers (omega arith) (omega arith)

abbrev server : DStore
server = node far []

abbrev sent : MessageAddrPair
sent = record {
  message = record empty_message {
    source_id = far;
    find_value_reply = some (record { key = replicate 10 4; value = none; nodes = [] });
  };
  address = replicate 8 1;
}

abbrev asked_net : Network
asked_net = record {
  arrivals = λ k asked. some (record sent { address = far }) ∷ [];
  answer = λ k address. none;
}

value_look_up_unheld_example : value_look_up asked_net 1 (replicate 10 4) client ≡ panicked
unfolding is_known get lookup invoke_find_value_rpc find_value_answer find_k_closest sort_near
    all_entries insert_near bytes_dec hex_encode
value_look_up_unheld_example =
    value_look_up_unheld client server asked_net 0 (replicate 10 4) [] (replicate 8 1) far sent []
      (omega arith) refl refl refl refl refl
