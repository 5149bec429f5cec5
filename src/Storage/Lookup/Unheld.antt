-- ===== src/Storage/Lookup/Unheld.antt =====
-- `ValueLookUp` on the answer of a node that does not hold the chunk.
use dsignal.Base.{
  ℕ, suc, ◌+◌, ◌≤◌, ◌≡◌, ◌∙◌, refl, sym, ap, Bool, true, false, Option, none, some, List, [], ◌∷◌,
  Bytes, GoString, length, take, drop, ltb, arith,
}
use dsignal.Base.Encode.{hex_encode}
use dsignal.Storage.Bytes.{d_store_id_size}
use dsignal.Storage.Table.{find_k_closest}
use dsignal.Storage.Chunks.{get}
use dsignal.Storage.Message.{DStoreMessage, MessageAddrPair, FindValueReply, empty_message}
use dsignal.Storage.Node.{DStore, Action, send_message, find_value_answer, invoke_find_value_rpc}
use dsignal.Storage.Lookup.{Search, Network, is_known, start_search, contact_closest}
use dsignal.Storage.Lookup.Values.{panicked, take_value_replies, approach, value_look_up}

-- What a node sends that is asked for a chunk which it does not hold.
abbrev IsUnheldAnswer : DStore → Bytes → GoString → GoString → MessageAddrPair → Type 0
IsUnheldAnswer server key rpc_id asker pair =
    (get key server.chunk_store ≡ none)
    × (invoke_find_value_rpc rpc_id key asker server ≡ some (send_message pair ∷ []))

module _ (server : DStore) (key : Bytes) (rpc_id asker : GoString) where
  abbrev unheld : FindValueReply
  unheld = record {
    key = key;
    value = none;
    nodes =
        find_k_closest (take d_store_id_size (drop 2 key)) server.replication_param
          server.routing_table;
  }

  abbrev unheld_pair : MessageAddrPair
  unheld_pair = record {
    message = record empty_message {
      source_id = server.d_store_id;
      rpc_id = rpc_id;
      find_value_reply = some unheld;
    };
    address = asker;
  }

  invoke_find_value_unheld :
      get key server.chunk_store ≡ none
      → ltb (length key) (2 + d_store_id_size) ≡ false
      → invoke_find_value_rpc rpc_id key asker server ≡ some (send_message unheld_pair ∷ [])
  unfolding invoke_find_value_rpc find_value_answer
  invoke_find_value_unheld miss long = ground (arith, miss, long)

  -- The address is that of the asker in what the node sends, and that of the node in what arrives.
  take_value_unheld :
      (id : Bytes) (replication : ℕ) (from : GoString) (replies : List (Option MessageAddrPair))
      (s : Search) (updated : Bool)
      → is_known (hex_encode server.d_store_id) s.entry_map ≡ true
      → take_value_replies id replication
          (some (record unheld_pair { address = from }) ∷ replies)
          (record { search = s; updated = updated; found_val = none })
        ≡ none
  unfolding take_value_replies
  take_value_unheld id replication from replies s updated known =
      rw (take_value_replies, known) refl

abbrev first_sent : Option (List Action) → DStoreMessage
first_sent (some (send_message pair ∷ actions)) = pair.message
first_sent _ = empty_message

approach_panics :
    (net : Network) (id : Bytes) (replication concurrency fuel : ℕ) (s : Search)
    → take_value_replies id replication
        (net.arrivals fuel (contact_closest concurrency s.entry_list).1)
        (record {
          search = record s { entry_list = (contact_closest concurrency s.entry_list).0 };
          updated = false;
          found_val = none;
        })
      ≡ none
    → approach net id replication concurrency (suc fuel) s ≡ panicked
unfolding approach
approach_panics net id replication concurrency fuel s e = rw (approach, e) refl

-- A client that does not hold a chunk looks for it, under a key that is long enough. If the first answer
-- of the first round is what a node sends that the client knows and that does not hold the chunk either,
-- the look-up panics: that answer has no `FindNodeReply`, from which the nodes are read.
pub value_look_up_unheld :
    (client server : DStore) (net : Network) (fuel : ℕ) (key : Bytes) (rpc_id asker from : GoString)
    (sent : MessageAddrPair) (replies : List (Option MessageAddrPair))
    → let id = take d_store_id_size (drop 2 key) in
      let start =
        start_search id (find_k_closest id client.replication_param client.routing_table) in
      2 + d_store_id_size ≤ length key
      → get key client.chunk_store ≡ none
      → get key server.chunk_store ≡ none
      → invoke_find_value_rpc rpc_id key asker server ≡ some (send_message sent ∷ [])
      → is_known (hex_encode server.d_store_id) start.entry_map ≡ true
      → net.arrivals fuel (contact_closest client.concurrency_param start.entry_list).1
        ≡ some (record sent { address = from }) ∷ replies
      → value_look_up net (suc fuel) key client ≡ panicked
unfolding value_look_up
value_look_up_unheld client server net fuel key rpc_id asker from sent replies long mine theirs
      answer known arrived =
    let id = take d_store_id_size (drop 2 key) in
    let start = start_search id (find_k_closest id client.replication_param client.routing_table) in
    let whole : ltb (length key) (2 + d_store_id_size) ≡ false = ground arith in
    let same : (unheld_pair server key rpc_id asker).message ≡ sent.message =
      ap first_sent
        (sym (invoke_find_value_unheld server key rpc_id asker theirs whole) ∙ answer) in
    let arrived' : net.arrivals fuel (contact_closest client.concurrency_param start.entry_list).1
        ≡ some (record (unheld_pair server key rpc_id asker) { address = from }) ∷ replies =
      arrived
      ∙ ap (λ (m : DStoreMessage). some (record { message = m; address = from }) ∷ replies)
          (sym same) in
    rw (value_look_up, whole)
      (rw mine (
        approach_panics net id client.replication_param client.concurrency_param fuel start (
          ap
            (λ (rs : List (Option MessageAddrPair)).
              take_value_replies id client.replication_param rs (record {
                search = record start {
                  entry_list = (contact_closest client.concurrency_param start.entry_list).0;
                };
                updated = false;
                found_val = none;
              }))
            arrived'
          ∙ take_value_unheld server key rpc_id asker id client.replication_param from replies
              (record start {
                entry_list = (contact_closest client.concurrency_param start.entry_list).0;
              })
              false known)))
