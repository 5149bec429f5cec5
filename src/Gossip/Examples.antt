-- ===== src/Gossip/Examples.antt =====
-- The theorems on the gossip layer at concrete nodes and packets.
mod Blocks
mod Files
use dsignal.Base.{
  inl, if◌then◌else◌, ℕ, ◌+◌, ◌-◌, ◌/◌, ◌^◌, ◌<◌, ◌≡◌, ◌≢◌, refl, ap, get_or, true, false, some,
  List, [], ◌∷◌, GoString, codes, bytes_dec, ℕ_discrete, ite, length, arith,
}
use dsignal.Base.Dict.{lookup}
use dsignal.Gossip.Packet.{
  Addr, ExtendedGossipPacket, PeerStatus, PrivateMessage, SearchRequest, empty_packet, is_set,
}
use dsignal.Gossip.Clock.{
  GossipHandler, create_my_status_packet, store_message, handle_peer_status, panics, or_else,
}
use dsignal.Gossip.Clock.Synced.{IsSynced, store_message-IsSynced}
use dsignal.Gossip.Clock.Exchange.{Answers, handle_peer_status-Answers}
use dsignal.Gossip.Clock.Storing.{packet_at, store_message_records, handle_peer_status_panics}
use dsignal.Gossip.Routing.{
  new_routing_handler, update_routing_table, process_private_message, sent,
}
use dsignal.Gossip.Routing.Freshest.{Arrival, run, Freshest, run-Freshest}
use dsignal.Gossip.Routing.Forward.{Net, travel, lost, Ends, travel-Ends, travel_bounces}
use dsignal.Gossip.Node.{GossipNode, sends_status, mongers, handle_gossip_message}
use dsignal.Gossip.Node.Keeps.{handle_gossip_message-IsSynced}
use dsignal.Gossip.Peers.{contains, difference_string, add_peer, Distinct, add_peer-Distinct}
use dsignal.Gossip.Search.{forward_search_request_with_budget}
use dsignal.Gossip.Search.Local.{is_recent_search_request}
use dsignal.Gossip.Files.{new_file_handler}
use dsignal.Gossip.Main.{process_search_request}
use dsignal.Gossip.Main.Searches.{process_search_request-total}
use dsignal.Gossip.Search.Budget.{total, AllFair, forward_search_request_with_budget_shares}

abbrev alice : GoString
alice = codes "alice"

abbrev bob : GoString
bob = codes "bob"

abbrev carol : GoString
carol = codes "carol"

abbrev new_handler : GossipHandler
new_handler = record { seq_id = 0; message_storage = []; my_status = []; latest_rumors = [] }

new_handler-IsSynced : IsSynced new_handler
unfolding lookup
new_handler-IsSynced = record {
  distinct = tt;
  bounded = λ o i h. absurd (h refl);
  tracked = λ o. record {
    least = record { from = omega arith; unknown = refl; known = λ i p q. absurd (omega arith) };
    two = λ n e. absurd (ground arith);
  };
}

abbrev one_message : GossipHandler
one_message = (store_message empty_packet alice 1 new_handler).0

store_message-IsSynced_example : IsSynced one_message
store_message-IsSynced_example =
    store_message-IsSynced empty_packet alice 1 new_handler (omega arith) new_handler-IsSynced

abbrev asked : List PeerStatus
asked = record { identifier = alice; next_id = 1 } ∷ []

handle_peer_status-Answers_example :
    Answers one_message asked (handle_peer_status one_message asked)
handle_peer_status-Answers_example =
    handle_peer_status-Answers one_message asked
      (store_message-IsSynced empty_packet alice 1 new_handler (omega arith) new_handler-IsSynced)
      (omega arith, tt)

abbrev behind : GossipHandler
behind = record new_handler { my_status = (alice, 2) ∷ [] }

handle_peer_status_panics_example :
    handle_peer_status behind (record { identifier = alice; next_id = 0 } ∷ []) ≡ panics
unfolding lookup
handle_peer_status_panics_example =
    handle_peer_status_panics behind alice 2 [] refl (omega arith) refl

abbrev history : List Arrival
history =
    record { origin = alice; id = 2; address = codes "10.0.0.2:5000" }
    ∷ record { origin = alice; id = 1; address = codes "10.0.0.1:5000" }
    ∷ []

run-Freshest_example :
    Freshest alice history
      (lookup bytes_dec alice (run history).routing_table)
      (lookup bytes_dec alice (run history).origin_last_id)
run-Freshest_example = run-Freshest history alice

abbrev letter : PrivateMessage
letter = record {
  origin = alice;
  id = 1;
  text = codes "hello";
  destination = carol;
  hop_limit = 10;
}

-- Two nodes that send the message back and forth.
abbrev two_nodes : Net
two_nodes =
    (alice, record { name = alice; routing = new_routing_handler })
    ∷ (bob, record { name = bob; routing = new_routing_handler })
    ∷ []

travel-Ends_example : Ends (0 + 10) (travel 11 two_nodes bob alice letter 0)
travel-Ends_example = travel-Ends 11 two_nodes bob alice letter 0 (omega arith)

carol-ne_alice : carol ≢ alice
carol-ne_alice e = absurd (let h : 99 ≡ 97 = ap (λ (s : GoString). get_or s 0 0) e in omega arith)

carol-ne_bob : carol ≢ bob
carol-ne_bob e = absurd (let h : 99 ≡ 98 = ap (λ (s : GoString). get_or s 0 0) e in omega arith)

bob-ne_alice : bob ≢ alice
bob-ne_alice e = absurd (let h : 98 ≡ 97 = ap (λ (s : GoString). get_or s 0 0) e in omega arith)

travel_bounces_example : travel 11 two_nodes bob alice letter 0 ≡ lost (0 + 10)
unfolding lookup bytes_dec ℕ_discrete
travel_bounces_example =
    travel_bounces 11 two_nodes bob alice (record { name = bob; routing = new_routing_handler })
      (record { name = alice; routing = new_routing_handler }) letter 0 (omega arith) bob-ne_alice
      refl refl carol-ne_bob carol-ne_alice (inl refl) (inl refl)

abbrev peers : List Addr
peers = bob ∷ carol ∷ []

forward_search_request_with_budget_shares_example :
    (let sent = forward_search_request_with_budget (λ k. k) peers alice 5 in
      let each = 5 / length (difference_string peers (alice ∷ [])) in
      (total sent ≡ 5) × AllFair each sent)
unfolding contains difference_string bytes_dec ℕ_discrete
forward_search_request_with_budget_shares_example =
    forward_search_request_with_budget_shares (λ k. k) peers alice 5 (refl, (refl, tt))
      (λ e. absurd (let h : 2 ≡ 0 = ap length e in omega arith))

abbrev request : SearchRequest
request = record { origin = alice; budget = 5; keywords = codes "song" ∷ [] }

abbrev from_alice : ExtendedGossipPacket
from_alice = record { packet = empty_packet; sender_addr = alice }

process_search_request-total_example :
    (let (h', replies, forwards) =
        process_search_request
          (λ b. b)
          (λ a b. true)
          7
          bob
          10
          (λ k. k)
          peers
          from_alice
          request
          new_routing_handler
          new_file_handler in
      (0 < 5 → total forwards + 1 ≡ 5)
      × ((let budget : ℕ = 5 in budget ≡ 0) → total forwards ≡ 2 ^ 64 - 1)
      × (process_search_request
            (λ b. b)
            (λ a b. true)
            400_000_000
            bob
            10
            (λ k. k)
            peers
            from_alice
            (record request { budget = 9 })
            new_routing_handler
            h'
          ≡ (h', [], [])))
unfolding contains difference_string bytes_dec ℕ_discrete lookup is_recent_search_request
process_search_request-total_example =
    process_search_request-total (λ b. b) (λ a b. true) 7 400_000_000 bob 10 (λ k. k) (λ k. k) peers
      peers from_alice from_alice request 9 new_routing_handler new_routing_handler new_file_handler
      (refl, (refl, tt)) (λ e. absurd (let h : 2 ≡ 0 = ap length e in omega arith)) (omega arith)
      refl (omega arith)

abbrev node : GossipNode
node = record {
  name = bob;
  address = codes "10.0.0.9:5000";
  gossip_handler = new_handler;
  routing_handler = new_routing_handler;
}

abbrev arriving : ExtendedGossipPacket
arriving = record { packet = empty_packet; sender_addr = codes "10.0.0.1:5000" }

handle_gossip_message-IsSynced_example :
    (let (node', actions) = handle_gossip_message arriving alice 1 node in
      IsSynced node'.gossip_handler
      × (node'.routing_handler
          ≡ update_routing_table alice 1 (codes "10.0.0.1:5000") new_routing_handler)
      × (actions
          ≡ sends_status
              (create_my_status_packet node'.gossip_handler.my_status)
              (codes "10.0.0.1:5000")
            ∷ (if is_set (packet_at new_handler alice 1)
                then []
                else mongers arriving alice 1 ∷ [])))
handle_gossip_message-IsSynced_example =
    handle_gossip_message-IsSynced arriving alice 1 node
      (λ e. absurd (let h : 97 ≡ 98 = ap (λ (s : GoString). get_or s 0 0) e in omega arith))
      (omega arith) new_handler-IsSynced
