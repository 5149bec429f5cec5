-- ===== src/Gossip/Search.antt =====
-- The search requests of gossiper/filesearching.go and gossiper/mainhandler.go: a budget that is
-- shared among the peers.
pub mod Budget
pub mod Local
use dsignal.Base.{
  ℕ, zero, suc, ◌+◌, ◌-◌, ◌/◌, ◌%◌, ◌^◌, Bool, true, false, List, [], ◌∷◌, ◌++◌, length, get_or,
  ltb, ◌==◌, ◌&&◌, if◌then◌else◌,
}
use dsignal.Gossip.Packet.{Addr}
use dsignal.Gossip.Peers.{difference_string}

-- `getRandomPeer`; `draw` is the random number, which `rand.Intn` takes below the length.
abbrev pub get_random_peer : ℕ → List Addr → Addr
get_random_peer draw available = get_or available (draw % length available) []

-- The loop of `forwardSearchRequestWithBudget`: the requests sent, as peer and budget. `draws k` is
-- the random number of the k-th round from the end, and the peers do not change meanwhile.
forward_loop : ℕ → (ℕ → ℕ) → List Addr → List Addr → List Addr → ℕ → ℕ → List (Addr × ℕ)
forward_loop zero draws peers chosen available budget_for_each budget_to_share = []
forward_loop (suc fuel) draws peers chosen [] budget_for_each budget_to_share = []
forward_loop (suc fuel) draws peers chosen (a ∷ available) budget_for_each budget_to_share =
    let random_peer = get_random_peer (draws fuel) (a ∷ available) in
    let chosen' = chosen ++ (random_peer ∷ []) in
    let available' = difference_string peers chosen' in
    let rest =
      forward_loop fuel draws peers chosen' available' budget_for_each (budget_to_share - 1) in
    if budget_to_share == 0 && budget_for_each == 0
    then []
    else if ltb 0 budget_to_share
    then (random_peer, budget_for_each + 1) ∷ rest
    else (random_peer, budget_for_each) ∷ rest

pub forward_search_request_with_budget : (ℕ → ℕ) → List Addr → Addr → ℕ → List (Addr × ℕ)
unfolding forward_loop
forward_search_request_with_budget draws peers sender budget =
    let available = difference_string peers (sender ∷ []) in
    if ltb 0 budget && ltb 0 (length available)
    then forward_loop (length peers) draws peers (sender ∷ []) available (budget / length available)
        (budget % length available)
    else []

-- The decrement of `processSearchRequest` and `searchFilesWithTimeout` on a uint64.
pub spend_one : ℕ → ℕ
spend_one budget = (budget + (2 ^ 64 - 1)) % 2 ^ 64

-- What `processSearchRequest` forwards for a request that is not recent.
pub process_search_request_forwards : (ℕ → ℕ) → List Addr → Addr → ℕ → List (Addr × ℕ)
unfolding spend_one forward_search_request_with_budget
process_search_request_forwards draws peers sender budget =
    forward_search_request_with_budget draws peers sender (spend_one budget)
