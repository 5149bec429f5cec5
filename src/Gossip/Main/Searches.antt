-- ===== src/Gossip/Main/Searches.antt =====
-- A search request and its repetition at one node: `processSearchRequest` of gossiper/mainhandler.go.
use dsignal.Base.{
  ℕ, ◌+◌, ◌-◌, ◌^◌, ◌<◌, ◌≤◌, ◌≡◌, ◌≢◌, refl, Bool, true, false, some, List, [], ◌∷◌, Bytes,
  GoString, bytes_dec, ltb, arith,
}
use dsignal.Base.Dict.{lookup, insert, lookup-insert_self}
use dsignal.Gossip.Packet.{Addr, SearchRequest, ExtendedGossipPacket}
use dsignal.Gossip.Routing.{RoutingHandler}
use dsignal.Gossip.Files.{FileHandler}
use dsignal.Gossip.Peers.{Distinct, difference_string}
use dsignal.Gossip.Search.Local.{
  request_key, is_recent_search_request, search_request_duplicate_timeout,
}
use dsignal.Gossip.Search.Budget.{total, process_search_request_forwards-total}
use dsignal.Gossip.Main.{process_search_request}

module _ (sha256 : Bytes → Bytes) (now : ℕ) (request : SearchRequest) (h : FileHandler) where
  abbrev noted : FileHandler
  noted = record h {
    last_search_requests = insert bytes_dec (request_key sha256 request) now h.last_search_requests;
  }

  recent_cases :
      (is_recent_search_request sha256 now request h).1 ≡ false
      → is_recent_search_request sha256 now request h ≡ (noted, false)
  unfolding is_recent_search_request
  recent_cases new = ground arith

  recent_again :
      (later b : ℕ)
      → later ≤ now + search_request_duplicate_timeout
      → is_recent_search_request sha256 later (record request { budget = b }) noted ≡ (noted, true)
  unfolding is_recent_search_request
  recent_again later b soon =
      let old : ltb (now + search_request_duplicate_timeout) later ≡ false = ground (arith, soon) in
      let kept : lookup bytes_dec (request_key sha256 (record request { budget = b }))
            noted.last_search_requests
          ≡ some now =
        lookup-insert_self bytes_dec (request_key sha256 request) now h.last_search_requests in
      ground (arith, kept, old)

-- A request that is not recent, at a node whose peers are distinct and include one that is not the
-- sender, is noted and passed on: the requests that go out carry one unit less than its budget
-- together, and the largest budget that there is where its budget is 0. The same request with any
-- budget, from any peer, that comes within the timeout changes nothing, and is neither answered nor
-- passed on.
pub process_search_request-total :
    (sha256 : Bytes → Bytes) (matches : GoString → GoString → Bool) (now later : ℕ)
    (name : GoString) (hop_limit : ℕ) (draws draws' : ℕ → ℕ) (peers peers' : List Addr)
    (ext ext' : ExtendedGossipPacket) (request : SearchRequest) (b : ℕ) (r r' : RoutingHandler)
    (h : FileHandler)
    → Distinct peers
    → difference_string peers (ext.sender_addr ∷ []) ≢ []
    → request.budget < 2 ^ 64
    → (is_recent_search_request sha256 now request h).1 ≡ false
    → later ≤ now + search_request_duplicate_timeout
    → (let (h', replies, sent) =
          process_search_request sha256 matches now name hop_limit draws peers ext request r h in
        (0 < request.budget → total sent + 1 ≡ request.budget)
        × (request.budget ≡ 0 → total sent ≡ 2 ^ 64 - 1)
        × (process_search_request sha256 matches later name hop_limit draws' peers' ext'
              (record request { budget = b })
              r'
              h'
            ≡ (h', [], [])))
unfolding process_search_request
process_search_request-total sha256 matches now later name hop_limit draws draws' peers peers' ext
      ext' request b r r' h d other small new soon =
    let (more, none_left) =
      process_search_request_forwards-total draws peers ext.sender_addr request.budget d other
        small in
    rw (recent_cases sha256 now request h new, recent_again sha256 now request h later b soon)
      (more, none_left, refl)
