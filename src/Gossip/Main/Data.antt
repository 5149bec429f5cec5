-- ===== src/Gossip/Main/Data.antt =====
-- A request for data and its reply through the loops of gossiper/mainhandler.go.
use dsignal.Base.{
  ℕ, ◌≡◌, refl, ◌∙◌, ap, sym, true, false, none, some, Option-cases, inl, inr, ◌⊎◌, List, [], ◌∷◌,
  ◌++◌, Bytes, GoString, bytes_dec, if_pos, take_append, length, take, replicate,
}
use dsignal.Base.Dict.{Dict, lookup}
use dsignal.Base.Encode.{hex_encode}
use dsignal.Gossip.Packet.{Addr, DataRequest, DataReply, empty_packet}
use dsignal.Gossip.Routing.{RoutingHandler, forward_private_message}
use dsignal.Gossip.Files.{get_key_from_string, check_hash, among_names}
use dsignal.Gossip.Main.{
  given, refused, panicked, sent_on, process_data_request, process_data_reply,
}

-- The reply of the node `peer` to a node's request.
abbrev pub reply_from : GoString → ℕ → Dict GoString Bytes → DataRequest → DataReply
reply_from peer hop_limit held request = record {
  origin = peer;
  destination = request.origin;
  hop_limit = hop_limit;
  hash_value = request.hash_value;
  payload = lookup bytes_dec (hex_encode request.hash_value) held;
}

process_data_request_own :
    (hop_limit : ℕ) (held : Dict GoString Bytes) (r : RoutingHandler) (request : DataRequest)
    (hops : ℕ) (address : Addr)
    → forward_private_message r hop_limit request.origin ≡ (hops, some address)
    → process_data_request request.destination hop_limit held r request
      ≡ (
        address,
        record empty_packet {
          data_reply = some (reply_from request.destination hops held request);
        },
      )
        ∷ []
unfolding process_data_request
process_data_request_own hop_limit held r request hops address route =
    if_pos (bytes_dec request.destination request.destination) refl _ _
    ∙ ap
        (λ o. sent_on o (λ n. record empty_packet {
          data_reply = some (reply_from request.destination n held request);
        }))
        route

module _ (sha256 : Bytes → Bytes) where
  check_hash-sha256 :
      (payload : Bytes)
      → length (sha256 payload) ≡ 32
      → check_hash sha256 (sha256 payload) payload ≡ true
  unfolding check_hash
  check_hash-sha256 payload size =
      if_pos (bytes_dec (take 32 (sha256 payload ++ replicate 32 0)) (sha256 payload))
        (ap (λ (n : ℕ). take n (sha256 payload ++ replicate 32 0)) (sym size)
          ∙ take_append (sha256 payload) (replicate 32 0))
        true false

  -- At the node that asked, with the channel open.
  process_data_reply_own :
      (name : GoString) (channels : List GoString) (r : RoutingHandler) (reply : DataReply)
      (payload : Bytes)
      → reply.destination ≡ name
      → among_names
          (get_key_from_string sha256 (hex_encode reply.hash_value ++ reply.origin))
          channels
        ≡ true
      → reply.payload ≡ some payload
      → check_hash sha256 reply.hash_value payload ≡ true
      → process_data_reply sha256 name channels r reply
        ≡ given (get_key_from_string sha256 (hex_encode reply.hash_value ++ reply.origin)) reply
  unfolding process_data_reply
  process_data_reply_own name channels r reply payload mine open_channel found good =
      if_pos (bytes_dec reply.destination name) mine _ _ ∙ simp (found, good, open_channel)

  process_data_reply_empty :
      (name : GoString) (channels : List GoString) (r : RoutingHandler) (reply : DataReply)
      → reply.destination ≡ name
      → reply.payload ≡ none
      → process_data_reply sha256 name channels r reply ≡ refused
  unfolding process_data_reply
  process_data_reply_empty name channels r reply mine missing =
      if_pos (bytes_dec reply.destination name) mine _ _ ∙ rw missing refl

  -- A request reaches a node that keeps its data under their hashes, and the node's route to the node that
  -- asked starts at some address. Then the node sends one reply there, and this reply, when it is taken by
  -- the node that asked while the channel of the hash and of that node is open, is refused if the node has no
  -- data under the hash, and otherwise is given to that channel, with the data.
  pub process_data_reply-process_data_request :
      (hop_limit : ℕ) (held : Dict GoString Bytes) (r own : RoutingHandler)
      (channels : List GoString) (request : DataRequest) (hops : ℕ) (address : Addr)
      → ((x : Bytes) → length (sha256 x) ≡ 32)
      → ((payload : Bytes)
          → lookup bytes_dec (hex_encode request.hash_value) held ≡ some payload
          → request.hash_value ≡ sha256 payload)
      → forward_private_message r hop_limit request.origin ≡ (hops, some address)
      → among_names
          (get_key_from_string sha256 (hex_encode request.hash_value ++ request.destination))
          channels
        ≡ true
      → (reply : DataReply) × (process_data_request request.destination hop_limit held r request
          ≡ (address, record empty_packet { data_reply = some reply }) ∷ [])
        × ((lookup bytes_dec (hex_encode request.hash_value) held ≡ none)
              × (process_data_reply sha256 request.origin channels own reply ≡ refused)
            ⊎ (payload : Bytes) × (lookup bytes_dec (hex_encode request.hash_value) held
                ≡ some payload)
              × (reply.payload ≡ some payload)
              × (process_data_reply sha256 request.origin channels own reply
                  ≡ given
                      (get_key_from_string sha256
                        (hex_encode request.hash_value ++ request.destination))
                      reply))
  process_data_reply-process_data_request hop_limit held r own channels request hops address size32
        named route open_channel =
      let reply = reply_from request.destination hops held request in
      let sent = process_data_request_own hop_limit held r request hops address route in
      elim (Option-cases (lookup bytes_dec (hex_encode request.hash_value) held)) [
        | inl missing ↦ (
          reply,
          sent,
          inl (missing, process_data_reply_empty request.origin channels own reply refl missing),
        )
        | inr (payload, found) ↦ (
          reply,
          sent,
          inr (
            payload,
            found,
            found,
            process_data_reply_own request.origin channels own reply payload refl open_channel found
                (ap (λ h. check_hash sha256 h payload) (named payload found)
                  ∙ check_hash-sha256 payload (size32 payload)),
          ),
        )
      ]

  -- A reply to the node, with data that have its hash, for which no channel was ever opened, stops the loop
  -- with a panic.
  process_data_reply_unsolicited :
      (name : GoString) (channels : List GoString) (r : RoutingHandler) (reply : DataReply)
      (payload : Bytes)
      → reply.destination ≡ name
      → reply.payload ≡ some payload
      → length (sha256 payload) ≡ 32
      → reply.hash_value ≡ sha256 payload
      → among_names
          (get_key_from_string sha256 (hex_encode reply.hash_value ++ reply.origin))
          channels
        ≡ false
      → process_data_reply sha256 name channels r reply ≡ panicked
  unfolding process_data_reply
  process_data_reply_unsolicited name channels r reply payload mine found size32 named closed =
      let good : check_hash sha256 reply.hash_value payload ≡ true =
        ap (λ h. check_hash sha256 h payload) named ∙ check_hash-sha256 payload size32 in
      if_pos (bytes_dec reply.destination name) mine _ _ ∙ rw (found, good, closed) refl
