-- ===== src/Gossip/Clock/Storing.antt =====
-- What `storeMessage` records and reports, and a status packet that makes the handler panic.
use dsignal.Base.{
  ℕ, ◌<◌, ◌≡◌, ◌∙◌, inl, inr, Option, none, some, [], ◌∷◌, GoString, bytes_dec, ℕ_discrete, arith,
  Option-cases, ite, if_pos, if_neg,
}
use dsignal.Base.Dict.{lookup, insert, lookup-insert, lookup-insert_self, lookup-insert_ne}
use dsignal.Gossip.Packet.{GossipPacket, PeerStatus, is_set}
use dsignal.Gossip.Clock.{
  Clock, Messages, or_else, messages_of, load_or_store, GossipHandler, store_message, first_needed,
  get_packet_from_peer_status, panics, handle_peer_status,
}
use dsignal.Gossip.Clock.Exchange.{get_packet-messages_of}

-- The packet stored for an origin and an id.
abbrev pub packet_at : GossipHandler → GoString → ℕ → Option GossipPacket
packet_at h o i = lookup ℕ_discrete i (messages_of h.message_storage o)

load_or_store_lem :
    (id i : ℕ) (packet : GossipPacket) (stored : Messages)
    → lookup ℕ_discrete i (load_or_store id packet stored).0
      ≡ ite
          (ℕ_discrete id i)
          (some (or_else (lookup ℕ_discrete id stored) packet))
          (lookup ℕ_discrete i stored)
load_or_store_lem id i packet stored = ground (arith, lookup-insert ℕ_discrete id i packet stored)

module _ (packet : GossipPacket) (origin : GoString) (id : ℕ) (h : GossipHandler) where
  -- Storing reports whether the message was known. It keeps the packet that was first stored under
  -- an origin and an id, and changes nothing else of the storage.
  pub store_message_records :
      ((store_message packet origin id h).1 ≡ is_set (packet_at h origin id))
      × ((o : GoString) (i : ℕ)
          → packet_at (store_message packet origin id h).0 o i
            ≡ ite
                (bytes_dec origin o)
                (ite
                  (ℕ_discrete id i)
                  (some (or_else (packet_at h origin id) packet))
                  (packet_at h o i))
                (packet_at h o i))
  unfolding store_message
  store_message_records =
      let stored = messages_of h.message_storage origin in
      let new : Messages = (load_or_store id packet stored).0 in
      (
        elim (Option-cases (lookup ℕ_discrete id stored)) [
          | inl miss ↦ rw (miss, load_or_store)
          | inr (v, hit) ↦ rw (hit, load_or_store)
        ],
        λ o i. elim (bytes_dec origin o) [
          | yes e ↦
              rw (if_pos (bytes_dec origin o) e, ← e, lookup-insert_self)
                (load_or_store_lem id i packet stored)
          | no ne ↦ rw (
            if_neg (bytes_dec origin o) ne,
            lookup-insert_ne bytes_dec origin o new h.message_storage ne,
          )
        ],
      )

-- A status packet that asks for id 0 of the origin that this node looks at first makes the handler
-- panic, unless a message with id 0 is stored.
pub handle_peer_status_panics :
    (h : GossipHandler) (o : GoString) (n : ℕ) (rest : Clock)
    → h.my_status ≡ (o, n) ∷ rest
    → 0 < n
    → packet_at h o 0 ≡ none
    → handle_peer_status h (record { identifier = o; next_id = 0 } ∷ []) ≡ panics
unfolding handle_peer_status lookup insert
handle_peer_status_panics h o n rest e pos missing =
    let first : first_needed ((o, 0) ∷ []) h.my_status
        ≡ some (record { identifier = o; next_id = 0 }) =
      rw e (ground arith) in
    let asked : PeerStatus = record { identifier = o; next_id = 0 } in
    let got : get_packet_from_peer_status h.message_storage asked ≡ none =
      get_packet-messages_of h.message_storage asked ∙ missing in
    rw (first, handle_peer_status, got)
