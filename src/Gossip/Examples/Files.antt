-- ===== src/Gossip/Examples/Files.antt =====
-- A small file at two concrete nodes.
use dsignal.Base.{
  ◌≡◌, ◌≢◌, refl, ap, some_injective, false, none, some, ◌++◌, ◌⊎◌, inl, [], ◌∷◌, Bytes, GoString,
  bytes_dec, ℕ_discrete, length, replicate, length-replicate,
}
use dsignal.Base.Dict.{lookup, insert}
use dsignal.Base.Encode.{hex_encode}
use dsignal.Gossip.Tlc.{Modes}
use dsignal.Gossip.Files.{
  FileHandler, MapOrder, new_file_handler, index_loop, load_or_store, index_file,
  get_key_from_string, among_names,
}
use dsignal.Gossip.Files.Download.{Replies, Progress, saved, download_file_chunks}
use dsignal.Gossip.Packet.{DataRequest, DataReply, empty_packet}
use dsignal.Gossip.Routing.{RoutingHandler, new_routing_handler, forward_private_message}
use dsignal.Gossip.Main.{given, refused, process_data_request, process_data_reply}
use dsignal.Gossip.Main.Data.{process_data_reply-process_data_request}
use dsignal.Gossip.Files.Download.RoundTrip.{download_file_chunks-index_file}

-- The length of the text, as a hash.
abbrev sum256 : Bytes → Bytes
sum256 x = replicate 32 (length x)

abbrev modes : Modes
modes = record {
  hw3ex2_mode = false;
  hw3ex3_mode = false;
  hw3ex4_mode = false;
  ack_all_mode = false;
  hop_limit = 10;
  stubborn_timeout = 5;
}

abbrev in_order : MapOrder
in_order = record { of_numbers = λ xs. xs; of_names = λ xs. xs }

abbrev peer : GoString
peer = 112 ∷ []

abbrev file : Bytes
file = 1 ∷ 2 ∷ 3 ∷ []

abbrev server : FileHandler
server = (index_file sum256 modes (102 ∷ []) (some file) new_file_handler).0

abbrev replies : Replies
replies k from hash = lookup bytes_dec (hex_encode hash) server.hash_data_map

peer-ne : peer ≢ []
peer-ne e = cc

download_file_chunks-index_file_example :
    (q : Progress) × (download_file_chunks sum256 in_order replies
        (102 ∷ [])
        peer
        (replicate 32 32)
        new_file_handler
      ≡ saved (102 ∷ []) file q)
unfolding index_loop load_or_store lookup insert hex_encode bytes_dec ℕ_discrete
download_file_chunks-index_file_example =
    download_file_chunks-index_file sum256 in_order replies modes peer (102 ∷ []) file
      new_file_handler new_file_handler (λ x. length-replicate 32 (length x)) peer-ne (refl, tt)
      refl (λ k hash. refl) (λ k. inl refl) refl

abbrev asker : GoString
asker = 97 ∷ []

abbrev routes : RoutingHandler
routes = record new_routing_handler { routing_table = (asker, 49 ∷ []) ∷ [] }

abbrev request : DataRequest
request = record { origin = asker; destination = peer; hop_limit = 9; hash_value = sum256 file }

abbrev channel : GoString
channel = get_key_from_string sum256 (hex_encode request.hash_value ++ peer)

process_data_reply-process_data_request_example :
    (reply : DataReply) × (process_data_request peer 10
        ((hex_encode (sum256 file), file) ∷ [])
        routes
        request
      ≡ (49 ∷ [], record empty_packet { data_reply = some reply }) ∷ [])
    × ((lookup bytes_dec (hex_encode (sum256 file)) ((hex_encode (sum256 file), file) ∷ []) ≡ none)
          × (process_data_reply sum256 asker (channel ∷ []) routes reply ≡ refused)
        ⊎ (payload : Bytes) × (lookup bytes_dec
              (hex_encode (sum256 file))
              ((hex_encode (sum256 file), file) ∷ [])
            ≡ some payload)
          × (reply.payload ≡ some payload)
          × (process_data_reply sum256 asker (channel ∷ []) routes reply ≡ given channel reply))
unfolding lookup hex_encode bytes_dec ℕ_discrete forward_private_message among_names
process_data_reply-process_data_request_example =
    process_data_reply-process_data_request sum256 10 ((hex_encode (sum256 file), file) ∷ []) routes
      routes (channel ∷ []) request 9 (49 ∷ []) (λ x. length-replicate 32 (length x))
      (λ payload e. ap sum256 (some_injective e)) refl refl
