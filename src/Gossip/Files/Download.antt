-- ===== src/Gossip/Files/Download.antt =====
-- gossiper/filesharing.go: the download of a file, chunk by chunk.
pub mod Buffer
pub mod Chunks
pub mod Rebuilt
pub mod RoundTrip
use dsignal.Base.{
  ℕ, zero, suc, ◌+◌, ◌*◌, ◌/◌, Bool, true, false, not, Option, none, some, List, [], ◌∷◌, ◌++◌,
  Bytes, GoString, bytes_dec, length, take, drop, replicate, ltb, leb, ◌==◌, if◌then◌else◌, ite,
}
use dsignal.Base.Dict.{Dict, lookup, insert}
use dsignal.Base.Encode.{hex_encode}
use dsignal.Gossip.Files.{
  file_chunk, FileMetadata, FileHandler, load_or_store, MapOrder, block_at, get_key_from_string,
  add_chunk, update_chunk_map, add_owner,
}

-- The data that come over the reply channel before the last timeout, to the request with that number for a
-- hash at a peer.
abbrev pub Replies : Type 0
Replies = ℕ → GoString → Bytes → Option Bytes

-- The object behind the metadata pointer, the buffer, and what was counted.
pub record Progress : Type 0 where
  pub handler : FileHandler
  pub meta : FileMetadata
  pub chunks_data : Bytes
  pub chunks_retrieved : ℕ
  pub size : ℕ

-- `copy(buffer[from:from+len(chunk)], chunk)`; `none` is out of range.
unfoldable pub write_at : ℕ → Bytes → Bytes → Option Bytes
write_at from chunk buffer =
    if leb (from + length chunk) (length buffer)
    then some (take from buffer ++ (chunk ++ drop (from + length chunk) buffer))
    else none

-- What a download comes to.
pub data Downloaded : Type 0 where
  -- no metafile
  gave_up : FileHandler → Downloaded
  -- the metadata have a size, so the file is there, and may have to be copied
  already : FileHandler → Bool → Downloaded
  -- chunks are missing
  incomplete : Progress → Downloaded
  saved : GoString → Bytes → Progress → Downloaded
  panicked : Downloaded

module _ (sha256 : Bytes → Bytes) (order : MapOrder) (replies : Replies) where
  -- The channel is kept, and the data that came first.
  unfoldable pub download_data_from_peer : GoString → Bytes → ℕ → FileHandler → FileHandler × Bool
  download_data_from_peer peer hash seq_num h =
      let h' = record h {
        hash_channels = get_key_from_string sha256 (hex_encode hash ++ peer) ∷ h.hash_channels;
      } in
      elim (replies seq_num peer hash) [
        | none ↦ (h', false)
        | some payload ↦ (
          record h' { hash_data_map = (load_or_store (hex_encode hash) payload h.hash_data_map).1 },
          true,
        )
      ]

  -- The peers are tried one after the other.
  unfoldable pub try_peers :
      GoString → List GoString → Bytes → ℕ → FileHandler → FileMetadata → FileHandler × FileMetadata
  try_peers destination [] hash i h meta = (h, meta)
  try_peers destination (peer ∷ peers) hash i h meta =
      let (h', got) = download_data_from_peer peer hash (i + 1) h in
      let rest = try_peers destination peers hash i h' meta in
      let owned =
        ite (bytes_dec peer destination)
          (record h' { chunk_owners = add_owner order peer hash h'.chunk_owners }) h' in
      if got then (owned, add_chunk order i meta) else rest

  -- The handler and the metadata after a chunk was looked for.
  unfoldable pub fetch_chunk :
      GoString → Bytes → ℕ → FileHandler → FileMetadata → FileHandler × FileMetadata
  fetch_chunk destination hash i h meta =
      elim (lookup bytes_dec (hex_encode hash) h.hash_data_map) [
        | some _ ↦ (h, meta)
        | none ↦
            let owners : List GoString = elim (lookup bytes_dec (hex_encode hash) h.chunk_owners) [
              | none ↦ []
              | some names ↦ names
            ] in
            try_peers destination (ite (bytes_dec destination []) owners (destination ∷ owners))
              hash i h meta
      ]

  -- The rounds of the loop from chunk `i` on.
  unfoldable pub chunk_loop : ℕ → ℕ → GoString → Bytes → Progress → Option Progress
  chunk_loop zero i destination metafile p = some p
  chunk_loop (suc rounds) i destination metafile p = elim (block_at i metafile) [
    | none ↦ none
    | some hash ↦
        let (h, meta) = fetch_chunk destination hash i p.handler p.meta in
        let p' = record p { handler = h; meta = meta } in
        elim (lookup bytes_dec (hex_encode hash) h.hash_data_map) [
          | none ↦ chunk_loop rounds (i + 1) destination metafile p'
          | some chunk ↦ elim (write_at (i * file_chunk) chunk p.chunks_data) [
            | none ↦ none
            | some buffer ↦ chunk_loop rounds (i + 1) destination metafile (record p' {
              chunks_data = buffer;
              chunks_retrieved = p.chunks_retrieved + 1;
              size = p.size + length chunk;
            })
          ]
        ]
  ]

  -- The metadata object is the one under the key.
  abbrev keep_meta : GoString → Progress → Progress
  keep_meta key p = record p {
    handler = record p.handler {
      files_metadata = insert bytes_dec key p.meta p.handler.files_metadata;
    };
  }

  -- The end of `downloadFileChunks`.
  abbrev finish : GoString → Progress → Downloaded
  finish key p =
      if p.meta.chunk_count == p.chunks_retrieved
      then saved p.meta.file_name (take p.size p.chunks_data)
          (keep_meta key (record p { meta = record p.meta { size = p.size } }))
      else incomplete (keep_meta key p)

  -- From the metafile on.
  unfoldable pub download_chunks : GoString → GoString → Bytes → Bytes → FileHandler → Downloaded
  download_chunks name destination meta_hash metafile h =
      let fresh : FileMetadata = record {
        file_name = name;
        metafile_hash = meta_hash;
        chunk_count = length metafile / 32;
        chunk_map = [];
        size = 0;
      } in
      let key = get_key_from_string sha256 (hex_encode meta_hash ++ name) in
      let ((stored, loaded), metadata) = load_or_store key fresh h.files_metadata in
      let h' = record h { files_metadata = metadata } in
      elim (update_chunk_map order stored.chunk_count 0 h.hash_data_map metafile stored) [
        | none ↦ panicked
        | some meta ↦
            if not (meta.size == 0)
            then already (record h { files_metadata = insert bytes_dec key meta metadata })
                (ite (bytes_dec meta.file_name name) false true)
            else elim (chunk_loop meta.chunk_count 0 destination metafile (record {
              handler = h';
              meta = meta;
              chunks_data = replicate (meta.chunk_count * file_chunk) 0;
              chunks_retrieved = 0;
              size = 0;
            })) [ none ↦ panicked | some p ↦ finish key p ]
      ]

  unfoldable pub download_file_chunks : GoString → GoString → Bytes → FileHandler → Downloaded
  download_file_chunks name destination meta_hash h =
      elim (lookup bytes_dec (hex_encode meta_hash) h.hash_data_map) [
        | some metafile ↦ download_chunks name destination meta_hash metafile h
        | none ↦
            let (h', got) = download_data_from_peer destination meta_hash 0 h in
            ite (bytes_dec destination []) (gave_up h) (
              if not got
              then gave_up h'
              else elim (lookup bytes_dec (hex_encode meta_hash) h'.hash_data_map) [
                | none ↦ panicked
                | some metafile ↦ download_chunks name destination meta_hash metafile h'
              ])
      ]
