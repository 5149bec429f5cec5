-- ===== src/Gossip/Files/Download/RoundTrip.antt =====
-- A file that one node indexed, downloaded from it by another.
use dsignal.Base.{
  ℕ, zero, suc, ◌+◌, ◌-◌, ◌*◌, ◌/◌, ◌≤◌, ◌<◌, ◌≡◌, ◌≢◌, ◌∙◌, refl, sym, ap, Bool, true, Option,
  none, some, List, [], ◌++◌, Bytes, GoString, bytes_dec, length, length-append, take, drop,
  replicate, ◌==◌, if◌then◌else◌, if_neg, Option-cases, inl, inr, arith,
}
use mathlib.Core.Path.{subst, ap₂}
use mathlib.Core.List.{append_assoc}
use dsignal.Base.Dict.{Dict, lookup, insert, lookup-insert_self}
use dsignal.Base.Encode.{hex_encode}
use dsignal.Gossip.Tlc.{Modes}
use dsignal.Gossip.Files.{
  file_chunk, FileMetadata, FileHandler, load_or_store, MapOrder, get_key_from_string, block_at,
  index_loop, index_file, add_chunk, update_chunk_map,
}
use dsignal.Gossip.Files.Download.{
  Replies, Progress, saved, incomplete, keep_meta, download_data_from_peer, chunk_loop,
  download_chunks, download_file_chunks,
}
use dsignal.Gossip.Files.Download.Buffer.{block_at_lem, hashes_of, AllNamed, Agrees, insert-Agrees}
use dsignal.Gossip.Files.Download.Rebuilt.{download_data_lem, chunk_loop-Rebuilt}
use dsignal.Gossip.Files.Download.Chunks.{
  load_or_store-held, load_or_store_new, load_or_store-Kept, NoCollision, index_loop_hashes,
  index_loop-AllNamed,
}

module _ (sha256 : Bytes → Bytes) (order : MapOrder) (replies : Replies)
    (destination name : GoString) (content : GoString → Option Bytes)
    (size32 : (x : Bytes) → length (sha256 x) ≡ 32) (known : destination ≢ [])
    (served : (k : ℕ) (hash : Bytes) → replies k destination hash ≡ content (hex_encode hash)) where
  length-hashes_of :
      (rounds : ℕ) (payload : Bytes) → length (hashes_of sha256 rounds payload) ≡ rounds * 32
  unfolding hashes_of
  length-hashes_of zero payload = omega arith
  length-hashes_of (suc rounds) payload =
      let part = take file_chunk payload in
      omega (
        arith,
        length-append (sha256 part) (hashes_of sha256 rounds (drop file_chunk payload)),
        size32 part,
        length-hashes_of rounds (drop file_chunk payload),
      )

  update_chunk_map_lem :
      (metafile : Bytes) (rounds i : ℕ) (payload pre : Bytes) (d : Dict GoString Bytes)
      (meta : FileMetadata)
      → length pre ≡ i * 32
      → metafile ≡ pre ++ hashes_of sha256 rounds payload
      → (m : List ℕ) × (update_chunk_map order rounds i d metafile meta
          ≡ some (record meta { chunk_map = m }))
  unfolding update_chunk_map hashes_of
  update_chunk_map_lem metafile zero i payload pre d meta e whole = (meta.chunk_map, refl)
  update_chunk_map_lem metafile (suc rounds) i payload pre d meta e whole =
      let hash = sha256 (take file_chunk payload) in
      let rest = hashes_of sha256 rounds (drop file_chunk payload) in
      let block : block_at i metafile ≡ some hash =
        ap (block_at i) whole ∙ block_at_lem i pre hash rest e (size32 (take file_chunk payload)) in
      let later = λ (meta' : FileMetadata).
        update_chunk_map_lem metafile rounds (i + 1) (drop file_chunk payload) (pre ++ hash) d meta'
          (omega (arith, length-append pre hash, size32 (take file_chunk payload)))
          (whole ∙ sym (append_assoc pre hash rest)) in
      elim (Option-cases (lookup bytes_dec (hex_encode hash) d)) [
        | inl miss ↦ let (m, e') = later meta in (m, rw (update_chunk_map, block) (rw miss e'))
        | inr (c, hit) ↦
            let (m, e') = later (add_chunk order i meta) in
            (m, rw (update_chunk_map, block) (rw hit e'))
      ]

  -- The first progress of a download.
  abbrev start_at : Bytes → Bytes → List ℕ → FileHandler → Progress
  start_at meta_hash metafile m h =
      let fresh : FileMetadata = record {
        file_name = name;
        metafile_hash = meta_hash;
        chunk_count = length metafile / 32;
        chunk_map = [];
        size = 0;
      } in
      record {
        handler = record h {
          files_metadata =
              insert bytes_dec (get_key_from_string sha256 (hex_encode meta_hash ++ name)) fresh
                h.files_metadata;
        };
        meta = record fresh { chunk_map = m };
        chunks_data = replicate (length metafile / 32 * file_chunk) 0;
        chunks_retrieved = 0;
        size = 0;
      }

  download_chunks_done :
      (meta_hash metafile payload : Bytes) (m : List ℕ) (h : FileHandler) (q : Progress)
      → let key = get_key_from_string sha256 (hex_encode meta_hash ++ name) in
        let start = start_at meta_hash metafile m h in
        lookup bytes_dec key h.files_metadata ≡ none
        → update_chunk_map order
            (length metafile / 32)
            0
            h.hash_data_map
            metafile
            (record start.meta { chunk_map = [] })
          ≡ some start.meta
        → chunk_loop sha256 order replies (length metafile / 32) 0 destination metafile start
          ≡ some q
        → q.meta.chunk_count ≡ q.chunks_retrieved
        → q.meta.file_name ≡ name
        → take q.size q.chunks_data ≡ payload
        → download_chunks sha256 order replies name destination meta_hash metafile h
          ≡ saved name payload (
              keep_meta sha256 order replies key
                (record q { meta = record q.meta { size = q.size } }))
  unfolding download_chunks
  download_chunks_done meta_hash metafile payload m h q new updated done complete same_name all =
      let key = get_key_from_string sha256 (hex_encode meta_hash ++ name) in
      let stored =
        load_or_store_new key (record (start_at meta_hash metafile m h).meta { chunk_map = [] })
          h.files_metadata new in
      let kept =
        keep_meta sha256 order replies key (record q { meta = record q.meta { size = q.size } }) in
      let whole : (q.meta.chunk_count == q.chunks_retrieved) ≡ true = ground (arith, complete) in
      rw (download_chunks, stored)
        (rw updated (
          rw stored (
            rw done (
              ap
                (λ (t : Bool).
                  if t
                  then saved q.meta.file_name (take q.size q.chunks_data) kept
                  else incomplete (keep_meta sha256 order replies key q))
                whole
              ∙ ap₂ (λ (n : GoString) (b : Bytes). saved n b kept) same_name all))))

  download_chunks_lem :
      (num : ℕ) (payload : Bytes) (meta_hash : Bytes) (h : FileHandler)
      → AllNamed sha256 content num payload
      → length payload ≤ num * file_chunk
      → num * file_chunk < length payload + file_chunk
      → Agrees content h.hash_data_map
      → lookup bytes_dec
          (get_key_from_string sha256 (hex_encode meta_hash ++ name))
          h.files_metadata
        ≡ none
      → (q : Progress) × (download_chunks sha256 order replies name destination meta_hash
            (hashes_of sha256 num payload)
            h
          ≡ saved name payload q)
  download_chunks_lem num payload meta_hash h named enough tight agrees new =
      let key = get_key_from_string sha256 (hex_encode meta_hash ++ name) in
      let metafile = hashes_of sha256 num payload in
      let count : length metafile / 32 ≡ num = omega (arith, length-hashes_of num payload) in
      let fresh : FileMetadata = record {
        file_name = name;
        metafile_hash = meta_hash;
        chunk_count = length metafile / 32;
        chunk_map = [];
        size = 0;
      } in
      let (m, updated) =
        subst
          (λ (n : ℕ).
            (m : List ℕ) × (update_chunk_map order n 0 h.hash_data_map metafile fresh
              ≡ some (record fresh { chunk_map = m })))
          (sym count)
          (update_chunk_map_lem metafile num 0 payload [] h.hash_data_map fresh (omega arith)
            refl) in
      let start : Progress = record {
        handler = record h { files_metadata = insert bytes_dec key fresh h.files_metadata };
        meta = record fresh { chunk_map = m };
        chunks_data = replicate (length metafile / 32 * file_chunk) 0;
        chunks_retrieved = 0;
        size = 0;
      } in
      let (q, done, total, same_count, same_name, all) =
        chunk_loop-Rebuilt sha256 order replies destination content size32 known served metafile num
          0 (num * file_chunk) payload [] [] start named agrees (inr (omega arith, tight)) enough
          (omega arith) (omega arith) refl
          (ap (λ (n : ℕ). replicate {A = ℕ} (n * file_chunk) 0) count) refl refl in
      let done' : chunk_loop sha256 order replies (length metafile / 32) 0 destination metafile
            start
          ≡ some q =
        ap (λ (n : ℕ). chunk_loop sha256 order replies n 0 destination metafile start) count
        ∙ done in
      (
        keep_meta sha256 order replies key (record q { meta = record q.meta { size = q.size } }),
        download_chunks_done meta_hash metafile payload m h q new updated done'
            (same_count ∙ omega (arith, total, count)) same_name all,
      )

module _ (sha256 : Bytes → Bytes) (order : MapOrder) (replies : Replies)
    (name destination : GoString) (meta_hash metafile : Bytes) (h : FileHandler) where
  from_memory :
      lookup bytes_dec (hex_encode meta_hash) h.hash_data_map ≡ some metafile
      → download_file_chunks sha256 order replies name destination meta_hash h
        ≡ download_chunks sha256 order replies name destination meta_hash metafile h
  unfolding download_file_chunks
  from_memory hit = rw (download_file_chunks, hit) refl

  from_peer :
      let r = download_data_from_peer sha256 order replies destination meta_hash 0 h in
      destination ≢ []
      → lookup bytes_dec (hex_encode meta_hash) h.hash_data_map ≡ none
      → r.1 ≡ true
      → lookup bytes_dec (hex_encode meta_hash) r.0.hash_data_map ≡ some metafile
      → download_file_chunks sha256 order replies name destination meta_hash h
        ≡ download_chunks sha256 order replies name destination meta_hash metafile r.0
  unfolding download_file_chunks
  from_peer known miss got hit =
      rw (download_file_chunks, miss)
        (if_neg (bytes_dec destination []) known _ _ ∙ rw got (rw hit refl))

-- A node indexes a file, and no chunk of it and not its metafile meets other data under its hash. Another
-- node downloads it from there: that peer answers each request in time with the data that it has under
-- the hash. What the other node has is what the peer has under the same hash, and it has no metadata of
-- the file. Then the download ends with the file under its name, whole.
pub download_file_chunks-index_file :
    (sha256 : Bytes → Bytes) (order : MapOrder) (replies : Replies) (modes : Modes)
    (destination name : GoString) (payload : Bytes) (server client : FileHandler)
    → let num = (length payload + (file_chunk - 1)) / file_chunk in
      let indexed = index_loop sha256 num payload [] server.hash_data_map in
      let meta_hash = sha256 indexed.0 in
      let held = (index_file sha256 modes name (some payload) server).0.hash_data_map in
      ((x : Bytes) → length (sha256 x) ≡ 32)
      → destination ≢ []
      → NoCollision sha256 num payload server.hash_data_map
      → (load_or_store (hex_encode meta_hash) indexed.0 indexed.1).0.0 ≡ indexed.0
      → ((k : ℕ) (hash : Bytes)
          → replies k destination hash ≡ lookup bytes_dec (hex_encode hash) held)
      → Agrees (λ k. lookup bytes_dec k held) client.hash_data_map
      → lookup bytes_dec
          (get_key_from_string sha256 (hex_encode meta_hash ++ name))
          client.files_metadata
        ≡ none
      → (q : Progress) × (download_file_chunks sha256 order replies name destination meta_hash
            client
          ≡ saved name payload q)
unfolding index_file
download_file_chunks-index_file sha256 order replies modes destination name payload server client
      size32 known clean own served agrees new =
    let num = (length payload + (file_chunk - 1)) / file_chunk in
    let indexed = index_loop sha256 num payload [] server.hash_data_map in
    let metafile = hashes_of sha256 num payload in
    let same : indexed.0 ≡ metafile =
      index_loop_hashes sha256 num payload [] server.hash_data_map in
    let meta_hash = sha256 indexed.0 in
    let key = hex_encode meta_hash in
    let held = (load_or_store key indexed.0 indexed.1).1 in
    let content = λ (k : GoString). lookup bytes_dec k held in
    let here : content key ≡ some indexed.0 =
      load_or_store-held key indexed.0 indexed.1 ∙ ap some own in
    let named =
      index_loop-AllNamed sha256 num payload [] server.hash_data_map held clean
        (load_or_store-Kept key indexed.0 indexed.1) in
    let from_here =
      λ (h : FileHandler) (good : Agrees content h.hash_data_map)
          (fresh : lookup bytes_dec (get_key_from_string sha256 (key ++ name)) h.files_metadata
            ≡ none).
        subst
          (λ (m : Bytes).
            (q : Progress) × (download_chunks sha256 order replies name destination meta_hash m h
              ≡ saved name payload q))
          (sym same)
          (download_chunks_lem sha256 order replies destination name content size32 known served num
            payload meta_hash h named (omega arith) (omega arith) good fresh) in
    elim (Option-cases (lookup bytes_dec key client.hash_data_map)) [
      | inr (v, hit) ↦
          let hit' : lookup bytes_dec key client.hash_data_map ≡ some indexed.0 =
            elim (agrees key) [
              | inl miss ↦ absurd (let clash : some v ≡ none = sym hit ∙ miss in (cc))
              | inr e ↦ e ∙ here
            ] in
          let (q, e) = from_here client agrees new in
          (q, from_memory sha256 order replies name destination meta_hash indexed.0 client hit' ∙ e)
      | inl miss ↦
          let r = download_data_from_peer sha256 order replies destination meta_hash 0 client in
          let (got, held', metas) =
            download_data_lem sha256 order replies destination content meta_hash indexed.0 0 client
              (served 0 meta_hash ∙ here) miss in
          let now : lookup bytes_dec key r.0.hash_data_map ≡ some indexed.0 =
            ap (lookup bytes_dec key) held'
            ∙ lookup-insert_self bytes_dec key indexed.0 client.hash_data_map in
          let (q, e) =
            from_here r.0
              (rw held' (insert-Agrees content key indexed.0 client.hash_data_map here agrees))
              (ap (lookup bytes_dec (get_key_from_string sha256 (key ++ name))) metas ∙ new) in
          (
            q,
            from_peer sha256 order replies name destination meta_hash indexed.0 client known miss
                  got now
                ∙ e,
          )
    ]
