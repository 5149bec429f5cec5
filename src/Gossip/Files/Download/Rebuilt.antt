-- ===== src/Gossip/Files/Download/Rebuilt.antt =====
-- The loop of a download where each hash leads to its chunk: the buffer is filled with the file.
use mathlib.Core.List.{append_assoc, append-nil}
use dsignal.Base.{
  length-drop, take-append-drop, ℕ, zero, suc, ◌+◌, ◌-◌, ◌*◌, ◌≤◌, ◌<◌, ◌≡◌, ◌≢◌, ◌∙◌, ◌⊎◌, refl,
  sym, ap, true, Option, none, some, List, [], ◌∷◌, ◌++◌, Bytes, GoString, bytes_dec, length,
  length-append, length-take, take, drop, take_append, replicate, min, ite, if_neg, Option-cases,
  inl, inr, arith,
}
use dsignal.Base.Dict.{lookup, insert, lookup-insert_self}
use dsignal.Base.Encode.{hex_encode}
use dsignal.Gossip.Files.{
  file_chunk, FileMetadata, FileHandler, load_or_store, MapOrder, block_at, add_chunk, add_owner,
}
use dsignal.Gossip.Files.Download.{
  Replies, Progress, write_at, download_data_from_peer, try_peers, fetch_chunk, chunk_loop,
}
use dsignal.Gossip.Files.Download.Buffer.{
  write_at-replicate, block_at_lem, round_bounds, hashes_of, AllNamed, Agrees, insert-Agrees,
}

module _ (sha256 : Bytes → Bytes) (order : MapOrder) (replies : Replies) (destination : GoString)
    (content : GoString → Option Bytes) where
  -- What a chunk that is held or sent becomes: it is there, and only the chunk map of the file changes.
  abbrev Fetched : Bytes → Bytes → FileMetadata → FileHandler × FileMetadata → Type 0
  Fetched hash c meta r =
      (m : List ℕ) × (r.1 ≡ record meta { chunk_map = m })
      × (lookup bytes_dec (hex_encode hash) r.0.hash_data_map ≡ some c)
      × Agrees content r.0.hash_data_map

  pub download_data_lem :
      (hash c : Bytes) (n : ℕ) (h : FileHandler)
      → replies n destination hash ≡ some c
      → lookup bytes_dec (hex_encode hash) h.hash_data_map ≡ none
      → let r = download_data_from_peer sha256 order replies destination hash n h in
        (r.1 ≡ true)
        × (r.0.hash_data_map ≡ insert bytes_dec (hex_encode hash) c h.hash_data_map)
        × (r.0.files_metadata ≡ h.files_metadata)
  unfolding download_data_from_peer load_or_store
  download_data_lem hash c n h sent miss = ground (arith, sent, miss)

  if_got :
      (h : FileHandler) (hash : Bytes) (i : ℕ) (meta : FileMetadata) (c : Bytes)
      → lookup bytes_dec (hex_encode hash) h.hash_data_map ≡ some c
      → Agrees content h.hash_data_map
      → Fetched hash c meta (
        ite
            (bytes_dec destination destination)
            (record h { chunk_owners = add_owner order destination hash h.chunk_owners })
            h,
        add_chunk order i meta,
      )
  if_got h hash i meta c held agrees =
      elim (bytes_dec destination destination)
        as (λ d. Fetched hash c meta (
          ite d (record h { chunk_owners = add_owner order destination hash h.chunk_owners }) h,
          add_chunk order i meta,
        )) [
          | yes e ↦ ((add_chunk order i meta).chunk_map, refl, held, agrees)
          | no ne ↦ ((add_chunk order i meta).chunk_map, refl, held, agrees)
        ]

  try_peers-Fetched :
      (peers : List GoString) (hash c : Bytes) (i : ℕ) (h : FileHandler) (meta : FileMetadata)
      → content (hex_encode hash) ≡ some c
      → ((k : ℕ) → replies k destination hash ≡ some c)
      → Agrees content h.hash_data_map
      → lookup bytes_dec (hex_encode hash) h.hash_data_map ≡ none
      → Fetched hash c meta
          (try_peers sha256 order replies destination (destination ∷ peers) hash i h meta)
  unfolding try_peers
  try_peers-Fetched peers hash c i h meta named sent agrees miss =
      let (got, held, same) = download_data_lem hash c (i + 1) h (sent (i + 1)) miss in
      rw (got, try_peers)
        (if_got (download_data_from_peer sha256 order replies destination hash (i + 1) h).0 hash i
          meta c (rw held (lookup-insert_self bytes_dec (hex_encode hash) c h.hash_data_map))
          (rw held (insert-Agrees content (hex_encode hash) c h.hash_data_map named agrees)))

  fetch_chunk-Fetched :
      (hash c : Bytes) (i : ℕ) (h : FileHandler) (meta : FileMetadata)
      → destination ≢ []
      → content (hex_encode hash) ≡ some c
      → ((k : ℕ) → replies k destination hash ≡ some c)
      → Agrees content h.hash_data_map
      → Fetched hash c meta (fetch_chunk sha256 order replies destination hash i h meta)
  unfolding fetch_chunk
  fetch_chunk-Fetched hash c i h meta known named sent agrees =
      elim (Option-cases (lookup bytes_dec (hex_encode hash) h.hash_data_map)) [
        | inr (v, hit) ↦
            rw (fetch_chunk, hit)
              (
                meta.chunk_map,
                refl,
                (elim (agrees (hex_encode hash)) [
                  | inl miss ↦ absurd (ground (arith, hit, miss))
                  | inr same ↦ same ∙ named
                ]),
                agrees,
              )
        | inl miss ↦
            rw (fetch_chunk, miss)
              (rw (if_neg (bytes_dec destination []) known)
                (try_peers-Fetched _ hash c i h meta named sent agrees miss))
      ]

  -- What the rounds from a chunk on come to.
  abbrev Rebuilt : ℕ → Bytes → Progress → Option Progress → Type 0
  Rebuilt total whole p o =
      (q : Progress) × (o ≡ some q)
      × (q.chunks_retrieved ≡ total)
      × (q.meta.chunk_count ≡ p.meta.chunk_count)
      × (q.meta.file_name ≡ p.meta.file_name)
      × (take q.size q.chunks_data ≡ whole)

  chunk_loop_step :
      (rounds i : ℕ) (metafile hash chunk buffer : Bytes) (p : Progress)
      → let r = fetch_chunk sha256 order replies destination hash i p.handler p.meta in
        block_at i metafile ≡ some hash
        → lookup bytes_dec (hex_encode hash) r.0.hash_data_map ≡ some chunk
        → write_at (i * file_chunk) chunk p.chunks_data ≡ some buffer
        → chunk_loop sha256 order replies (suc rounds) i destination metafile p
          ≡ chunk_loop sha256 order replies rounds (i + 1) destination metafile (record {
            handler = r.0;
            meta = r.1;
            chunks_data = buffer;
            chunks_retrieved = p.chunks_retrieved + 1;
            size = p.size + length chunk;
          })
  unfolding chunk_loop
  chunk_loop_step rounds i metafile hash chunk buffer p e held e' =
      rw (chunk_loop, e) (rw held (rw e' refl))

  module _ (size32 : (x : Bytes) → length (sha256 x) ≡ 32) (known : destination ≢ [])
      (served : (k : ℕ) (hash : Bytes) → replies k destination hash ≡ content (hex_encode hash))
      (metafile : Bytes) where
    pub chunk_loop-Rebuilt :
        (rounds i z : ℕ) (payload out pre : Bytes) (p : Progress)
        → AllNamed sha256 content rounds payload
        → Agrees content p.handler.hash_data_map
        → (rounds ≡ 0)
          ⊎ ((length out ≡ i * file_chunk) × (rounds * file_chunk < length payload + file_chunk))
        → length payload ≤ rounds * file_chunk
        → rounds * file_chunk ≤ z
        → length pre ≡ i * 32
        → metafile ≡ pre ++ hashes_of sha256 rounds payload
        → p.chunks_data ≡ out ++ replicate z 0
        → p.size ≡ length out
        → p.chunks_retrieved ≡ i
        → Rebuilt
            (i + rounds)
            (out ++ payload)
            p
            (chunk_loop sha256 order replies rounds i destination metafile p)
    unfolding hashes_of
    chunk_loop-Rebuilt zero i z (b ∷ payload) out pre p named agrees full short room blocks whole
          buffer size count =
        absurd (omega arith)
    chunk_loop-Rebuilt zero i z [] out pre p named agrees full short room blocks whole buffer size
          count =
        (
          p,
          (unfold chunk_loop in refl),
          omega (arith, count),
          refl,
          refl,
          ap (λ (n : ℕ). take n p.chunks_data) size
              ∙ ap (take (length out)) buffer
              ∙ take_append out (replicate z 0)
              ∙ sym (append-nil out),
        )
    chunk_loop-Rebuilt (suc rounds) i z payload out pre p (name, named) agrees (inl no_rounds) short
          room blocks whole buffer size count =
        absurd (omega arith)
    chunk_loop-Rebuilt (suc rounds) i z payload out pre p (name, named) agrees (inr (at, full))
          short room blocks whole buffer size count =
        let part = take file_chunk payload in
        let hash = sha256 part in
        let rest = hashes_of sha256 rounds (drop file_chunk payload) in
        let (m, changed, held, agrees') =
          fetch_chunk-Fetched hash part i p.handler p.meta known name (λ k. served k hash ∙ name)
            agrees in
        let part_size : length part ≡ min file_chunk (length payload) =
          length-take file_chunk payload in
        let rest_size : length (drop file_chunk payload) ≡ length payload - file_chunk =
          length-drop file_chunk payload in
        let (full', short', room', fits) =
          round_bounds rounds i z (length payload) (length out) (length part) part_size at full
            short room in
        let (q, done, total, same_count, same_name, all) =
          chunk_loop-Rebuilt rounds (i + 1) (z - length part) (drop file_chunk payload)
            (out ++ part) (pre ++ hash)
            (record {
              handler = (fetch_chunk sha256 order replies destination hash i p.handler p.meta).0;
              meta = (fetch_chunk sha256 order replies destination hash i p.handler p.meta).1;
              chunks_data = (out ++ part) ++ replicate (z - length part) 0;
              chunks_retrieved = p.chunks_retrieved + 1;
              size = p.size + length part;
            })
            named agrees'
            (elim full' [
              | inl last ↦ inl last
              | inr (at', more) ↦ inr (length-append out part ∙ at', omega (arith, more, rest_size))
            ])
            (omega (arith, short', rest_size)) room'
            (omega (arith, length-append pre hash, size32 part))
            (whole ∙ sym (append_assoc pre hash rest)) refl
            (omega (arith, length-append out part, size)) (omega (arith, count)) in
        (
          q,
          chunk_loop_step rounds i metafile hash part
                ((out ++ part) ++ replicate (z - length part) 0) p
                (ap (block_at i) whole ∙ block_at_lem i pre hash rest blocks (size32 part)) held
                (ap (write_at (i * file_chunk) part) buffer
                  ∙ write_at-replicate (i * file_chunk) z out part at fits)
              ∙ done,
          omega (arith, total),
          same_count ∙ ap (λ (x : FileMetadata). x.chunk_count) changed,
          same_name ∙ ap (λ (x : FileMetadata). x.file_name) changed,
          all
              ∙ append_assoc out part (drop file_chunk payload)
              ∙ ap (◌++◌ out) (take-append-drop file_chunk payload),
        )
