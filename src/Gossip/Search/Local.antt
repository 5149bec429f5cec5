-- ===== src/Gossip/Search/Local.antt =====
-- The search requests and results of gossiper/filesearching.go at one node. A time is in nanoseconds, and
-- regular expressions are a parameter.
use dsignal.Base.{
  ℕ, ◌+◌, Bool, true, false, not, ◌&&◌, ◌||◌, Option, none, some, List, [], ◌∷◌, ◌++◌, Bytes,
  GoString, bytes_dec, length, ltb, ◌==◌, if◌then◌else◌,
}
use dsignal.Base.Dict.{Dict, lookup, insert}
use dsignal.Base.Encode.{hex_encode}
use dsignal.Gossip.Packet.{SearchRequest, SearchResult}
use dsignal.Gossip.Files.{
  FileMetadata, FileHandler, MapOrder, load_or_store, get_key_from_string, update_chunk_map,
  update_chunk_owner_map, check_all_chunks_location,
}
use dsignal.Gossip.Files.Download.{Replies, download_data_from_peer}

abbrev pub search_request_duplicate_timeout : ℕ
search_request_duplicate_timeout = 500_000_000

abbrev pub match_threshold : ℕ
match_threshold = 2

-- Strings in the order of their bytes.
unfoldable pub string_before : GoString → GoString → Bool
string_before [] t = true
string_before (a ∷ s) [] = false
string_before (a ∷ s) (b ∷ t) =
    let rest = string_before s t in if ltb a b then true else if ltb b a then false else rest

unfoldable pub insert_string : GoString → List GoString → List GoString
insert_string s [] = s ∷ []
insert_string s (t ∷ ts) =
    let rest = insert_string s ts in if string_before s t then s ∷ t ∷ ts else t ∷ rest

-- `sort.Strings`
unfoldable pub sort_strings : List GoString → List GoString
sort_strings [] = []
sort_strings (s ∷ ss) = insert_string s (sort_strings ss)

abbrev joined : List GoString → GoString
joined [] = []
joined (s ∷ ss) = s ++ joined ss

-- The identifier of a request.
abbrev pub request_key : (Bytes → Bytes) → SearchRequest → GoString
request_key sha256 request =
    get_key_from_string sha256 (request.origin ++ joined (sort_strings request.keywords))

-- The zero time of a key that is missing is long ago.
unfoldable pub is_recent_search_request :
    (Bytes → Bytes) → ℕ → SearchRequest → FileHandler → FileHandler × Bool
is_recent_search_request sha256 now request h =
    let key = request_key sha256 request in
    let taken = record h {
      last_search_requests = insert bytes_dec key now h.last_search_requests;
    } in
    elim (lookup bytes_dec key h.last_search_requests) [
      | none ↦ (taken, false)
      | some stored ↦
          if ltb (stored + search_request_duplicate_timeout) now then (taken, false) else (h, true)
    ]

starts_with : GoString → GoString → Bool
starts_with [] t = true
starts_with (a ∷ s) [] = false
starts_with (a ∷ s) (b ∷ t) = let rest = starts_with s t in if a == b then rest else false

-- `strings.Contains`
unfoldable pub contains_string : GoString → GoString → Bool
unfolding starts_with
contains_string [] s = starts_with s []
contains_string (b ∷ t) s = let rest = contains_string t s in starts_with s (b ∷ t) || rest

-- `containsKeyword`; `matches` is `regexp.MatchString`.
unfoldable pub contains_keyword : (GoString → GoString → Bool) → GoString → List GoString → Bool
contains_keyword matches file_name [] = false
contains_keyword matches file_name (k ∷ keywords) =
    let rest = contains_keyword matches file_name keywords in
    (matches k file_name || contains_string file_name k) || rest

-- The files whose chunks are known, in the order in which Go walks the map.
unfoldable pub search_matching_local_files :
    (GoString → GoString → Bool) → List GoString → Dict GoString FileMetadata → List SearchResult
search_matching_local_files matches keywords [] = []
search_matching_local_files matches keywords ((k, meta) ∷ files) =
    let rest = search_matching_local_files matches keywords files in
    if contains_keyword matches meta.file_name keywords && not (length meta.chunk_map == 0)
    then record {
      file_name = meta.file_name;
      metafile_hash = meta.metafile_hash;
      chunk_map = meta.chunk_map;
      chunk_count = meta.chunk_count;
    }
      ∷ rest
    else rest

-- The walk of `isFileMatchThresholdReached`, with the number of matches before: the files that are not
-- here yet and whose chunks all have an owner. `none` is a panic.
unfoldable pub count_matches :
    (GoString → GoString → Bool)
    → List GoString
    → FileHandler
    → Dict GoString FileMetadata
    → ℕ
    → Option ℕ
count_matches matches keywords h [] n = some n
count_matches matches keywords h ((k, meta) ∷ files) n =
    let next = λ (m : ℕ).
      if m == match_threshold then some m else count_matches matches keywords h files m in
    if contains_keyword matches meta.file_name keywords && meta.size == 0
    then (elim (check_all_chunks_location meta h) [
      | none ↦ none
      | some true ↦ next (n + 1)
      | some false ↦ next n
    ])
    else next n

unfoldable pub is_file_match_threshold_reached :
    (GoString → GoString → Bool) → List GoString → FileHandler → Option Bool
is_file_match_threshold_reached matches keywords h =
    elim (count_matches matches keywords h h.files_metadata 0) [
      | none ↦ none
      | some n ↦ some (n == match_threshold)
    ]

module _ (sha256 : Bytes → Bytes) (order : MapOrder) (replies : Replies) where
  -- The goroutine that gets the metafile of a new result, and what it learns from it. The object of the
  -- metadata is the one under the key.
  unfoldable pub learn_result :
      GoString → GoString → SearchResult → FileMetadata → FileHandler → Option FileHandler
  learn_result key origin res meta h =
      let loaded : Bool = elim (lookup bytes_dec (hex_encode meta.metafile_hash) h.hash_data_map) [
        | none ↦ false
        | some _ ↦ true
      ] in
      let (h', got) =
        if loaded
        then (h, true)
        else download_data_from_peer sha256 order replies origin meta.metafile_hash 0 h in
      if not got
      then some h'
      else elim (lookup bytes_dec (hex_encode meta.metafile_hash) h'.hash_data_map) [
        | none ↦ none
        | some metafile ↦
            elim (update_chunk_owner_map order origin res.chunk_map metafile h'.chunk_owners) [
              | none ↦ none
              | some owners ↦
                  elim (update_chunk_map order meta.chunk_count 0 h'.hash_data_map metafile meta) [
                    | none ↦ none
                    | some meta' ↦ some (record h' {
                      chunk_owners = owners;
                      files_metadata = insert bytes_dec key meta' h'.files_metadata;
                    })
                  ]
            ]
      ]

  -- The key is not hashed, as it is elsewhere. `none` is a panic.
  unfoldable pub handle_search_result : GoString → SearchResult → FileHandler → Option FileHandler
  handle_search_result origin res h =
      let key = hex_encode res.metafile_hash ++ res.file_name in
      let made : FileMetadata = record {
        file_name = res.file_name;
        metafile_hash = res.metafile_hash;
        chunk_count = res.chunk_count;
        chunk_map = [];
        size = 0;
      } in
      let ((meta, loaded), metadata) = load_or_store key made h.files_metadata in
      let h' = record h { files_metadata = metadata } in
      if loaded then some h' else learn_result key origin res meta h'
