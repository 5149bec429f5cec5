-- ===== src/Gossip/Files.antt =====
-- gossiper/filehandler.go and the helpers of gossiper/utils.go and helpers/generalhelpers.go that it uses.
-- sha256 is a parameter. A metadata object is shared by its pointer: it is written back under its key.
pub mod Download
use dsignal.Base.{
  ℕ, zero, suc, ◌+◌, ◌-◌, ◌*◌, ◌/◌, ◌≡◌, Bool, true, false, not, ◌&&◌, ◌||◌, Option, none, some,
  List, [], ◌∷◌, ◌++◌, Bytes, GoString, bytes_dec, ℕ_discrete, length, take, drop, replicate,
  get_or, ltb, leb, ◌==◌, if◌then◌else◌, ite, bytes_dec,
}
use dsignal.Base.Dict.{Dict, lookup, insert}
use dsignal.Base.Encode.{hex_encode}
use dsignal.Gossip.Tlc.{Modes}

abbrev pub file_chunk : ℕ
file_chunk = 8192

pub record FileMetadata : Type 0 where
  pub file_name : GoString
  pub metafile_hash : Bytes
  pub chunk_count : ℕ
  pub chunk_map : List ℕ
  pub size : ℕ

-- The channels that show files are not modelled; of the reply channels, the keys.
pub record FileHandler : Type 0 where
  pub hash_data_map : Dict GoString Bytes
  pub files_metadata : Dict GoString FileMetadata
  pub hash_channels : List GoString
  pub last_search_requests : Dict GoString ℕ
  pub chunk_owners : Dict GoString (List GoString)

abbrev pub new_file_handler : FileHandler
new_file_handler = record {
  hash_data_map = [];
  files_metadata = [];
  hash_channels = [];
  last_search_requests = [];
  chunk_owners = [];
}

-- `LoadOrStore`: what is there then, and whether it was there before.
unfoldable pub load_or_store :
    {V : Type 0} → GoString → V → Dict GoString V → (V × Bool) × Dict GoString V
load_or_store k v d = elim (lookup bytes_dec k d) [
  | some old ↦ ((old, true), d)
  | none ↦ ((v, false), insert bytes_dec k v d)
]

-- `sort.Search`: the search for the first index at which a monotone test holds, between two bounds.
unfoldable pub search_loop : ℕ → (ℕ → Bool) → ℕ → ℕ → ℕ
search_loop zero f i j = i
search_loop (suc fuel) f i j =
    let h = (i + j) / 2 in
    let upper = search_loop fuel f (h + 1) j in
    let lower = search_loop fuel f i h in if ltb i j then (if f h then lower else upper) else i

unfoldable pub insert_to_sort_uint64_slice : List ℕ → ℕ → List ℕ
insert_to_sort_uint64_slice xs el =
    let index = search_loop (suc (length xs)) (λ i. ltb el (get_or xs i 0)) 0 (length xs) in
    take index xs ++ (el ∷ drop index xs)

unfoldable pub among : ℕ → List ℕ → Bool
among x [] = false
among x (y ∷ ys) = if y == x then true else among x ys

distinct_numbers : List ℕ → List ℕ
distinct_numbers [] = []
distinct_numbers (x ∷ xs) = let rest = distinct_numbers xs in if among x xs then rest else x ∷ rest

unfoldable pub among_names : GoString → List GoString → Bool
among_names x [] = false
among_names x (y ∷ ys) = ite (bytes_dec y x) true (among_names x ys)

distinct_names : List GoString → List GoString
distinct_names [] = []
distinct_names (x ∷ xs) =
    let rest = distinct_names xs in if among_names x xs then rest else x ∷ rest

-- The order in which Go walks a map.
pub record MapOrder : Type 0 where
  pub of_numbers : List ℕ → List ℕ
  pub of_names : List GoString → List GoString

unfoldable pub remove_duplicates_from_uint64_slice : MapOrder → List ℕ → List ℕ
unfolding distinct_numbers
remove_duplicates_from_uint64_slice order xs = order.of_numbers (distinct_numbers xs)

unfoldable pub remove_duplicates_from_string_slice : MapOrder → List GoString → List GoString
unfolding distinct_names
remove_duplicates_from_string_slice order xs = order.of_names (distinct_names xs)

-- `metafile[i*32:(i+1)*32]`; `none` is out of range.
unfoldable pub block_at : ℕ → Bytes → Option Bytes
block_at i metafile =
    if leb ((i + 1) * 32) (length metafile) then some (take 32 (drop (i * 32) metafile)) else none

-- What `indexFile` starts for the new metadata.
pub data Indexed : Type 0 where
  publish : FileMetadata → Indexed
  show : FileMetadata → Indexed
  nothing : Indexed

unfoldable pub count_from : ℕ → ℕ → List ℕ
count_from zero i = []
count_from (suc n) i = i ∷ count_from n (i + 1)

module _ (sha256 : Bytes → Bytes) where
  -- `GetKeyFromString`
  abbrev pub get_key_from_string : GoString → GoString
  get_key_from_string text = hex_encode (sha256 text)

  -- `checkHash`: the hash is cut or filled up to 32 bytes.
  unfoldable pub check_hash : Bytes → Bytes → Bool
  check_hash hash payload =
      ite (bytes_dec (take 32 (hash ++ replicate 32 0)) (sha256 payload)) true false

  -- The loop of `indexFile`: the hashes and the data, a round for each chunk.
  unfoldable pub index_loop : ℕ → Bytes → Bytes → Dict GoString Bytes → Bytes × Dict GoString Bytes
  index_loop zero payload hashes d = (hashes, d)
  index_loop (suc rounds) payload hashes d =
      let part = take file_chunk payload in
      let hash = sha256 part in
      index_loop rounds (drop file_chunk payload) (hashes ++ hash)
        (load_or_store (hex_encode hash) part d).1

  -- `none` is a file that cannot be opened.
  unfoldable pub index_file : Modes → GoString → Option Bytes → FileHandler → FileHandler × Indexed
  index_file modes name none h = (h, nothing)
  index_file modes name (some payload) h =
      let num_file_chunks = (length payload + (file_chunk - 1)) / file_chunk in
      let (hashes, d) = index_loop num_file_chunks payload [] h.hash_data_map in
      let metahash = sha256 hashes in
      let key_hash = hex_encode metahash in
      let made : FileMetadata = record {
        file_name = name;
        metafile_hash = metahash;
        chunk_count = num_file_chunks;
        chunk_map = count_from num_file_chunks 1;
        size = length payload;
      } in
      let ((meta, loaded), metadata) =
        load_or_store (get_key_from_string (key_hash ++ name)) made h.files_metadata in
      let h' = record h {
        hash_data_map = (load_or_store key_hash hashes d).1;
        files_metadata = metadata;
      } in
      (
        h',
        if (modes.hw3ex2_mode || modes.hw3ex3_mode) && not loaded || modes.hw3ex4_mode
            then publish meta
            else if loaded
            then nothing
            else show meta,
      )

module _ (order : MapOrder) where
  -- One more chunk that is at hand.
  abbrev pub add_chunk : ℕ → FileMetadata → FileMetadata
  add_chunk i meta = record meta {
    chunk_map =
        remove_duplicates_from_uint64_slice order
          (insert_to_sort_uint64_slice meta.chunk_map (i + 1));
  }

  -- The rounds of `updateChunkMap` from `i` on; `none` is a metafile that is too short.
  unfoldable pub update_chunk_map :
      ℕ → ℕ → Dict GoString Bytes → Bytes → FileMetadata → Option FileMetadata
  update_chunk_map zero i d metafile meta = some meta
  update_chunk_map (suc rounds) i d metafile meta = elim (block_at i metafile) [
    | none ↦ none
    | some hash_chunk ↦
        update_chunk_map rounds (i + 1) d metafile
          (elim (lookup bytes_dec (hex_encode hash_chunk) d) [
            | none ↦ meta
            | some _ ↦ add_chunk i meta
          ])
  ]

  abbrev pub add_owner :
      GoString → Bytes → Dict GoString (List GoString) → Dict GoString (List GoString)
  add_owner peer chunk_hash owners =
      let key = hex_encode chunk_hash in
      let before : List GoString = elim (lookup bytes_dec key owners) [
        | none ↦ []
        | some names ↦ names
      ] in
      insert bytes_dec key (remove_duplicates_from_string_slice order (before ++ (peer ∷ [])))
        owners

  -- A chunk number 0 is out of range, as is one that is too high.
  unfoldable pub update_chunk_owner_map :
      GoString
      → List ℕ
      → Bytes
      → Dict GoString (List GoString)
      → Option (Dict GoString (List GoString))
  update_chunk_owner_map destination [] metafile owners = some owners
  update_chunk_owner_map destination (zero ∷ chunk_map) metafile owners = none
  update_chunk_owner_map destination (suc elem ∷ chunk_map) metafile owners =
      elim (block_at elem metafile) [
        | none ↦ none
        | some chunk_hash ↦
            update_chunk_owner_map destination chunk_map metafile
              (add_owner destination chunk_hash owners)
      ]

-- The rounds of `checkAllChunksLocation` from `i` on.
unfoldable pub all_located : ℕ → ℕ → Bytes → Dict GoString (List GoString) → Option Bool
all_located zero i metafile owners = some true
all_located (suc rounds) i metafile owners = elim (block_at i metafile) [
  | none ↦ none
  | some hash ↦ elim (lookup bytes_dec (hex_encode hash) owners) [
    | none ↦ some false
    | some [] ↦ some false
    | some (_ ∷ _) ↦ all_located rounds (i + 1) metafile owners
  ]
]

unfoldable pub check_all_chunks_location : FileMetadata → FileHandler → Option Bool
check_all_chunks_location meta h =
    elim (lookup bytes_dec (hex_encode meta.metafile_hash) h.hash_data_map) [
      | none ↦ some false
      | some metafile ↦ all_located meta.chunk_count 0 metafile h.chunk_owners
    ]
