-- ===== src/Storage/Files.antt =====
-- `StoreFile` and `RetrieveFile` of storage/store.go.
pub mod Blocks
pub mod Unchecked
use dsignal.Base.{
  ℕ, zero, suc, ◌+◌, ◌≡◌, Bool, Option, none, some, List, [], ◌∷◌, ◌++◌, Bytes, AllBytes, bytes_dec,
  length, get_elem?, take, drop, ltb, leb, ◌==◌, if◌then◌else◌, ite,
}
use dsignal.Storage.Hash.{Sha, hash_length, get_hash}

-- What `StoreFile` and `RetrieveFile` call, as a parameter: `storeChunk` and `ValueLookUp`, where they
-- return. What a look-up changes in the routing tables does not show.
pub record ChunkNetwork : Type 1 where
  pub State : Type 0
  pub store_chunk : Bytes → Bytes → State → State
  pub value_look_up : Bytes → State → Option Bytes

abbrev pub chunk_size : ℕ
chunk_size = 4096

abbrev pub type_basic_file : ℕ
type_basic_file = 0

abbrev pub type_meta_file : ℕ
type_meta_file = 1

-- The key of a chunk: the type of the file, the type of the hash, and the hash.
abbrev pub key_of_chunk : Sha → ℕ → ℕ → Bytes → Bytes
key_of_chunk sha hash_type file_type chunk = file_type ∷ hash_type ∷ get_hash sha chunk hash_type

-- `panicked` is an index or a slice out of range, `missing` a nil result.
pub data Retrieved : Type 0 where
  found : Bytes → Retrieved
  missing : Retrieved
  panicked : Retrieved
  out_of_fuel : Retrieved

module _ (sha : Sha) (net : ChunkNetwork) where
  -- The loop of `StoreFile` over the chunks, with a round for each: the metafile and the network.
  unfoldable pub store_loop : ℕ → ℕ → ℕ → Bytes → Bytes → net.State → Bytes × net.State
  store_loop zero hash_type file_type payload meta_file s = (meta_file, s)
  store_loop (suc rounds) hash_type file_type [] meta_file s = (meta_file, s)
  store_loop (suc rounds) hash_type file_type (b ∷ payload) meta_file s =
      let chunk = take chunk_size (b ∷ payload) in
      let key = key_of_chunk sha hash_type file_type chunk in
      store_loop rounds hash_type file_type (drop chunk_size (b ∷ payload)) (meta_file ++ key)
        (net.store_chunk key chunk s)

  -- `none` is an unknown hash type, which is a panic, or no fuel.
  unfoldable pub store_file : ℕ → Bytes → ℕ → ℕ → net.State → Option (Bytes × net.State)
  store_file zero payload hash_type file_type s = none
  store_file (suc fuel) payload hash_type file_type s = elim (get_elem? hash_length hash_type) [
    | none ↦ none
    | some _ ↦
        let (meta_file, s') = store_loop (length payload) hash_type file_type payload [] s in
        let again = store_file fuel meta_file hash_type type_meta_file s' in
        if ltb (length meta_file) chunk_size
        then (let meta_hash = key_of_chunk sha hash_type type_meta_file meta_file in
            some (meta_hash, net.store_chunk meta_hash meta_file s'))
        else again
  ]

  -- The loop of `RetrieveFile` over the blocks, with a round for each. A last block that is not whole
  -- is out of range, as it is where the capacity of the slice is its length.
  unfoldable pub retrieve_loop : ℕ → ℕ → Bytes → Bytes → net.State → Retrieved
  retrieve_loop zero hash_block meta_hash res s = found res
  retrieve_loop (suc rounds) hash_block [] res s = found res
  retrieve_loop (suc rounds) hash_block (b ∷ meta_hash) res s =
      if ltb (length (b ∷ meta_hash)) hash_block
      then panicked
      else elim (net.value_look_up (take hash_block (b ∷ meta_hash)) s) [
        | none ↦ missing
        | some temp ↦
            retrieve_loop rounds hash_block (drop hash_block (b ∷ meta_hash)) (res ++ temp) s
      ]

  unfoldable pub retrieve_file : ℕ → Bytes → net.State → Retrieved
  retrieve_file zero meta_hash s = out_of_fuel
  retrieve_file (suc fuel) [] s = panicked
  retrieve_file (suc fuel) (b ∷ []) s = panicked
  retrieve_file (suc fuel) (file_type ∷ hash_type ∷ hash) s =
      elim (get_elem? hash_length hash_type) [
        | none ↦ panicked
        | some n ↦
            elim (retrieve_loop (suc (suc (length hash))) (2 + n) (file_type ∷ hash_type ∷ hash) []
              s) [
                | found res ↦
                    let again = retrieve_file fuel res s in
                    if file_type == type_meta_file then again else found res
                | missing ↦ missing
                | panicked ↦ panicked
                | out_of_fuel ↦ out_of_fuel
              ]
      ]
