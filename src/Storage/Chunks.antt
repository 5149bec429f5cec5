-- ===== src/Storage/Chunks.antt =====
-- storage/chunk_store.go: the chunks that a node keeps. The goroutine that publishes a chunk again
-- and the maps of times, which nothing uses, are not modelled.
use dsignal.Base.{
  ◌≡◌, refl, ◌∙◌, Option, none, some, List, [], ◌∷◌, ◌++◌, Bytes, GoString, AllBytes, bytes_dec,
  ◌≢◌, Option-cases, inl, inr,
}
use dsignal.Base.Dict.{Dict, lookup, insert, lookup-insert_self, lookup-insert_ne}
use dsignal.Base.Encode.{hex_encode, hex_encode-injective}

pub record ChunkStore : Type 0 where
  pub chunk_map : Dict GoString Bytes
  pub all_chunks : List GoString

abbrev pub new_chunk_store : ChunkStore
new_chunk_store = record { chunk_map = []; all_chunks = [] }

-- A chunk that is there already is kept.
unfoldable pub put : Bytes → Bytes → ChunkStore → ChunkStore
put key value cs = elim (lookup bytes_dec (hex_encode key) cs.chunk_map) [
  | none ↦ record {
    chunk_map = insert bytes_dec (hex_encode key) value cs.chunk_map;
    all_chunks = cs.all_chunks ++ (hex_encode key ∷ []);
  }
  | some _ ↦ cs
]

unfoldable pub get : Bytes → ChunkStore → Option Bytes
get key cs = lookup bytes_dec (hex_encode key) cs.chunk_map

-- What is got after a chunk was put.
abbrev pub first_of : Option Bytes → Bytes → Bytes
first_of none value = value
first_of (some old) value = old

put_new :
    (key value : Bytes) (cs : ChunkStore)
    → lookup bytes_dec (hex_encode key) cs.chunk_map ≡ none
    → (put key value cs).chunk_map ≡ insert bytes_dec (hex_encode key) value cs.chunk_map
unfolding put
put_new key value cs miss = rw (miss, put)

put_old :
    (key value old : Bytes) (cs : ChunkStore)
    → lookup bytes_dec (hex_encode key) cs.chunk_map ≡ some old
    → put key value cs ≡ cs
unfolding put
put_old key value old cs hit = rw (hit, put)

-- After a chunk is put, its key gets the chunk that was put first under it.
pub get-put_self :
    (key value : Bytes) (cs : ChunkStore)
    → get key (put key value cs) ≡ some (first_of (get key cs) value)
unfolding get
get-put_self key value cs = elim (Option-cases (lookup bytes_dec (hex_encode key) cs.chunk_map)) [
  | inl miss ↦
      rw (put_new key value cs miss)
        (lookup-insert_self bytes_dec (hex_encode key) value cs.chunk_map ∙ rw miss)
  | inr (old, hit) ↦ rw (put_old key value old cs hit) (hit ∙ rw hit)
]

-- Another key gets what it got before. Keys are strings of bytes.
pub get-put_ne :
    (key other value : Bytes) (cs : ChunkStore)
    → AllBytes key
    → AllBytes other
    → key ≢ other
    → get other (put key value cs) ≡ get other cs
unfolding get
get-put_ne key other value cs p q ne =
    elim (Option-cases (lookup bytes_dec (hex_encode key) cs.chunk_map)) [
      | inl miss ↦ rw (put_new key value cs miss) (
          lookup-insert_ne bytes_dec (hex_encode key) (hex_encode other) value cs.chunk_map
            (λ e. ne (hex_encode-injective key other p q e)))
      | inr (old, hit) ↦ rw (put_old key value old cs hit) refl
    ]
