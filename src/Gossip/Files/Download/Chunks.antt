-- ===== src/Gossip/Files/Download/Chunks.antt =====
-- The data that a node has after it indexed a file.
use dsignal.Base.{
  ℕ, zero, suc, ◌≡◌, ◌∙◌, refl, sym, ap, false, none, some, ◌++◌, Bytes, GoString, bytes_dec, take,
  drop, Option-cases, inl, inr,
}
use mathlib.Core.List.{append_assoc, append-nil}
use dsignal.Base.Dict.{Dict, lookup, insert, lookup-insert_self, lookup-insert_ne}
use dsignal.Base.Encode.{hex_encode}
use dsignal.Gossip.Files.{file_chunk, FileMetadata, load_or_store, index_loop}
use dsignal.Gossip.Files.Download.Buffer.{hashes_of, AllNamed}

-- What is there after `LoadOrStore`, and what was there before.
pub load_or_store-held :
    (k : GoString) (v : Bytes) (d : Dict GoString Bytes)
    → lookup bytes_dec k (load_or_store k v d).1 ≡ some (load_or_store k v d).0.0
unfolding load_or_store
load_or_store-held k v d = elim (Option-cases (lookup bytes_dec k d)) [
  | inl miss ↦ rw (load_or_store, miss) (lookup-insert_self bytes_dec k v d)
  | inr (old, hit) ↦ rw (load_or_store, hit) hit
]

pub load_or_store_new :
    (k : GoString) (v : FileMetadata) (d : Dict GoString FileMetadata)
    → lookup bytes_dec k d ≡ none
    → load_or_store k v d ≡ ((v, false), insert bytes_dec k v d)
unfolding load_or_store
load_or_store_new k v d miss = rw (load_or_store, miss) refl

abbrev Kept : Dict GoString Bytes → Dict GoString Bytes → Type 0
Kept d d' =
    (k : GoString) (v : Bytes) → lookup bytes_dec k d ≡ some v → lookup bytes_dec k d' ≡ some v

pub load_or_store-Kept :
    (k : GoString) (v : Bytes) (d : Dict GoString Bytes) → Kept d (load_or_store k v d).1
unfolding load_or_store
load_or_store-Kept k v d j w held = elim (Option-cases (lookup bytes_dec k d)) [
  | inr (old, hit) ↦ rw (load_or_store, hit) held
  | inl miss ↦
      rw (load_or_store, miss)
        (lookup-insert_ne bytes_dec k j v d (λ e. absurd (
            let clash : none ≡ some w =
              sym miss ∙ ap (λ (x : GoString). lookup bytes_dec x d) e ∙ held in
            (cc)))
          ∙ held)
]

module _ (sha256 : Bytes → Bytes) where
  -- No chunk of the file meets another one under its hash.
  abbrev pub NoCollision : ℕ → Bytes → Dict GoString Bytes → Type 0
  NoCollision zero payload d = Unit
  NoCollision (suc rounds) payload d =
      let part = take file_chunk payload in
      let stored = load_or_store (hex_encode (sha256 part)) part d in
      (stored.0.0 ≡ part) × NoCollision rounds (drop file_chunk payload) stored.1

  pub index_loop_hashes :
      (rounds : ℕ) (payload hashes : Bytes) (d : Dict GoString Bytes)
      → (index_loop sha256 rounds payload hashes d).0 ≡ hashes ++ hashes_of sha256 rounds payload
  unfolding index_loop hashes_of
  index_loop_hashes zero payload hashes d = sym (append-nil hashes)
  index_loop_hashes (suc rounds) payload hashes d =
      index_loop_hashes rounds (drop file_chunk payload)
        (hashes ++ sha256 (take file_chunk payload)) _
      ∙ append_assoc hashes (sha256 (take file_chunk payload)) _

  index_loop-Kept :
      (rounds : ℕ) (payload hashes : Bytes) (d : Dict GoString Bytes)
      → Kept d (index_loop sha256 rounds payload hashes d).1
  unfolding index_loop
  index_loop-Kept zero payload hashes d k v held = held
  index_loop-Kept (suc rounds) payload hashes d k v held =
      let part = take file_chunk payload in
      index_loop-Kept rounds (drop file_chunk payload) (hashes ++ sha256 part) _ k v
        (load_or_store-Kept (hex_encode (sha256 part)) part d k v held)

  pub index_loop-AllNamed :
      (rounds : ℕ) (payload hashes : Bytes) (d d' : Dict GoString Bytes)
      → NoCollision rounds payload d
      → Kept (index_loop sha256 rounds payload hashes d).1 d'
      → AllNamed sha256 (λ k. lookup bytes_dec k d') rounds payload
  unfolding index_loop
  index_loop-AllNamed zero payload hashes d d' clean kept = tt
  index_loop-AllNamed (suc rounds) payload hashes d d' (own, clean) kept =
      let part = take file_chunk payload in
      let key = hex_encode (sha256 part) in
      let stored = load_or_store key part d in
      (
        kept key part (
            index_loop-Kept rounds (drop file_chunk payload) (hashes ++ sha256 part) stored.1 key
              part (load_or_store-held key part d ∙ ap some own)),
        index_loop-AllNamed rounds (drop file_chunk payload) (hashes ++ sha256 part) stored.1 d'
            clean kept,
      )
