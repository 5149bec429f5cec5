-- ===== src/Storage/Files/Unchecked.antt =====
-- What `RetrieveFile` does with chunks that do not have the hash of their key.
use mathlib.Core.List.{append-nil}
use dsignal.Base.{
  ℕ, zero, suc, ◌+◌, ◌≡◌, ◌∙◌, refl, sym, ap, some, [], ◌∷◌, Bytes, length, get_elem?, arith,
}
use dsignal.Storage.Hash.{Sha, hash_length}
use dsignal.Storage.Files.{
  ChunkNetwork, type_meta_file, found, out_of_fuel, retrieve_loop, retrieve_file,
}
use dsignal.Storage.Files.Blocks.{retrieve_block}

module _ (sha : Sha) (net : ChunkNetwork) (hash_type n : ℕ) (hash : Bytes) (s : net.State) where
  retrieve_loop_one :
      (chunk : Bytes)
      → length hash ≡ n
      → net.value_look_up (type_meta_file ∷ hash_type ∷ hash) s ≡ some chunk
      → retrieve_loop sha net
          (suc (suc (length hash)))
          (2 + n)
          (type_meta_file ∷ hash_type ∷ hash)
          []
          s
        ≡ found chunk
  unfolding retrieve_loop
  retrieve_loop_one chunk size hit =
      ap
        (λ (h : Bytes).
          retrieve_loop sha net (suc (suc (length hash))) (2 + n) (type_meta_file ∷ hash_type ∷ h)
            [] s)
        (sym (append-nil hash))
      ∙ retrieve_block sha net (suc (length hash)) (2 + n) type_meta_file (hash_type ∷ hash) [] []
          chunk s (omega (arith, size)) hit

  -- Where the network answers the key of a metafile with that key itself, which has the length of one
  -- block, `RetrieveFile` comes back to the same key for ever: no fuel is enough.
  pub retrieve_file_diverges :
      (fuel : ℕ)
      → get_elem? hash_length hash_type ≡ some n
      → length hash ≡ n
      → net.value_look_up (type_meta_file ∷ hash_type ∷ hash) s
        ≡ some (type_meta_file ∷ hash_type ∷ hash)
      → retrieve_file sha net fuel (type_meta_file ∷ hash_type ∷ hash) s ≡ out_of_fuel
  unfolding retrieve_file
  retrieve_file_diverges zero entry size hit = refl
  retrieve_file_diverges (suc fuel) entry size hit =
      rw (retrieve_file, entry)
        (rw (retrieve_loop_one (type_meta_file ∷ hash_type ∷ hash) size hit)
          (retrieve_file_diverges fuel entry size hit))
