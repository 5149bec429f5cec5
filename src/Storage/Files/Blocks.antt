-- ===== src/Storage/Files/Blocks.antt =====
-- What `RetrieveFile` reads from one block of a metafile.
use dsignal.Base.{
  ℕ, suc, ◌≡◌, ap, false, some, ◌∷◌, ◌++◌, Bytes, length, length-append, take_append, drop_append,
  ltb, arith,
}
use mathlib.Core.Path.{subst}
use dsignal.Storage.Hash.{Sha}
use dsignal.Storage.Files.{ChunkNetwork, retrieve_loop}

module _ (sha : Sha) (net : ChunkNetwork) where
  -- One round, at a block that is found.
  pub retrieve_block :
      (rounds hash_block b : ℕ) (key rest res chunk : Bytes) (s : net.State)
      → suc (length key) ≡ hash_block
      → net.value_look_up (b ∷ key) s ≡ some chunk
      → retrieve_loop sha net (suc rounds) hash_block (b ∷ (key ++ rest)) res s
        ≡ retrieve_loop sha net rounds hash_block rest (res ++ chunk) s
  unfolding retrieve_loop
  retrieve_block rounds hash_block b key rest res chunk s e hit =
      let whole : ltb (suc (length (key ++ rest))) (suc (length key)) ≡ false =
        ground (arith, length-append key rest) in
      let at_size : retrieve_loop sha net (suc rounds) (suc (length key)) (b ∷ (key ++ rest)) res s
          ≡ retrieve_loop sha net rounds (suc (length key)) rest (res ++ chunk) s =
        rw (retrieve_loop, whole, take_append key rest, hit)
          (ap (λ (r : Bytes). retrieve_loop sha net rounds (suc (length key)) r (res ++ chunk) s)
            (drop_append key rest)) in
      subst
        (λ (h : ℕ).
          retrieve_loop sha net (suc rounds) h (b ∷ (key ++ rest)) res s
          ≡ retrieve_loop sha net rounds h rest (res ++ chunk) s)
        e at_size
