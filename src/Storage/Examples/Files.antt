-- ===== src/Storage/Examples/Files.antt =====
-- A key that leads to itself.
use dsignal.Base.{ℕ, ◌≡◌, ◌%◌, refl, some, ◌∷◌, Bytes, replicate, length}
use dsignal.Storage.Hash.{Sha}
use dsignal.Storage.Files.{ChunkNetwork, out_of_fuel, type_meta_file, retrieve_file}
use dsignal.Storage.Files.Unchecked.{retrieve_file_diverges}

abbrev sum : ℕ → Bytes → Bytes
sum n x = replicate n (length x % 256)

abbrev sha : Sha
sha = record {
  sum224 = sum 28;
  sum256 = sum 32;
  sum384 = sum 48;
  sum512 = sum 64;
  sum512_224 = sum 28;
  sum512_256 = sum 32;
}

-- A network that answers every key with itself.
abbrev echo : ChunkNetwork
echo = record {
  State = Unit {0};
  store_chunk = λ key chunk s. s;
  value_look_up = λ key s. some key;
}

retrieve_file_diverges_example :
    retrieve_file sha echo 100 (type_meta_file ∷ 1 ∷ replicate 32 7) tt ≡ out_of_fuel
retrieve_file_diverges_example =
    retrieve_file_diverges sha echo 1 32 (replicate 32 7) tt 100 refl refl refl
