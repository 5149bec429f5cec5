-- ===== src/Storage/Hash.antt =====
-- storage/utils.go: the hashes of chunks. The sha packages are parameters, with the lengths of the
-- arrays that they return.
use dsignal.Base.{
  ℕ, zero, suc, ◌<◌, ◌≤◌, ◌≡◌, refl, Bool, true, false, Option, none, some, List, [], ◌∷◌, Bytes,
  AllBytes, bytes_dec, length, get_elem?, take, ◌==◌, if◌then◌else◌, ite, arith,
}
use dsignal.Storage.Bytes.{d_store_id_size}

-- `Sum224`, `Sum256`, `Sum384`, `Sum512`, `Sum512_224` and `Sum512_256`
pub record Sha : Type 0 where
  pub sum224 : Bytes → Bytes
  pub sum256 : Bytes → Bytes
  pub sum384 : Bytes → Bytes
  pub sum512 : Bytes → Bytes
  pub sum512_224 : Bytes → Bytes
  pub sum512_256 : Bytes → Bytes

abbrev pub HasLength : ℕ → (Bytes → Bytes) → Type 0
HasLength n f = (x : Bytes) → (length (f x) ≡ n) × AllBytes (f x)

-- They return arrays of bytes.
pub record ShaLaws (sha : Sha) : Type 0 where
  pub sum224 : HasLength 28 sha.sum224
  pub sum256 : HasLength 32 sha.sum256
  pub sum384 : HasLength 48 sha.sum384
  pub sum512 : HasLength 64 sha.sum512
  pub sum512_224 : HasLength 28 sha.sum512_224
  pub sum512_256 : HasLength 32 sha.sum512_256

abbrev pub hash_length : List ℕ
hash_length = 28 ∷ 32 ∷ 48 ∷ 64 ∷ 28 ∷ 32 ∷ []

-- Another type gives an empty hash.
unfoldable pub get_hash : Sha → Bytes → ℕ → Bytes
get_hash sha x hash_type =
    if hash_type == 0
    then sha.sum224 x
    else if hash_type == 1
    then sha.sum256 x
    else if hash_type == 2
    then sha.sum384 x
    else if hash_type == 3
    then sha.sum512 x
    else if hash_type == 4
    then sha.sum512_224 x
    else if hash_type == 5
    then sha.sum512_256 x
    else []

-- `none` is a panic: the type is no index of `HashLength`.
unfoldable pub check_hash : Sha → Bytes → Bytes → ℕ → Option Bool
check_hash sha x expected hash_type = elim (get_elem? hash_length hash_type) [
  | none ↦ none
  | some n ↦ some (
      if length expected == n
      then ite (bytes_dec expected (get_hash sha x hash_type)) true false
      else false)
]

-- The first bytes of the sha256 of a name.
unfoldable pub get_d_store_id_for_name : Sha → Bytes → Bytes
get_d_store_id_for_name sha name = take d_store_id_size (sha.sum256 name)

-- A known hash type has an entry in the table of lengths, which is what its hashes measure.
pub get_hash-HasLength :
    (sha : Sha) (laws : ShaLaws sha) (hash_type : ℕ)
    → hash_type < 6
    → (n : ℕ) × (get_elem? hash_length hash_type ≡ some n)
      × HasLength n (λ x. get_hash sha x hash_type)
      × (n ≤ 64)
unfolding get_hash
get_hash-HasLength sha laws zero h = (28, refl, laws.sum224, omega arith)
get_hash-HasLength sha laws (suc zero) h = (32, refl, laws.sum256, omega arith)
get_hash-HasLength sha laws (suc (suc zero)) h = (48, refl, laws.sum384, omega arith)
get_hash-HasLength sha laws (suc (suc (suc zero))) h = (64, refl, laws.sum512, omega arith)
get_hash-HasLength sha laws (suc (suc (suc (suc zero)))) h =
    (28, refl, laws.sum512_224, omega arith)
get_hash-HasLength sha laws (suc (suc (suc (suc (suc zero))))) h =
    (32, refl, laws.sum512_256, omega arith)
get_hash-HasLength sha laws (suc (suc (suc (suc (suc (suc n)))))) h = absurd (omega arith)
