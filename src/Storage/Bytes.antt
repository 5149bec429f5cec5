-- ===== src/Storage/Bytes.antt =====
-- storage/utils.go: the order, the distance and the common prefix of node ids. An id is a little
-- endian number of `DStoreIDSize` bytes.
pub mod Order
pub mod Distance
pub mod Prefix
use dsignal.Base.{
  ℕ, zero, suc, ◌/◌, ◌%◌, ◌^◌, Bool, true, false, not, ◌||◌, Option, none, some, List, [], ◌∷◌,
  Bytes, bit_xor, length, get_or, get_elem?, ltb, ◌==◌, if◌then◌else◌,
}
use Prim.Native.Nat.{Ordering}

abbrev pub d_store_id_size : ℕ
d_store_id_size = 8

-- The rounds for the indices below `i`. The lengths are equal, so both reads are in range.
unfoldable pub compare_loop : ℕ → Bytes → Bytes → Ordering
compare_loop zero a b = Ordering.eq
compare_loop (suc i) a b =
    let rest = compare_loop i a b in
    if ltb (get_or a i 0) (get_or b i 0)
    then Ordering.lt
    else if ltb (get_or b i 0) (get_or a i 0)
    then Ordering.gt
    else rest

-- -1, 0 and 1 are `lt`, `eq` and `gt`. Different lengths are an error, and equal.
unfoldable pub compare_bytes : Bytes → Bytes → Ordering
unfolding compare_loop
compare_bytes a b = if not (length a == length b) then Ordering.eq else compare_loop (length a) a b

-- `Min`
abbrev pub min_int : ℕ → ℕ → ℕ
min_int a b = if ltb a b then a else b

-- The bytes of two ids, one by one.
unfoldable pub xor_bytes : Bytes → Bytes → Bytes
xor_bytes (x ∷ a) (y ∷ b) = bit_xor x y ∷ xor_bytes a b
xor_bytes [] b = []
xor_bytes (x ∷ a) [] = []

-- `nil` where a length is wrong.
unfoldable pub xor_distance : Bytes → Bytes → Option Bytes
unfolding xor_bytes
xor_distance a b =
    if not (length a == d_store_id_size) || not (length b == d_store_id_size)
    then none
    else some (xor_bytes a b)

-- A panic where the index is out of range.
unfoldable pub get_bit : Bytes → ℕ → Option ℕ
get_bit bytes index = elim (get_elem? bytes (index / 8)) [
  | none ↦ none
  | some b ↦ some (b / 2 ^ (index % 8) % 2)
]

-- `==` on two bits that were read.
unfoldable pub same_bit : Option ℕ → Option ℕ → Bool
same_bit (some a) (some b) = a == b
same_bit (some a) none = false
same_bit none b = false

-- The rounds for the bits below `i`, up to the first difference.
unfoldable pub prefix_loop : ℕ → Bytes → Bytes → ℕ
unfolding get_bit same_bit
prefix_loop zero id target = 0
prefix_loop (suc i) id target =
    let rest = prefix_loop i id target in
    if same_bit (get_bit id i) (get_bit target i) then suc rest else 0

-- -1 is `none`.
unfoldable pub max_prefix_len : Bytes → Bytes → Option ℕ
unfolding prefix_loop
max_prefix_len id target =
    if not (length target == d_store_id_size) || not (length id == d_store_id_size)
    then none
    else some (prefix_loop 64 id target)
