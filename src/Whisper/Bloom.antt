-- ===== src/Whisper/Bloom.antt =====
-- whisper/bloomfilter.go. A nil slice is `none` where the code tells it from an empty one. The
-- functions return `none` for a panic, on an argument with fewer bytes than a filter has.
pub mod Aggregate
use dsignal.Base.{
  ℕ, zero, suc, Bool, true, false, not, Option, none, some, List, [], ◌∷◌, Bytes, bit_or, ◌==◌,
  if◌then◌else◌, replicate,
}

abbrev pub bloom_filter_size : ℕ
bloom_filter_size = 64

-- The loop, with so many bytes left.
unfoldable pub match_loop : ℕ → Bytes → Bytes → Option Bool
match_loop zero filter given = some true
match_loop (suc n) (f ∷ filter) (s ∷ given) =
    let rest = match_loop n filter given in if not (bit_or f s == f) then some false else rest
match_loop (suc n) [] given = none
match_loop (suc n) (f ∷ filter) [] = none

unfoldable pub check_filter_match : Option Bytes → Bytes → Option Bool
unfolding match_loop
check_filter_match none given = some true
check_filter_match (some filter) given = match_loop bloom_filter_size filter given

unfoldable pub aggregate_loop : ℕ → Bytes → Bytes → Option Bytes
aggregate_loop zero a b = some []
aggregate_loop (suc n) (x ∷ a) (y ∷ b) = elim (aggregate_loop n a b) [
  | none ↦ none
  | some c ↦ some (bit_or x y ∷ c)
]
aggregate_loop (suc n) [] b = none
aggregate_loop (suc n) (x ∷ a) [] = none

unfoldable pub aggregate_bloom : Bytes → Bytes → Option Bytes
unfolding aggregate_loop
aggregate_bloom a b = aggregate_loop bloom_filter_size a b

unfoldable pub has_any_filter : Option Bytes → Bool
has_any_filter none = false
has_any_filter (some []) = false
has_any_filter (some (b ∷ bloom)) =
    let rest = has_any_filter (some bloom) in if not (b == 255) then true else rest

unfoldable pub get_empty_bloom_filter : Bytes
get_empty_bloom_filter = replicate bloom_filter_size 0
