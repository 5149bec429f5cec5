-- ===== src/Storage/Bytes/Prefix.antt =====
-- The common prefix of two ids.
use dsignal.Base.{
  ℕ, zero, suc, ◌+◌, ◌*◌, ◌/◌, ◌%◌, ◌^◌, ◌≤◌, ◌<◌, ◌≡◌, ◌≢◌, refl, true, false, Option, some, [],
  ◌∷◌, Bytes, length, get_elem?, arith, Bool-cases, ℕ_discrete, inl, inr, eq_of_some,
}
use dsignal.Storage.Bytes.{d_store_id_size, get_bit, same_bit, prefix_loop, max_prefix_len}

get_elem?_in : (a : Bytes) (i : ℕ) → i < length a → (b : ℕ) × (get_elem? a i ≡ some b)
get_elem?_in [] i h = absurd (omega arith)
get_elem?_in (x ∷ a) zero h = (x, refl)
get_elem?_in (x ∷ a) (suc i) h = get_elem?_in a i (omega arith)

get_bit_in : (a : Bytes) (i : ℕ) → i < 8 * length a → (b : ℕ) × (get_bit a i ≡ some b)
unfolding get_bit
get_bit_in a i h =
    let (b, e) = get_elem?_in a (i / 8) (omega arith) in (b / 2 ^ (i % 8) % 2, rw (e, get_bit))

same_bit-eq : (x y : Option ℕ) (b c : ℕ) → x ≡ some b → y ≡ some c → same_bit x y ≡ true → x ≡ y
unfolding same_bit
same_bit-eq x y b c p q e = ground arith

same_bit-ne : (x y : Option ℕ) (b c : ℕ) → x ≡ some b → y ≡ some c → same_bit x y ≡ false → x ≢ y
unfolding same_bit
same_bit-ne x y b c p q e h = absurd (ground (arith, eq_of_some {a = b} {b = c}))

module _ (id target : Bytes) where
  -- The top `n` of the lowest `k` bits agree, and the next one, if there is one, does not.
  abbrev pub IsLongest : ℕ → ℕ → Type 0
  IsLongest k n =
      (n ≤ k)
      × ((i : ℕ) → k ≤ i + n → i < k → get_bit id i ≡ get_bit target i)
      × ((i : ℕ) → k ≡ suc i + n → get_bit id i ≢ get_bit target i)

  prefix_loop-IsLongest :
      (k : ℕ) → k ≤ 8 * length id → k ≤ 8 * length target → IsLongest k (prefix_loop k id target)
  unfolding prefix_loop
  prefix_loop-IsLongest zero p q =
      (omega arith, λ i le lt. absurd (omega arith), λ i e. absurd (omega arith))
  prefix_loop-IsLongest (suc k) p q =
      let (b, hb) = get_bit_in id k (omega arith) in
      let (c, hc) = get_bit_in target k (omega arith) in
      let (le, agree, differ) = prefix_loop-IsLongest k (omega arith) (omega arith) in
      elim (Bool-cases (same_bit (get_bit id k) (get_bit target k))) [
        | inl same ↦ rw same (
          omega arith,
          λ i above below. elim (ℕ_discrete i k) [
            | yes e ↦ rw e (same_bit-eq (get_bit id k) (get_bit target k) b c hb hc same)
            | no ne ↦ agree i (omega arith) (omega arith)
          ],
          λ i e. differ i (omega arith),
        )
        | inr other ↦ rw other (
          omega arith,
          λ i above below. absurd (omega arith),
          λ i e.
              let last : i ≡ k = omega arith in
              rw last (same_bit-ne (get_bit id k) (get_bit target k) b c hb hc other),
        )
      ]

  -- The maximal prefix of two ids: their top bits agree, so many as the result says, and the bit
  -- below them differs, unless all 64 bits agree.
  pub max_prefix_len-IsLongest :
      length id ≡ d_store_id_size
      → length target ≡ d_store_id_size
      → (n : ℕ) × (max_prefix_len id target ≡ some n) × IsLongest 64 n
  unfolding max_prefix_len
  max_prefix_len-IsLongest p q =
      (prefix_loop 64 id target, ground arith, prefix_loop-IsLongest 64 (omega arith) (omega arith))
