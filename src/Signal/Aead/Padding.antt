-- ===== src/Signal/Aead/Padding.antt =====
-- Padding goes on in whole blocks and comes off again.
use dsignal.Base.{
  ℕ, zero, suc, ◌+◌, ◌-◌, ◌%◌, ◌^◌, ◌≤◌, ◌<◌, ◌≡◌, ◌∙◌, refl, ap, true, false, some, [], ◌∷◌, ◌++◌,
  Bytes, arith, length, take, get_elem?, replicate, leb, length-append, length-replicate,
  take_append,
}
use dsignal.Signal.Aead.{padd_len, padd, unpadd_loop, unpadd_at, unpadd}

padd_len_bounds : (n : ℕ) → (1 ≤ padd_len n) × (padd_len n ≤ 16) × ((n + padd_len n) % 16 ≡ 0)
unfolding padd_len
padd_len_bounds n = (ground arith, ground arith, ground arith)

get_elem?-replicate : (n j v : ℕ) → j < n → get_elem? (replicate n v) j ≡ some v
get_elem?-replicate zero j v h = elim h [ ]
get_elem?-replicate (suc n) zero v h = refl
get_elem?-replicate (suc n) (suc j) v h = get_elem?-replicate n j v (omega arith)

get_elem?-append :
    (xs : Bytes) (n i v : ℕ)
    → length xs ≤ i
    → i < length xs + n
    → get_elem? (xs ++ replicate n v) i ≡ some v
get_elem?-append [] n i v le lt = get_elem?-replicate n i v (omega arith)
get_elem?-append (x ∷ xs) n zero v le lt = absurd (omega arith)
get_elem?-append (x ∷ xs) n (suc i) v le lt = get_elem?-append xs n i v (omega arith) (omega arith)

module _ (plaintext : Bytes) (n : ℕ) where
  padded : Bytes
  padded = plaintext ++ replicate n n

  length-padded : length padded ≡ length plaintext + n
  unfolding padded
  length-padded =
      length-append plaintext (replicate n n)
      ∙ ap (λ (t : ℕ). length plaintext + t) (length-replicate n n)

  byte_at : (i : ℕ) → i < n → get_elem? padded (length padded - 1 - i) ≡ some n
  unfolding padded
  byte_at i h =
      get_elem?-append plaintext n (length padded - 1 - i) n (omega (arith, length-padded))
        (omega (arith, length-padded))

  loop_true : (rounds i : ℕ) → rounds + i ≤ n → unpadd_loop rounds i n padded ≡ some true
  unfolding unpadd_loop
  loop_true zero i h = refl
  loop_true (suc rounds) i h =
      let e : leb (length padded) i ≡ false = let l = length-padded in ground arith in
      let here : get_elem? padded (length padded - 1 - i) ≡ some n = byte_at i (omega arith) in
      let rest : unpadd_loop rounds (i + 1) n padded ≡ some true =
        loop_true rounds (i + 1) (omega arith) in
      ground arith

  front_of : take (length plaintext) padded ≡ plaintext
  unfolding padded
  front_of = take_append plaintext (replicate n n)

  unpadd-padded : 1 ≤ n → n ≤ 16 → unpadd padded ≡ some plaintext
  unfolding unpadd unpadd_at
  unpadd-padded pos le =
      let l = length-padded in
      let last : get_elem? padded (length padded - 1) ≡ some n =
        ap (get_elem? padded) (omega arith) ∙ byte_at 0 (omega arith) in
      let loop : unpadd_loop (n - 1) 1 n padded ≡ some true = loop_true (n - 1) 1 (omega arith) in
      let front : take (length padded - n) padded ≡ plaintext =
        ap (λ (t : ℕ). take t padded) (omega arith) ∙ front_of in
      ground arith

padd-padded : (plaintext : Bytes) → padd plaintext ≡ padded plaintext (padd_len (length plaintext))
unfolding padd padded
padd-padded plaintext =
    let n = padd_len (length plaintext) in
    let (pos, le, whole) = padd_len_bounds (length plaintext) in
    let same : n % 2 ^ 16 % 256 ≡ n = omega arith in ap (λ (v : ℕ). plaintext ++ replicate n v) same

-- A padded plaintext fills whole blocks, is at least one byte longer, and unpads to the plaintext,
-- whatever bytes the plaintext ends with.
pub unpadd-padd :
    (plaintext : Bytes)
    → (unpadd (padd plaintext) ≡ some plaintext)
      × (length (padd plaintext) % 16 ≡ 0)
      × (length plaintext < length (padd plaintext))
unpadd-padd plaintext =
    let n = padd_len (length plaintext) in
    let (pos, le, whole) = padd_len_bounds (length plaintext) in
    let l = length-padded plaintext n in
    rw (padd-padded plaintext)
      (unpadd-padded plaintext n pos le, omega (arith, l, whole), omega (arith, l, pos))
