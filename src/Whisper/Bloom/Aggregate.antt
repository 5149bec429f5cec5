-- ===== src/Whisper/Bloom/Aggregate.antt =====
-- The sum of filters is the least filter that lets pass what they do.
use dsignal.Base.{
  ℕ, zero, suc, ◌≡◌, ◌∙◌, sym, ap, refl, true, some, [], ◌∷◌, Bytes, bit_or, length, arith,
  eq_of_some,
}
use dsignal.Base.Bits.{or_assoc, or_comm, or_idem}
use dsignal.Whisper.Bloom.{
  bloom_filter_size, match_loop, check_filter_match, aggregate_loop, aggregate_bloom,
}

absorb : (x y : ℕ) → bit_or (bit_or x y) x ≡ bit_or x y
absorb x y = or_comm (bit_or x y) x ∙ sym (or_assoc x x y) ∙ rw (or_idem x)

absorb_right : (x y : ℕ) → bit_or (bit_or x y) y ≡ bit_or x y
absorb_right x y = or_assoc x y y ∙ rw (or_idem y)

-- What a byte covers.
covers_or : (f x y : ℕ) → bit_or f x ≡ f → bit_or f y ≡ f → bit_or f (bit_or x y) ≡ f
covers_or f x y p q = sym (or_assoc f x y) ∙ rw p q

-- The sum exists, and covers both summands.
aggregate_covers :
    (n : ℕ) (a b : Bytes)
    → length a ≡ n
    → length b ≡ n
    → (c : Bytes) × (aggregate_loop n a b ≡ some c)
      × (length c ≡ n)
      × (match_loop n c a ≡ some true)
      × (match_loop n c b ≡ some true)
unfolding aggregate_loop match_loop
aggregate_covers zero a b p q = ([], refl, refl, refl, refl)
aggregate_covers (suc n) [] b p q = absurd (omega arith)
aggregate_covers (suc n) (x ∷ a) [] p q = absurd (omega arith)
aggregate_covers (suc n) (x ∷ a) (y ∷ b) p q =
    let (c, e, l, left, right) = aggregate_covers n a b (omega arith) (omega arith) in
    (bit_or x y ∷ c, rw e, ap suc l, ground (arith, absorb x y), ground (arith, absorb_right x y))

pub match_uncons :
    (n f s : ℕ) (filter given : Bytes)
    → match_loop (suc n) (f ∷ filter) (s ∷ given) ≡ some true
    → (bit_or f s ≡ f) × (match_loop n filter given ≡ some true)
unfolding match_loop
match_uncons n f s filter given e = ground arith

pub match_cons :
    (n f s : ℕ) (filter given : Bytes)
    → bit_or f s ≡ f
    → match_loop n filter given ≡ some true
    → match_loop (suc n) (f ∷ filter) (s ∷ given) ≡ some true
unfolding match_loop
match_cons n f s filter given e rest = ground arith

-- A filter that covers both summands covers the sum.
aggregate_least :
    (n : ℕ) (filter a b : Bytes)
    → length filter ≡ n
    → length a ≡ n
    → length b ≡ n
    → match_loop n filter a ≡ some true
    → match_loop n filter b ≡ some true
    → (c : Bytes) × (aggregate_loop n a b ≡ some c) × (match_loop n filter c ≡ some true)
unfolding aggregate_loop match_loop
aggregate_least zero filter a b k p q l r = ([], refl, refl)
aggregate_least (suc n) [] a b k p q l r = absurd (omega arith)
aggregate_least (suc n) (f ∷ filter) [] b k p q l r = absurd (omega arith)
aggregate_least (suc n) (f ∷ filter) (x ∷ a) [] k p q l r = absurd (omega arith)
aggregate_least (suc n) (f ∷ filter) (x ∷ a) (y ∷ b) k p q l r =
    let (cover_x, l') = match_uncons n f x filter a l in
    let (cover_y, r') = match_uncons n f y filter b r in
    let (c, e, m) = aggregate_least n filter a b (omega arith) (omega arith) (omega arith) l' r' in
    (bit_or x y ∷ c, rw e, match_cons n f (bit_or x y) filter c (covers_or f x y cover_x cover_y) m)

-- The sum of two filters of the right length exists and has that length; it lets pass what either
-- of the two is; and every filter that lets pass both lets pass the sum.
pub aggregate_bloom-IsLeast :
    (a b : Bytes)
    → length a ≡ bloom_filter_size
    → length b ≡ bloom_filter_size
    → (c : Bytes) × (aggregate_bloom a b ≡ some c)
      × (length c ≡ bloom_filter_size)
      × (check_filter_match (some c) a ≡ some true)
      × (check_filter_match (some c) b ≡ some true)
      × ((filter : Bytes)
          → length filter ≡ bloom_filter_size
          → check_filter_match (some filter) a ≡ some true
          → check_filter_match (some filter) b ≡ some true
          → check_filter_match (some filter) c ≡ some true)
unfolding aggregate_bloom check_filter_match
aggregate_bloom-IsLeast a b p q =
    let (c, e, l, left, right) = aggregate_covers bloom_filter_size a b p q in
    (
      c,
      e,
      l,
      left,
      right,
      λ filter k x y.
          let (c', e', m) = aggregate_least bloom_filter_size filter a b k p q x y in
          let same : c ≡ c' = eq_of_some (sym e ∙ e') in rw same m,
    )
