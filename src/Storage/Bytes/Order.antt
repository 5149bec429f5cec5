-- ===== src/Storage/Bytes/Order.antt =====
-- `Compare` against the order of the numbers that two ids stand for.
use Prim.Native.Nat.{Ordering, compare}
use dsignal.Base.{
  ℕ, zero, suc, ◌+◌, ◌*◌, ◌<◌, ◌≡◌, ◌∙◌, refl, [], ◌∷◌, Bytes, AllBytes, length, arith,
}
use dsignal.Storage.Bytes.{compare_loop, compare_bytes}

-- The number of an id, the lowest byte first.
abbrev pub value : Bytes → ℕ
value [] = 0
value (b ∷ a) = b + 256 * value a

-- The result on the higher bytes decides, unless they are equal.
abbrev then_compare : Ordering → Ordering → Ordering
then_compare Ordering.lt r = Ordering.lt
then_compare Ordering.gt r = Ordering.gt
then_compare Ordering.eq r = r

compare_loop_shift :
    (n x y : ℕ) (a b : Bytes)
    → compare_loop (suc n) (x ∷ a) (y ∷ b) ≡ then_compare (compare_loop n a b) (compare x y)
unfolding compare_loop
compare_loop_shift zero x y a b = ground arith
compare_loop_shift (suc n) x y a b = ground (arith, compare_loop_shift n x y a b)

compare_value_cons :
    (x y u v : ℕ)
    → x < 256
    → y < 256
    → then_compare (compare u v) (compare x y) ≡ compare (x + 256 * u) (y + 256 * v)
compare_value_cons x y u v p q = ground arith

compare_loop-value :
    (a b : Bytes)
    → AllBytes a
    → AllBytes b
    → length a ≡ length b
    → compare_loop (length a) a b ≡ compare (value a) (value b)
unfolding compare_loop
compare_loop-value [] [] p q e = refl
compare_loop-value [] (y ∷ b) p q e = absurd (omega arith)
compare_loop-value (x ∷ a) [] p q e = absurd (omega arith)
compare_loop-value (x ∷ a) (y ∷ b) (xs, p) (ys, q) e =
    compare_loop_shift (length a) x y a b
    ∙ rw (compare_loop-value a b p q (omega arith))
        (compare_value_cons x y (value a) (value b) xs ys)

-- Two byte strings of one length compare as the numbers that they stand for, the lowest byte
-- first.
pub compare_bytes-value :
    (a b : Bytes)
    → AllBytes a
    → AllBytes b
    → length a ≡ length b
    → compare_bytes a b ≡ compare (value a) (value b)
unfolding compare_bytes
compare_bytes-value a b p q e = ground (arith, compare_loop-value a b p q e)
