-- ===== src/Base/Bits.antt =====
-- The bitwise operations at variables, from their lowest digits.
use Prim.Native.Nat.{
  ℕ, zero, suc, ◌+◌, ◌*◌, ◌/◌, ◌%◌, ◌≤◌, ◌<◌, ◌^◌, max, bit_or, bit_xor, digits, differ,
  bit_or-bitwise, bit_xor-bitwise,
}
use mathlib.Core.Path.{◌≡◌, refl, ◌∙◌}
use native.Mathlib.Nat.{pow-suc}
use native.Mathlib.Omega.{arith}

-- The count of digits to go does not matter, if it suffices.
digits_fuel :
    (z : ℕ → ℕ) (f : ℕ → ℕ → ℕ) (n m a b : ℕ) → a ≤ n → a ≤ m → digits z f n a b ≡ digits z f m a b
digits_fuel rest on_digits zero zero a b p q = refl
digits_fuel rest on_digits zero (suc m) zero b p q = refl
digits_fuel rest on_digits zero (suc m) (suc a) b p q = absurd (omega arith)
digits_fuel rest on_digits (suc n) zero zero b p q = refl
digits_fuel rest on_digits (suc n) zero (suc a) b p q = absurd (omega arith)
digits_fuel rest on_digits (suc n) (suc m) zero b p q = refl
digits_fuel rest on_digits (suc n) (suc m) (suc a) b p q =
    omega (arith, digits_fuel rest on_digits n m (suc a / 2) (b / 2) (omega arith) (omega arith))

or_step : (a b : ℕ) → bit_or a b ≡ bit_or (a / 2) (b / 2) * 2 + max (a % 2) (b % 2)
or_step zero b = omega (arith, bit_or-bitwise 0 b, bit_or-bitwise 0 (b / 2))
or_step (suc a) b = omega (
  arith,
  bit_or-bitwise (suc a) b,
  bit_or-bitwise (suc a / 2) (b / 2),
  digits_fuel (λ b. b) max a (suc a / 2) (suc a / 2) (b / 2) (omega arith) (omega arith),
)

differ-sum : (x y : ℕ) → x < 2 → y < 2 → differ x y ≡ (x + y) % 2
differ-sum zero y p q = omega arith
differ-sum (suc zero) zero p q = refl
differ-sum (suc zero) (suc y) p q = omega arith
differ-sum (suc (suc x)) y p q = absurd (omega arith)

xor_step : (a b : ℕ) → bit_xor a b ≡ bit_xor (a / 2) (b / 2) * 2 + (a + b) % 2
xor_step zero b = omega (arith, bit_xor-bitwise 0 b, bit_xor-bitwise 0 (b / 2))
xor_step (suc a) b = omega (
  arith,
  bit_xor-bitwise (suc a) b,
  bit_xor-bitwise (suc a / 2) (b / 2),
  digits_fuel (λ b. b) differ a (suc a / 2) (suc a / 2) (b / 2) (omega arith) (omega arith),
  differ-sum (suc a % 2) (b % 2) (omega arith) (omega arith),
)

-- The half and the lowest digit of a result.
pub or_half : (a b : ℕ) → bit_or a b / 2 ≡ bit_or (a / 2) (b / 2)
or_half a b = omega (arith, or_step a b)

pub or_digit : (a b : ℕ) → bit_or a b % 2 ≡ max (a % 2) (b % 2)
or_digit a b = omega (arith, or_step a b)

pub xor_half : (a b : ℕ) → bit_xor a b / 2 ≡ bit_xor (a / 2) (b / 2)
xor_half a b = omega (arith, xor_step a b)

pub xor_digit : (a b : ℕ) → bit_xor a b % 2 ≡ (a + b) % 2
xor_digit a b = omega (arith, xor_step a b)

-- Laws by induction on a bound of all the arguments.
or_assoc_below :
    (n a b c : ℕ) → a ≤ n → b ≤ n → c ≤ n → bit_or (bit_or a b) c ≡ bit_or a (bit_or b c)
or_assoc_below zero zero zero zero p q r = refl
or_assoc_below zero (suc a) b c p q r = absurd (omega arith)
or_assoc_below zero zero (suc b) c p q r = absurd (omega arith)
or_assoc_below zero zero zero (suc c) p q r = absurd (omega arith)
or_assoc_below (suc n) a b c p q r = ground (
  arith,
  or_half a b,
  or_digit a b,
  or_half b c,
  or_digit b c,
  or_step (bit_or a b) c,
  or_step a (bit_or b c),
  or_assoc_below n (a / 2) (b / 2) (c / 2) (omega arith) (omega arith) (omega arith),
)

pub or_assoc : (a b c : ℕ) → bit_or (bit_or a b) c ≡ bit_or a (bit_or b c)
or_assoc a b c = or_assoc_below (a + b + c) a b c (omega arith) (omega arith) (omega arith)

or_comm_below : (n a b : ℕ) → a ≤ n → b ≤ n → bit_or a b ≡ bit_or b a
or_comm_below zero zero zero p q = refl
or_comm_below zero (suc a) b p q = absurd (omega arith)
or_comm_below zero zero (suc b) p q = absurd (omega arith)
or_comm_below (suc n) a b p q =
    ground
      (arith, or_step a b, or_step b a, or_comm_below n (a / 2) (b / 2) (omega arith) (omega arith))

pub or_comm : (a b : ℕ) → bit_or a b ≡ bit_or b a
or_comm a b = or_comm_below (a + b) a b (omega arith) (omega arith)

or_idem_below : (n a : ℕ) → a ≤ n → bit_or a a ≡ a
or_idem_below zero zero p = refl
or_idem_below zero (suc a) p = absurd (omega arith)
or_idem_below (suc n) a p = omega (arith, or_step a a, or_idem_below n (a / 2) (omega arith))

pub or_idem : (a : ℕ) → bit_or a a ≡ a
or_idem a = or_idem_below a a (omega arith)

pub zero-or : (a : ℕ) → bit_or 0 a ≡ a
zero-or a = bit_or-bitwise 0 a

pub or-zero : (a : ℕ) → bit_or a 0 ≡ a
or-zero a = or_comm a 0 ∙ zero-or a

or-lt_below : (k a b : ℕ) → a < 2 ^ k → b < 2 ^ k → bit_or a b < 2 ^ k
or-lt_below zero zero zero p q = omega arith
or-lt_below zero (suc a) b p q = absurd (omega arith)
or-lt_below zero zero (suc b) p q = absurd (omega arith)
or-lt_below (suc k) a b p q = omega (
  arith,
  pow-suc 2 k,
  or_step a b,
  or-lt_below k (a / 2) (b / 2) (omega (arith, pow-suc 2 k)) (omega (arith, pow-suc 2 k)),
)

pub or-byte : (a b : ℕ) → a < 256 → b < 256 → bit_or a b < 256
or-byte a b p q = or-lt_below 8 a b p q

xor_comm_below : (n a b : ℕ) → a ≤ n → b ≤ n → bit_xor a b ≡ bit_xor b a
xor_comm_below zero zero zero p q = refl
xor_comm_below zero (suc a) b p q = absurd (omega arith)
xor_comm_below zero zero (suc b) p q = absurd (omega arith)
xor_comm_below (suc n) a b p q = ground (
  arith,
  xor_step a b,
  xor_step b a,
  xor_comm_below n (a / 2) (b / 2) (omega arith) (omega arith),
)

pub xor_comm : (a b : ℕ) → bit_xor a b ≡ bit_xor b a
xor_comm a b = xor_comm_below (a + b) a b (omega arith) (omega arith)

xor_self_below : (n a : ℕ) → a ≤ n → bit_xor a a ≡ 0
xor_self_below zero zero p = refl
xor_self_below zero (suc a) p = absurd (omega arith)
xor_self_below (suc n) a p = omega (arith, xor_step a a, xor_self_below n (a / 2) (omega arith))

pub xor_self : (a : ℕ) → bit_xor a a ≡ 0
xor_self a = xor_self_below a a (omega arith)

-- Exclusive or with one argument fixed loses nothing.
xor_cancel_below : (n a b c : ℕ) → a ≤ n → b ≤ n → c ≤ n → bit_xor a b ≡ bit_xor a c → b ≡ c
xor_cancel_below zero zero zero zero p q r e = refl
xor_cancel_below zero (suc a) b c p q r e = absurd (omega arith)
xor_cancel_below zero zero (suc b) c p q r e = absurd (omega arith)
xor_cancel_below zero zero zero (suc c) p q r e = absurd (omega arith)
xor_cancel_below (suc n) a b c p q r e = omega (
  arith,
  xor_step a b,
  xor_step a c,
  e,
  xor_cancel_below n (a / 2) (b / 2) (c / 2) (omega arith) (omega arith) (omega arith)
      (omega (arith, xor_step a b, xor_step a c, e)),
)

pub xor_cancel : (a b c : ℕ) → bit_xor a b ≡ bit_xor a c → b ≡ c
xor_cancel a b c = xor_cancel_below (a + b + c) a b c (omega arith) (omega arith) (omega arith)
