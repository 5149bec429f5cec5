-- ===== src/Base/Encode.antt =====
-- `hex.EncodeToString` and the little-endian encodings of encoding/binary.
use Prim.Native.Nat.{ℕ, zero, suc, ◌+◌, ◌/◌, ◌%◌, ◌^◌, ◌<◌}
use mathlib.Core.Path.{◌≡◌, refl, ap, ap₂}
use mathlib.Core.List.{List, [], ◌∷◌, ◌++◌}
use native.Mathlib.Omega.{arith}
use native.Mathlib.Nat.{pow-suc}
use dsignal.Base.Lists.{Bytes, GoString, AllBytes, length}
use dsignal.Base.Tests.{ltb, if◌then◌else◌}

abbrev hex_digit : ℕ → ℕ
hex_digit d = if ltb d 10 then d + 48 else d + 87

unfoldable pub hex_encode : Bytes → GoString
hex_encode [] = []
hex_encode (b ∷ bs) = hex_digit (b / 16) ∷ hex_digit (b % 16) ∷ hex_encode bs

-- The `k` lowest bytes of a number, the lowest first.
unfoldable pub le_bytes : ℕ → ℕ → Bytes
le_bytes zero n = []
le_bytes (suc k) n = (n % 256) ∷ le_bytes k (n / 256)

head_eq : {a b : ℕ} {xs ys : List ℕ} → a ∷ xs ≡ b ∷ ys → a ≡ b
head_eq e = cc

tail_eq : {a b : ℕ} {xs ys : List ℕ} → a ∷ xs ≡ b ∷ ys → xs ≡ ys
tail_eq e = cc

hex_digit-injective : (a b : ℕ) → a < 16 → b < 16 → hex_digit a ≡ hex_digit b → a ≡ b
hex_digit-injective a b p q e = ground arith

pub hex_encode-injective :
    (xs ys : Bytes) → AllBytes xs → AllBytes ys → hex_encode xs ≡ hex_encode ys → xs ≡ ys
unfolding hex_encode
hex_encode-injective [] [] p q e = refl
hex_encode-injective [] (y ∷ ys) p q e = cc
hex_encode-injective (x ∷ xs) [] p q e = cc
hex_encode-injective (x ∷ xs) (y ∷ ys) (p, ps) (q, qs) e =
    let high : x / 16 ≡ y / 16 =
      hex_digit-injective (x / 16) (y / 16) (omega arith) (omega arith) (head_eq e) in
    let low : x % 16 ≡ y % 16 =
      hex_digit-injective (x % 16) (y % 16) (omega arith) (omega arith) (head_eq (tail_eq e)) in
    let same : x ≡ y = omega arith in
    ap₂ ◌∷◌ same (hex_encode-injective xs ys ps qs (tail_eq (tail_eq e)))

pub le_bytes-AllBytes : (k n : ℕ) → AllBytes (le_bytes k n)
unfolding le_bytes
le_bytes-AllBytes zero n = tt
le_bytes-AllBytes (suc k) n = (omega arith, le_bytes-AllBytes k (n / 256))

pub length-le_bytes : (k n : ℕ) → length (le_bytes k n) ≡ k
unfolding le_bytes
length-le_bytes zero n = refl
length-le_bytes (suc k) n = ap suc (length-le_bytes k (n / 256))

pub le_bytes-injective :
    (k n m : ℕ) → n < 256 ^ k → m < 256 ^ k → le_bytes k n ≡ le_bytes k m → n ≡ m
unfolding le_bytes
le_bytes-injective zero n m p q e = omega arith
le_bytes-injective (suc k) n m p q e =
    let high : n / 256 ≡ m / 256 =
      le_bytes-injective k (n / 256) (m / 256) (omega (arith, pow-suc 256 k))
        (omega (arith, pow-suc 256 k)) (tail_eq e) in
    let low : n % 256 ≡ m % 256 = head_eq e in omega arith

pub append_cancel : (xs ys zs : List ℕ) → length xs ≡ length ys → xs ++ zs ≡ ys ++ zs → xs ≡ ys
append_cancel [] [] zs l e = refl
append_cancel [] (y ∷ ys) zs l e = absurd (omega arith)
append_cancel (x ∷ xs) [] zs l e = absurd (omega arith)
append_cancel (x ∷ xs) (y ∷ ys) zs l e =
    ap₂ ◌∷◌ (head_eq e) (append_cancel xs ys zs (omega arith) (tail_eq e))

pub AllBytes-append : (xs ys : Bytes) → AllBytes xs → AllBytes ys → AllBytes (xs ++ ys)
AllBytes-append [] ys p q = q
AllBytes-append (x ∷ xs) ys (b, p) q = (b, AllBytes-append xs ys p q)
