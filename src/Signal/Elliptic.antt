-- ===== src/Signal/Elliptic.antt =====
-- adssignal/adsElliptic.go: points of P-256 and their compressed encoding. The curve's own
-- arithmetic belongs to crypto/elliptic; here are its constants, and what the file computes.
use Prim.Native.Nat.{ℕ, zero, suc, ◌+◌, ◌-◌, ◌*◌, ◌/◌, ◌%◌, ◌^◌}
use mathlib.Core.List.{[], ◌∷◌, reverse}
use mathlib.Core.Bool.{Bool, not, ◌&&◌, ◌||◌}
use dsignal.Base.{Bytes, length, drop, get_or, ◌==◌, if◌then◌else◌}
use dsignal.Base.Encode.{le_bytes}

-- The prime and the coefficient b of P-256.
abbrev pub curve_p : ℕ
curve_p = 0xffffffff00000001000000000000000000000000ffffffffffffffffffffffff

abbrev pub curve_b : ℕ
curve_b = 0x5ac635d8aa3a93e7b3ebbd55769886bc651d06b0cc53b0f63bce3c3e27d2604b

pub record EllipticPoint : Type 0 where
  pub x : ℕ
  pub y : ℕ

pub record DhPair : Type 0 where
  pub pub_key : EllipticPoint
  pub priv_key : Bytes

-- The bytes of a coordinate, padded to 32, the highest first.
unfoldable pub be_bytes : ℕ → Bytes
unfolding le_bytes
be_bytes n = reverse (le_bytes 32 n)

-- `big.Int.SetBytes`
unfoldable pub from_be : ℕ → Bytes → ℕ
from_be acc [] = acc
from_be acc (b ∷ bs) = from_be (acc * 256 + b) bs

-- A compressed point: 2 or 3 by the parity of y, and x.
unfoldable pub marshal : EllipticPoint → Bytes
unfolding be_bytes
marshal q = (2 + q.y % 2) ∷ be_bytes q.x

-- The rounds for the bits `i + 1` down to 2 of p + 1.
unfoldable pub mod_sqrt_loop : ℕ → ℕ → ℕ → ℕ
mod_sqrt_loop zero a result = result
mod_sqrt_loop (suc i) a result =
    let squared = result * result % curve_p in
    mod_sqrt_loop i a
      (if (curve_p + 1) / 2 ^ (i + 2) % 2 == 0 then squared else squared * a % curve_p)

-- p + 1 has 256 bits.
unfoldable pub mod_sqrt : ℕ → ℕ
unfolding mod_sqrt_loop
mod_sqrt a = mod_sqrt_loop 254 a 1

-- The point of a compressed encoding, x³ - 3x + b under the root. `uncompressed` is
-- `elliptic.Unmarshal`, for every other encoding, where that is one of a point; the nil coordinates of
-- any other are not modelled.
unfoldable pub unmarshal : (Bytes → EllipticPoint) → Bytes → EllipticPoint
unfolding mod_sqrt from_be
unmarshal uncompressed encoded =
    let sign = get_or encoded 0 0 in
    if not (length encoded == 33) || not (sign == 2) && not (sign == 3)
    then uncompressed encoded
    else let x = from_be 0 (drop 1 encoded) in
      let y = mod_sqrt (((x * x + (curve_p - 3)) * x + curve_b) % curve_p) in
      record { x = x; y = if y % 2 == sign % 2 then y else curve_p - y }

unfoldable pub compare_points : EllipticPoint → EllipticPoint → Bool
compare_points p1 p2 = p1.x == p2.x && p1.y == p2.y
