-- ===== src/Signal/Primitives.antt =====
-- What adssignal/ takes from Go's cryptographic packages, and the header that they encode.
use dsignal.Base.{ℕ, ◌≡◌, ◌%◌, Bytes, GoString, AllBytes, length}
use dsignal.Signal.Elliptic.{EllipticPoint}

pub record RatchetHeader : Type 0 where
  pub pub_key : Bytes
  pub pn : ℕ
  pub n : ℕ
  pub origin : GoString
  pub destination : GoString
  pub hop_limit : ℕ

pub record RatchetCipher : Type 0 where
  pub ad : Bytes
  pub ciph : Bytes

pub record RatchetMessage : Type 0 where
  pub header : RatchetHeader
  pub message : RatchetCipher

pub record Primitives : Type 0 where
  -- crypto/elliptic: `ScalarMult` on P-256, and `Unmarshal`
  pub scalar_mult : EllipticPoint → Bytes → EllipticPoint
  pub elliptic_unmarshal : Bytes → EllipticPoint
  -- golang.org/x/crypto/hkdf over SHA-256: of the stream for a secret, a salt and an info, so many
  -- bytes from an offset on
  pub hkdf : Bytes → Bytes → Bytes → ℕ → ℕ → Bytes
  -- crypto/hmac over SHA-256: key and message
  pub hmac : Bytes → Bytes → Bytes
  pub sha256 : Bytes → Bytes
  -- crypto/cipher: AES in CBC mode, by key, IV and whole blocks
  pub cbc_encrypt : Bytes → Bytes → Bytes → Bytes
  pub cbc_decrypt : Bytes → Bytes → Bytes → Bytes
  -- encoding/gob
  pub gob : RatchetHeader → Bytes

-- The documented behaviour that the theorems use.
pub record Laws (p : Primitives) : Type 0 where
  pub cbc_inverse :
      (key iv blocks : Bytes)
      → length blocks % 16 ≡ 0
      → p.cbc_decrypt key iv (p.cbc_encrypt key iv blocks) ≡ blocks
  pub cbc_length : (key iv blocks : Bytes) → length (p.cbc_encrypt key iv blocks) ≡ length blocks
  pub hmac_length : (key message : Bytes) → length (p.hmac key message) ≡ 32
  pub sha256_bytes : (message : Bytes) → AllBytes (p.sha256 message)
