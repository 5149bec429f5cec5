-- ===== src/Signal/Ratchet/Keys.antt =====
-- The keys of a chain, and the names under which skipped ones are kept.
use native.Mathlib.Numerals.{add-one}
use dsignal.Base.{ℕ, zero, suc, ◌+◌, ◌^◌, ◌<◌, ◌≡◌, ◌∙◌, sym, arith, Bytes, ◌++◌}
use dsignal.Base.Encode.{
  hex_encode-injective, le_bytes, le_bytes-AllBytes, length-le_bytes, le_bytes-injective,
  append_cancel, AllBytes-append,
}
use dsignal.Signal.Elliptic.{EllipticPoint, marshal}
use dsignal.Signal.Primitives.{Primitives, Laws}
use dsignal.Signal.Kdf.{kdf_ck}
use dsignal.Signal.Ratchet.{get_key_from_ratchet}

module _ (p : Primitives) where
  -- The chain key after `n` steps.
  abbrev pub chain_key : Bytes → ℕ → Bytes
  chain_key ck zero = ck
  chain_key ck (suc n) = (kdf_ck p (chain_key ck n)).0

  -- The key of message `n`.
  abbrev pub message_key : Bytes → ℕ → Bytes
  message_key ck n = (kdf_ck p (chain_key ck n)).1

  pub chain_key_step : (ck : Bytes) (n : ℕ) → chain_key ck (n + 1) ≡ (kdf_ck p (chain_key ck n)).0
  chain_key_step ck n = rw add-one

  -- Different message numbers of one chain have different names.
  pub get_key_from_ratchet-injective :
      Laws p
      → (dhr : EllipticPoint) (n m : ℕ) → n < 2 ^ 64
      → m < 2 ^ 64
      → get_key_from_ratchet p dhr n ≡ get_key_from_ratchet p dhr m
      → n ≡ m
  unfolding get_key_from_ratchet
  get_key_from_ratchet-injective laws dhr n m small small' e =
      let digest = p.sha256 (marshal dhr) in
      let bytes = laws.sha256_bytes (marshal dhr) in
      let joined : le_bytes 8 n ++ digest ≡ le_bytes 8 m ++ digest =
        hex_encode-injective (le_bytes 8 n ++ digest) (le_bytes 8 m ++ digest)
          (AllBytes-append (le_bytes 8 n) digest (le_bytes-AllBytes 8 n) bytes)
          (AllBytes-append (le_bytes 8 m) digest (le_bytes-AllBytes 8 m) bytes) e in
      le_bytes-injective 8 n m (omega arith) (omega arith) (
        append_cancel (le_bytes 8 n) (le_bytes 8 m) digest
          (length-le_bytes 8 n ∙ sym (length-le_bytes 8 m)) joined)
