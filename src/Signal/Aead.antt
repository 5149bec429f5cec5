-- ===== src/Signal/Aead.antt =====
-- adssignal/adsAEAD.go: padding, and AES-CBC with a truncated HMAC over the header.
pub mod Padding
pub mod Sealed
use dsignal.Base.{
  ℕ, zero, suc, ◌+◌, ◌-◌, ◌%◌, ◌^◌, Bool, true, false, not, ◌&&◌, Option, none, some, List, [], ◌∷◌,
  ◌++◌, Bytes, length, take, drop, get_elem?, replicate, leb, ltb, ◌==◌, if◌then◌else◌, ite,
  bytes_dec,
}
use dsignal.Base.Encode.{le_bytes}
use dsignal.Signal.Primitives.{Primitives, RatchetHeader, RatchetCipher}
use dsignal.Signal.Kdf.{kdf_aead, new_hmac}

abbrev pub aes_block : ℕ
aes_block = 16

padd_len : ℕ → ℕ
padd_len n = let rest = aes_block - n % aes_block in if rest == 0 then aes_block else rest

-- Only the lowest byte of the padding's length is appended.
pub padd : Bytes → Bytes
unfolding padd_len
padd plaintext = let n = padd_len (length plaintext) in plaintext ++ replicate n (n % 2 ^ 16 % 256)

-- The loop of `unpadd`, with so many rounds left: whether all those bytes are `pad`. `none` is the
-- panic of an index below 0.
unpadd_loop : ℕ → ℕ → ℕ → Bytes → Option Bool
unpadd_loop zero i pad plaintext = some true
unpadd_loop (suc rounds) i pad plaintext =
    let rest = unpadd_loop rounds (i + 1) pad plaintext in
    if leb (length plaintext) i
    then none
    else elim (get_elem? plaintext (length plaintext - 1 - i)) [
      | none ↦ none
      | some b ↦ if b == pad then rest else some false
    ]

unpadd_at : Option ℕ → Bytes → Option Bytes
unfolding unpadd_loop
unpadd_at none plaintext = none
unpadd_at (some pad) plaintext =
    if ltb 0 pad && leb pad 16
    then elim (unpadd_loop (pad - 1) 1 pad plaintext) [
      | none ↦ none
      | some true ↦ some (take (length plaintext - pad) plaintext)
      | some false ↦ some plaintext
    ]
    else some plaintext

-- `none` is a panic, at the empty plaintext or in the loop.
pub unpadd : Bytes → Option Bytes
unfolding unpadd_at
unpadd plaintext =
    unpadd_at (if length plaintext == 0 then none else get_elem? plaintext (length plaintext - 1))
      plaintext

module _ (p : Primitives) where
  open p use {cbc_encrypt, cbc_decrypt, gob}

  -- `Concat` encodes the header, and leaves the additional data out.
  unfoldable pub concat : Bytes → RatchetHeader → Bytes
  concat ad header = gob header

  -- The tag of additional data and ciphertext.
  unfoldable pub tag : Bytes → Bytes → Bytes → Bytes
  unfolding new_hmac le_bytes
  tag authentication_key ad s =
      take aes_block (new_hmac p (ad ++ s ++ le_bytes 8 (length ad)) authentication_key)

  pub encrypt_aead : Bytes → Bytes → Bytes → RatchetCipher
  encrypt_aead mk plaintext ad =
      let (encryption_key, authentication_key, iv) = kdf_aead p mk in
      let s = cbc_encrypt encryption_key iv (padd plaintext) in
      record { ad = ad; ciph = s ++ tag authentication_key ad s }

  -- `none` is a panic; `some none` a ciphertext that is refused.
  unfoldable pub decrypt_aead : Bytes → RatchetCipher → RatchetHeader → Option (Option Bytes)
  decrypt_aead mk c header =
      let (encryption_key, authentication_key, iv) = kdf_aead p mk in
      let ad = concat c.ad header in
      let n = length c.ciph - aes_block in
      let ciphertext = take n c.ciph in
      if ltb (length c.ciph) aes_block
      then none
      else ite (bytes_dec (drop n c.ciph) (tag authentication_key ad ciphertext))
          (if length ciphertext % aes_block == 0
            then elim (unpadd (cbc_decrypt encryption_key iv ciphertext)) [
              | none ↦ none
              | some plaintext ↦ some (some plaintext)
            ]
            else none)
          (some none)
