-- ===== src/Signal/Aead/Sealed.antt =====
-- What is encrypted under a message key decrypts under it.
use dsignal.Base.{
  ℕ, ◌+◌, ◌-◌, ◌%◌, ◌≡◌, ◌∙◌, refl, ap, false, none, some, ◌++◌, Bytes, arith, length, take, drop,
  bytes_dec, if_pos, ltb, length-append, length-take, take_append, drop_append,
}
use dsignal.Base.Encode.{le_bytes}
use dsignal.Signal.Primitives.{Primitives, Laws, RatchetHeader}
use dsignal.Signal.Kdf.{kdf_aead, new_hmac}
use dsignal.Signal.Aead.{padd, unpadd, concat, tag, encrypt_aead, decrypt_aead}
use dsignal.Signal.Aead.Padding.{unpadd-padd}

module _ (p : Primitives) (laws : Laws p) where
  length-tag : (key ad s : Bytes) → length (tag p key ad s) ≡ 16
  unfolding tag
  length-tag key ad s =
      length-take 16 (new_hmac p (ad ++ s ++ le_bytes 8 (length ad)) key)
      ∙ omega (arith, laws.hmac_length key (ad ++ s ++ le_bytes 8 (length ad)))

  -- A ciphertext and its tag, taken apart again.
  decrypt_parts :
      (mk ad s : Bytes) (header : RatchetHeader)
      → length s % 16 ≡ 0
      → decrypt_aead p mk
          (record { ad = ad; ciph = s ++ tag p (kdf_aead p mk).1 (concat p ad header) s })
          header
        ≡ elim (unpadd (p.cbc_decrypt (kdf_aead p mk).0 (kdf_aead p mk).2 s)) [
          | none ↦ none
          | some plaintext ↦ some (some plaintext)
        ]
  unfolding decrypt_aead
  decrypt_parts mk ad s header whole =
      let (encryption_key, authentication_key, iv) = kdf_aead p mk in
      let t = tag p authentication_key (concat p ad header) s in
      let l : length (s ++ t) ≡ length s + 16 =
        length-append s t ∙ omega (arith, length-tag authentication_key (concat p ad header) s) in
      let n : length (s ++ t) - 16 ≡ length s = omega (arith, l) in
      let long : ltb (length (s ++ t)) 16 ≡ false = ground (arith, l) in
      let front : take (length (s ++ t) - 16) (s ++ t) ≡ s =
        ap (λ (k : ℕ). take k (s ++ t)) n ∙ take_append s t in
      let back : drop (length (s ++ t) - 16) (s ++ t) ≡ t =
        ap (λ (k : ℕ). drop k (s ++ t)) n ∙ drop_append s t in
      rw (long, front, back, whole) (if_pos (bytes_dec t t) refl _ _)

  -- A plaintext that was encrypted under a message key with the encoding of a header decrypts under
  -- that key and header, and the decryption does not panic.
  pub decrypt_aead-encrypt_aead :
      (mk plaintext ad : Bytes) (header : RatchetHeader)
      → decrypt_aead p mk (encrypt_aead p mk plaintext (concat p ad header)) header
        ≡ some (some plaintext)
  unfolding encrypt_aead concat
  decrypt_aead-encrypt_aead mk plaintext ad header =
      let (encryption_key, authentication_key, iv) = kdf_aead p mk in
      let (inverse, whole, longer) = unpadd-padd plaintext in
      let s = p.cbc_encrypt encryption_key iv (padd plaintext) in
      let whole' : length s % 16 ≡ 0 =
        omega (arith, laws.cbc_length encryption_key iv (padd plaintext), whole) in
      decrypt_parts mk (concat p ad header) s header whole'
      ∙ rw (laws.cbc_inverse encryption_key iv (padd plaintext) whole, inverse)
