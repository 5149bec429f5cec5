-- ===== src/Signal/Kdf.antt =====
-- adssignal/adsKDF.go: the key derivations.
use dsignal.Base.{Bytes, GoString, codes, replicate}
use dsignal.Signal.Primitives.{Primitives}

abbrev pub info_kdf : GoString
info_kdf = codes "ADS_DSE_2019_KDF"

abbrev pub info_aead : GoString
info_aead = codes "SDA_2019_AES_DSE"

abbrev pub info_x3dh : GoString
info_x3dh = codes "DSA_XDH_DSE_2019"

abbrev pub msg_key_input : GoString
msg_key_input = codes "1"

abbrev pub chain_key_input : GoString
chain_key_input = codes "2"

module _ (p : Primitives) where
  open p use {hkdf, hmac}

  -- The new root key and chain key.
  unfoldable pub kdf_rk : Bytes → Bytes → Bytes × Bytes
  kdf_rk rk dh_out = (hkdf rk dh_out info_kdf 0 32, hkdf rk dh_out info_kdf 32 32)

  -- Input first, then key.
  unfoldable pub new_hmac : Bytes → Bytes → Bytes
  new_hmac input key = hmac key input

  -- The new chain key and the message key.
  unfoldable pub kdf_ck : Bytes → Bytes × Bytes
  unfolding new_hmac
  kdf_ck ck = (new_hmac chain_key_input ck, new_hmac msg_key_input ck)

  -- The encryption key, the authentication key and the IV.
  unfoldable pub kdf_aead : Bytes → Bytes × Bytes × Bytes
  kdf_aead mk =
      let salt = replicate 80 0 in
      (hkdf mk salt info_aead 0 32, hkdf mk salt info_aead 32 32, hkdf mk salt info_aead 64 16)

  unfoldable pub kdf_x3dh : Bytes → Bytes
  kdf_x3dh km = hkdf km (replicate 32 0) info_x3dh 0 32
