-- ===== src/Signal/Identity/Signed.antt =====
-- A signature that is made and checked: the numbers of crypto/ecdsa survive their byte form.
use native.Mathlib.Nat.{pow-suc}
use mathlib.Core.List.{reverse, reverse-cons}
use dsignal.Base.{
  ℕ, zero, suc, ◌+◌, ◌*◌, ◌/◌, ◌%◌, ◌^◌, ◌<◌, ◌≡◌, ◌∙◌, refl, ap, true, some, List, [], ◌∷◌, ◌++◌,
  Bytes, arith,
}
use dsignal.Base.Encode.{le_bytes}
use dsignal.Signal.Elliptic.{DhPair, marshal, be_bytes, from_be}
use dsignal.Signal.Primitives.{Primitives}
use dsignal.Signal.Identity.{
  Ecdsa, Signatures, SelfIdentity, strip_zeros, int_bytes, generate_signature, verify_signature,
  generate_identity, update_identity,
}

from_be-snoc : (acc b : ℕ) (bs : Bytes) → from_be acc (bs ++ (b ∷ [])) ≡ from_be acc bs * 256 + b
unfolding from_be
from_be-snoc acc b [] = refl
from_be-snoc acc b (c ∷ bs) = from_be-snoc (acc * 256 + c) b bs

from_be-le_bytes : (k n : ℕ) → n < 256 ^ k → from_be 0 (reverse (le_bytes k n)) ≡ n
unfolding le_bytes from_be
from_be-le_bytes zero n lt = omega arith
from_be-le_bytes (suc k) n lt =
    ap (from_be 0) (reverse-cons (n % 256) (le_bytes k (n / 256)))
    ∙ from_be-snoc 0 (n % 256) (reverse (le_bytes k (n / 256)))
    ∙ omega (arith, from_be-le_bytes k (n / 256) (omega (arith, pow-suc 256 k)))

from_be-strip_zeros : (bs : Bytes) → from_be 0 (strip_zeros bs) ≡ from_be 0 bs
unfolding strip_zeros from_be
from_be-strip_zeros [] = refl
from_be-strip_zeros (b ∷ bs) = ground (arith, from_be-strip_zeros bs)

from_be-int_bytes : (n : ℕ) → n < 2 ^ 256 → from_be 0 (int_bytes n) ≡ n
unfolding int_bytes be_bytes
from_be-int_bytes n lt =
    from_be-strip_zeros (reverse (le_bytes 32 n)) ∙ from_be-le_bytes 32 n (omega arith)

-- What crypto/ecdsa documents of a key pair: what it signs, it accepts.
unfoldable pub Accepts : Signatures → DhPair → Type 0
Accepts sg pair =
    (random hash : Bytes) (r s : ℕ)
    → sg.ecdsa_sign random (from_be 0 pair.priv_key) pair.pub_key hash ≡ some (r, s)
    → (r < 2 ^ 256) × (s < 2 ^ 256) × (sg.ecdsa_verify pair.pub_key hash r s ≡ true)

-- The signature of an identity is there, and is one of its signed pre-key under its identity key.
abbrev pub IsSigned : Primitives → Signatures → SelfIdentity → Type 0
IsSigned p sg identity =
    (sign : Ecdsa) × (identity.sign ≡ some sign)
    × (verify_signature p sg (marshal identity.spk.pub_key) sign identity.ik.pub_key ≡ true)

module _ (p : Primitives) (sg : Signatures) where
  verify_signature-generate_signature :
      (random message : Bytes) (pair : DhPair) (r s : ℕ)
      → Accepts sg pair
      → sg.ecdsa_sign random (from_be 0 pair.priv_key) pair.pub_key (p.sha256 message) ≡ some (r, s)
      → (sign : Ecdsa) × (generate_signature p sg random message pair ≡ some sign)
        × (verify_signature p sg message sign pair.pub_key ≡ true)
  unfolding Accepts generate_signature verify_signature
  verify_signature-generate_signature random message pair r s accepts signed =
      let (small, small', accepted) = accepts random (p.sha256 message) r s signed in
      (
        record { r = int_bytes r; s = int_bytes s },
        rw (generate_signature, signed) refl,
        rw (verify_signature, from_be-int_bytes r small, from_be-int_bytes s small') accepted,
      )

  -- Where crypto/ecdsa signs, and accepts what it has signed with the identity key, a new identity
  -- carries a signature of its signed pre-key that verifies under its identity key; and so does an
  -- identity whose signed pre-key is replaced by a new one.
  pub update_identity-IsSigned :
      (random random' : Bytes) (ik spk spk' : DhPair) (opks : List DhPair) (r s r' s' : ℕ)
      → Accepts sg ik
      → sg.ecdsa_sign random (from_be 0 ik.priv_key) ik.pub_key (p.sha256 (marshal spk.pub_key))
        ≡ some (r, s)
      → sg.ecdsa_sign random' (from_be 0 ik.priv_key) ik.pub_key (p.sha256 (marshal spk'.pub_key))
        ≡ some (r', s')
      → IsSigned p sg (generate_identity p sg random ik spk opks)
        × IsSigned p sg
            (update_identity p sg random' spk' (generate_identity p sg random ik spk opks))
  unfolding generate_identity update_identity
  update_identity-IsSigned random random' ik spk spk' opks r s r' s' accepts signed signed' = (
    verify_signature-generate_signature random (marshal spk.pub_key) ik r s accepts signed,
    verify_signature-generate_signature random' (marshal spk'.pub_key) ik r' s' accepts signed',
  )
