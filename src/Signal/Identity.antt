-- ===== src/Signal/Identity.antt =====
-- adssignal/adsECDSA.go, and the identities of adssignal/adsX3DH.go with their compressed forms.
-- Key pairs that the code generates are arguments. The outer `none` is a panic.
pub mod Signed
pub mod Stored
use dsignal.Base.{
  ℕ, zero, suc, ◌==◌, Bool, Option, none, some, List, [], ◌∷◌, ◌++◌, map, replicate, Bytes,
  if◌then◌else◌,
}
use dsignal.Signal.Elliptic.{EllipticPoint, DhPair, marshal, unmarshal, be_bytes, from_be}
use dsignal.Signal.Primitives.{Primitives}

pub record Ecdsa : Type 0 where
  pub r : Bytes
  pub s : Bytes

-- crypto/ecdsa: `Sign` with the random bytes it reads, the private key, the public key and the hash,
-- `none` where it returns an error; `Verify` with the public key, the hash and the signature.
pub record Signatures : Type 0 where
  pub ecdsa_sign : Bytes → ℕ → EllipticPoint → Bytes → Option (ℕ × ℕ)
  pub ecdsa_verify : EllipticPoint → Bytes → ℕ → ℕ → Bool

-- `Sign` is nil after an error of `GenerateSignature`.
pub record SelfIdentity : Type 0 where
  pub ik : DhPair
  pub spk : DhPair
  pub sign : Option Ecdsa
  pub opk : List DhPair

-- An inner slice of `OPK` holds the private and the public key of one pair.
pub record SelfIdentityCompressed : Type 0 where
  pub ik_priv_key : Bytes
  pub ik_pub_key : Bytes
  pub spk_priv_key : Bytes
  pub spk_pub_key : Bytes
  pub r : Bytes
  pub s : Bytes
  pub opk : List (Bytes × Bytes)

pub record RemoteIdentity : Type 0 where
  pub ik : EllipticPoint
  pub spk : EllipticPoint
  pub sign : Option Ecdsa
  pub opk : List EllipticPoint

pub record RemoteIdentityCompressed : Type 0 where
  pub ik : Bytes
  pub spk : Bytes
  pub r : Bytes
  pub s : Bytes
  pub opk : List Bytes

abbrev pub default_opk_n : ℕ
default_opk_n = 10

-- The bytes of a number from the first one on that is not 0.
unfoldable pub strip_zeros : Bytes → Bytes
strip_zeros [] = []
strip_zeros (b ∷ bs) = if b == 0 then strip_zeros bs else b ∷ bs

-- `big.Int.Bytes`, for a number below 2 ^ 256 as those of a signature on P-256 are.
unfoldable pub int_bytes : ℕ → Bytes
unfolding strip_zeros be_bytes
int_bytes n = strip_zeros (be_bytes n)

module _ (p : Primitives) (sg : Signatures) where
  pub generate_signature : Bytes → Bytes → DhPair → Option Ecdsa
  generate_signature random message pair =
      elim (sg.ecdsa_sign random (from_be 0 pair.priv_key) pair.pub_key (p.sha256 message)) [
        | none ↦ none
        | some (r, s) ↦ some (record { r = int_bytes r; s = int_bytes s })
      ]

  unfoldable pub verify_signature : Bytes → Ecdsa → EllipticPoint → Bool
  verify_signature message sign pk =
      sg.ecdsa_verify pk (p.sha256 message) (from_be 0 sign.r) (from_be 0 sign.s)

  unfoldable pub generate_identity : Bytes → DhPair → DhPair → List DhPair → SelfIdentity
  unfolding generate_signature
  generate_identity random ik spk opks = record {
    ik = ik;
    spk = spk;
    sign = generate_signature random (marshal spk.pub_key) ik;
    opk = opks;
  }

  unfoldable pub update_identity : Bytes → DhPair → SelfIdentity → SelfIdentity
  unfolding generate_signature
  update_identity random spk identity = record identity {
    spk = spk;
    sign = generate_signature random (marshal spk.pub_key) identity.ik;
  }

-- A loop over the indices below a bound: a panic where the slice is shorter.
abbrev pub for_each {ℓ} : {A B : Type ℓ} → (A → B) → ℕ → List A → Option (List B)
for_each f zero xs = some []
for_each f (suc n) [] = none
for_each f (suc n) (x ∷ xs) = elim (for_each f n xs) [ none ↦ none | some ys ↦ some (f x ∷ ys) ]

abbrev pub compress_pair : DhPair → Bytes × Bytes
compress_pair op = (op.priv_key, marshal op.pub_key)

unfoldable pub compress_identity : SelfIdentity → Option SelfIdentityCompressed
compress_identity identity = elim identity.sign [
  | none ↦ none
  | some sign ↦ elim (for_each compress_pair default_opk_n identity.opk) [
    | none ↦ none
    | some opk ↦ some (record {
      ik_priv_key = identity.ik.priv_key;
      ik_pub_key = marshal identity.ik.pub_key;
      spk_priv_key = identity.spk.priv_key;
      spk_pub_key = marshal identity.spk.pub_key;
      r = sign.r;
      s = sign.s;
      opk = opk;
    })
  ]
]

unfoldable pub compress_remote_identity : SelfIdentityCompressed → Option RemoteIdentityCompressed
compress_remote_identity c = elim (for_each (λ (e : Bytes × Bytes). e.1) default_opk_n c.opk) [
  | none ↦ none
  | some opk ↦ some (record { ik = c.ik_pub_key; spk = c.spk_pub_key; r = c.r; s = c.s; opk = opk })
]

-- The zero value of the two variables.
abbrev pub no_pair : DhPair
no_pair = record { pub_key = record { x = 0; y = 0 }; priv_key = [] }

module _ (uncompressed : Bytes → EllipticPoint) where
  pub uncompress_pair : Bytes × Bytes → DhPair
  uncompress_pair (priv_key, pub_key) = record {
    pub_key = unmarshal uncompressed pub_key;
    priv_key = priv_key;
  }

  -- The loop of `UncompressIdentity`, over the contents of `OPKPubKey` and `OPKPrivKey`. The two
  -- variables are declared before the loop, and every pair of the slice holds pointers to them:
  -- a round assigns them and appends one more such pair.
  pub opk_loop : ℕ → List (Bytes × Bytes) → DhPair → ℕ → Option (DhPair × ℕ)
  opk_loop zero xs cells appended = some (cells, appended)
  opk_loop (suc n) [] cells appended = none
  opk_loop (suc n) (x ∷ xs) cells appended = opk_loop n xs (uncompress_pair x) (suc appended)

  -- The pairs of the result are read through their
  -- pointers, after the loop.
  pub uncompress_identity : SelfIdentityCompressed → Option SelfIdentity
  uncompress_identity c = elim (opk_loop default_opk_n c.opk no_pair 0) [
    | none ↦ none
    | some (cells, appended) ↦ some (record {
      ik = uncompress_pair (c.ik_priv_key, c.ik_pub_key);
      spk = uncompress_pair (c.spk_priv_key, c.spk_pub_key);
      sign = some (record { r = c.r; s = c.s });
      opk = replicate appended cells;
    })
  ]

  pub uncompress_remote_identity : RemoteIdentityCompressed → Option RemoteIdentity
  uncompress_remote_identity c = elim (for_each (unmarshal uncompressed) default_opk_n c.opk) [
    | none ↦ none
    | some opk ↦ some (record {
      ik = unmarshal uncompressed c.ik;
      spk = unmarshal uncompressed c.spk;
      sign = some (record { r = c.r; s = c.s });
      opk = opk;
    })
  ]
