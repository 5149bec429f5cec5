-- ===== src/Signal/Ratchet/Stored.antt =====
-- The form in which adssignal/adsDoubleRatchet.go stores a ratchet. The file and its JSON are not
-- modelled.
use dsignal.Base.{ℕ, ◌≡◌, refl, ap, sym, ◌∙◌, Option, none, some, Bytes, GoString, arith}
use dsignal.Base.Dict.{Dict}
use dsignal.Signal.Elliptic.{EllipticPoint, marshal, unmarshal}
use dsignal.Signal.Ratchet.{DRatchetState}

pub record DRatchetStateCompressed : Type 0 where
  pub peer : GoString
  pub dhs_priv_key : Bytes
  pub dhs_pub_key : Bytes
  pub dhr : Bytes
  pub rk : Bytes
  pub cks : Bytes
  pub ckr : Bytes
  pub ns : ℕ
  pub nr : ℕ
  pub pn : ℕ
  pub mk_skipped : Dict GoString Bytes

-- `none` is a panic: a nil pointer is followed.
unfoldable pub compress_ratchet : DRatchetState → Option DRatchetStateCompressed
compress_ratchet s = elim s.dhr [
  | none ↦ none
  | some dhr ↦ elim s.cks [
    | none ↦ none
    | some cks ↦ elim s.ckr [
      | none ↦ none
      | some ckr ↦ some (record {
        peer = s.peer;
        dhs_priv_key = s.dhs.priv_key;
        dhs_pub_key = marshal s.dhs.pub_key;
        dhr = marshal dhr;
        rk = s.rk;
        cks = cks;
        ckr = ckr;
        ns = s.ns;
        nr = s.nr;
        pn = s.pn;
        mk_skipped = s.mk_skipped;
      })
    ]
  ]
]

unfoldable pub uncompress_ratchet :
    (Bytes → EllipticPoint) → DRatchetStateCompressed → DRatchetState
uncompress_ratchet uncompressed c = record {
  peer = c.peer;
  dhs = record { pub_key = unmarshal uncompressed c.dhs_pub_key; priv_key = c.dhs_priv_key };
  dhr = some (unmarshal uncompressed c.dhr);
  rk = c.rk;
  cks = some c.cks;
  ckr = some c.ckr;
  ns = c.ns;
  nr = c.nr;
  pn = c.pn;
  mk_skipped = c.mk_skipped;
}

-- A ratchet that has both chains and a remote key, and whose public keys unpack from their
-- compressed forms, comes back as it was.
pub uncompress_ratchet-compress_ratchet :
    (uncompressed : Bytes → EllipticPoint) (s : DRatchetState) (dhr : EllipticPoint)
    (cks ckr : Bytes)
    → s.dhr ≡ some dhr
    → s.cks ≡ some cks
    → s.ckr ≡ some ckr
    → unmarshal uncompressed (marshal s.dhs.pub_key) ≡ s.dhs.pub_key
    → unmarshal uncompressed (marshal dhr) ≡ dhr
    → (c : DRatchetStateCompressed) × (compress_ratchet s ≡ some c)
      × (uncompress_ratchet uncompressed c ≡ s)
unfolding compress_ratchet uncompress_ratchet
uncompress_ratchet-compress_ratchet uncompressed s dhr cks ckr remote sends receives own other = (
  record {
    peer = s.peer;
    dhs_priv_key = s.dhs.priv_key;
    dhs_pub_key = marshal s.dhs.pub_key;
    dhr = marshal dhr;
    rk = s.rk;
    cks = cks;
    ckr = ckr;
    ns = s.ns;
    nr = s.nr;
    pn = s.pn;
    mk_skipped = s.mk_skipped;
  },
  rw (remote, sends, receives, compress_ratchet) refl,
  λ i. record s {
    dhs = record { pub_key = own i; priv_key = s.dhs.priv_key };
    dhr = (ap some other ∙ sym remote) i;
    cks = (sym sends) i;
    ckr = (sym receives) i;
  },
)

pub compress_ratchet-none : (s : DRatchetState) → s.ckr ≡ none → compress_ratchet s ≡ none
unfolding compress_ratchet
compress_ratchet-none s e = ground arith
