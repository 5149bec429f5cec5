-- ===== src/Signal/Identity/Stored.antt =====
-- Identities in their compressed forms and back: the one that is published, and the one that is
-- stored on disk.
use dsignal.Base.{
  ℕ, zero, suc, ◌+◌, ◌≤◌, ◌≡◌, ◌∙◌, refl, ap, Option, none, some, List, [], ◌∷◌, map, length,
  get_elem?, take, replicate, Bytes, arith,
}
use dsignal.Signal.Elliptic.{EllipticPoint, DhPair, marshal, unmarshal}
use dsignal.Signal.Identity.{
  Ecdsa, SelfIdentity, SelfIdentityCompressed, RemoteIdentityCompressed, default_opk_n, no_pair,
  for_each, compress_pair, compress_identity, compress_remote_identity, uncompress_pair, opk_loop,
  uncompress_identity, uncompress_remote_identity,
}

-- Every public key unpacks from its compressed form.
abbrev pub AllUnpack : (Bytes → EllipticPoint) → List DhPair → Type 0
AllUnpack u [] = Unit
AllUnpack u (q ∷ qs) = (unmarshal u (marshal q.pub_key) ≡ q.pub_key) × AllUnpack u qs

for_each-some :
    {A B : Type 0} (f : A → B) (n : ℕ) (xs : List A)
    → n ≤ length xs
    → for_each f n xs ≡ some (map f (take n xs))
for_each-some f zero xs le = refl
for_each-some f (suc n) [] le = absurd (omega arith)
for_each-some f (suc n) (x ∷ xs) le = rw (for_each-some f n xs (omega arith)) refl

for_each-map :
    {A B C : Type 0} (f : A → B) (g : B → C) (n : ℕ) (xs : List A)
    → n ≤ length xs
    → for_each g n (map f (take n xs)) ≡ some (map (λ x. g (f x)) (take n xs))
for_each-map f g zero xs le = refl
for_each-map f g (suc n) [] le = absurd (omega arith)
for_each-map f g (suc n) (x ∷ xs) le = rw (for_each-map f g n xs (omega arith)) refl

pub published : ℕ → List DhPair → List EllipticPoint
published n qs = map (λ q. q.pub_key) (take n qs)

module _ (u : Bytes → EllipticPoint) where
  unpack-published :
      (n : ℕ) (qs : List DhPair)
      → AllUnpack u qs
      → map (λ q. unmarshal u (marshal q.pub_key)) (take n qs) ≡ published n qs
  unfolding published
  unpack-published zero qs all = refl
  unpack-published (suc n) [] all = refl
  unpack-published (suc n) (q ∷ qs) (here, all) = rw (here, unpack-published n qs all) refl

  uncompress-compress_pair :
      (q : DhPair)
      → unmarshal u (marshal q.pub_key) ≡ q.pub_key
      → uncompress_pair u (compress_pair q) ≡ q
  unfolding uncompress_pair
  uncompress-compress_pair q e = rw e refl

  opk_loop-last :
      (n k : ℕ) (qs : List DhPair) (cells last : DhPair)
      → get_elem? qs n ≡ some last
      → opk_loop u (suc n) (map compress_pair (take (suc n) qs)) cells k
        ≡ some (uncompress_pair u (compress_pair last), k + suc n)
  unfolding opk_loop
  opk_loop-last n k [] cells last e = cc
  opk_loop-last zero k (q ∷ qs) cells last e =
      let same : some q ≡ some last = e in
      ap
        (λ (o : Option DhPair). elim o [
          | none ↦ none
          | some q ↦ some (uncompress_pair u (compress_pair q), suc k)
        ])
        same
      ∙ ap (λ (m : ℕ). some (uncompress_pair u (compress_pair last), m)) (omega arith)
  opk_loop-last (suc n) k (q ∷ qs) cells last e =
      opk_loop-last n (suc k) qs (uncompress_pair u (compress_pair q)) last e
      ∙ ap (λ (m : ℕ). some (uncompress_pair u (compress_pair last), m)) (omega arith)

  module _ (identity : SelfIdentity) (sign : Ecdsa) (signed : identity.sign ≡ some sign)
      (enough : 10 ≤ length identity.opk)
      (unpacks_ik : unmarshal u (marshal identity.ik.pub_key) ≡ identity.ik.pub_key)
      (unpacks_spk : unmarshal u (marshal identity.spk.pub_key) ≡ identity.spk.pub_key) where
    stored : SelfIdentityCompressed
    stored = record {
      ik_priv_key = identity.ik.priv_key;
      ik_pub_key = marshal identity.ik.pub_key;
      spk_priv_key = identity.spk.priv_key;
      spk_pub_key = marshal identity.spk.pub_key;
      r = sign.r;
      s = sign.s;
      opk = map compress_pair (take default_opk_n identity.opk);
    }

    compress_identity_lem : compress_identity identity ≡ some stored
    unfolding compress_identity stored
    compress_identity_lem =
        rw (signed, for_each-some compress_pair default_opk_n identity.opk enough) refl

    -- An identity that is signed and has ten one-time keys, all of whose public keys unpack from
    -- their compressed forms, is published and read again with the same keys and signature, its
    -- first ten one-time public keys in their order.
    pub uncompress_remote_identity-compress_remote_identity :
        AllUnpack u identity.opk
        → (c : SelfIdentityCompressed) × (r : RemoteIdentityCompressed) × (compress_identity
              identity
            ≡ some c)
          × (compress_remote_identity c ≡ some r)
          × (uncompress_remote_identity u r
              ≡ some (record {
                ik = identity.ik.pub_key;
                spk = identity.spk.pub_key;
                sign = some sign;
                opk = published 10 identity.opk;
              }))
    unfolding compress_remote_identity uncompress_remote_identity stored
    uncompress_remote_identity-compress_remote_identity all =
        let keys = map (λ (q : DhPair). marshal q.pub_key) (take default_opk_n identity.opk) in
        (
          stored,
          record {
            ik = marshal identity.ik.pub_key;
            spk = marshal identity.spk.pub_key;
            r = sign.r;
            s = sign.s;
            opk = keys;
          },
          compress_identity_lem,
          rw
              (for_each-map compress_pair (λ (e : Bytes × Bytes). e.1) default_opk_n identity.opk
                enough)
              refl,
          rw
              (
                for_each-map (λ (q : DhPair). marshal q.pub_key) (unmarshal u) default_opk_n
                    identity.opk enough,
                unpacks_ik,
                unpacks_spk,
                unpack-published 10 identity.opk all,
              )
              refl,
        )

    -- An identity that is stored and read again has the same identity key, signed pre-key and
    -- signature, but each of its ten one-time key pairs is the tenth one: the other nine are lost.
    pub uncompress_identity_aliased :
        (last : DhPair)
        → get_elem? identity.opk 9 ≡ some last
        → unmarshal u (marshal last.pub_key) ≡ last.pub_key
        → (c : SelfIdentityCompressed) × (compress_identity identity ≡ some c)
          × (uncompress_identity u c
              ≡ some (record {
                ik = identity.ik;
                spk = identity.spk;
                sign = some sign;
                opk = replicate 10 last;
              }))
    unfolding uncompress_identity stored
    uncompress_identity_aliased last tenth unpacks_last = (
      stored,
      compress_identity_lem,
      rw
          (
            uncompress_identity,
            opk_loop-last 9 0 identity.opk no_pair last tenth,
            uncompress-compress_pair identity.ik unpacks_ik,
            uncompress-compress_pair identity.spk unpacks_spk,
            uncompress-compress_pair last unpacks_last,
          )
          refl,
    )
