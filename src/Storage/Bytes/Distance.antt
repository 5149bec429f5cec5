-- ===== src/Storage/Bytes/Distance.antt =====
-- The exclusive-or distance of Kademlia.
use dsignal.Base.{
  ℕ, ◌≡◌, ◌∙◌, sym, ap, refl, [], ◌∷◌, some, Bytes, length, replicate, arith, eq_of_some,
}
use dsignal.Base.Bits.{xor_comm, xor_self, xor_cancel}
use dsignal.Storage.Bytes.{d_store_id_size, xor_bytes, xor_distance}

xor_distance-some :
    (a b : Bytes)
    → length a ≡ d_store_id_size
    → length b ≡ d_store_id_size
    → xor_distance a b ≡ some (xor_bytes a b)
unfolding xor_distance
xor_distance-some a b p q = ground arith

xor_bytes_self : (a : Bytes) → xor_bytes a a ≡ replicate (length a) 0
unfolding xor_bytes
xor_bytes_self [] = refl
xor_bytes_self (x ∷ a) = rw (xor_self x, xor_bytes_self a)

xor_bytes_comm : (a b : Bytes) → xor_bytes a b ≡ xor_bytes b a
unfolding xor_bytes
xor_bytes_comm [] [] = refl
xor_bytes_comm [] (y ∷ b) = refl
xor_bytes_comm (x ∷ a) [] = refl
xor_bytes_comm (x ∷ a) (y ∷ b) = rw (xor_comm x y, xor_bytes_comm a b)

abbrev head_or : Bytes → ℕ
head_or [] = 0
head_or (x ∷ a) = x

abbrev tail_of : Bytes → Bytes
tail_of [] = []
tail_of (x ∷ a) = a

xor_bytes_cancel :
    (a b c : Bytes)
    → length a ≡ length b
    → length a ≡ length c
    → xor_bytes a b ≡ xor_bytes a c
    → b ≡ c
unfolding xor_bytes
xor_bytes_cancel [] [] [] p q e = refl
xor_bytes_cancel [] (y ∷ b) c p q e = absurd (omega arith)
xor_bytes_cancel [] [] (z ∷ c) p q e = absurd (omega arith)
xor_bytes_cancel (x ∷ a) [] c p q e = absurd (omega arith)
xor_bytes_cancel (x ∷ a) (y ∷ b) [] p q e = absurd (omega arith)
xor_bytes_cancel (x ∷ a) (y ∷ b) (z ∷ c) p q e =
    let same : y ≡ z = xor_cancel x y z (ap head_or e) in
    let rest : b ≡ c = xor_bytes_cancel a b c (omega arith) (omega arith) (ap tail_of e) in
    rw (same, rest)

-- For ids of the right length the distance is defined, it is zero from an id to itself, it is the
-- same in both directions, and two ids at one distance from a third are equal.
pub xor_distance_metric :
    (a b c : Bytes)
    → length a ≡ d_store_id_size
    → length b ≡ d_store_id_size
    → length c ≡ d_store_id_size
    → (xor_distance a a ≡ some (replicate d_store_id_size 0))
      × (xor_distance a b ≡ xor_distance b a)
      × (xor_distance a b ≡ xor_distance a c → b ≡ c)
xor_distance_metric a b c p q r = (
  xor_distance-some a a p p ∙ rw (xor_bytes_self a, p),
  xor_distance-some a b p q ∙ rw (xor_bytes_comm a b) (sym (xor_distance-some b a q p)),
  λ e.
      xor_bytes_cancel a b c (p ∙ sym q) (p ∙ sym r)
        (eq_of_some (sym (xor_distance-some a b p q) ∙ e ∙ xor_distance-some a c p r)),
)
