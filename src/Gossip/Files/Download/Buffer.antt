-- ===== src/Gossip/Files/Download/Buffer.antt =====
-- The buffer of a download, and the data of a file by their hashes.
use mathlib.Core.Path.{ap₂}
use mathlib.Core.List.{append_assoc}
use dsignal.Base.{
  ℕ, zero, suc, ◌+◌, ◌-◌, ◌*◌, ◌≤◌, ◌<◌, ◌≡◌, ◌∙◌, ◌⊎◌, sym, ap, true, Option, none, some, [], ◌∷◌,
  ◌++◌, Bytes, GoString, bytes_dec, length, length-append, length-replicate, take, drop,
  take_append, drop_append, replicate, min, leb, inl, inr, dec_lt, arith,
}
use dsignal.Base.Dict.{Dict, lookup, insert, lookup-insert_self, lookup-insert_ne}
use dsignal.Base.Encode.{hex_encode}
use dsignal.Gossip.Files.{file_chunk, block_at}
use dsignal.Gossip.Files.Download.{write_at}

drop_past : (xs ys : Bytes) (m : ℕ) → drop (length xs + m) (xs ++ ys) ≡ drop m ys
drop_past [] ys m = let e : 0 + m ≡ m = omega arith in ap (λ (k : ℕ). drop k ys) e
drop_past (x ∷ xs) ys m =
    let e : suc (length xs) + m ≡ suc (length xs + m) = omega arith in
    ap (λ (k : ℕ). drop k (x ∷ (xs ++ ys))) e ∙ drop_past xs ys m

drop-replicate : (m z : ℕ) → drop {A = ℕ} m (replicate z 0) ≡ replicate (z - m) 0
drop-replicate zero z = let e : z ≡ z - 0 = omega arith in ap (λ (k : ℕ). replicate {A = ℕ} k 0) e
drop-replicate (suc m) zero =
    let e : 0 ≡ 0 - suc m = omega arith in ap (λ (k : ℕ). replicate {A = ℕ} k 0) e
drop-replicate (suc m) (suc z) =
    let e : z - m ≡ suc z - suc m = omega arith in
    drop-replicate m z ∙ ap (λ (k : ℕ). replicate {A = ℕ} k 0) e

-- A chunk in the free part of the buffer.
pub write_at-replicate :
    (at z : ℕ) (out chunk : Bytes)
    → length out ≡ at
    → length chunk ≤ z
    → write_at at chunk (out ++ replicate z 0)
      ≡ some ((out ++ chunk) ++ replicate (z - length chunk) 0)
unfolding write_at
write_at-replicate at z out chunk e fits =
    let buffer : Bytes = out ++ replicate z 0 in
    let inside : leb (at + length chunk) (length buffer) ≡ true =
      ground (arith, length-append out (replicate z 0), length-replicate {A = ℕ} z 0) in
    let before : take at buffer ≡ out =
      ap (λ (n : ℕ). take n buffer) (sym e) ∙ take_append out (replicate z 0) in
    let after : drop (at + length chunk) buffer ≡ replicate (z - length chunk) 0 =
      ap (λ (n : ℕ). drop (n + length chunk) buffer) (sym e)
      ∙ drop_past out (replicate z 0) (length chunk)
      ∙ drop-replicate (length chunk) z in
    rw inside (
      ap some (
        ap₂ (λ (a b : Bytes). a ++ (chunk ++ b)) before after
        ∙ sym (append_assoc out chunk (replicate (z - length chunk) 0))))

pub block_at_lem :
    (i : ℕ) (pre hash rest : Bytes)
    → length pre ≡ i * 32
    → length hash ≡ 32
    → block_at i (pre ++ (hash ++ rest)) ≡ some hash
unfolding block_at
block_at_lem i pre hash rest e e' =
    let inside : leb ((i + 1) * 32) (length (pre ++ (hash ++ rest))) ≡ true =
      ground (arith, length-append pre (hash ++ rest), length-append hash rest) in
    rw inside (
      ap some (
        ap (λ (n : ℕ). take 32 (drop n (pre ++ (hash ++ rest)))) (sym e)
        ∙ ap (take 32) (drop_append pre (hash ++ rest))
        ∙ ap (λ (n : ℕ). take n (hash ++ rest)) (sym e')
        ∙ take_append hash rest))

-- The bounds of one round, from those before it.
pub round_bounds :
    (rounds i z n out part : ℕ)
    → part ≡ min file_chunk n
    → out ≡ i * file_chunk
    → suc rounds * file_chunk < n + file_chunk
    → n ≤ suc rounds * file_chunk
    → suc rounds * file_chunk ≤ z
    → ((rounds ≡ 0)
        ⊎ ((out + part ≡ (i + 1) * file_chunk)
            × (rounds * file_chunk < n - file_chunk + file_chunk)))
      × (n - file_chunk ≤ rounds * file_chunk)
      × (rounds * file_chunk ≤ z - part)
      × (part ≤ z)
round_bounds rounds i z n out part e at full short room = (
  (elim (dec_lt 0 rounds) [
    | yes more ↦ inr (omega arith, omega arith)
    | no last ↦ inl (omega arith)
  ]),
  omega arith,
  omega arith,
  omega arith,
)

module _ (sha256 : Bytes → Bytes) where
  -- The hashes of the chunks.
  unfoldable pub hashes_of : ℕ → Bytes → Bytes
  hashes_of zero payload = []
  hashes_of (suc rounds) payload =
      sha256 (take file_chunk payload) ++ hashes_of rounds (drop file_chunk payload)

  -- Under the key of each chunk stands that chunk.
  abbrev pub AllNamed : (GoString → Option Bytes) → ℕ → Bytes → Type 0
  AllNamed content zero payload = Unit
  AllNamed content (suc rounds) payload =
      (content (hex_encode (sha256 (take file_chunk payload))) ≡ some (take file_chunk payload))
      × AllNamed content rounds (drop file_chunk payload)

-- The data that are held are those of the keys.
abbrev pub Agrees : (GoString → Option Bytes) → Dict GoString Bytes → Type 0
Agrees content d =
    (k : GoString) → (lookup bytes_dec k d ≡ none) ⊎ (lookup bytes_dec k d ≡ content k)

pub insert-Agrees :
    (content : GoString → Option Bytes) (k : GoString) (c : Bytes) (d : Dict GoString Bytes)
    → content k ≡ some c
    → Agrees content d
    → Agrees content (insert bytes_dec k c d)
insert-Agrees content k c d e agrees j = elim (bytes_dec k j) [
  | yes same ↦ inr (
      ap (λ (x : GoString). lookup bytes_dec x (insert bytes_dec k c d)) (sym same)
      ∙ lookup-insert_self bytes_dec k c d
      ∙ sym e
      ∙ ap content same)
  | no other ↦ elim (agrees j) [
    | inl miss ↦ inl (lookup-insert_ne bytes_dec k j c d other ∙ miss)
    | inr hit ↦ inr (lookup-insert_ne bytes_dec k j c d other ∙ hit)
  ]
]
