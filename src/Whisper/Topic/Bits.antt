-- ===== src/Whisper/Topic/Bits.antt =====
-- The bytes of a topic's bloom filter.
use dsignal.Base.{
  ℕ, zero, suc, ◌/◌, ◌%◌, ◌^◌, ◌<◌, ◌≡◌, ◌≢◌, ◌∙◌, refl, some, [], ◌∷◌, Bytes, length, set,
  get_elem?, replicate, length-set, length-replicate, arith,
}
use dsignal.Whisper.Bloom.{bloom_filter_size}
use dsignal.Whisper.Topic.{Topic, topic_index, set_index, convert_topic_to_bloom}

get_elem?-set_self : (b : Bytes) (i v : ℕ) → i < length b → get_elem? (set b i v) i ≡ some v
get_elem?-set_self [] i v lt = absurd (omega arith)
get_elem?-set_self (x ∷ b) zero v lt = refl
get_elem?-set_self (x ∷ b) (suc i) v lt = get_elem?-set_self b i v (omega arith)

get_elem?-set_ne : (b : Bytes) (i j v : ℕ) → j ≢ i → get_elem? (set b i v) j ≡ get_elem? b j
get_elem?-set_ne [] i j v ne = refl
get_elem?-set_ne (x ∷ b) zero zero v ne = absurd (ne refl)
get_elem?-set_ne (x ∷ b) zero (suc j) v ne = refl
get_elem?-set_ne (x ∷ b) (suc i) zero v ne = refl
get_elem?-set_ne (x ∷ b) (suc i) (suc j) v ne = get_elem?-set_ne b i j v (λ e. ne (omega arith))

topic_index_lt : (j byte last : ℕ) → byte < 256 → topic_index j byte last < 512
unfolding topic_index
topic_index_lt j byte last lt = ground arith

module _ (t : Topic) where
  abbrev pub index0 : ℕ
  index0 = topic_index 0 t.b0 t.b3

  abbrev pub index1 : ℕ
  index1 = topic_index 1 t.b1 t.b3

  abbrev pub index2 : ℕ
  index2 = topic_index 2 t.b2 t.b3

  -- The filter of a topic has 64 bytes. The byte that the third index points into holds the bit of
  -- that index and no other, whatever the other indices are. The byte of the second index holds the
  -- bit of that index alone where the third index points into another byte, and so the byte of the
  -- first where both others do. A byte that no index points into is 0.
  pub convert_topic_to_bloom_bytes :
      t.b0 < 256
      → t.b1 < 256
      → t.b2 < 256
      → (length (convert_topic_to_bloom t) ≡ bloom_filter_size)
        × (get_elem? (convert_topic_to_bloom t) (index2 / 8) ≡ some (2 ^ (index2 % 8)))
        × (index1 / 8 ≢ index2 / 8
            → get_elem? (convert_topic_to_bloom t) (index1 / 8) ≡ some (2 ^ (index1 % 8)))
        × (index0 / 8 ≢ index1 / 8
            → index0 / 8 ≢ index2 / 8
            → get_elem? (convert_topic_to_bloom t) (index0 / 8) ≡ some (2 ^ (index0 % 8)))
        × ((i : ℕ)
            → i ≢ index0 / 8
            → i ≢ index1 / 8
            → i ≢ index2 / 8
            → get_elem? (convert_topic_to_bloom t) i ≡ get_elem? (replicate bloom_filter_size 0) i)
  unfolding convert_topic_to_bloom set_index
  convert_topic_to_bloom_bytes lt0 lt1 lt2 =
      let empty : Bytes = replicate bloom_filter_size 0 in
      let size : length empty ≡ bloom_filter_size = length-replicate {A = ℕ} bloom_filter_size 0 in
      let v0 = 2 ^ (index0 % 8) in
      let v1 = 2 ^ (index1 % 8) in
      let v2 = 2 ^ (index2 % 8) in
      let b0 : Bytes = set empty (index0 / 8) v0 in
      let b1 : Bytes = set b0 (index1 / 8) v1 in
      let size0 : length b0 ≡ bloom_filter_size = length-set empty (index0 / 8) v0 ∙ size in
      let size1 : length b1 ≡ bloom_filter_size = length-set b0 (index1 / 8) v1 ∙ size0 in
      let in0 = topic_index_lt 0 t.b0 t.b3 lt0 in
      let in1 = topic_index_lt 1 t.b1 t.b3 lt1 in
      let in2 = topic_index_lt 2 t.b2 t.b3 lt2 in
      (
        length-set b1 (index2 / 8) v2 ∙ size1,
        get_elem?-set_self b1 (index2 / 8) v2 (omega arith),
        λ ne.
            get_elem?-set_ne b1 (index2 / 8) (index1 / 8) v2 ne
            ∙ get_elem?-set_self b0 (index1 / 8) v1 (omega arith),
        λ ne ne'.
            get_elem?-set_ne b1 (index2 / 8) (index0 / 8) v2 ne'
            ∙ get_elem?-set_ne b0 (index1 / 8) (index0 / 8) v1 ne
            ∙ get_elem?-set_self empty (index0 / 8) v0 (omega arith),
        λ i ne ne' ne''.
            get_elem?-set_ne b1 (index2 / 8) i v2 ne''
            ∙ get_elem?-set_ne b0 (index1 / 8) i v1 ne'
            ∙ get_elem?-set_ne empty (index0 / 8) i v0 ne,
      )
