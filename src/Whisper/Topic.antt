-- ===== src/Whisper/Topic.antt =====
-- whisper/topic.go: topics, and their bloom filters. A topic is an array of 4 bytes.
pub mod Bits
use dsignal.Base.{
  ℕ, zero, suc, ◌+◌, ◌/◌, ◌%◌, ◌^◌, Bool, List, [], ◌∷◌, Bytes, length, set, replicate, get_or, ltb,
  ◌==◌, if◌then◌else◌,
}
use dsignal.Whisper.Bloom.{bloom_filter_size}

abbrev pub topic_length : ℕ
topic_length = 4

pub record Topic : Type 0 where
  pub b0 : ℕ
  pub b1 : ℕ
  pub b2 : ℕ
  pub b3 : ℕ

-- Short input leaves the last bytes 0, long input is cut.
unfoldable pub convert_bytes_to_topic : Bytes → Topic
convert_bytes_to_topic b = record {
  b0 = get_or b 0 0;
  b1 = get_or b 1 0;
  b2 = get_or b 2 0;
  b3 = get_or b 3 0;
}

-- The index that bit `j` of the last byte makes of byte `j`.
unfoldable pub topic_index : ℕ → ℕ → ℕ → ℕ
topic_index j byte last = if last / 2 ^ j % 2 == 0 then byte else byte + 256

-- `b[byteIndex] = (1 << uint(bitIndex))`
unfoldable pub set_index : Bytes → ℕ → Bytes
set_index b index = set b (index / 8) (2 ^ (index % 8))

unfoldable pub convert_topic_to_bloom : Topic → Bytes
unfolding set_index topic_index
convert_topic_to_bloom t =
    let b = replicate bloom_filter_size 0 in
    set_index (set_index (set_index b (topic_index 0 t.b0 t.b3)) (topic_index 1 t.b1 t.b3))
      (topic_index 2 t.b2 t.b3)
