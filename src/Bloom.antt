-- ===== src/Bloom.antt =====
-- sstable/bloom_filter.rs. The standard library's hasher and the rounding of floating-point
-- numbers are parameters. An index out of bounds is `none`. The bit operations `w | 1 << k` and
-- `w & (1 << k)` go by the digits of the word.
pub mod Bits
pub mod Members
pub mod Serial
pub mod Examples
use lsmlite.Base.{ℕ, zero, suc, ◌+◌, ◌*◌, ◌/◌, ◌%◌, ◌^◌, Option, none, some, Bool, true, false}
use lsmlite.Base.{
  List, [], ◌∷◌, length, get_elem?, set, replicate, take, ◌==◌, if◌then◌else◌, ◌>>=◌,
}
use lsmlite.Base.Bytes.{Blob, to_be_bytes, from_be_bytes}
use lsmlite.Util.{encode_varint, decode_varint, get_be_array8}
use lsmlite.Disk.Encode.{put}

-- `hash1` and `hash2` hash a key behind a 0 and a 1; `hash_rounds bits size` is
-- `((bits / size) * LN_2).round().max(1)`.
pub record Hashing : Type 0 where
  pub hash1 : Blob → ℕ
  pub hash2 : Blob → ℕ
  pub hash_rounds : ℕ → ℕ → ℕ

pub record BloomFilter : Type 0 where
  pub bits : List ℕ
  pub num_bits : ℕ
  pub num_hashes : ℕ

unfoldable pub set_bit : ℕ → ℕ → ℕ
set_bit zero w = w / 2 * 2 + 1
set_bit (suc k) w = set_bit k (w / 2) * 2 + w % 2

unfoldable pub test_bit : ℕ → ℕ → Bool
test_bit zero w = w % 2 == 1
test_bit (suc k) w = test_bit k (w / 2)

-- `div_ceil(64)` rounds up.
unfoldable pub new : Hashing → ℕ → BloomFilter
new h size =
    let num_words = (size * 10 + 63 + 63) / 64 in
    let num_bits = 64 * num_words in
    record {
      bits = replicate num_words 0;
      num_bits = num_bits;
      num_hashes = h.hash_rounds num_bits size;
    }

-- `h1.wrapping_add(i.wrapping_mul(h2)) % num_bits`
unfoldable pub bit_idx : Hashing → Blob → ℕ → ℕ → ℕ
bit_idx h key num_bits i = (h.hash1 key + i * h.hash2 key % 2 ^ 64) % 2 ^ 64 % num_bits

unfoldable pub insert_bit : List ℕ → ℕ → Option (List ℕ)
insert_bit bits idx = do
  word ← get_elem? bits (idx / 64)
  some (set bits (idx / 64) (set_bit (idx % 64) word))

unfoldable pub contains_bit : List ℕ → ℕ → Option Bool
contains_bit bits idx = do word ← get_elem? bits (idx / 64); some (test_bit (idx % 64) word)

-- The loops over `i`, with the rounds that are left.
unfoldable pub insert_loop : Hashing → Blob → ℕ → ℕ → ℕ → List ℕ → Option (List ℕ)
insert_loop h key num_bits zero i bits = some bits
insert_loop h key num_bits (suc rounds) i bits =
    insert_bit bits (bit_idx h key num_bits i) >>= λ bits'.
    insert_loop h key num_bits rounds (i + 1) bits'

unfoldable pub insert : Hashing → Blob → BloomFilter → Option BloomFilter
insert h key f = do
  bits ← insert_loop h key f.num_bits f.num_hashes 0 f.bits
  some (record f { bits = bits })

unfoldable pub contains_loop : Hashing → Blob → ℕ → ℕ → ℕ → List ℕ → Option Bool
contains_loop h key num_bits zero i bits = some true
contains_loop h key num_bits (suc rounds) i bits =
    let rest = contains_loop h key num_bits rounds (i + 1) bits in
    contains_bit bits (bit_idx h key num_bits i) >>= λ there. if there then rest else some false

unfoldable pub contains : Hashing → BloomFilter → Blob → Option Bool
contains h f key = contains_loop h key f.num_bits f.num_hashes 0 f.bits

unfoldable pub put_words : List ℕ → Blob × ℕ → Option (Blob × ℕ)
put_words [] b = some b
put_words (w ∷ words) b = put b (to_be_bytes 8 w) >>= λ b'. put_words words b'

-- The buffer is `vec![0_u8; buffer_size]`.
unfoldable pub serialize : BloomFilter → Option Blob
serialize f = do
  let (bit_len_varint, varint_size) = encode_varint (length f.bits)
  let buffer_size = varint_size + 8 * (length f.bits + 1)
  b₁ ← put (replicate buffer_size 0, 0) (take varint_size bit_len_varint)
  b₂ ← put_words f.bits b₁
  b₃ ← put b₂ (to_be_bytes 8 f.num_hashes)
  some b₃.0

unfoldable pub get_words : ℕ → Blob → ℕ → Option (List ℕ × ℕ)
get_words zero buffer offset = some ([], offset)
get_words (suc n) buffer offset = do
  bytes ← get_be_array8 buffer offset
  (words, finish) ← get_words n buffer (offset + 8)
  some (from_be_bytes bytes ∷ words, finish)

unfoldable pub from_bytes : Blob → Option BloomFilter
from_bytes buffer = do
  (num_words, bytes_walked) ← decode_varint buffer 0
  (bits, offset) ← get_words num_words buffer bytes_walked
  be_bytes ← get_be_array8 buffer offset
  some (record { bits = bits; num_bits = 64 * length bits; num_hashes = from_be_bytes be_bytes })
