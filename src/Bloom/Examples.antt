-- ===== src/Bloom/Examples.antt =====
-- The filter of sstable/bloom_filter.rs with a concrete pair of hashes.
use lsmlite.Base.{◌+◌, ◌≡◌, refl, arith, some, true, [], ◌∷◌, length, ◌>>=◌}
use lsmlite.Base.Bytes.{Blob}
use lsmlite.Bloom.{Hashing, BloomFilter, new, insert, contains, serialize, from_bytes}
use lsmlite.Bloom.Members.{IsFilter, new-IsFilter, contains-insert}
use lsmlite.Bloom.Serial.{from_bytes-serialize}

abbrev pub by_length : Hashing
by_length = record {
  hash1 = λ key. length key;
  hash2 = λ key. length key + 1;
  hash_rounds = λ num_bits size. 7;
}

abbrev pub small : BloomFilter
small = record { bits = 5 ∷ 0 ∷ []; num_bits = 128; num_hashes = 7 }

contains-insert_example :
    (f' : BloomFilter) × (insert by_length (1 ∷ 2 ∷ []) (new by_length 10) ≡ some f')
    × IsFilter f'
    × (contains by_length f' (1 ∷ 2 ∷ []) ≡ some true)
    × ((key' : Blob)
        → contains by_length (new by_length 10) key' ≡ some true
        → contains by_length f' key' ≡ some true)
contains-insert_example =
    contains-insert by_length (new by_length 10) (1 ∷ 2 ∷ []) (new-IsFilter by_length 10)

pub small-IsFilter : IsFilter small
small-IsFilter = record { sized = refl; nonempty = omega arith }

from_bytes-serialize_example : (serialize small >>= from_bytes) ≡ some small
from_bytes-serialize_example =
    from_bytes-serialize small small-IsFilter (omega arith, (omega arith, tt)) (omega arith)
      (omega arith)
