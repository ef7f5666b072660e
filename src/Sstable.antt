-- ===== src/Sstable.antt =====
-- sstable/ and ssindex/mod.rs: the files of sorted records. A file is its bytes:
--   "lsmlite"  version  records  index  bloom filter  footer
-- Opening a file that is too short is an `Err` or a panic, which are both `none` here.
pub mod Footer
pub mod Writer
pub mod Cache
pub mod Order
pub mod Reopen
pub mod Latest
pub mod Written
pub mod Search
mod Merged
pub mod Examples
use lsmlite.Base.{ℕ, ◌+◌, ◌-◌, Option, none, some, Bool, List, [], ◌∷◌, ◌++◌}
use lsmlite.Base.{length, drop, if◌then◌else◌, ◌>>=◌}
use lsmlite.Base.Bytes.{Blob, slice, from_be_bytes}
use lsmlite.Base.Key.{key_eq}
use lsmlite.Record.{Record}
use lsmlite.Record.Update.{checked_sub}
use lsmlite.Util.{get_be_array2}
use lsmlite.Wal.{replay}
use lsmlite.Trie
use lsmlite.Trie.{Trie, deserialize_from_disk}
use lsmlite.Bloom
use lsmlite.Bloom.{BloomFilter, Hashing, from_bytes, contains}
use lsmlite.Disk.Read.{
  SearchResult, ok, disk_record_not_found, tombstone, io_error, read_data_block,
}
use lsmlite.Sstable.Footer.{SstableFooter, footer_from_disk, footer_size}

-- constants/mod.rs: `b"lsmlite"` and the size of the header with the version.
abbrev pub sstable_header : Blob
sstable_header = 108 ∷ 115 ∷ 109 ∷ 108 ∷ 105 ∷ 116 ∷ 101 ∷ []

abbrev pub header_size : ℕ
header_size = 9

pub record SstIndex : Type 0 where
  pub trie : Trie
  pub bloom_filter : BloomFilter
  pub data_block_end : ℕ

-- The index block is read at its start, and the filter from the position behind it.
unfoldable pub index_from_disk : Blob → Option SstIndex
index_from_disk fd = do
  footer_offset ← checked_sub (length fd) footer_size
  footer ← footer_from_disk fd footer_offset
  index_len ← checked_sub footer.bloom_filter_start footer.index_block_start
  index_table_buffer ← slice fd footer.index_block_start index_len
  trie ← deserialize_from_disk index_table_buffer
  bloom_filter_len ← checked_sub footer_offset footer.bloom_filter_start
  bloom_filter_buffer ← slice fd (footer.index_block_start + index_len) bloom_filter_len
  bloom_filter ← from_bytes bloom_filter_buffer
  some (record {
    trie = trie;
    bloom_filter = bloom_filter;
    data_block_end = footer.index_block_start;
  })

unfoldable pub get_offset_for_key : Hashing → SstIndex → Blob → Option (Option ℕ)
get_offset_for_key h index key = do
  there ← contains h index.bloom_filter key
  if there then Trie.get index.trie key else some none

unfoldable pub validate_buffer_and_get_version : Blob → Option ℕ
validate_buffer_and_get_version fd = do
  header_buffer ← slice fd 0 7
  version_buffer ← slice fd 7 2
  version_arr ← get_be_array2 version_buffer
  if key_eq header_buffer sstable_header then some (from_be_bytes version_arr) else none

pub record Sstable : Type 0 where
  pub index : SstIndex
  pub fd : Blob
  pub version : ℕ

unfoldable pub from_fd : Blob → Option Sstable
from_fd fd = do
  version ← validate_buffer_and_get_version fd
  index ← index_from_disk fd
  some (record { index = index; fd = fd; version = version })

unfoldable pub search : Hashing → Sstable → Blob → Option SearchResult
search h table key = get_offset_for_key h table.index key >>= λ hit. elim hit [
  | none ↦ some disk_record_not_found
  | some offset ↦ read_data_block table.fd offset key
]

-- `SSTableIterator`: the buffer of the records, and what its `next` gives up to the first `None`.
unfoldable pub iterator_buffer : Sstable → Option Blob
iterator_buffer table = do
  size ← checked_sub table.index.data_block_end header_size
  slice table.fd header_size size

unfoldable pub iterate : Sstable → Option (List Record)
iterate table = iterator_buffer table >>= λ buffer. replay buffer
