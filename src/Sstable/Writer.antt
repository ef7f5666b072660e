-- ===== src/Sstable/Writer.antt =====
-- sstable/encode.rs and sstable/compaction_writer.rs: the two ways to write a table's file. Each
-- `write` appends its whole argument to the file.
use lsmlite.Base.{ℕ, zero, suc, ◌+◌, Option, none, some, [], ◌++◌}
use lsmlite.Base.{length, leb, if◌then◌else◌, ◌>>=◌}
use lsmlite.Base.Bytes.{Blob, to_be_bytes}
use lsmlite.Record
use lsmlite.Record.{Record, get_key, copy_record}
use lsmlite.Trie
use lsmlite.Trie.{Trie}
use lsmlite.Bloom
use lsmlite.Bloom.{BloomFilter, Hashing}
use lsmlite.Memtable.{Tree, at}
use lsmlite.Sstable.{sstable_header, header_size}
use lsmlite.Sstable.Footer.{encode_footer}

abbrev pub v0_header : ℕ
v0_header = 0

abbrev pub file_start : Blob
file_start = sstable_header ++ to_be_bytes 2 v0_header

-- The index block, the filter and the footer, as both writers end.
unfoldable pub finish_file : Blob → ℕ → Trie → BloomFilter → Option Blob
finish_file fd index_block_start trie bloom_filter = do
  index_block_buffer ← Trie.serialize trie
  let bloom_filter_start = index_block_start + length index_block_buffer
  bloom_filter_buffer ← Bloom.serialize bloom_filter
  footer ← encode_footer index_block_start (length index_block_buffer) bloom_filter_start
  some (fd ++ (index_block_buffer ++ (bloom_filter_buffer ++ footer)))

-- What `inorder_flush` changes.
pub record Flush : Type 0 where
  pub fd : Blob
  pub disk_size : ℕ
  pub trie : Trie
  pub bloom_filter : BloomFilter

unfoldable pub flush_record : Hashing → Record → Flush → Option Flush
flush_record h r s = do
  key ← get_key r
  bloom_filter ← Bloom.insert h key s.bloom_filter
  trie ← Trie.insert key s.disk_size s.trie
  some (record {
    fd = s.fd ++ copy_record r;
    disk_size = s.disk_size + length (copy_record r);
    trie = trie;
    bloom_filter = bloom_filter;
  })

-- The arena's length bounds the depth of the tree; `none` is a panic, or no rounds left.
unfoldable pub inorder_flush : ℕ → Hashing → Tree → Option ℕ → Flush → Option Flush
inorder_flush rounds h t none s = some s
inorder_flush zero h t (some node_idx) s = none
inorder_flush (suc rounds) h t (some node_idx) s = do
  node ← at t node_idx
  s₁ ← inorder_flush rounds h t node.left s
  s₂ ← flush_record h node.payload s₁
  inorder_flush rounds h t node.right s₂

unfoldable pub write_sstable : Hashing → Tree → Option Blob
write_sstable h t = do
  let start : Flush = record {
    fd = file_start;
    disk_size = header_size;
    trie = record { arena = [] };
    bloom_filter = Bloom.new h (length t.arena);
  }
  s ← inorder_flush (length t.arena) h t t.root_node start
  finish_file s.fd s.disk_size s.trie s.bloom_filter

-- The compaction's writer. `filename` is a parameter of the run, and not kept here.
pub record CompactionWriter : Type 0 where
  pub fd : Blob
  pub trie : Trie
  pub disk_offset : ℕ
  pub write_buffer : Blob
  pub bloom_filter : BloomFilter

unfoldable pub new : Hashing → CompactionWriter
new h = record {
  fd = file_start;
  trie = record { arena = [] };
  disk_offset = header_size;
  write_buffer = [];
  bloom_filter = Bloom.new h 1024;
}

-- `capacity` is what the vector `write_buffer` says of itself at the test.
unfoldable pub push : Hashing → ℕ → Record → CompactionWriter → Option CompactionWriter
push h capacity r w = do
  key ← get_key r
  bloom_filter ← Bloom.insert h key w.bloom_filter
  let record_size = Record.size r
  trie ← Trie.insert key w.disk_offset w.trie
  let flushes = leb capacity (length w.write_buffer + record_size)
  some (record {
    fd = if flushes then w.fd ++ w.write_buffer else w.fd;
    trie = trie;
    disk_offset = w.disk_offset + record_size;
    write_buffer = (if flushes then [] else w.write_buffer) ++ r.blob;
    bloom_filter = bloom_filter;
  })

unfoldable pub finish : CompactionWriter → Option Blob
finish w = finish_file (w.fd ++ w.write_buffer) w.disk_offset w.trie w.bloom_filter
