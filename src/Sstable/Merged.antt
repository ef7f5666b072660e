-- ===== src/Sstable/Merged.antt =====
-- A compaction file with two records of one key.
use lsmlite.Base.{ℕ, ◌+◌, ◌^◌, ◌≡◌, refl, arith, All, some}
use lsmlite.Base.{List, [], ◌∷◌, ◌++◌, map, ◌>>=◌}
use lsmlite.Util.{IsUsize, encode_varint, encode_loop}
use lsmlite.Util.Varint.{varint}
use lsmlite.Disk.Layout.{Entry, layout, data_layout, data_bytes}
use lsmlite.Disk.Layout.{data_log_size, bytes}
use lsmlite.Disk.Examples.{key, entry, entry-Fits}
use lsmlite.Bloom.Examples.{by_length}
use lsmlite.Sstable.{from_fd, search, iterate}
use lsmlite.Sstable.Writer.{CompactionWriter, new, finish}
use lsmlite.Sstable.Latest.{latest}
use lsmlite.Sstable.Reopen.{IndexFits}
use lsmlite.Sstable.Written.{push_all, pushed}
use lsmlite.Base.{zero, suc, replicate}
use lsmlite.Base.Bytes.{slice, to_be_bytes}
use lsmlite.Record
use lsmlite.Trie
use lsmlite.Trie.{child_search, ensure_root, enter_child, get_child_idx, get_or_insert_node}
use lsmlite.Trie.{insert_child, insert_path, set_offset}
use lsmlite.Trie.Serial.{trie_bytes, nodes_bytes, node_bytes, children_bytes}
use lsmlite.Bloom
use lsmlite.Bloom.{insert_loop, insert_bit, bit_idx, set_bit}
use lsmlite.Record.{get_key}
use lsmlite.Wal.Replay.{log_bytes}
use lsmlite.Sstable.Writer.{push, file_start}
use lsmlite.Sstable.Search.{push_all_total, search-finish, iterate-finish}

abbrev ops : List (ℕ × Entry)
ops = (4096, entry) ∷ (4, entry) ∷ []

-- The second push finds the buffer's capacity reached.
abbrev written : CompactionWriter
written = record {
  fd = file_start ++ bytes entry;
  trie = record {
    arena =
        record { offset = 0; children = (107, 1) ∷ [] }
        ∷ record { offset = 0; children = (49, 2) ∷ [] }
        ∷ record { offset = 2 ^ 63 + 16; children = [] }
        ∷ [];
  };
  disk_offset = 23;
  write_buffer = bytes entry;
  bloom_filter = record { bits = 1198372 ∷ replicate 160 0; num_bits = 10304; num_hashes = 7 };
}

written_lem : push_all by_length ops (new by_length) ≡ some written
unfolding push_all push new bytes layout data_bytes data_layout data_log_size encode_varint
    encode_loop varint slice get_key Record.size Bloom.insert insert_loop Bloom.new insert_bit
    bit_idx set_bit Trie.insert child_search ensure_root enter_child get_child_idx
    get_or_insert_node insert_child insert_path set_offset to_be_bytes
written_lem = refl

zeros : (n : ℕ) → All IsUsize (replicate n 0)
zeros zero = tt
zeros (suc n) = (omega arith, zeros n)

written-IndexFits : IndexFits written.trie written.bloom_filter
written-IndexFits = record {
  nodes = (
    record { few = omega arith; small = omega arith; pointers = (omega arith, tt) },
    (
      record { few = omega arith; small = omega arith; pointers = (omega arith, tt) },
      (record { few = omega arith; small = omega arith; pointers = tt }, tt),
    ),
  );
  few_nodes = omega arith;
  filter = record { sized = refl; nonempty = omega arith };
  words = (omega arith, zeros 160);
  few_words = omega arith;
  hashes = omega arith;
}

push_all_total_example :
    (w : CompactionWriter) × (push_all by_length ops (new by_length) ≡ some w)
    × (w.fd ++ w.write_buffer ≡ file_start ++ log_bytes (pushed ops))
unfolding bytes data_bytes data_log_size encode_varint encode_loop varint to_be_bytes
push_all_total_example = push_all_total by_length ops (omega arith) (omega arith)

search-finish_example :
    (finish written >>= from_fd >>= λ table. search by_length table key)
    ≡ some (latest (pushed ops) key)
unfolding bytes data_bytes data_log_size encode_varint encode_loop varint to_be_bytes trie_bytes
    nodes_bytes node_bytes children_bytes
search-finish_example =
    search-finish by_length ops written key written_lem (omega arith) (omega arith)
      ((omega arith, omega arith), ((omega arith, omega arith), tt)) written-IndexFits (omega arith)

iterate-finish_example : (finish written >>= from_fd >>= iterate) ≡ some (map layout (pushed ops))
unfolding bytes data_bytes data_log_size encode_varint encode_loop varint to_be_bytes trie_bytes
    nodes_bytes node_bytes children_bytes
iterate-finish_example =
    iterate-finish by_length ops written written_lem (omega arith) (omega arith)
      (entry-Fits, (entry-Fits, tt)) written-IndexFits (omega arith)
