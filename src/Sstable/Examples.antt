-- ===== src/Sstable/Examples.antt =====
-- Tables on disk, with concrete bytes.
use lsmlite.Base.{ℕ, ◌^◌, ◌≡◌, refl, arith, inl, some, [], ◌∷◌, ◌++◌, ◌>>=◌}
use lsmlite.Base.Bytes.{Blob, resize}
use lsmlite.Trie
use lsmlite.Trie.{get_path, get_offset}
use lsmlite.Bloom.{contains, contains_loop, contains_bit, test_bit, bit_idx}
use lsmlite.Bloom.Examples.{by_length}
use lsmlite.Disk.Read.{disk_record_not_found, tombstone, read_data_block}
use lsmlite.Sstable
use lsmlite.Sstable.{Sstable, get_offset_for_key}
use lsmlite.Sstable.Cache.{new, search, push}
use lsmlite.Base.Bytes.{to_be_bytes}
use lsmlite.Trie.Examples.{two_nodes, two_nodes-NodeFits, leaf-NodeFits}
use lsmlite.Trie.Serial.{trie_bytes, nodes_bytes, node_bytes, children_bytes}
use lsmlite.Bloom.Examples.{small, small-IsFilter}
use lsmlite.Sstable.{from_fd}
use lsmlite.Sstable.Writer.{file_start, finish_file}
use lsmlite.Sstable.Reopen.{IndexFits, finished, from_fd-finish_file}
use lsmlite.Sstable.Footer.{encode_footer, footer_from_disk, footer_from_disk-encode_footer}
use lsmlite.Sstable.Order.{push_all, settles_tombstone, search-push}

footer_from_disk-encode_footer_example :
    (encode_footer 9 20 29 >>= λ footer. footer_from_disk ((1 ∷ 2 ∷ []) ++ footer) 2)
    ≡ some (record { index_block_start = 9; index_block_len = 20; bloom_filter_start = 29 })
footer_from_disk-encode_footer_example =
    footer_from_disk-encode_footer (1 ∷ 2 ∷ []) 9 20 29 (omega arith) (omega arith) (omega arith)

abbrev table : ℕ → Blob → Sstable
table word fd = record {
  index = record {
    trie = record { arena = record { offset = 2 ^ 63; children = [] } ∷ [] };
    bloom_filter = record { bits = word ∷ []; num_bits = 64; num_hashes = 1 };
    data_block_end = 9;
  };
  fd = fd;
  version = 0;
}

table_no_key : Sstable.search by_length (table 0 []) [] ≡ some disk_record_not_found
unfolding Sstable.search get_offset_for_key contains contains_loop contains_bit test_bit bit_idx
table_no_key = refl

table_tombstone : Sstable.search by_length (table 1 (1 ∷ [])) [] ≡ some tombstone
unfolding Sstable.search get_offset_for_key contains contains_loop contains_bit test_bit bit_idx
    Trie.get get_path get_offset read_data_block resize
table_tombstone = refl

search-push_example :
    search by_length (push_all (table 0 [] ∷ []) (push (table 1 (1 ∷ [])) (new 10)).0) []
    ≡ some disk_record_not_found
search-push_example =
    search-push by_length (new 10) (table 0 [] ∷ []) (table 1 (1 ∷ [])) [] tombstone table_tombstone
      settles_tombstone (inl table_no_key, tt)

two_nodes-IndexFits : IndexFits two_nodes small
two_nodes-IndexFits = record {
  nodes = (two_nodes-NodeFits, (leaf-NodeFits, tt));
  few_nodes = omega arith;
  filter = small-IsFilter;
  words = (omega arith, (omega arith, tt));
  few_words = omega arith;
  hashes = omega arith;
}

from_fd-finish_file_example :
    (finish_file (file_start ++ (1 ∷ 2 ∷ [])) 11 two_nodes small >>= from_fd)
    ≡ some (record {
      index = record { trie = two_nodes; bloom_filter = small; data_block_end = 11 };
      fd = finished (1 ∷ 2 ∷ []) two_nodes small;
      version = 0;
    })
unfolding trie_bytes to_be_bytes nodes_bytes node_bytes children_bytes
from_fd-finish_file_example =
    from_fd-finish_file (1 ∷ 2 ∷ []) two_nodes small two_nodes-IndexFits (omega arith)
