-- ===== src/Sstable/Reopen.antt =====
-- `SSTable::from_fd` of sstable/mod.rs on a file that sstable/encode.rs or
-- sstable/compaction_writer.rs finished.
use lsmlite.Base.{ℕ, ◌+◌, ◌<◌, ◌^◌, ◌≡◌, refl, sym, arith, All, some, [], ◌∷◌, ◌++◌, ◌>>=◌}
use lsmlite.Base.{length, length-append, append_assoc}
use lsmlite.Base.Bytes.{Blob, slice, slice-append, length-to_be_bytes, to_be_bytes, from_be_bytes}
use lsmlite.Base.Key.{cmp}
use lsmlite.Util.{IsUsize, get_be_array2}
use lsmlite.Record.Update.{checked_sub}
use lsmlite.Record.Overwrite.{checked_sub-add}
use lsmlite.Trie.{Trie, deserialize_from_disk}
use lsmlite.Trie.Serial as TrieSerial
use lsmlite.Trie.Serial.{trie_bytes}
use lsmlite.Trie.Read.{NodeFits, deserialize_from_disk-serialize}
use lsmlite.Bloom.{BloomFilter, from_bytes}
use lsmlite.Bloom.Members.{IsFilter}
use lsmlite.Bloom.Serial as BloomSerial
use lsmlite.Bloom.Serial.{bloom_bytes, from_bytes-serialize}
use lsmlite.Sstable.{from_fd, index_from_disk, validate_buffer_and_get_version}
use lsmlite.Sstable.{sstable_header}
use lsmlite.Sstable.Footer.{footer_bytes, footer_from_disk, encode_footer_lem}
use lsmlite.Sstable.Footer.{footer_from_disk-encode_footer}
use lsmlite.Sstable.Writer.{file_start, finish_file}

-- What the widths on disk ask of an index and a filter.
pub record IndexFits (trie : Trie) (f : BloomFilter) : Type 0 where
  pub nodes : All NodeFits trie.arena
  pub few_nodes : length trie.arena < 2 ^ 32
  pub filter : IsFilter f
  pub words : All IsUsize f.bits
  pub few_words : IsUsize (length f.bits)
  pub hashes : IsUsize f.num_hashes

trie_read :
    (trie : Trie) (f : BloomFilter)
    → IndexFits trie f
    → deserialize_from_disk (trie_bytes trie) ≡ some trie
trie_read trie f i =
    rw (TrieSerial.serialize_lem trie) at (deserialize_from_disk-serialize trie i.nodes i.few_nodes)

bloom_read :
    (trie : Trie) (f : BloomFilter) → IndexFits trie f → from_bytes (bloom_bytes f) ≡ some f
bloom_read trie f i =
    rw (BloomSerial.serialize_lem f) at
      (from_bytes-serialize f i.filter i.words i.few_words i.hashes)

version_any : (rest : Blob) → validate_buffer_and_get_version (file_start ++ rest) ≡ some 0
unfolding validate_buffer_and_get_version get_be_array2 to_be_bytes from_be_bytes cmp
version_any rest =
    let s₁ = slice-append [] sstable_header (0 ∷ 0 ∷ rest) 0 7 refl refl in
    let s₂ = slice-append sstable_header (0 ∷ 0 ∷ []) rest 7 2 refl refl in rw (s₁, s₂)

pub checked_sub_left : (a b : ℕ) → checked_sub (a + b) a ≡ some b
unfolding checked_sub
checked_sub_left a b = ground arith

module _ (records : Blob) (trie : Trie) (f : BloomFilter) where
  abbrev pub data_end : ℕ
  data_end = length (file_start ++ records)

  abbrev pub filter_start : ℕ
  filter_start = data_end + length (trie_bytes trie)

  -- The index block, the filter and the footer.
  abbrev pub index_part : Blob
  index_part =
      trie_bytes trie
      ++ (bloom_bytes f ++ footer_bytes data_end (length (trie_bytes trie)) filter_start)

  abbrev pub finished : Blob
  finished = (file_start ++ records) ++ index_part

  pub finish_file_lem : finish_file (file_start ++ records) data_end trie f ≡ some finished
  unfolding finish_file
  finish_file_lem = rw (
    TrieSerial.serialize_lem trie,
    BloomSerial.serialize_lem f,
    encode_footer_lem data_end (length (trie_bytes trie)) filter_start,
  )

  version_lem : validate_buffer_and_get_version finished ≡ some 0
  version_lem = rw append_assoc (version_any _)

  index_lem :
      IndexFits trie f
      → IsUsize filter_start
      → index_from_disk finished
        ≡ some (record { trie = trie; bloom_filter = f; data_block_end = data_end })
  unfolding index_from_disk
  index_lem i small =
      let pre = file_start ++ records in
      let tb = trie_bytes trie in
      let bb = bloom_bytes f in
      let fb = footer_bytes data_end (length tb) filter_start in
      let lf : length fb ≡ 24 = omega (
        arith,
        length-append (to_be_bytes 8 data_end)
            (to_be_bytes 8 (length tb) ++ to_be_bytes 8 filter_start),
        length-append (to_be_bytes 8 (length tb)) (to_be_bytes 8 filter_start),
        length-to_be_bytes 8 data_end,
        length-to_be_bytes 8 (length tb),
        length-to_be_bytes 8 filter_start,
      ) in
      let total : length finished ≡ filter_start + length bb + 24 = omega (
        arith,
        length-append pre (tb ++ (bb ++ fb)),
        length-append tb (bb ++ fb),
        length-append bb fb,
      ) in
      let c₁ : checked_sub (length finished) 24 ≡ some (filter_start + length bb) =
        rw total (checked_sub-add (filter_start + length bb) 24) in
      let c₂ : checked_sub filter_start data_end ≡ some (length tb) =
        checked_sub_left data_end (length tb) in
      let c₃ : checked_sub (filter_start + length bb) filter_start ≡ some (length bb) =
        checked_sub_left filter_start (length bb) in
      let position : length ((pre ++ tb) ++ bb) ≡ filter_start + length bb =
        omega (arith, length-append (pre ++ tb) bb, length-append pre tb) in
      let whole : ((pre ++ tb) ++ bb) ++ fb ≡ finished =
        rw (append_assoc (pre ++ tb) bb fb, append_assoc pre tb (bb ++ fb)) in
      let ft : footer_from_disk finished (filter_start + length bb)
          ≡ some (record {
            index_block_start = data_end;
            index_block_len = length tb;
            bloom_filter_start = filter_start;
          }) =
        rw (encode_footer_lem data_end (length tb) filter_start, whole, position) at
          (footer_from_disk-encode_footer ((pre ++ tb) ++ bb) data_end (length tb) filter_start
            (omega arith) (omega arith) small) in
      let s₁ : slice finished data_end (length tb) ≡ some tb =
        slice-append pre tb (bb ++ fb) _ _ refl refl in
      let s₂ : slice finished filter_start (length bb) ≡ some bb =
        rw (← append_assoc pre tb (bb ++ fb))
          (slice-append (pre ++ tb) bb fb _ _ (sym (length-append pre tb)) refl) in
      rw (c₁, ft, c₂, s₁, trie_read trie f i, c₃, s₂, bloom_read trie f i)

-- The file that is finished behind some records opens as a table with the same index and filter,
-- and with the end of the records as the end of its data, if the widths on disk suffice for the
-- index, the filter and the place of the filter.
pub from_fd-finish_file :
    (records : Blob) (trie : Trie) (f : BloomFilter)
    → IndexFits trie f
    → IsUsize (filter_start records trie f)
    → (finish_file (file_start ++ records) (data_end records trie f) trie f >>= from_fd)
      ≡ some (record {
        index = record { trie = trie; bloom_filter = f; data_block_end = data_end records trie f };
        fd = finished records trie f;
        version = 0;
      })
unfolding from_fd
from_fd-finish_file records trie f i small =
    rw
      (finish_file_lem records trie f, version_lem records trie f, index_lem records trie f i small)
