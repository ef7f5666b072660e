-- ===== src/Sstable/Search.antt =====
-- From the pushes of sstable/compaction_writer.rs to the search of sstable/mod.rs.
use mathlib.Core.Path.{subst}
use lsmlite.Base.{ℕ, ◌+◌, ◌≤◌, ◌<◌, ◌^◌, ◌≡◌, arith, All, inl, inr}
use lsmlite.Base.{none, some, Bool, true, false, List, [], ◌++◌, length, append_assoc}
use lsmlite.Base.{Option-cases, ◌>>=◌}
use lsmlite.Base.{refl, sym, map, length-append}
use lsmlite.Base.Bytes.{Blob, slice, slice-append, to_be_bytes}
use lsmlite.Record.Update.{checked_sub}
use lsmlite.Util.{IsUsize}
use lsmlite.Disk.Layout.{Entry, Fits, layout}
use lsmlite.Wal.Replay.{log_bytes, replay-log_bytes}
use lsmlite.Trie.Serial.{trie_bytes}
use lsmlite.Bloom.{Hashing, contains}
use lsmlite.Bloom.Members.{contains_total}
use lsmlite.Sstable.{Sstable, from_fd, get_offset_for_key, search}
use lsmlite.Sstable.{iterate, iterator_buffer}
use lsmlite.Sstable.Writer.{CompactionWriter, new, finish, file_start}
use lsmlite.Sstable.Latest.{last_offset, latest, Readable, read_last}
use lsmlite.Sstable.Reopen.{IndexFits, finished, index_part, data_end, from_fd-finish_file}
use lsmlite.Sstable.Reopen.{checked_sub_left}
use lsmlite.Sstable.Written.{Wrote, new-Wrote, push_all, pushed, push_all-Wrote, key_bytes}

-- The table that opens from what the writer finishes.
abbrev reopened : CompactionWriter → List Entry → Sstable
reopened w es = record {
  index = record {
    trie = w.trie;
    bloom_filter = w.bloom_filter;
    data_block_end = data_end (log_bytes es) w.trie w.bloom_filter;
  };
  fd = finished (log_bytes es) w.trie w.bloom_filter;
  version = 0;
}

finish-reopened :
    (h : Hashing) (w : CompactionWriter) (es : List Entry)
    → Wrote h w es
    → IndexFits w.trie w.bloom_filter
    → IsUsize (w.disk_offset + length (trie_bytes w.trie))
    → (finish w >>= from_fd) ≡ some (reopened w es)
unfolding finish
finish-reopened h w es p i small =
    rw (p.written, p.offset)
      (from_fd-finish_file (log_bytes es) w.trie w.bloom_filter i (rw p.offset at small))

get_offset-Wrote :
    (h : Hashing) (w : CompactionWriter) (es : List Entry) (key : Blob)
    → Wrote h w es
    → get_offset_for_key h (reopened w es).index key ≡ some (last_offset es (length file_start) key)
unfolding get_offset_for_key
get_offset-Wrote h w es key p = elim (Option-cases (last_offset es (length file_start) key)) [
  | inr (o, q) ↦ rw (p.members key o q) (p.gets key)
  | inl q ↦ absent (contains_total h w.bloom_filter key p.filter) q
]
  where
    absent :
        (b : Bool) × (contains h w.bloom_filter key ≡ some b)
        → last_offset es (length file_start) key ≡ none
        → get_offset_for_key h (reopened w es).index key
          ≡ some (last_offset es (length file_start) key)
    absent (true, e) q = rw e (p.gets key)
    absent (false, e) q = rw (e, q)

search-reopened :
    (h : Hashing) (w : CompactionWriter) (es : List Entry) (key : Blob)
    → Wrote h w es
    → All Readable es
    → search h (reopened w es) key ≡ some (latest es key)
unfolding search
search-reopened h w es key p readable =
    let tail = index_part (log_bytes es) w.trie w.bloom_filter in
    let r =
      read_last es file_start tail (reopened w es).fd key
        (append_assoc file_start (log_bytes es) tail) readable in
    rw (get_offset-Wrote h w es key p) r

Wrote-pushed :
    (h : Hashing) (ops : List (ℕ × Entry)) (w : CompactionWriter)
    → push_all h ops (new h) ≡ some w
    → 1 + key_bytes (pushed ops) ≤ 2 ^ 32
    → length (file_start ++ []) + length (log_bytes (pushed ops)) < 2 ^ 63
    → Wrote h w (pushed ops)
Wrote-pushed h ops w e room far =
    let (w', e', p) = push_all-Wrote h ops (new h) [] (new-Wrote h) (omega arith) (omega arith) in
    let same : w' ≡ w = cc in subst (λ w. Wrote h w (pushed ops)) same p

-- The pushes of any records onto a new writer do not panic, if the trie's nodes and the file's
-- bytes keep within their widths.
pub push_all_total :
    (h : Hashing) (ops : List (ℕ × Entry))
    → 1 + key_bytes (pushed ops) ≤ 2 ^ 32
    → length (file_start ++ []) + length (log_bytes (pushed ops)) < 2 ^ 63
    → (w : CompactionWriter) × (push_all h ops (new h) ≡ some w)
      × (w.fd ++ w.write_buffer ≡ file_start ++ log_bytes (pushed ops))
push_all_total h ops room far =
    let (w, e, p) = push_all-Wrote h ops (new h) [] (new-Wrote h) (omega arith) (omega arith) in
    (w, e, p.written)

-- A file that a compaction writer finishes, whatever was pushed and whenever its buffer was
-- written out, opens, and a search in it gives for each key what the last record pushed for it
-- says: its value, that it is deleted, or that there is none. The conditions are that the trie's
-- nodes, the file's bytes, the index and the filter keep within their widths, and that each data
-- record has all but its value in the first 4096 bytes.
pub search-finish :
    (h : Hashing) (ops : List (ℕ × Entry)) (w : CompactionWriter) (key : Blob)
    → push_all h ops (new h) ≡ some w
    → 1 + key_bytes (pushed ops) ≤ 2 ^ 32
    → length (file_start ++ []) + length (log_bytes (pushed ops)) < 2 ^ 63
    → All Readable (pushed ops)
    → IndexFits w.trie w.bloom_filter
    → IsUsize (w.disk_offset + length (trie_bytes w.trie))
    → (finish w >>= from_fd >>= λ table. search h table key) ≡ some (latest (pushed ops) key)
search-finish h ops w key e room far readable fits small =
    let p = Wrote-pushed h ops w e room far in
    rw (
      finish-reopened h w (pushed ops) p fits small,
      search-reopened h w (pushed ops) key p readable,
    )

iterate-reopened :
    (w : CompactionWriter) (es : List Entry)
    → All Fits es
    → iterate (reopened w es) ≡ some (map layout es)
unfolding iterate iterator_buffer
iterate-reopened w es fits =
    let tail = index_part (log_bytes es) w.trie w.bloom_filter in
    let nine : length file_start ≡ 9 = unfold to_be_bytes in refl in
    let c : checked_sub (length (file_start ++ log_bytes es)) 9 ≡ some (length (log_bytes es)) =
      rw (length-append file_start (log_bytes es), nine)
        (checked_sub_left 9 (length (log_bytes es))) in
    let s : slice ((file_start ++ log_bytes es) ++ tail) 9 (length (log_bytes es))
        ≡ some (log_bytes es) =
      rw (append_assoc file_start (log_bytes es) tail)
        (slice-append file_start (log_bytes es) tail 9 _ (sym nine) refl) in
    rw (c, s, replay-log_bytes es fits)

-- An iteration over the file that a compaction writer finishes gives the records that were pushed,
-- in order. The conditions are that the trie's nodes, the file's bytes, the index, the filter and
-- the sizes of the records keep within their widths.
pub iterate-finish :
    (h : Hashing) (ops : List (ℕ × Entry)) (w : CompactionWriter)
    → push_all h ops (new h) ≡ some w
    → 1 + key_bytes (pushed ops) ≤ 2 ^ 32
    → length (file_start ++ []) + length (log_bytes (pushed ops)) < 2 ^ 63
    → All Fits (pushed ops)
    → IndexFits w.trie w.bloom_filter
    → IsUsize (w.disk_offset + length (trie_bytes w.trie))
    → (finish w >>= from_fd >>= iterate) ≡ some (map layout (pushed ops))
iterate-finish h ops w e room far fits widths small =
    let p = Wrote-pushed h ops w e room far in
    rw (finish-reopened h w (pushed ops) p widths small, iterate-reopened w (pushed ops) fits)
