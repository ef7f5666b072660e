-- ===== src/Sstable/Written.antt =====
-- sstable/compaction_writer.rs: what the writer holds after any pushes.
use lsmlite.Base.{ℕ, ◌+◌, ◌≤◌, ◌<◌, ◌^◌, ◌≡◌, refl, sym, ap, ◌∙◌, arith, inl, inr}
use lsmlite.Base.{Option, some, Bool, true, false, List, [], ◌∷◌, ◌++◌, length, length-append}
use lsmlite.Base.{append_assoc, append-nil, if◌then◌else◌, Bool-cases, leb, ◌>>=◌, map}
use lsmlite.Base.Bytes.{Blob, to_be_bytes}
use lsmlite.Base.Key.{key_eq, eq_of_key_eq}
use lsmlite.Record
use lsmlite.Record.{get_key}
use lsmlite.Record.Reads.{get_key-layout}
use lsmlite.Record.Overwrite.{layout_blob}
use lsmlite.Disk.Layout.{Entry, bytes, layout, entry_key}
use lsmlite.Wal.Replay.{log_bytes, log_bytes-append}
use lsmlite.Trie
use lsmlite.Trie.{TrieNode, ensure_root}
use lsmlite.Trie.Index.{IsIndex, new-IsIndex, get-insert, some_if}
use lsmlite.Bloom.{Hashing, contains}
use lsmlite.Bloom.Members.{IsFilter, new-IsFilter, contains-insert}
use lsmlite.Sstable.Writer.{CompactionWriter, new, push, file_start}
use lsmlite.Sstable.Latest.{last_offset, last_offset-append}

abbrev pub key_bytes : List Entry → ℕ
key_bytes [] = 0
key_bytes (e ∷ es) = length (entry_key e) + key_bytes es

pub record Wrote (h : Hashing) (w : CompactionWriter) (es : List Entry) : Type 0 where
  pub written : w.fd ++ w.write_buffer ≡ file_start ++ log_bytes es
  pub offset : w.disk_offset ≡ length (file_start ++ log_bytes es)
  pub index : IsIndex w.trie
  pub filter : IsFilter w.bloom_filter
  pub gets : (key : Blob) → Trie.get w.trie key ≡ some (last_offset es (length file_start) key)
  pub members :
      (key : Blob) (o : ℕ)
      → last_offset es (length file_start) key ≡ some o
      → contains h w.bloom_filter key ≡ some true
  pub nodes : length (ensure_root w.trie.arena) ≤ 1 + key_bytes es

pub new-Wrote : (h : Hashing) → Wrote h (new h) []
unfolding new last_offset ensure_root to_be_bytes
new-Wrote h = record {
  written = refl;
  offset = refl;
  index = new-IsIndex;
  filter = new-IsFilter h 1024;
  gets = λ key. unfold Trie.get in refl;
  members = λ key o e. cc;
  nodes = omega arith;
}

ensure_root-length :
    (arena : List TrieNode) (n : ℕ) → length arena ≤ n → 1 ≤ n → length (ensure_root arena) ≤ n
unfolding ensure_root
ensure_root-length [] n h p = omega arith
ensure_root-length (x ∷ xs) n h p = omega arith

key_bytes-append :
    (es : List Entry) (e : Entry) → key_bytes (es ++ (e ∷ [])) ≡ key_bytes es + length (entry_key e)
key_bytes-append [] e = omega arith
key_bytes-append (x ∷ es) e = omega (arith, key_bytes-append es e)

flushed :
    (b : Bool) (fd buffer blob : Blob)
    → (if b then fd ++ buffer else fd) ++ ((if b then [] else buffer) ++ blob)
      ≡ (fd ++ buffer) ++ blob
flushed true fd buffer blob = refl
flushed false fd buffer blob = rw (append_assoc fd buffer blob)

log_bytes-snoc :
    (pre : Blob) (es : List Entry) (e : Entry)
    → (pre ++ log_bytes es) ++ bytes e ≡ pre ++ log_bytes (es ++ (e ∷ []))
log_bytes-snoc pre es e =
    rw (log_bytes-append es (e ∷ []), append-nil, append_assoc pre (log_bytes es) (bytes e))

pub push-Wrote :
    (h : Hashing) (capacity : ℕ) (w : CompactionWriter) (es : List Entry) (e : Entry)
    → Wrote h w es
    → 1 + key_bytes es + length (entry_key e) ≤ 2 ^ 32
    → length (file_start ++ log_bytes es) < 2 ^ 63
    → (w' : CompactionWriter) × (push h capacity (layout e) w ≡ some w')
      × Wrote h w' (es ++ (e ∷ []))
unfolding push Record.size
push-Wrote h capacity w es e p room far =
    let key = entry_key e in
    let (f, fe, ff, here, kept) = contains-insert h w.bloom_filter key p.filter in
    let (t, te, ti, tg, tn) =
      get-insert w.trie key w.disk_offset p.index (omega (arith, p.nodes))
        (omega (arith, p.offset)) in
    let flushes = leb capacity (length w.write_buffer + length (layout e).blob) in
    let es' : List Entry = es ++ (e ∷ []) in
    let whole = log_bytes-snoc file_start es e in
    let at_end : w.disk_offset ≡ length file_start + length (log_bytes es) =
      p.offset ∙ length-append file_start (log_bytes es) in
    let w' : CompactionWriter = record {
      fd = if flushes then w.fd ++ w.write_buffer else w.fd;
      trie = t;
      disk_offset = w.disk_offset + length (layout e).blob;
      write_buffer = (if flushes then [] else w.write_buffer) ++ (layout e).blob;
      bloom_filter = f;
    } in
    (
      w',
      rw (get_key-layout e, fe, te),
      record {
        written =
            flushed flushes w.fd w.write_buffer (layout e).blob
            ∙ rw (p.written, layout_blob e) whole;
        offset =
            rw (p.offset, layout_blob e)
              (sym (length-append (file_start ++ log_bytes es) (bytes e)) ∙ ap length whole);
        index = ti;
        filter = ff;
        gets = λ key'.
            tg key'
            ∙ rw (last_offset-append es e (length file_start) key', p.gets key', at_end)
                (sym (
                  some_if (key_eq key key') (length file_start + length (log_bytes es))
                    (last_offset es (length file_start) key')));
        members = λ key' o q. elim (Bool-cases (key_eq key key')) [
          | inl same ↦ rw (← eq_of_key_eq key key' same) here
          | inr other ↦
              kept key' (
                p.members key' o
                  (rw (last_offset-append es e (length file_start) key', other) at q))
        ];
        nodes =
            ensure_root-length t.arena _ (omega (arith, tn, p.nodes, key_bytes-append es e))
              (omega arith);
      },
    )

unfoldable pub push_all : Hashing → List (ℕ × Entry) → CompactionWriter → Option CompactionWriter
push_all h [] w = some w
push_all h (op ∷ ops) w = push h op.0 (layout op.1) w >>= λ w'. push_all h ops w'

abbrev pub pushed : List (ℕ × Entry) → List Entry
pushed ops = map (λ op. op.1) ops

pub push_all-Wrote :
    (h : Hashing) (ops : List (ℕ × Entry)) (w : CompactionWriter) (es : List Entry)
    → Wrote h w es
    → 1 + key_bytes es + key_bytes (pushed ops) ≤ 2 ^ 32
    → length (file_start ++ log_bytes es) + length (log_bytes (pushed ops)) < 2 ^ 63
    → (w' : CompactionWriter) × (push_all h ops w ≡ some w') × Wrote h w' (es ++ pushed ops)
unfolding push_all
push_all-Wrote h [] w es p room far = (w, refl, rw (append-nil es) p)
push_all-Wrote h ((capacity, e) ∷ ops) w es p room far =
    let (w₁, e₁, p₁) = push-Wrote h capacity w es e p (omega arith) (omega arith) in
    let l₁ = length-append (bytes e) (log_bytes (pushed ops)) in
    let l₂ =
      ap length (sym (log_bytes-snoc file_start es e))
      ∙ length-append (file_start ++ log_bytes es) (bytes e) in
    let (w₂, e₂, p₂) =
      push_all-Wrote h ops w₁ (es ++ (e ∷ [])) p₁ (omega (arith, key_bytes-append es e))
        (omega arith) in
    (w₂, rw (e₁, e₂), rw (← append_assoc es (e ∷ []) (pushed ops)) p₂)
