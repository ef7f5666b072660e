-- ===== src/Wal.antt =====
-- wal/mod.rs: the write-ahead log, and the iterator that reads it back. The file is its bytes;
-- `write` on it appends the whole buffer. Each reading of the clock is an argument.
pub mod Content
pub mod Replay
mod Examples
use lsmlite.Base.{ℕ, zero, suc, ◌+◌, Option, none, some, Bool, ◌||◌, List, [], ◌∷◌, ◌++◌}
use lsmlite.Base.{length, ltb, leb, if◌then◌else◌, ◌>>=◌}
use lsmlite.Base.Bytes.{Blob}
use lsmlite.Record.{Record}
use lsmlite.Disk.Decode.{decode_disk_record}

-- constants/mod.rs
abbrev pub wal_buffer_size : ℕ
wal_buffer_size = 64000

abbrev pub wal_buffer_flush_time : ℕ
wal_buffer_flush_time = 400

-- The file's name is known by its timestamp.
pub record Wal : Type 0 where
  pub fd : Blob
  pub buffer : Blob
  pub last_flush : ℕ
  pub filename : ℕ

-- `Wal::new`, at a time that names a file not there yet; `now` is read for `last_flush`.
unfoldable pub new : ℕ → ℕ → Wal
new filename now = record { fd = []; buffer = []; last_flush = now; filename = filename }

unfoldable pub needs_flush : ℕ → Wal → Bool
needs_flush now w =
    leb wal_buffer_size (length w.buffer) || ltb (w.last_flush + wal_buffer_flush_time) now

unfoldable pub flush : ℕ → Wal → Wal
flush now w = record w { fd = w.fd ++ w.buffer; buffer = []; last_flush = now }

-- `checked` is the time at the test, `flushed` the time after a flush.
unfoldable pub write_log : ℕ → ℕ → Wal → Blob → Wal
unfolding needs_flush flush
write_log checked flushed w log =
    let w' = if needs_flush checked w then flush flushed w else w in
    record w' { buffer = w'.buffer ++ log }

pub record WalIterator : Type 0 where
  pub buffer : Blob
  pub offset : ℕ

-- `next`: the outer `none` is a panic of the decoder.
unfoldable pub next : WalIterator → Option (Option Record × WalIterator)
next it =
    let decoded = decode_disk_record it.buffer it.offset >>= λ found.
    some (found.0, record it { offset = found.1 }) in
    if leb (length it.buffer) it.offset then some (none, it) else decoded

-- `for record in wal_iter`, up to the first `None`. Each item takes a byte at least, so a round
-- for each byte and one more are enough; `none` is a panic, or no rounds left.
unfoldable pub collect : ℕ → WalIterator → Option (List Record)
collect zero it = none
collect (suc rounds) it = next it >>= λ step. elim step.0 [
  | none ↦ some []
  | some r ↦ collect rounds step.1 >>= λ rest. some (r ∷ rest)
]

unfoldable pub replay : Blob → Option (List Record)
replay file = collect (length file + 1) (record { buffer = file; offset = 0 })
