-- ===== src/Wal/Examples.antt =====
-- A log with two writes, the second of which flushes the first to the file.
use lsmlite.Base.{ℕ, ◌≡◌, some, List, [], ◌∷◌, ◌++◌, map}
use lsmlite.Wal.{new, replay}
use lsmlite.Wal.Replay.{log_bytes, replay-log_bytes}
use lsmlite.Wal.Content.{Write, write_logs, entries, FewPending, crash_replay}
use lsmlite.Disk.Layout.{Entry, layout}
use lsmlite.Disk.Examples.{entry, entry-Fits}

abbrev write_at : ℕ → Write
write_at now = record { checked = now; flushed = now; entry = entry }

abbrev writes : List Write
writes = write_at 10 ∷ write_at 1000 ∷ []

replay-log_bytes_example :
    replay (log_bytes (entry ∷ entry ∷ [])) ≡ some (map layout (entry ∷ entry ∷ []))
replay-log_bytes_example = replay-log_bytes (entry ∷ entry ∷ []) (entry-Fits, (entry-Fits, tt))

crash_replay_example :
    (kept : List Entry) × (lost : List Entry) × (entries writes ≡ kept ++ lost)
    × (replay (write_logs writes (new 1 0)).fd ≡ some (map layout kept))
    × FewPending lost
crash_replay_example = crash_replay writes 1 0 (entry-Fits, (entry-Fits, tt))
