-- ===== src/Database/Open.antt =====
-- Opening a database (database/inner.rs), with the queue that memtable/immutable.rs and
-- restart/worker.rs build from the logs. `clock` has two readings for each new log, the time in its
-- name and that of `last_flush`.
use lsmlite.Base.{ℕ, suc, Option, none, some, false, List, [], ◌∷◌, map, replicate, length, ◌>>=◌}
use lsmlite.Base.Bytes.{Blob}
use lsmlite.Config.{LsmliteConfig}
use lsmlite.Restart.{Artifact}
use lsmlite.Memtable.Table.{Memtable, MemtableInner, from_wal}
use lsmlite.Memtable.Handle
use lsmlite.Immutable
use lsmlite.Immutable.{ImmutableMemtable}
use lsmlite.Sstable.Cache
use lsmlite.Sstable.Cache.{SstableCache}
use lsmlite.Database.{LsmliteInner, MemtableFlushSignal, flush}

abbrev pub Clock : Type 0
Clock = ℕ → ℕ × ℕ

unfoldable pub load_immutable_memtable_worker : Clock → ℕ → Blob → ℕ → ℕ → Option MemtableInner
load_immutable_memtable_worker clock i file max_size max_nodes =
    let (filename, now) = clock i in from_wal file max_size max_nodes filename now

-- `collect` keeps the order of the logs.
unfoldable pub read_immutable_tables :
    Clock → ℕ → List Artifact → LsmliteConfig → Option (List MemtableInner)
read_immutable_tables clock i [] config = some []
read_immutable_tables clock i (w ∷ wal_files) config = do
  t ←
      load_immutable_memtable_worker clock i w.file config.max_memtable_size
        config.max_memtable_nodes
  ts ← read_immutable_tables clock (suc i) wal_files config
  some (t ∷ ts)

unfoldable pub signals : ℕ → List MemtableFlushSignal
signals n = replicate n flush

-- `ImmutableMemtable::new`, with the signals that it sends.
unfoldable pub queue_of :
    Clock → List Artifact → LsmliteConfig → Option (ImmutableMemtable × List MemtableFlushSignal)
queue_of clock [] config = some (Immutable.new_empty, [])
queue_of clock (w ∷ wal_files) config = do
  table ← read_immutable_tables clock 1 (w ∷ wal_files) config
  some (record { table = table }, signals (length (w ∷ wal_files)))

unfoldable pub construct_memtable : Clock → Option Artifact → LsmliteConfig → Option Memtable
construct_memtable clock live_wal config =
    let (filename, now) = clock 0 in
    elim live_wal [
      | none ↦ some (Handle.new config.max_memtable_size config.max_memtable_nodes filename now)
      | some w ↦
          Handle.new_from_wal w.file config.max_memtable_size config.max_memtable_nodes filename now
    ]

unfoldable pub construct_sstable_cache : List Artifact → LsmliteConfig → Option SstableCache
construct_sstable_cache [] config = some (Cache.new config.compaction_rate)
construct_sstable_cache (f ∷ sstable_files) config =
    Cache.from_restart (map (λ a. a.file) (f ∷ sstable_files)) config.compaction_rate

-- `Vec::pop`: the last element, and those before it.
unfoldable pub pop_last : List Artifact → Option Artifact × List Artifact
pop_last [] = (none, [])
pop_last (a ∷ rest) =
    let (last, before) = pop_last rest in
    elim last [ none ↦ (some a, []) | some z ↦ (some z, a ∷ before) ]

unfoldable pub new : Clock → List Artifact → List Artifact → LsmliteConfig → Option LsmliteInner
new clock sstable_files wal_files config = do
  let (live, full) = pop_last wal_files
  memtable ← construct_memtable clock live config
  sstable_cache ← construct_sstable_cache sstable_files config
  (immutable, sent) ← queue_of clock full config
  some (record {
    memtable = memtable;
    sstable_cache = sstable_cache;
    poisoned = false;
    memtable_channel = sent;
    immutable = immutable;
  })
