-- ===== src/Database/Background.antt =====
-- The writers, the flush task (`flush_memtable` of memtable/inner.rs) and the compaction task
-- (`sstable_background` of compaction/mod.rs) as steps on one state. The path in a signal is the
-- file itself. The table that a compaction builds is left open: there is a step for any. Behind a
-- shutdown in its channel a task takes no step. Files can be created and written.
use lsmlite.Base.{ℕ, ◌+◌, ◌≡◌, some, Bool, true, false}
use lsmlite.Base.{List, [], ◌∷◌, ◌++◌, length, leb, if◌then◌else◌}
use lsmlite.Base.Bytes.{Blob}
use lsmlite.Bloom.{Hashing}
use lsmlite.Immutable
use lsmlite.Immutable.{ImmutableMemtable, pop}
use lsmlite.Sstable.{Sstable, from_fd}
use lsmlite.Sstable.Cache.{SstableCache, push, replace_with_compact_table}
use lsmlite.Database.{LsmliteInner, MemtableFlushSignal, flush, Times, set, delete}

-- `Done` of the flush task's wait is the end of `flushing`.
pub data CompactionSignal : Type 0 where
  load_sstable : Blob → CompactionSignal
  shutdown : CompactionSignal

pub record System : Type 0 where
  pub db : LsmliteInner
  pub signal : List CompactionSignal
  pub flushing : Bool

-- The cache after `push`, and after the compaction if the cache is long enough.
unfoldable pub loaded_cache : Sstable → Sstable → SstableCache → SstableCache
loaded_cache table compact c =
    let (c', current_len) = push table c in
    if leb c.compaction_rate current_len then replace_with_compact_table compact c' else c'

unfoldable pub take_signal : System → List MemtableFlushSignal → Blob → System
take_signal s rest fd = record s {
  db = record s.db { memtable_channel = rest };
  signal = s.signal ++ (load_sstable fd ∷ []);
  flushing = true;
}

unfoldable pub load_table : System → List CompactionSignal → Sstable → Sstable → System
load_table s rest table compact = record s {
  db = record s.db {
    sstable_cache = loaded_cache table compact s.db.sstable_cache;
    immutable = pop s.db.immutable;
  };
  signal = rest;
  flushing = false;
}

pub data Step (h : Hashing) : System → System → Type 0 where
  write :
      (s : System) (c : Times) (key value : Blob) (d : LsmliteInner)
      → set c s.db key value ≡ some d
      → Step h s (record s { db = d })
  erase :
      (s : System) (c : Times) (key : Blob) (d : LsmliteInner)
      → delete c s.db key ≡ some d
      → Step h s (record s { db = d })
  flushes :
      (s : System) (rest : List MemtableFlushSignal) (fd : Blob) (log : ℕ)
      → s.flushing ≡ false
      → s.db.memtable_channel ≡ flush ∷ rest
      → Immutable.flush h s.db.immutable ≡ some (fd, log)
      → Step h s (take_signal s rest fd)
  loads :
      (s : System) (rest : List CompactionSignal) (fd : Blob) (table compact : Sstable)
      → s.signal ≡ load_sstable fd ∷ rest
      → from_fd fd ≡ some table
      → Step h s (load_table s rest table compact)

pub data Reachable (h : Hashing) : System → System → Type 0 where
  start : (s : System) → Reachable h s s
  then_step : (s t u : System) → Reachable h s t → Step h t u → Reachable h s u

abbrev pub waits : Bool → ℕ
waits true = 1
waits false = 0

abbrev pub InFlight : Hashing → System → Type 0
InFlight h s = elim s.flushing [
  | false ↦ s.signal ≡ []
  | true ↦
      (fd : Blob) × (log : ℕ) × (s.signal ≡ load_sstable fd ∷ [])
      × (Immutable.flush h s.db.immutable ≡ some (fd, log))
]

-- Each table in the queue has one signal that waits, or is the one being flushed; the one signal
-- to load is for the file of the first table.
pub record Matched (h : Hashing) (s : System) : Type 0 where
  pub counts : length s.db.immutable.table ≡ length s.db.memtable_channel + waits s.flushing
  pub in_flight : InFlight h s
