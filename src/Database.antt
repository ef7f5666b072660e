-- ===== src/Database.antt =====
-- database/inner.rs: the layers of the database and the reads and writes across them. A lock makes
-- each call of a layer one step. A channel is the list of the signals that wait in it.
pub mod Reads
pub mod Open
pub mod Background
pub mod Matched
pub mod Always
pub mod Writes
mod Examples
use lsmlite.Base.{ℕ, Option, none, some, Bool, List, [], ◌∷◌, ◌++◌, if◌then◌else◌, ◌>>=◌}
use lsmlite.Base.Bytes.{Blob}
use lsmlite.Bloom.{Hashing}
use lsmlite.Disk.Read.{SearchResult, ok, disk_record_not_found, tombstone, io_error}
use lsmlite.Memtable.{MemtableQuery, found, deleted, missing}
use lsmlite.Memtable.Table.{Memtable, MemtableInner, InsertResult, inserted, table_full, rotate}
use lsmlite.Memtable.Handle
use lsmlite.Immutable
use lsmlite.Immutable.{ImmutableMemtable}
use lsmlite.Sstable.Cache
use lsmlite.Sstable.Cache.{SstableCache}

-- memtable/inner.rs
pub data MemtableFlushSignal : Type 0 where
  flush : MemtableFlushSignal
  shutdown : MemtableFlushSignal

pub record LsmliteInner : Type 0 where
  pub memtable : Memtable
  pub sstable_cache : SstableCache
  pub poisoned : Bool
  pub memtable_channel : List MemtableFlushSignal
  pub immutable : ImmutableMemtable

-- What `read_memtable` and `read_immutable_table` make of a layer's answer.
unfoldable pub data_only : MemtableQuery → Option Blob
data_only (found blob) = some blob
data_only deleted = none
data_only missing = none

unfoldable pub read_memtable : LsmliteInner → Blob → Option (Option Blob)
read_memtable d key = Handle.get d.memtable key >>= λ answer. some (data_only answer)

unfoldable pub read_immutable_table : LsmliteInner → Blob → Option (Option Blob)
read_immutable_table d key = Immutable.get d.immutable key >>= λ answer. some (data_only answer)

-- `if let Ok(value)`: every error is no value.
unfoldable pub read_sstables : Hashing → LsmliteInner → Blob → Option (Option Blob)
read_sstables h d key = Cache.search h d.sstable_cache key >>= λ answer. elim answer [
  | ok value ↦ some (some value)
  | disk_record_not_found ↦ some none
  | tombstone ↦ some none
  | io_error ↦ some none
]

-- `check_poison_flag`, and then the rest of the call.
unfoldable pub check_poison_flag : {A : Type 0} → LsmliteInner → Option A → Option A
check_poison_flag d rest = if d.poisoned then none else rest

-- The answer of a layer, or of the layers behind it.
unfoldable pub or_next : Option Blob → Option (Option Blob) → Option (Option Blob)
or_next (some blob) next = some (some blob)
or_next none next = next

unfoldable pub get : Hashing → LsmliteInner → Blob → Option (Option Blob)
get h d key = check_poison_flag d (
    read_memtable d key >>= λ first.
    or_next first (read_immutable_table d key >>= λ second. or_next second (read_sstables h d key)))

-- The time that names the new log, and the one read for its `last_flush`.
unfoldable pub rotate_table : ℕ → ℕ → LsmliteInner → LsmliteInner
rotate_table filename now d =
    let (memtable, full_table) = rotate filename now d.memtable in
    record d {
      memtable = memtable;
      immutable = Immutable.insert full_table d.immutable;
      memtable_channel = d.memtable_channel ++ (flush ∷ []);
    }

unfoldable pub with_table : LsmliteInner → MemtableInner → LsmliteInner
with_table d t = record d { memtable = record d.memtable { handle = t } }

-- `let _ =` drops the error of the second call.
unfoldable pub settle : LsmliteInner → InsertResult → LsmliteInner
settle d (inserted t) = with_table d t
settle d (table_full key value) = d

-- The readings of the clock in one write: `write_log`'s two, those of a rotation, and again two.
pub record Times : Type 0 where
  pub checked : ℕ
  pub flushed : ℕ
  pub filename : ℕ
  pub now : ℕ
  pub checked_again : ℕ
  pub flushed_again : ℕ

-- The arm of `set` on `TableFull`; `unreachable!` is a panic.
unfoldable pub set_again : Times → LsmliteInner → Blob → Option Blob → Option LsmliteInner
set_again c d key none = none
set_again c d key (some blob) =
    let rotated = rotate_table c.filename c.now d in
    Handle.insert c.checked_again c.flushed_again rotated.memtable key blob >>= λ r.
    some (settle rotated r)

unfoldable pub set : Times → LsmliteInner → Blob → Blob → Option LsmliteInner
set c d key value = check_poison_flag d (
    Handle.insert c.checked c.flushed d.memtable key value >>= λ r. elim r [
      | inserted t ↦ some (with_table d t)
      | table_full key' value' ↦ set_again c d key' value'
    ])

-- The arm of `delete` on `TableFull`.
unfoldable pub delete_again : Times → LsmliteInner → Blob → Option Blob → Option LsmliteInner
delete_again c d key (some blob) = none
delete_again c d key none =
    let rotated = rotate_table c.filename c.now d in
    Handle.delete c.checked_again c.flushed_again rotated.memtable key >>= λ r.
    some (settle rotated r)

unfoldable pub delete : Times → LsmliteInner → Blob → Option LsmliteInner
delete c d key = check_poison_flag d (
    Handle.delete c.checked c.flushed d.memtable key >>= λ r. elim r [
      | inserted t ↦ some (with_table d t)
      | table_full key' value ↦ delete_again c d key' value
    ])
