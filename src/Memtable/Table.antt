-- ===== src/Memtable/Table.antt =====
-- `MemtableInner` and its operations (memtable/inner.rs), and the lock round it (memtable/mod.rs).
-- The clock's readings are arguments. `cap` is the capacity of the arena's vector, taken to be the one
-- that it was made with.
use lsmlite.Base.{ℕ, ◌+◌, Option, none, some, Bool, ◌||◌, List, [], ◌∷◌, length}
use lsmlite.Base.{leb, ◌==◌, if◌then◌else◌, ◌>>=◌}
use lsmlite.Base.Bytes.{Blob}
use lsmlite.Record.{Record, copy_record}
use lsmlite.Disk.Encode.{encode_data_record, encode_tombstone_record}
use lsmlite.Wal.{Wal, write_log, replay}
use lsmlite.Wal
use lsmlite.Memtable.{Tree, MemtableNode, new_from_record, MemtableQuery}
use lsmlite.Memtable.Insert.{insert_node}
use lsmlite.Memtable.Query

pub record MemtableInner : Type 0 where
  pub tree : Tree
  pub cap : ℕ
  pub max_size : ℕ
  pub current_size : ℕ
  pub wal : Wal

-- The time that names the log, and the one read for `last_flush`.
unfoldable pub new : ℕ → ℕ → ℕ → ℕ → MemtableInner
new max_size max_nodes filename now = record {
  tree = record { arena = []; root_node = none };
  cap = max_nodes;
  max_size = max_size;
  current_size = 0;
  wal = Wal.new filename now;
}

unfoldable pub full : MemtableInner → Bool
full t = (length t.tree.arena == t.cap) || leb t.max_size t.current_size

-- `MemtableError::TableFull` hands the request back.
pub data InsertResult : Type 0 where
  inserted : MemtableInner → InsertResult
  table_full : Blob → Option Blob → InsertResult

-- `insert_node` on the fields of the table.
unfoldable pub add_node : MemtableInner → MemtableNode → Option MemtableInner
add_node t node = do
  (tree, added) ← insert_node t.tree node
  some (record t { tree = tree; current_size = t.current_size + added })

-- The log is written before the tree.
unfoldable pub log_and_add : ℕ → ℕ → MemtableInner → Record → Option InsertResult
log_and_add checked flushed t r = do
  let logged = record t { wal = write_log checked flushed t.wal (copy_record r) }
  t' ← add_node logged (new_from_record r)
  some (inserted t')

unfoldable pub insert_data_record : ℕ → ℕ → MemtableInner → Blob → Blob → Option InsertResult
insert_data_record checked flushed t key value =
    if full t
    then some (table_full key (some value))
    else (encode_data_record key value >>= λ r. log_and_add checked flushed t r)

unfoldable pub insert_tombstone_record : ℕ → ℕ → MemtableInner → Blob → Option InsertResult
insert_tombstone_record checked flushed t key =
    if full t
    then some (table_full key none)
    else (encode_tombstone_record key >>= λ r. log_and_add checked flushed t r)

-- A full table is a `todo!`, which panics. The log is not written.
unfoldable pub insert_record_from_wal : MemtableInner → Record → Option MemtableInner
insert_record_from_wal t r = if full t then none else add_node t (new_from_record r)

unfoldable pub insert_all : List Record → MemtableInner → Option MemtableInner
insert_all [] t = some t
insert_all (r ∷ rs) t = insert_record_from_wal t r >>= λ t'. insert_all rs t'

-- The records of the old log go into a new table, with a new log; then the old file is removed.
unfoldable pub from_wal : Blob → ℕ → ℕ → ℕ → ℕ → Option MemtableInner
from_wal file max_size max_nodes filename now = do
  records ← replay file
  insert_all records (new max_size max_nodes filename now)

unfoldable pub get : MemtableInner → Blob → Option MemtableQuery
get t key = Query.get t.tree key

-- memtable/mod.rs: the table behind a lock, with the limits for the next one.
pub record Memtable : Type 0 where
  pub handle : MemtableInner
  pub limit_size : ℕ
  pub limit_nodes : ℕ

-- `rotate` puts a fresh table in the place of the old one, and returns the old one.
unfoldable pub rotate : ℕ → ℕ → Memtable → Memtable × MemtableInner
rotate filename now m =
    (record m { handle = new m.limit_size m.limit_nodes filename now }, m.handle)
