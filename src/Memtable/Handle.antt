-- ===== src/Memtable/Handle.antt =====
-- memtable/mod.rs: the operations that take the lock and call the table.
use lsmlite.Base.{ℕ, Option, some, ◌>>=◌}
use lsmlite.Base.Bytes.{Blob}
use lsmlite.Memtable.{MemtableQuery}
use lsmlite.Memtable.Table
use lsmlite.Memtable.Table.{
  Memtable, InsertResult, insert_data_record, insert_tombstone_record, from_wal,
}

unfoldable pub new : ℕ → ℕ → ℕ → ℕ → Memtable
new max_size max_nodes filename now = record {
  handle = Table.new max_size max_nodes filename now;
  limit_size = max_size;
  limit_nodes = max_nodes;
}

unfoldable pub new_from_wal : Blob → ℕ → ℕ → ℕ → ℕ → Option Memtable
new_from_wal file max_size max_nodes filename now = do
  inner ← from_wal file max_size max_nodes filename now
  some (record { handle = inner; limit_size = max_size; limit_nodes = max_nodes })

-- The table after the insertion is in the result.
unfoldable pub insert : ℕ → ℕ → Memtable → Blob → Blob → Option InsertResult
insert checked flushed m key value = insert_data_record checked flushed m.handle key value

unfoldable pub get : Memtable → Blob → Option MemtableQuery
get m key = Table.get m.handle key

unfoldable pub delete : ℕ → ℕ → Memtable → Blob → Option InsertResult
delete checked flushed m key = insert_tombstone_record checked flushed m.handle key
