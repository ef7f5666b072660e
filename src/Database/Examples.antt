-- ===== src/Database/Examples.antt =====
-- A database with a memtable of two keys, and one that is opened with two empty logs.
use lsmlite.Base.{
  ℕ, ◌≡◌, ◌≢◌, refl, arith, none, some, true, false, [], ◌∷◌, ◌++◌, if◌then◌else◌, List,
}
use lsmlite.Base.Bytes.{Blob}
use lsmlite.Base.Key.{key_eq}
use lsmlite.Bloom.Examples.{by_length}
use lsmlite.Config.{default_config}
use lsmlite.Restart.{Artifact}
use lsmlite.Wal
use lsmlite.Memtable.{found, deleted, missing}
use lsmlite.Memtable.Table
use lsmlite.Memtable.Table.{MemtableInner, full, from_wal, insert_all}
use lsmlite.Memtable.Handle
use lsmlite.Memtable.Valid.{IsTree}
use lsmlite.Memtable.TreeExamples.{table, two-IsTree, table_room, table_new}
use lsmlite.Immutable
use lsmlite.Sstable.Cache
use lsmlite.Database
use lsmlite.Database.{LsmliteInner, Times, rotate_table, set, delete, flush}
use lsmlite.Database.Reads.{get-rotate_table}
use lsmlite.Database.Writes.{get-delete, get-set, get-set-full}
use lsmlite.Database.Open
use lsmlite.Database.Open.{
  Clock, construct_memtable, construct_sstable_cache, queue_of, read_immutable_tables,
}
use lsmlite.Database.Open.{load_immutable_memtable_worker, signals, pop_last}
use lsmlite.Database.Background.{start, Matched}
use lsmlite.Database.Always.{opened, new-Reachable-Matched, front_there}

abbrev times : Times
times = record {
  checked = 1;
  flushed = 2;
  filename = 3;
  now = 4;
  checked_again = 5;
  flushed_again = 6;
}

abbrev database : LsmliteInner
database = record {
  memtable = record { handle = table; limit_size = 1000; limit_nodes = 10 };
  sstable_cache = record { cache = []; compaction_rate = 10 };
  poisoned = false;
  memtable_channel = [];
  immutable = record { table = [] };
}

key_new : Handle.get database.memtable (99 ∷ []) ≡ some missing
unfolding Handle.get
key_new = table_new

not_deleted : missing ≢ deleted
not_deleted e = cc

get-rotate_table_example :
    ((rotate_table 7 8 database).memtable ≡ Handle.new 1000 10 7 8)
    × ((other : Blob) → Handle.get (rotate_table 7 8 database).memtable other ≡ some missing)
    × ((rotate_table 7 8 database).immutable.table ≡ [] ++ (table ∷ []))
    × ((rotate_table 7 8 database).memtable_channel ≡ [] ++ (flush ∷ []))
    × (Database.get by_length (rotate_table 7 8 database) (99 ∷ [])
        ≡ Database.get by_length database (99 ∷ []))
get-rotate_table_example =
    get-rotate_table by_length database 7 8 (99 ∷ []) missing refl key_new not_deleted

get-delete_example :
    (d' : LsmliteInner) × (delete times database (99 ∷ []) ≡ some d')
    × (Handle.get d'.memtable (99 ∷ []) ≡ some deleted)
    × (Database.get by_length d' (99 ∷ []) ≡ Database.get by_length database (99 ∷ []))
get-delete_example =
    get-delete by_length times database (99 ∷ []) refl two-IsTree table_room key_new

get-set_example :
    (d' : LsmliteInner) × (set times database (99 ∷ []) (3 ∷ []) ≡ some d')
    × IsTree d'.memtable.handle.tree
    × (Database.get by_length d' (99 ∷ []) ≡ some (some (3 ∷ [])))
    × ((key' : Blob)
        → key_eq key' (99 ∷ []) ≡ false
        → Handle.get d'.memtable key' ≡ Handle.get database.memtable key')
get-set_example =
    get-set by_length times database (99 ∷ []) (3 ∷ []) refl two-IsTree table_room key_new

abbrev full_table : MemtableInner
full_table = record table { cap = 2 }

abbrev full_database : LsmliteInner
full_database = record database {
  memtable = record { handle = full_table; limit_size = 1000; limit_nodes = 2 };
}

no_room : full full_table ≡ true
unfolding full
no_room = refl

get-set-full_example :
    (d' : LsmliteInner) × (set times full_database (99 ∷ []) (3 ∷ []) ≡ some d')
    × IsTree d'.memtable.handle.tree
    × (d'.immutable ≡ Immutable.insert full_table full_database.immutable)
    × (d'.memtable_channel ≡ [] ++ (flush ∷ []))
    × ((key' : Blob)
        → Handle.get d'.memtable key'
          ≡ some (if key_eq key' (99 ∷ []) then found (3 ∷ []) else missing))
    × (Database.get by_length d' (99 ∷ []) ≡ some (some (3 ∷ [])))
get-set-full_example =
    get-set-full by_length times full_database (99 ∷ []) (3 ∷ []) refl no_room (omega arith)
      (omega arith)

abbrev clock : Clock
clock i = (i, i)

abbrev logs : List Artifact
logs = record { file = []; ts = 1 } ∷ (record { file = []; ts = 2 } ∷ [])

abbrev empty_table : ℕ → MemtableInner
empty_table i = record {
  tree = record { arena = []; root_node = none };
  cap = 4096;
  max_size = 4000000;
  current_size = 0;
  wal = Wal.new i i;
}

abbrev recovered : LsmliteInner
recovered = record {
  memtable = record { handle = empty_table 0; limit_size = 4000000; limit_nodes = 4096 };
  sstable_cache = record { cache = []; compaction_rate = 10 };
  poisoned = false;
  memtable_channel = flush ∷ [];
  immutable = record { table = empty_table 1 ∷ [] };
}

opens : Open.new clock [] logs default_config ≡ some recovered
unfolding Open.new pop_last construct_memtable Handle.new_from_wal from_wal Wal.replay Wal.collect
    Wal.next insert_all Table.new construct_sstable_cache Cache.new queue_of read_immutable_tables
    load_immutable_memtable_worker signals default_config
opens = refl

new-Reachable-Matched_example : Matched by_length (opened recovered)
new-Reachable-Matched_example =
    new-Reachable-Matched by_length clock [] logs default_config recovered (opened recovered) opens
      (start (opened recovered))

front_there_example :
    (head : MemtableInner) × (behind : List MemtableInner) × (recovered.immutable.table
      ≡ head ∷ behind)
front_there_example =
    front_there by_length clock [] logs default_config recovered (opened recovered) [] opens
      (start (opened recovered)) refl
