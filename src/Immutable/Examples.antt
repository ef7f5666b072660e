-- ===== src/Immutable/Examples.antt =====
-- Two tables in the queue: the older has the key, the newer is empty.
use lsmlite.Base.{◌≡◌, refl, none, some, [], ◌∷◌, ◌++◌}
use lsmlite.Base.Bytes.{Blob, slice}
use lsmlite.Record.{record_type, get_key, copy_value}
use lsmlite.Memtable.{MemtableNode, Tree, black, found, at}
use lsmlite.Memtable.Query.{get_search, search_loop, read_node}
use lsmlite.Memtable.Query
use lsmlite.Memtable.Table
use lsmlite.Memtable.Table.{MemtableInner}
use lsmlite.Base.Key.{cmp}
use lsmlite.Immutable.{new_empty, get}
use lsmlite.Immutable.Newest.{Misses, insert_tables, knows_data, get-insert_tables}

abbrev key : Blob
key = 7 ∷ []

abbrev node : MemtableNode
node = record {
  payload = record { blob = 0 ∷ 4 ∷ 1 ∷ 7 ∷ 1 ∷ 9 ∷ []; key = (3, 1); value = some (5, 1) };
  left = none;
  right = none;
  parent = none;
  color = black;
}

abbrev table : Tree → MemtableInner
table tree = record {
  tree = tree;
  cap = 10;
  max_size = 100;
  current_size = 0;
  wal = record { fd = []; buffer = []; last_flush = 0; filename = 0 };
}

abbrev holds_key : MemtableInner
holds_key = table (record { arena = node ∷ []; root_node = some 0 })

abbrev empty : MemtableInner
empty = table (record { arena = []; root_node = none })

empty-Misses : Misses key empty
unfolding Table.get Query.get get_search
empty-Misses = refl

get-holds_key : Table.get holds_key key ≡ some (found (9 ∷ []))
unfolding Table.get Query.get get_search search_loop read_node record_type get_key copy_value slice
    at cmp
get-holds_key = refl

get-insert_tables_example :
    get (insert_tables ((empty ∷ []) ++ (holds_key ∷ empty ∷ [])) new_empty) key
    ≡ some (found (9 ∷ []))
get-insert_tables_example =
    get-insert_tables (empty ∷ []) (empty ∷ []) holds_key key (found (9 ∷ [])) get-holds_key
      (knows_data (9 ∷ [])) (empty-Misses, tt)
