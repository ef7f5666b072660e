-- ===== src/Memtable/TreeExamples.antt =====
-- A tree of two nodes, the second red and right of the first, and a third key behind both.
use lsmlite.Base.{
  ◌≡◌, ◌<◌, ◌∙◌, refl, arith, none, some, [], ◌∷◌, ◌++◌, set, if◌then◌else◌, false, All,
}
use lsmlite.Base.{◌>>=◌}
use lsmlite.Base.Bytes.{Blob}
use lsmlite.Base.Key.{cmp, key_eq}
use lsmlite.Util.{encode_varint, encode_loop}
use lsmlite.Util.Varint.{varint}
use lsmlite.Record
use lsmlite.Record.{Record, record_type, copy_key}
use lsmlite.Record.Reads.{get_key-layout}
use lsmlite.Record.Reads.{copy_key-layout}
use lsmlite.Record.Tombstone.{update_data_to_tombstone_lem}
use lsmlite.Record.Update.{update_from_record, update_data_to_tombstone}
use lsmlite.Disk.Layout.{
  Entry, data_entry, tombstone_entry, layout, data_bytes, tombstone_bytes, tombstone_layout,
  data_layout, data_log_size, tombstone_log_size, Fits,
}
use lsmlite.Wal
use lsmlite.Wal.{write_log}
use lsmlite.Wal.Replay.{log_bytes}
use lsmlite.Memtable.{Tree, found, deleted, missing, red, black, at, new_from_record}
use lsmlite.Memtable.Insert.{insert_node, find_loop}
use lsmlite.Memtable.Query
use lsmlite.Memtable.Query.{search_loop}
use lsmlite.Memtable.Kept.{payloads}
use lsmlite.Memtable.Shape.{leaf, node, hit}
use lsmlite.Memtable.Table
use lsmlite.Memtable.Table.{
  MemtableInner, inserted, full, insert_data_record, insert_tombstone_record, from_wal,
}
use lsmlite.Memtable.Lookup.{lookup, read_record}
use lsmlite.Memtable.Descend.{search_loop-find_loop, node_at}
use lsmlite.Memtable.Valid.{IsTree}
use lsmlite.Memtable.Refines.{get-lookup}
use lsmlite.Memtable.Map.{added_size, insert_node-absent}
use lsmlite.Memtable.Present.{insert_node-present}
use lsmlite.Memtable.Api.{insert_data_record-absent, insert_tombstone_record-present}
use lsmlite.Memtable.Replayed.{answer, total_size, lookup-layout, from_wal-log_bytes}

abbrev pub first : Entry
first = data_entry (97 ∷ []) (1 ∷ [])

abbrev pub second : Entry
second = data_entry (98 ∷ []) (2 ∷ [])

abbrev pub third : Entry
third = data_entry (99 ∷ []) (3 ∷ [])

abbrev pub two : Tree
two = record {
  arena =
      record { payload = layout first; left = none; right = some 1; parent = none; color = black }
      ∷ (record { payload = layout second; left = none; right = none; parent = some 0; color = red }
          ∷ []);
  root_node = some 0;
}

pub two-IsTree : IsTree two
unfolding at cmp hit
two-IsTree = record {
  shape = node leaf 0 black (node leaf 1 red leaf);
  repr = (
    refl,
    none,
    some 1,
    record {
      cell = _;
      here = refl;
      its_left = refl;
      its_right = refl;
      its_parent = refl;
      its_color = refl;
    },
    refl,
    (
      refl,
      none,
      none,
      record {
        cell = _;
        here = refl;
        its_left = refl;
        its_right = refl;
        its_parent = refl;
        its_color = refl;
      },
      refl,
      refl,
    ),
  );
  cover = λ j. ground arith;
  count = refl;
  sorted = (
    97 ∷ [],
    get_key-layout first,
    ((98 ∷ [], get_key-layout second, refl), tt),
    (98 ∷ [], get_key-layout second, tt, tt),
  );
  height = 1;
  rules = (0, refl, refl, (refl, refl, refl, refl));
  dark = refl;
}

pub third_is_new : Query.get two (99 ∷ []) ≡ some missing
unfolding cmp
third_is_new = get-lookup two (99 ∷ []) two-IsTree ∙ lookup-layout (first ∷ (second ∷ [])) (99 ∷ [])

get-lookup_example : Query.get two (98 ∷ []) ≡ lookup (payloads two) (98 ∷ [])
get-lookup_example = get-lookup two (98 ∷ []) two-IsTree

search_loop-find_loop_example :
    search_loop 2 two (99 ∷ []) 0 ≡ (find_loop 2 two (layout third) 0 >>= λ p. some (node_at p))
search_loop-find_loop_example =
    search_loop-find_loop 2 two (layout third) (99 ∷ []) 0 (get_key-layout third)

insert_node-absent_example :
    (t' : Tree) × (insert_node two (new_from_record (layout third))
      ≡ some (t', added_size two (layout third)))
    × IsTree t'
    × (payloads t' ≡ payloads two ++ (layout third ∷ []))
    × ((key' : Blob)
        → Query.get t' key'
          ≡ (if key_eq key' (99 ∷ []) then read_record (layout third) else Query.get two key'))
insert_node-absent_example =
    insert_node-absent two (layout third) (99 ∷ []) two-IsTree (get_key-layout third) third_is_new

abbrev gone : Entry
gone = tombstone_entry (98 ∷ [])

update_second : update_from_record (layout second) (layout gone) ≡ some (layout gone)
unfolding update_from_record layout record_type update_data_to_tombstone tombstone_layout copy_key
update_second = update_data_to_tombstone_lem (layout second) (98 ∷ []) (copy_key-layout second)

insert_node-present_example :
    (t' : Tree) × (insert_node two (new_from_record (layout gone)) ≡ some (t', 0))
    × IsTree t'
    × (payloads t' ≡ set (payloads two) 1 (layout gone))
    × ((key' : Blob)
        → Query.get t' key'
          ≡ (if key_eq key' (98 ∷ []) then read_record (layout gone) else Query.get two key'))
insert_node-present_example =
    insert_node-present two 1 (layout second) (layout gone) (layout gone) (98 ∷ []) two-IsTree refl
      (get_key-layout second) (get_key-layout gone) update_second (get_key-layout gone)

abbrev pub table : MemtableInner
table = record { tree = two; cap = 10; max_size = 1000; current_size = 5; wal = Wal.new 7 1 }

pub table_room : full table ≡ false
unfolding full
table_room = refl

pub table_new : Table.get table (99 ∷ []) ≡ some missing
unfolding Table.get
table_new = third_is_new

insert_data_record-absent_example :
    (t' : MemtableInner) × (insert_data_record 2 3 table (99 ∷ []) (3 ∷ []) ≡ some (inserted t'))
    × IsTree t'.tree
    × (t'.wal ≡ write_log 2 3 (Wal.new 7 1) (data_bytes (99 ∷ []) (3 ∷ [])))
    × ((key' : Blob)
        → Table.get t' key'
          ≡ (if key_eq key' (99 ∷ []) then some (found (3 ∷ [])) else Table.get table key'))
insert_data_record-absent_example =
    insert_data_record-absent 2 3 table (99 ∷ []) (3 ∷ []) two-IsTree table_room table_new

insert_tombstone_record-present_example :
    (t' : MemtableInner) × (insert_tombstone_record 2 3 table (98 ∷ []) ≡ some (inserted t'))
    × IsTree t'.tree
    × (payloads t'.tree ≡ set (payloads two) 1 (layout gone))
    × (t'.current_size ≡ 5)
    × ((key' : Blob)
        → Table.get t' key'
          ≡ (if key_eq key' (98 ∷ []) then some deleted else Table.get table key'))
insert_tombstone_record-present_example =
    insert_tombstone_record-present 2 3 table 1 second two-IsTree table_room refl

sizes_small : All Fits (third ∷ (gone ∷ (first ∷ [])))
unfolding data_log_size tombstone_log_size encode_varint encode_loop
sizes_small = omega arith

small : total_size (third ∷ (gone ∷ (first ∷ []))) < 100
unfolding layout data_layout tombstone_layout data_bytes tombstone_bytes Record.size varint
    encode_varint encode_loop data_log_size tombstone_log_size
small = omega arith

from_wal-log_bytes_example :
    (t : MemtableInner) × (from_wal (log_bytes (third ∷ (gone ∷ (first ∷ [])))) 100 10 7 1 ≡ some t)
    × IsTree t.tree
    × ((key : Blob) → Table.get t key ≡ some (answer (third ∷ (gone ∷ (first ∷ []))) key))
unfolding cmp
from_wal-log_bytes_example =
    from_wal-log_bytes (third ∷ (gone ∷ (first ∷ []))) 100 10 7 1 sizes_small
      (refl, (refl, (refl, tt))) (omega arith) small
