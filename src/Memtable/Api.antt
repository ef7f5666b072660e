-- ===== src/Memtable/Api.antt =====
-- The insertions of memtable/inner.rs into a table that is not full, and what `get` answers
-- afterwards.
use lsmlite.Base.{ℕ, ◌+◌, ◌≡◌, refl, ap, ◌∙◌, arith, some, false, get_elem?, set}
use lsmlite.Base.{if◌then◌else◌, [], ◌∷◌, ◌++◌}
use lsmlite.Base.Bytes.{Blob}
use lsmlite.Base.Key.{key_eq}
use lsmlite.Record.{copy_record, record_type}
use lsmlite.Record.Reads.{get_key-layout, copy_value-layout}
use lsmlite.Record.Update.{update_from_record}
use lsmlite.Record.Reads.{copy_key-layout}
use lsmlite.Record.Tombstone.{update_data_to_tombstone_lem}
use lsmlite.Disk.Layout.{Entry, data_entry, tombstone_entry, layout, data_layout, tombstone_layout}
use lsmlite.Disk.Layout.{data_bytes, tombstone_bytes, entry_key}
use lsmlite.Disk.Writes.{encode_data_record_lem, encode_tombstone_record_lem}
use lsmlite.Wal.{write_log}
use lsmlite.Memtable.{MemtableQuery, found, deleted, missing, new_from_record}
use lsmlite.Memtable.Query.{read_node}
use lsmlite.Memtable.Kept.{payloads}
use lsmlite.Memtable.Table
use lsmlite.Memtable.Table.{MemtableInner, inserted, full, add_node, log_and_add}
use lsmlite.Memtable.Table.{insert_data_record, insert_tombstone_record}
use lsmlite.Memtable.Lookup.{read_record}
use lsmlite.Memtable.Valid.{IsTree}
use lsmlite.Memtable.Map.{added_size, insert_node-absent}
use lsmlite.Memtable.Present.{insert_node-present}

-- The answer for what an entry stands for.
abbrev pub entry_answer : Entry → MemtableQuery
entry_answer (data_entry key value) = found value
entry_answer (tombstone_entry key) = deleted

pub read_record-layout : (e : Entry) → read_record (layout e) ≡ some (entry_answer e)
unfolding read_node record_type layout data_layout tombstone_layout new_from_record
read_record-layout (data_entry key value) = rw (copy_value-layout (data_entry key value)) refl
read_record-layout (tombstone_entry key) = refl

-- A record of a key that the table has not goes into the tree.
pub add_node-absent :
    (t : MemtableInner) (e : Entry)
    → IsTree t.tree
    → Table.get t (entry_key e) ≡ some missing
    → (t' : MemtableInner) × (add_node t (new_from_record (layout e)) ≡ some t')
      × IsTree t'.tree
      × (payloads t'.tree ≡ payloads t.tree ++ (layout e ∷ []))
      × (t'.current_size ≡ t.current_size + added_size t.tree (layout e))
      × (t' ≡ record t { tree = t'.tree; current_size = t'.current_size })
      × ((key' : Blob)
          → Table.get t' key'
            ≡ (if key_eq key' (entry_key e) then some (entry_answer e) else Table.get t key'))
unfolding add_node Table.get
add_node-absent t e v gone =
    let (tree, run, v', pay, answers) =
      insert_node-absent t.tree (layout e) (entry_key e) v (get_key-layout e) gone in
    let t' : MemtableInner = record t {
      tree = tree;
      current_size = t.current_size + added_size t.tree (layout e);
    } in
    (
      t',
      rw run refl,
      v',
      pay,
      refl,
      refl,
      λ key'.
          answers key'
          ∙ ap (λ q. if key_eq key' (entry_key e) then q else Table.get t key')
              (read_record-layout e),
    )

-- An insertion of a new key into a valid table that is not full succeeds: it appends the record's
-- bytes to the log, the tree stays valid, and `get` answers with the value for its key, and as
-- before for every other.
pub insert_data_record-absent :
    (checked flushed : ℕ) (t : MemtableInner) (key value : Blob)
    → IsTree t.tree
    → full t ≡ false
    → Table.get t key ≡ some missing
    → (t' : MemtableInner) × (insert_data_record checked flushed t key value ≡ some (inserted t'))
      × IsTree t'.tree
      × (t'.wal ≡ write_log checked flushed t.wal (data_bytes key value))
      × ((key' : Blob)
          → Table.get t' key' ≡ (if key_eq key' key then some (found value) else Table.get t key'))
unfolding insert_data_record log_and_add copy_record data_layout layout Table.get
insert_data_record-absent checked flushed t key value v room gone =
    let logged = record t { wal = write_log checked flushed t.wal (data_bytes key value) } in
    let (t', run, v', pay, size, same, answers) =
      add_node-absent logged (data_entry key value) v gone in
    (
      t',
      rw (room, encode_data_record_lem key value) (rw run refl),
      v',
      ap (λ u. u.wal) same,
      answers,
    )

-- A delete of a key that a valid table has not, when the table is not full, succeeds: it appends
-- the tombstone's bytes to the log, the tree stays valid, and `get` answers that the key is deleted,
-- and as before for every other.
pub insert_tombstone_record-absent :
    (checked flushed : ℕ) (t : MemtableInner) (key : Blob)
    → IsTree t.tree
    → full t ≡ false
    → Table.get t key ≡ some missing
    → (t' : MemtableInner) × (insert_tombstone_record checked flushed t key ≡ some (inserted t'))
      × IsTree t'.tree
      × (t'.wal ≡ write_log checked flushed t.wal (tombstone_bytes key))
      × ((key' : Blob)
          → Table.get t' key' ≡ (if key_eq key' key then some deleted else Table.get t key'))
unfolding insert_tombstone_record log_and_add copy_record tombstone_layout layout Table.get
insert_tombstone_record-absent checked flushed t key v room gone =
    let logged = record t { wal = write_log checked flushed t.wal (tombstone_bytes key) } in
    let (t', run, v', pay, size, same, answers) =
      add_node-absent logged (tombstone_entry key) v gone in
    (
      t',
      rw (room, encode_tombstone_record_lem key) (rw run refl),
      v',
      ap (λ u. u.wal) same,
      answers,
    )

-- A delete of a key whose record in a valid table is as it was encoded, when the table is not full,
-- turns that record into a tombstone: the other records stay, the tree stays valid, and `get`
-- answers that the key is deleted, and as before for every other.
pub insert_tombstone_record-present :
    (checked flushed : ℕ) (t : MemtableInner) (i : ℕ) (e : Entry)
    → IsTree t.tree
    → full t ≡ false
    → get_elem? (payloads t.tree) i ≡ some (layout e)
    → (t' : MemtableInner) × (insert_tombstone_record checked flushed t (entry_key e)
        ≡ some (inserted t'))
      × IsTree t'.tree
      × (payloads t'.tree ≡ set (payloads t.tree) i (layout (tombstone_entry (entry_key e))))
      × (t'.current_size ≡ t.current_size)
      × ((key' : Blob)
          → Table.get t' key'
            ≡ (if key_eq key' (entry_key e) then some deleted else Table.get t key'))
unfolding insert_tombstone_record log_and_add add_node Table.get update_from_record record_type
    tombstone_layout layout
insert_tombstone_record-present checked flushed t i e v room at_i =
    let key = entry_key e in
    let new = tombstone_entry key in
    let (tree, run, v', pay, answers) =
      insert_node-present t.tree i (layout e) (layout new) (layout new) key v at_i
        (get_key-layout e) (get_key-layout new)
        (update_data_to_tombstone_lem (layout e) key (copy_key-layout e)) (get_key-layout new) in
    let t' : MemtableInner = record t {
      tree = tree;
      current_size = t.current_size + 0;
      wal = write_log checked flushed t.wal (copy_record (layout new));
    } in
    (
      t',
      rw (room, encode_tombstone_record_lem key) (rw run refl),
      v',
      pay,
      omega arith,
      λ key'.
          answers key'
          ∙ ap (λ q. if key_eq key' key then q else Table.get t key') (read_record-layout new),
    )
