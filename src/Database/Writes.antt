-- ===== src/Database/Writes.antt =====
-- What the writes of database/inner.rs do to the answers of `get`.
use lsmlite.Base.{◌<◌, ◌≡◌, refl, sym, ap, ◌∙◌, Option, some, true, false, [], ◌∷◌, ◌++◌, ◌>>=◌}
use lsmlite.Base.{if◌then◌else◌, Bool}
use lsmlite.Base.Bytes.{Blob}
use lsmlite.Base.Key.{key_eq, key_eq_refl}
use lsmlite.Bloom.{Hashing}
use lsmlite.Memtable.{MemtableQuery, found, deleted, missing}
use lsmlite.Memtable.Table
use lsmlite.Memtable.Table.{
  full, rotate, inserted, table_full, insert_data_record, insert_tombstone_record,
}
use lsmlite.Memtable.Handle
use lsmlite.Memtable.First.{fresh_room}
use lsmlite.Memtable.Start.{empty-IsTree}
use lsmlite.Memtable.Valid.{IsTree}
use lsmlite.Memtable.Api.{insert_data_record-absent, insert_tombstone_record-absent}
use lsmlite.Immutable
use lsmlite.Database
use lsmlite.Database.{
  LsmliteInner, Times, data_only, or_next, read_sstables, check_poison_flag, rotate_table,
}
use lsmlite.Database.{set, set_again, settle, with_table, delete, flush}
use lsmlite.Database.Reads.{get_by, check_poison_flag_lem, fresh_get}

-- The front answers with a value.
pub get-found :
    (h : Hashing) (d : LsmliteInner) (key value : Blob)
    → d.poisoned ≡ false
    → Handle.get d.memtable key ≡ some (found value)
    → Database.get h d key ≡ some (some value)
unfolding or_next data_only
get-found h d key value sound e =
    get_by h d key (found value) (Immutable.get d.immutable key) sound e refl

-- Two states with the same layers behind the memtable, whose memtables answer alike up to
-- tombstones, answer alike.
same_answer :
    (h : Hashing) (d : LsmliteInner) (t : _) (key : Blob) (first first' : MemtableQuery)
    → d.poisoned ≡ false
    → Handle.get d.memtable key ≡ some first
    → Handle.get (with_table d t).memtable key ≡ some first'
    → data_only first' ≡ data_only first
    → Database.get h (with_table d t) key ≡ Database.get h d key
unfolding with_table read_sstables
same_answer h d t key first first' sound e f same =
    get_by h (with_table d t) key first' (Immutable.get d.immutable key) sound f refl
    ∙ (ap
          (λ q. or_next q (
            (Immutable.get d.immutable key >>= λ a. some (data_only a)) >>= λ a.
            or_next a (read_sstables h d key)))
          same
        ∙ sym (get_by h d key first (Immutable.get d.immutable key) sound e refl))

-- A delete of a key that the memtable has no record of, when the database is not poisoned and the
-- memtable is valid and not full, succeeds and puts a tombstone into the memtable. `get` then
-- answers for this key as it did before the delete: a value in an older layer is still found.
pub get-delete :
    (h : Hashing) (c : Times) (d : LsmliteInner) (key : Blob)
    → d.poisoned ≡ false
    → IsTree d.memtable.handle.tree
    → full d.memtable.handle ≡ false
    → Handle.get d.memtable key ≡ some missing
    → (d' : LsmliteInner) × (delete c d key ≡ some d')
      × (Handle.get d'.memtable key ≡ some deleted)
      × (Database.get h d' key ≡ Database.get h d key)
unfolding delete Handle.delete with_table Handle.get
get-delete h c d key sound valid room gone =
    let (t, run, v, wal, answers) =
      insert_tombstone_record-absent c.checked c.flushed d.memtable.handle key valid room gone in
    let now : Table.get t key ≡ some deleted =
      answers key
      ∙ ap (λ b. if b then some deleted else Table.get d.memtable.handle key) (key_eq_refl key) in
    (
      with_table d t,
      check_poison_flag_lem d _ sound ∙ rw run refl,
      now,
      same_answer h d t key missing deleted sound gone now (unfold data_only in refl),
    )

-- A write of a key that the memtable has no record of, when the database is not poisoned and the
-- memtable is valid and not full, is read back by `get`, and changes no other answer of the
-- memtable.
pub get-set :
    (h : Hashing) (c : Times) (d : LsmliteInner) (key value : Blob)
    → d.poisoned ≡ false
    → IsTree d.memtable.handle.tree
    → full d.memtable.handle ≡ false
    → Handle.get d.memtable key ≡ some missing
    → (d' : LsmliteInner) × (set c d key value ≡ some d')
      × IsTree d'.memtable.handle.tree
      × (Database.get h d' key ≡ some (some value))
      × ((key' : Blob)
          → key_eq key' key ≡ false
          → Handle.get d'.memtable key' ≡ Handle.get d.memtable key')
unfolding set Handle.insert with_table Handle.get
get-set h c d key value sound valid room gone =
    let (t, run, v, wal, answers) =
      insert_data_record-absent c.checked c.flushed d.memtable.handle key value valid room gone in
    let now : Table.get t key ≡ some (found value) =
      answers key
      ∙ ap (λ b. if b then some (found value) else Table.get d.memtable.handle key)
          (key_eq_refl key) in
    (
      with_table d t,
      check_poison_flag_lem d _ sound ∙ rw run refl,
      v,
      get-found h (with_table d t) key value sound now,
      λ key' other.
          answers key'
          ∙ ap (λ b. if b then some (found value) else Table.get d.memtable.handle key') other,
    )

either :
    (b : Bool) (first : MemtableQuery) {q : Option MemtableQuery}
    → q ≡ some missing
    → (if b then some first else q) ≡ some (if b then first else missing)
either true first e = refl
either false first e = e

-- A write when the memtable is full, and the limits are not zero, rotates the memtable and
-- succeeds: the old table is the newest in the queue, a flush is signalled, the new table holds
-- the key alone, and `get` reads the value back.
pub get-set-full :
    (h : Hashing) (c : Times) (d : LsmliteInner) (key value : Blob)
    → d.poisoned ≡ false
    → full d.memtable.handle ≡ true
    → 0 < d.memtable.limit_size
    → 0 < d.memtable.limit_nodes
    → (d' : LsmliteInner) × (set c d key value ≡ some d')
      × IsTree d'.memtable.handle.tree
      × (d'.immutable ≡ Immutable.insert d.memtable.handle d.immutable)
      × (d'.memtable_channel ≡ d.memtable_channel ++ (flush ∷ []))
      × ((key' : Blob)
          → Handle.get d'.memtable key' ≡ some (if key_eq key' key then found value else missing))
      × (Database.get h d' key ≡ some (some value))
unfolding set set_again Handle.insert insert_data_record rotate_table rotate with_table settle
    Handle.get
get-set-full h c d key value sound full_up size nodes =
    let fresh = Table.new d.memtable.limit_size d.memtable.limit_nodes c.filename c.now in
    let room =
      fresh_room d.memtable.limit_size d.memtable.limit_nodes c.filename c.now size nodes in
    let none_yet = fresh_get d.memtable.limit_size d.memtable.limit_nodes c.filename c.now in
    let (t, run, v, wal, answers) =
      insert_data_record-absent c.checked_again c.flushed_again fresh key value
        (unfold Table.new in empty-IsTree) room (none_yet key) in
    let d' = with_table (rotate_table c.filename c.now d) t in
    let all : (key' : Blob)
        → Table.get t key' ≡ some (if key_eq key' key then found value else missing) =
      λ key'. answers key' ∙ either (key_eq key' key) (found value) (none_yet key') in
    (
      d',
      check_poison_flag_lem d _ sound ∙ rw full_up (rw run refl),
      v,
      refl,
      refl,
      all,
      get-found h d' key value sound
          (all key ∙ ap (λ b. some (if b then found value else missing)) (key_eq_refl key)),
    )
