-- ===== src/Database/Reads.antt =====
-- What a rotation of database/inner.rs does to the answers of `get`.
use lsmlite.Base.{ℕ, ◌≡◌, ◌≢◌, refl, sym, ap, ◌∙◌, Option, none, some, [], ◌∷◌, ◌++◌, ◌>>=◌, false}
use lsmlite.Base.Bytes.{Blob}
use lsmlite.Bloom.{Hashing}
use lsmlite.Memtable.{MemtableQuery, found, deleted, missing}
use lsmlite.Memtable.Table
use lsmlite.Memtable.Table.{rotate}
use lsmlite.Memtable.Handle
use lsmlite.Memtable.Start.{empty-IsTree}
use lsmlite.Memtable.Refines.{get-lookup}
use lsmlite.Immutable
use lsmlite.Immutable.{or_older}
use lsmlite.Immutable.Newest.{get-insert}
use lsmlite.Database
use lsmlite.Database.{LsmliteInner, data_only, read_memtable, read_immutable_table, read_sstables}
use lsmlite.Database.{check_poison_flag, or_next, rotate_table, flush}

-- A fresh table has nothing.
pub fresh_get :
    (max_size max_nodes filename now : ℕ) (key : Blob)
    → Table.get (Table.new max_size max_nodes filename now) key ≡ some missing
unfolding Table.get Table.new
fresh_get max_size max_nodes filename now key =
    get-lookup (record { arena = []; root_node = none }) key empty-IsTree

pub check_poison_flag_lem :
    {A : Type 0} (d : LsmliteInner) (rest : Option A)
    → d.poisoned ≡ false
    → check_poison_flag d rest ≡ rest
unfolding check_poison_flag
check_poison_flag_lem d rest sound = rw sound refl

module _ (h : Hashing) (d : LsmliteInner) (key : Blob) where
  -- `get` by the answers of the first two layers.
  pub get_by :
      (first : MemtableQuery) (second : Option MemtableQuery)
      → d.poisoned ≡ false
      → Handle.get d.memtable key ≡ some first
      → Immutable.get d.immutable key ≡ second
      → Database.get h d key
        ≡ or_next (data_only first) (
            (second >>= λ answer. some (data_only answer)) >>= λ a.
            or_next a (read_sstables h d key))
  unfolding Database.get read_memtable read_immutable_table check_poison_flag
  get_by first second sound e f = rw (sound, e, f) refl

-- The old table answers in the queue as it did in front.
old_in_front :
    (answer : MemtableQuery)
    → answer ≢ deleted
    → (second : Option MemtableQuery) (third : Option (Option Blob))
    → or_next
        (data_only missing)
        ((or_older answer second >>= λ a. some (data_only a)) >>= λ a. or_next a third)
      ≡ or_next (data_only answer) ((second >>= λ a. some (data_only a)) >>= λ a. or_next a third)
unfolding or_next data_only or_older
old_in_front (found blob) ne second third = refl
old_in_front deleted ne second third = absurd (ne refl)
old_in_front missing ne second third = refl

-- A rotation puts a new memtable with the same limits and a new log in front, which has no record of
-- any key, puts the old table at the end of the queue, and sends one signal to flush. It does not
-- change the answer of `get` for a key, when the database is not poisoned and the memtable answers
-- with a value or has no record of the key.
pub get-rotate_table :
    (h : Hashing) (d : LsmliteInner) (filename now : ℕ) (key : Blob) (answer : MemtableQuery)
    → d.poisoned ≡ false
    → Handle.get d.memtable key ≡ some answer
    → answer ≢ deleted
    → ((rotate_table filename now d).memtable
        ≡ Handle.new d.memtable.limit_size d.memtable.limit_nodes filename now)
      × ((other : Blob) → Handle.get (rotate_table filename now d).memtable other ≡ some missing)
      × ((rotate_table filename now d).immutable.table
          ≡ d.immutable.table ++ (d.memtable.handle ∷ []))
      × ((rotate_table filename now d).memtable_channel ≡ d.memtable_channel ++ (flush ∷ []))
      × (Database.get h (rotate_table filename now d) key ≡ Database.get h d key)
unfolding rotate_table rotate Handle.get Handle.new Immutable.insert read_sstables
get-rotate_table h d filename now key answer sound e ne =
    let fresh = fresh_get d.memtable.limit_size d.memtable.limit_nodes filename now in
    let second = Immutable.get d.immutable key in
    (
      refl,
      fresh,
      refl,
      refl,
      get_by h (rotate_table filename now d) key missing (or_older answer second) sound (fresh key)
            (get-insert d.memtable.handle d.immutable key
              ∙ ap (λ o. o >>= λ a. or_older a second) e)
          ∙ (old_in_front answer ne second (read_sstables h d key)
              ∙ sym (get_by h d key answer second sound e refl)),
    )
