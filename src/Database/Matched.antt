-- ===== src/Database/Matched.antt =====
-- The signals and the queue of database/inner.rs stay matched, whatever the order of the writes
-- and of the two background tasks.
use mathlib.Core.Path.{subst}
use lsmlite.Base.{
  ℕ, ◌+◌, ◌≡◌, ◌⊎◌, inl, inr, refl, sym, ap, ◌∙◌, arith, Option, none, some, Bool, true, false,
}
use lsmlite.Base.{List, [], ◌∷◌, ◌++◌, length, length-append, ◌>>=◌, if◌then◌else◌, Bool-cases}
use lsmlite.Base.Bytes.{Blob}
use lsmlite.Bloom.{Hashing}
use lsmlite.Memtable.Table.{MemtableInner, InsertResult, inserted, table_full, rotate}
use lsmlite.Memtable.Handle
use lsmlite.Immutable
use lsmlite.Immutable.{ImmutableMemtable, pop, insert}
use lsmlite.Database.{LsmliteInner, flush, Times, set, set_again, delete, delete_again}
use lsmlite.Database.{check_poison_flag, rotate_table, settle, with_table}
use lsmlite.Database.Background.{System}
use lsmlite.Database.Background.{waits, InFlight, Matched}

-- What a write does to the queue and to the signals: nothing, or a table and a signal more.
abbrev pub Queued : LsmliteInner → LsmliteInner → Type 0
Queued d d' =
    ((d'.immutable ≡ d.immutable) × (d'.memtable_channel ≡ d.memtable_channel))
    ⊎ ((t : MemtableInner) × (d'.immutable ≡ insert t d.immutable)
        × (d'.memtable_channel ≡ d.memtable_channel ++ (flush ∷ [])))

abbrev pub QueuedBy : LsmliteInner → Option LsmliteInner → Type 0
QueuedBy d none = Unit {0}
QueuedBy d (some d') = Queued d d'

settle-Queued :
    (d : LsmliteInner) (filename now : ℕ) (m : Option InsertResult)
    → QueuedBy d (m >>= λ r. some (settle (rotate_table filename now d) r))
unfolding settle rotate_table with_table rotate
settle-Queued d filename now none = tt
settle-Queued d filename now (some (inserted t)) = inr (d.memtable.handle, refl, refl)
settle-Queued d filename now (some (table_full k v)) = inr (d.memtable.handle, refl, refl)

checked-Queued :
    (d : LsmliteInner) (m : Option LsmliteInner) → QueuedBy d m → QueuedBy d (check_poison_flag d m)
unfolding check_poison_flag
checked-Queued d m h = elim (Bool-cases d.poisoned) [
  | inl e ↦ subst (λ b. QueuedBy d (if b then none else m)) (sym e) tt
  | inr e ↦ subst (λ b. QueuedBy d (if b then none else m)) (sym e) h
]

pub set-Queued : (c : Times) (d : LsmliteInner) (key value : Blob) → QueuedBy d (set c d key value)
unfolding set
set-Queued c d key value =
    checked-Queued d _ (go (Handle.insert c.checked c.flushed d.memtable key value))
  where
    again : (k : Blob) (v : Option Blob) → QueuedBy d (set_again c d k v)
    again k none = unfold set_again in tt
    again k (some b) =
        unfold set_again in
        settle-Queued d c.filename c.now (
          Handle.insert c.checked_again c.flushed_again (rotate_table c.filename c.now d).memtable k
            b)

    go :
        (m : Option InsertResult)
        → QueuedBy d (
            m >>= λ r. elim r [
              | inserted t ↦ some (with_table d t)
              | table_full key' value' ↦ set_again c d key' value'
            ])
    go none = tt
    go (some (inserted t)) = unfold with_table in inl (refl, refl)
    go (some (table_full k v)) = again k v

pub delete-Queued : (c : Times) (d : LsmliteInner) (key : Blob) → QueuedBy d (delete c d key)
unfolding delete
delete-Queued c d key = checked-Queued d _ (go (Handle.delete c.checked c.flushed d.memtable key))
  where
    again : (k : Blob) (v : Option Blob) → QueuedBy d (delete_again c d k v)
    again k (some b) = unfold delete_again in tt
    again k none =
        unfold delete_again in
        settle-Queued d c.filename c.now (
          Handle.delete c.checked_again c.flushed_again (rotate_table c.filename c.now d).memtable
            k)

    go :
        (m : Option InsertResult)
        → QueuedBy d (
            m >>= λ r. elim r [
              | inserted t ↦ some (with_table d t)
              | table_full key' value' ↦ delete_again c d key' value'
            ])
    go none = tt
    go (some (inserted t)) = unfold with_table in inl (refl, refl)
    go (some (table_full k v)) = again k v

-- A table at the end does not change which one is flushed.
flush-insert :
    (h : Hashing) (t : MemtableInner) (m : ImmutableMemtable) (r : Blob × ℕ)
    → Immutable.flush h m ≡ some r
    → Immutable.flush h (insert t m) ≡ some r
unfolding Immutable.flush insert
flush-insert h t m r e = go m.table e
  where
    go :
        (ts : List MemtableInner)
        → Immutable.flush h (record { table = ts }) ≡ some r
        → Immutable.flush h (record { table = ts ++ (t ∷ []) }) ≡ some r
    go [] q = cc
    go (x ∷ xs) q = q

pub Queued-Matched :
    (h : Hashing) (s : System) (d : LsmliteInner)
    → Queued s.db d
    → Matched h s
    → Matched h (record s { db = d })
unfolding insert
Queued-Matched h s d (inl (e, f)) m = record {
  counts = ap (λ q. length q.table) e ∙ m.counts ∙ ap (λ q. length q + waits s.flushing) (sym f);
  in_flight =
      subst (λ q. InFlight h (record s { db = record s.db { immutable = q } })) (sym e) m.in_flight;
}
Queued-Matched h s d (inr (t, e, f)) m = record {
  counts = omega (
    arith,
    m.counts,
    ap (λ q. length q.table) e,
    ap length f,
    length-append s.db.immutable.table (t ∷ []),
    length-append s.db.memtable_channel (flush ∷ []),
  );
  in_flight =
      subst (λ q. InFlight h (record s { db = record s.db { immutable = q } })) (sym e)
        (go s.flushing m.in_flight);
}
  where
    go :
        (b : Bool)
        → InFlight h (record s { flushing = b })
        → InFlight h
            (record s { flushing = b; db = record s.db { immutable = insert t s.db.immutable } })
    go false q = q
    go true (fd, log, q, r) = (fd, log, q, flush-insert h t s.db.immutable (fd, log) r)
