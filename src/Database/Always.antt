-- ===== src/Database/Always.antt =====
-- What holds in every state that a database comes to after it is opened.
use mathlib.Core.Path.{subst}
use lsmlite.Base.{
  ℕ, suc, ◌+◌, ◌≤◌, ◌≡◌, refl, sym, ap, ◌∙◌, arith, Option, none, some, Bool, true, false,
}
use lsmlite.Base.{List, [], ◌∷◌, ◌++◌, length, length-replicate, replicate, ◌>>=◌}
use lsmlite.Base.Bytes.{Blob}
use lsmlite.Bloom.{Hashing}
use lsmlite.Config.{LsmliteConfig}
use lsmlite.Restart.{Artifact}
use lsmlite.Memtable.Table.{Memtable, MemtableInner}
use lsmlite.Sstable.Cache.{SstableCache}
use lsmlite.Immutable
use lsmlite.Immutable.{ImmutableMemtable, pop}
use lsmlite.Database.{LsmliteInner, MemtableFlushSignal, flush}
use lsmlite.Database.Open.{
  pop_last, construct_memtable, construct_sstable_cache, Clock, queue_of, read_immutable_tables,
  signals, load_immutable_memtable_worker,
}
use lsmlite.Database.Open
use lsmlite.Database.Background.{
  System, Step, write, erase, flushes, loads, Reachable, start, then_step,
}
use lsmlite.Database.Background.{
  waits, InFlight, Matched, load_sstable, take_signal, load_table, CompactionSignal, shutdown,
}
use lsmlite.Database.Matched.{QueuedBy, set-Queued, delete-Queued, Queued-Matched}

length-pop : (m : ImmutableMemtable) (n : ℕ) → length m.table ≡ n + 1 → length (pop m).table ≡ n
unfolding pop
length-pop m n e = go m.table e
  where
    go :
        (ts : List MemtableInner)
        → length ts ≡ n + 1
        → length (pop (record { table = ts })).table ≡ n
    go [] q = absurd (omega arith)
    go (x ∷ xs) q = omega arith

take_signal-Matched :
    (h : Hashing) (s : System) (rest : List MemtableFlushSignal) (fd : Blob) (log : ℕ)
    → s.flushing ≡ false
    → s.db.memtable_channel ≡ flush ∷ rest
    → Immutable.flush h s.db.immutable ≡ some (fd, log)
    → Matched h s
    → Matched h (take_signal s rest fd)
unfolding take_signal
take_signal-Matched h s rest fd log quiet there run m = record {
  counts = omega (arith, m.counts, ap length there, ap waits quiet);
  in_flight = (
    fd,
    log,
    ap (λ l. l ++ (load_sstable fd ∷ [])) (none_waits s.flushing quiet m.in_flight),
    run,
  );
}
  where
    none_waits : (b : Bool) → b ≡ false → InFlight h (record s { flushing = b }) → s.signal ≡ []
    none_waits true e q = cc
    none_waits false e q = q

-- The one signal to load is for the front of the queue.
loading :
    (h : Hashing) (s : System) (rest : List CompactionSignal) (fd : Blob)
    → s.signal ≡ load_sstable fd ∷ rest
    → Matched h s
    → (s.flushing ≡ true)
      × (rest ≡ [])
      × (log : ℕ) × (Immutable.flush h s.db.immutable ≡ some (fd, log))
loading h s rest fd e m = go s.flushing m.in_flight
  where
    go :
        (b : Bool)
        → InFlight h (record s { flushing = b })
        → (b ≡ true) × (rest ≡ []) × (log : ℕ) × (Immutable.flush h s.db.immutable ≡ some (fd, log))
    go false q = let clash : [] ≡ load_sstable fd ∷ rest = sym q ∙ e in cc
    go true (fd', log, q, r) =
        let both : load_sstable fd' ∷ [] ≡ load_sstable fd ∷ rest = sym q ∙ e in
        let same : fd' ≡ fd =
          ap (λ l. elim l [ [] ↦ fd' | x ∷ xs ↦ elim x [ load_sstable f ↦ f | shutdown ↦ fd' ] ])
            both in
        let tails : [] ≡ rest = ap (λ l. elim l [ [] ↦ [] | x ∷ xs ↦ xs ]) both in
        (refl, sym tails, log, r ∙ ap (λ f. some (f, log)) same)

step-Matched : (h : Hashing) (s t : System) → Step h s t → Matched h s → Matched h t
step-Matched h _ _ (write s c key value d e) m =
    Queued-Matched h s d (subst (QueuedBy s.db) e (set-Queued c s.db key value)) m
step-Matched h _ _ (erase s c key d e) m =
    Queued-Matched h s d (subst (QueuedBy s.db) e (delete-Queued c s.db key)) m
step-Matched h _ _ (flushes s rest fd log quiet there run) m =
    take_signal-Matched h s rest fd log quiet there run m
step-Matched h _ _ (loads s rest fd table compact e opened) m =
    let (busy, last, log, run) = loading h s rest fd e m in
    unfold load_table in
    record {
      counts = omega (
        arith,
        length-pop s.db.immutable (length s.db.memtable_channel)
            (m.counts ∙ ap (λ b. length s.db.memtable_channel + waits b) busy),
      );
      in_flight = last;
    }

Reachable-Matched : (h : Hashing) (s t : System) → Reachable h s t → Matched h s → Matched h t
Reachable-Matched h _ _ (start s) m = m
Reachable-Matched h _ _ (then_step s u t r step) m =
    step-Matched h u t step (Reachable-Matched h s u r m)

-- A list of tables of a length, or a panic.
abbrev OfLength : ℕ → Option (List MemtableInner) → Type 0
OfLength n none = Unit {0}
OfLength n (some ts) = length ts ≡ n

read_immutable_tables-OfLength :
    (clock : Clock) (i : ℕ) (ws : List Artifact) (config : LsmliteConfig)
    → OfLength (length ws) (read_immutable_tables clock i ws config)
unfolding read_immutable_tables
read_immutable_tables-OfLength clock i [] config = refl
read_immutable_tables-OfLength clock i (w ∷ ws) config =
    first
      (load_immutable_memtable_worker clock i w.file config.max_memtable_size
        config.max_memtable_nodes)
      (read_immutable_tables clock (suc i) ws config)
      (read_immutable_tables-OfLength clock (suc i) ws config)
  where
    later :
        (t : MemtableInner) (m : Option (List MemtableInner))
        → OfLength (length ws) m
        → OfLength (suc (length ws)) (m >>= λ ts. some (t ∷ ts))
    later t none h = tt
    later t (some ts) h = ap suc h

    first :
        (m : Option MemtableInner) (rest : Option (List MemtableInner))
        → OfLength (length ws) rest
        → OfLength (suc (length ws)) (m >>= λ t. rest >>= λ ts. some (t ∷ ts))
    first none rest h = tt
    first (some t) rest h = later t rest h

-- As many signals as tables, or a panic.
abbrev Even : Option (ImmutableMemtable × List MemtableFlushSignal) → Type 0
Even none = Unit {0}
Even (some (q, sent)) = length q.table ≡ length sent

queue_of-Even :
    (clock : Clock) (ws : List Artifact) (config : LsmliteConfig) → Even (queue_of clock ws config)
unfolding queue_of signals Immutable.new_empty
queue_of-Even clock [] config = refl
queue_of-Even clock (w ∷ ws) config =
    go (read_immutable_tables clock 1 (w ∷ ws) config)
      (read_immutable_tables-OfLength clock 1 (w ∷ ws) config)
  where
    go :
        (m : Option (List MemtableInner))
        → OfLength (suc (length ws)) m
        → Even (m >>= λ table. some (record { table = table }, replicate (suc (length ws)) flush))
    go none h = tt
    go (some ts) h = omega (arith, h, length-replicate (length ws) flush)

-- The state of the tasks when the database is opened.
abbrev pub opened : LsmliteInner → System
opened d = record { db = d; signal = []; flushing = false }

abbrev EvenBy : Option LsmliteInner → Type 0
EvenBy none = Unit {0}
EvenBy (some d) = length d.immutable.table ≡ length d.memtable_channel

new-EvenBy :
    (clock : Clock) (sstable_files wal_files : List Artifact) (config : LsmliteConfig)
    → EvenBy (Open.new clock sstable_files wal_files config)
unfolding Open.new
new-EvenBy clock sstable_files wal_files config =
    let (live, full) = pop_last wal_files in
    go (construct_memtable clock live config) (construct_sstable_cache sstable_files config)
      (queue_of clock full config) (queue_of-Even clock full config)
  where
    go :
        (m : Option Memtable) (c : Option SstableCache)
        (q : Option (ImmutableMemtable × List MemtableFlushSignal))
        → Even q
        → EvenBy (
            m >>= λ memtable. c >>= λ sstable_cache. q >>= λ pair. some (record {
              memtable = memtable;
              sstable_cache = sstable_cache;
              poisoned = false;
              memtable_channel = pair.1;
              immutable = pair.0;
            }))
    go none c q h = tt
    go (some m) none q h = tt
    go (some m) (some c) none h = tt
    go (some m) (some c) (some (q, sent)) h = h

-- From an opened database, writes, deletes, flushes and loads in any order, with any table as the
-- result of each compaction, keep the queue and the signals matched: each table in the queue has
-- one flush that waits or is running, and a signal to load is there only while a flush is running,
-- alone, and for the file of the table in front.
pub new-Reachable-Matched :
    (h : Hashing) (clock : Clock) (sstable_files wal_files : List Artifact) (config : LsmliteConfig)
    (d : LsmliteInner) (t : System)
    → Open.new clock sstable_files wal_files config ≡ some d
    → Reachable h (opened d) t
    → Matched h t
new-Reachable-Matched h clock sstable_files wal_files config d t e r =
    let even = subst EvenBy e (new-EvenBy clock sstable_files wal_files config) in
    Reachable-Matched h (opened d) t r (record { counts = omega (arith, even); in_flight = refl })

-- When a flush is signalled in a state that an opened database comes to, the queue has a table in
-- front, so that the flush does not panic for want of one.
pub front_there :
    (h : Hashing) (clock : Clock) (sstable_files wal_files : List Artifact) (config : LsmliteConfig)
    (d : LsmliteInner) (t : System) (rest : List MemtableFlushSignal)
    → Open.new clock sstable_files wal_files config ≡ some d
    → Reachable h (opened d) t
    → t.db.memtable_channel ≡ flush ∷ rest
    → (head : MemtableInner) × (behind : List MemtableInner) × (t.db.immutable.table
        ≡ head ∷ behind)
front_there h clock sstable_files wal_files config d t rest e r there =
    let m = new-Reachable-Matched h clock sstable_files wal_files config d t e r in
    go t.db.immutable.table refl (omega (arith, m.counts, ap length there))
  where
    go :
        (ts : List MemtableInner)
        → t.db.immutable.table ≡ ts
        → 1 ≤ length ts
        → (head : MemtableInner) × (behind : List MemtableInner) × (t.db.immutable.table
            ≡ head ∷ behind)
    go [] q n = absurd (omega arith)
    go (x ∷ xs) q n = (x, xs, q)

-- When a file is signalled to be loaded in a state that an opened database comes to, it is the file of the table in front of
-- the queue, the one that the load takes out, and no other load is signalled.
pub loaded_is_front :
    (h : Hashing) (clock : Clock) (sstable_files wal_files : List Artifact) (config : LsmliteConfig)
    (d : LsmliteInner) (t : System) (rest : List CompactionSignal) (fd : Blob)
    → Open.new clock sstable_files wal_files config ≡ some d
    → Reachable h (opened d) t
    → t.signal ≡ load_sstable fd ∷ rest
    → (rest ≡ []) × (log : ℕ) × (Immutable.flush h t.db.immutable ≡ some (fd, log))
loaded_is_front h clock sstable_files wal_files config d t rest fd e r there =
    let m = new-Reachable-Matched h clock sstable_files wal_files config d t e r in
    let (busy, last, log, run) = loading h t rest fd there m in (last, log, run)
