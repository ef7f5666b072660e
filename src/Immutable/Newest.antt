-- ===== src/Immutable/Newest.antt =====
-- The order in which memtable/immutable.rs reads its tables.
use lsmlite.Base.{All-append}
use lsmlite.Base.{
  ◌≡◌, refl, ap, ◌>>=◌, Option, some, List, [], ◌∷◌, ◌++◌, append_assoc, append-nil, All,
}
use lsmlite.Base.Bytes.{Blob}
use lsmlite.Memtable.{MemtableQuery, found, deleted, missing}
use lsmlite.Memtable.Table
use lsmlite.Memtable.Table.{MemtableInner}
use lsmlite.Immutable.{ImmutableMemtable, new_empty, insert, or_older, newest_first}
use lsmlite.Immutable.{get_loop, get}

unfoldable pub insert_tables : List MemtableInner → ImmutableMemtable → ImmutableMemtable
insert_tables [] m = m
insert_tables (t ∷ ts) m = insert_tables ts (insert t m)

insert_tables_lem :
    (ts : List MemtableInner) (m : ImmutableMemtable) → (insert_tables ts m).table ≡ m.table ++ ts
unfolding insert_tables insert
insert_tables_lem [] m = rw (append-nil m.table)
insert_tables_lem (t ∷ ts) m =
    rw (insert_tables_lem ts (insert t m), append_assoc m.table (t ∷ []) ts)

newest_first-append :
    (xs ys : List MemtableInner) → newest_first (xs ++ ys) ≡ newest_first ys ++ newest_first xs
unfolding newest_first
newest_first-append [] ys = rw (append-nil (newest_first ys))
newest_first-append (x ∷ xs) ys = rw (newest_first-append xs ys, append_assoc)

abbrev pub Misses : Blob → MemtableInner → Type 0
Misses key t = Table.get t key ≡ some missing

newest_first-All :
    (P : MemtableInner → Type 0) (xs : List MemtableInner) → All P xs → All P (newest_first xs)
unfolding newest_first
newest_first-All P [] p = tt
newest_first-All P (x ∷ xs) p =
    All-append P (newest_first xs) (x ∷ []) (newest_first-All P xs p.1) (p.0, tt)

get_loop-skip :
    (xs ys : List MemtableInner) (key : Blob)
    → All (Misses key) xs
    → get_loop (xs ++ ys) key ≡ get_loop ys key
unfolding get_loop or_older
get_loop-skip [] ys key p = refl
get_loop-skip (x ∷ xs) ys key p = rw (p.0, get_loop-skip xs ys key p.1)

-- A table that comes to the queue answers first.
pub get-insert :
    (t : MemtableInner) (m : ImmutableMemtable) (key : Blob)
    → get (insert t m) key ≡ (Table.get t key >>= λ answer. or_older answer (get m key))
unfolding get insert get_loop newest_first
get-insert t m key = ap (λ ts. get_loop ts key) (newest_first-append m.table (t ∷ []))

-- The reading that a table gives, if it knows the key.
pub data Knows : MemtableQuery → Type 0 where
  knows_data : (blob : Blob) → Knows (found blob)
  knows_tombstone : Knows deleted

or_older-Knows :
    (q : MemtableQuery) (older : Option MemtableQuery) → Knows q → or_older q older ≡ some q
unfolding or_older
or_older-Knows (found blob) older k = refl
or_older-Knows deleted older k = refl
or_older-Knows missing older k = elim k [ ]

-- Of the tables inserted one after the other, the last one that has the key, as data or as a
-- tombstone, gives the answer of `get`, whatever the tables before it hold.
pub get-insert_tables :
    (older newer : List MemtableInner) (t : MemtableInner) (key : Blob) (q : MemtableQuery)
    → Table.get t key ≡ some q
    → Knows q
    → All (Misses key) newer
    → get (insert_tables (older ++ (t ∷ newer)) new_empty) key ≡ some q
unfolding get new_empty newest_first get_loop
get-insert_tables older newer t key q e k miss =
    rw
      (
        insert_tables_lem (older ++ (t ∷ newer)) new_empty,
        newest_first-append older (t ∷ newer),
        append_assoc (newest_first newer) (t ∷ []) (newest_first older),
        get_loop-skip (newest_first newer) (t ∷ newest_first older) key
            (newest_first-All (Misses key) newer miss),
        e,
      )
      (or_older-Knows q _ k)
