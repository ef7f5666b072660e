-- ===== src/Immutable.antt =====
-- memtable/immutable.rs: the full tables that wait for their flush, the oldest first.
pub mod Newest
mod Examples
use lsmlite.Base.{ℕ, Option, none, some, List, [], ◌∷◌, ◌++◌, ◌>>=◌}
use lsmlite.Base.Bytes.{Blob}
use lsmlite.Bloom.{Hashing}
use lsmlite.Memtable.{MemtableQuery, found, deleted, missing}
use lsmlite.Memtable.Table
use lsmlite.Memtable.Table.{MemtableInner}
use lsmlite.Sstable.Writer.{write_sstable}

pub record ImmutableMemtable : Type 0 where
  pub table : List MemtableInner

unfoldable pub new_empty : ImmutableMemtable
new_empty = record { table = [] }

unfoldable pub pop : ImmutableMemtable → ImmutableMemtable
pop m = record { table = elim m.table [ [] ↦ [] | head ∷ rest ↦ rest ] }

unfoldable pub insert : MemtableInner → ImmutableMemtable → ImmutableMemtable
insert t m = record { table = m.table ++ (t ∷ []) }

-- What the loop of `get` does with a table's answer.
unfoldable pub or_older : MemtableQuery → Option MemtableQuery → Option MemtableQuery
or_older (found blob) older = some (found blob)
or_older deleted older = some deleted
or_older missing older = older

-- `iter().rev()`.
unfoldable pub newest_first : List MemtableInner → List MemtableInner
newest_first [] = []
newest_first (t ∷ ts) = newest_first ts ++ (t ∷ [])

unfoldable pub get_loop : List MemtableInner → Blob → Option MemtableQuery
get_loop [] key = some missing
get_loop (t ∷ ts) key =
    let older = get_loop ts key in Table.get t key >>= λ answer. or_older answer older

unfoldable pub get : ImmutableMemtable → Blob → Option MemtableQuery
get m key = get_loop (newest_first m.table) key

-- The file that `flush` writes, and the name of the log that it removes. No table panics.
unfoldable pub flush : Hashing → ImmutableMemtable → Option (Blob × ℕ)
flush h m = elim m.table [
  | [] ↦ none
  | head ∷ rest ↦ write_sstable h head.tree >>= λ fd. some (fd, head.wal.filename)
]
