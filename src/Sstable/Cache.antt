-- ===== src/Sstable/Cache.antt =====
-- `SSTableCache` of sstable/mod.rs: the open tables, the newest first. The locks make each
-- operation one step.
use lsmlite.Base.{ℕ, Option, some, List, [], ◌∷◌, length, ◌>>=◌}
use lsmlite.Base.Bytes.{Blob}
use lsmlite.Bloom.{Hashing}
use lsmlite.Disk.Read.{SearchResult, ok, disk_record_not_found, tombstone, io_error}
use lsmlite.Sstable
use lsmlite.Sstable.{Sstable, from_fd}

pub record SstableCache : Type 0 where
  pub cache : List Sstable
  pub compaction_rate : ℕ

unfoldable pub new : ℕ → SstableCache
new compaction_rate = record { cache = []; compaction_rate = compaction_rate }

-- The files, the newest first; one that does not open panics.
unfoldable pub from_restart : List Blob → ℕ → Option SstableCache
from_restart [] compaction_rate = some (new compaction_rate)
from_restart (fd ∷ disk_tables) compaction_rate = do
  read_table ← from_fd fd
  rest ← from_restart disk_tables compaction_rate
  some (record rest { cache = read_table ∷ rest.cache })

-- What the loop of `search` does with a table's answer: any error but a tombstone goes on.
unfoldable pub or_older : SearchResult → Option SearchResult → Option SearchResult
or_older (ok blob) older = some (ok blob)
or_older tombstone older = some disk_record_not_found
or_older disk_record_not_found older = older
or_older io_error older = older

-- A panic ends the search, in whichever table it happens.
unfoldable pub search_tables : Hashing → List Sstable → Blob → Option SearchResult
search_tables h [] key = some disk_record_not_found
search_tables h (table ∷ tables) key =
    let older = search_tables h tables key in
    Sstable.search h table key >>= λ answer. or_older answer older

unfoldable pub search : Hashing → SstableCache → Blob → Option SearchResult
search h c key = search_tables h c.cache key

unfoldable pub push : Sstable → SstableCache → SstableCache × ℕ
push table c = let cache = table ∷ c.cache in (record c { cache = cache }, length cache)

unfoldable pub replace_with_compact_table : Sstable → SstableCache → SstableCache
replace_with_compact_table new_table c = record c { cache = new_table ∷ [] }

unfoldable pub clone_tables : SstableCache → List Sstable
clone_tables c = c.cache
