-- ===== src/Sstable/Order.antt =====
-- The order in which `SSTableCache` of sstable/mod.rs asks its tables.
use lsmlite.Base.{◌≡◌, refl, ◌⊎◌, inl, inr, Option, some, List, [], ◌∷◌, ◌++◌, All}
use lsmlite.Base.Bytes.{Blob}
use lsmlite.Bloom.{Hashing}
use lsmlite.Disk.Read.{SearchResult, ok, disk_record_not_found, tombstone, io_error}
use lsmlite.Sstable
use lsmlite.Sstable.{Sstable}
use lsmlite.Sstable.Cache.{SstableCache, or_older, search_tables, search, push}

-- The table does not have the key, or cannot be read.
abbrev pub PassesOn : Hashing → Blob → Sstable → Type 0
PassesOn h key table =
    (Sstable.search h table key ≡ some disk_record_not_found)
    ⊎ (Sstable.search h table key ≡ some io_error)

-- What the client sees of a table's own answer.
abbrev pub shown : SearchResult → SearchResult
shown (ok blob) = ok blob
shown disk_record_not_found = disk_record_not_found
shown tombstone = disk_record_not_found
shown io_error = disk_record_not_found

pub data Settles : SearchResult → Type 0 where
  settles_ok : (blob : Blob) → Settles (ok blob)
  settles_tombstone : Settles tombstone

or_older-Settles :
    (r : SearchResult) (older : Option SearchResult) → Settles r → or_older r older ≡ some (shown r)
unfolding or_older
or_older-Settles (ok blob) older k = refl
or_older-Settles tombstone older k = refl
or_older-Settles disk_record_not_found older k = elim k [ ]
or_older-Settles io_error older k = elim k [ ]

search_tables-skip :
    (h : Hashing) (xs ys : List Sstable) (key : Blob)
    → All (PassesOn h key) xs
    → search_tables h (xs ++ ys) key ≡ search_tables h ys key
unfolding search_tables or_older
search_tables-skip h [] ys key p = refl
search_tables-skip h (x ∷ xs) ys key p = elim p.0 [
  | inl e ↦ rw (e, search_tables-skip h xs ys key p.1)
  | inr e ↦ rw (e, search_tables-skip h xs ys key p.1)
]

unfoldable pub push_all : List Sstable → SstableCache → SstableCache
push_all [] c = c
push_all (t ∷ ts) c = (push t (push_all ts c)).0

push_all_lem : (ts : List Sstable) (c : SstableCache) → (push_all ts c).cache ≡ ts ++ c.cache
unfolding push_all push
push_all_lem [] c = refl
push_all_lem (t ∷ ts) c = rw (push_all_lem ts c)

-- A value or a tombstone in a pushed table settles the search, if each table pushed after it does
-- not have the key or cannot be read: the older tables are not asked, and the client sees the
-- value, or that there is no record.
pub search-push :
    (h : Hashing) (c : SstableCache) (newer : List Sstable) (table : Sstable) (key : Blob)
    (r : SearchResult)
    → Sstable.search h table key ≡ some r
    → Settles r
    → All (PassesOn h key) newer
    → search h (push_all newer (push table c).0) key ≡ some (shown r)
unfolding search push search_tables
search-push h c newer table key r e k p =
    rw (push_all_lem newer (push table c).0, search_tables-skip h newer (table ∷ c.cache) key p, e)
      (or_older-Settles r _ k)
