-- ===== src/Restart.antt =====
-- restart/mod.rs: the files of a database in a directory, with the time in their names, in the
-- order in which they are read. A name is its bytes (UTF-8), and a file is the list of its bytes.
pub mod Sorted
mod Examples
use lsmlite.Base.{
  ℕ, zero, suc, ◌+◌, ◌-◌, ◌*◌, ◌^◌, Option, none, some, Bool, true, false, ◌&&◌, List, [], ◌∷◌,
}
use lsmlite.Base.{◌++◌, length, get_elem?, ltb, leb, ◌==◌, if◌then◌else◌, ◌>>=◌}
use lsmlite.Base.Bytes.{Blob}

pub data DatabaseFile : Type 0 where
  wal_file : DatabaseFile
  sstable_file : DatabaseFile

-- `split('.')`
unfoldable pub split_dots : Blob → List Blob
split_dots [] = [] ∷ []
split_dots (x ∷ xs) =
    let rest = split_dots xs in
    if x == 46
    then [] ∷ rest
    else elim rest [ [] ↦ (x ∷ []) ∷ [] | part ∷ parts ↦ (x ∷ part) ∷ parts ]

abbrev last_part : List Blob → Option Blob
last_part [] = none
last_part (p ∷ []) = some p
last_part (p ∷ (q ∷ qs)) = last_part (q ∷ qs)

-- `Path::extension`: what stands behind the last dot, unless only a first dot is there.
unfoldable pub extension : Blob → Option Blob
extension name = elim (split_dots name) [
  | [] ↦ none
  | first ∷ rest ↦ if (length rest == 1) && (length first == 0) then none else last_part rest
]

unfoldable pub same_bytes : Blob → Blob → Bool
same_bytes [] [] = true
same_bytes [] (y ∷ ys) = false
same_bytes (x ∷ xs) [] = false
same_bytes (x ∷ xs) (y ∷ ys) = (x == y) && same_bytes xs ys

unfoldable pub starts_with : Blob → Blob → Bool
starts_with xs [] = true
starts_with [] (y ∷ ys) = false
starts_with (x ∷ xs) (y ∷ ys) = (x == y) && starts_with xs ys

-- "sstable", "log" and "lsmlite.wal"
abbrev pub sstable_extension : Blob
sstable_extension = 115 ∷ 115 ∷ 116 ∷ 97 ∷ 98 ∷ 108 ∷ 101 ∷ []

abbrev pub log_extension : Blob
log_extension = 108 ∷ 111 ∷ 103 ∷ []

abbrev pub wal_prefix : Blob
wal_prefix = 108 ∷ 115 ∷ 109 ∷ 108 ∷ 105 ∷ 116 ∷ 101 ∷ 46 ∷ 119 ∷ 97 ∷ 108 ∷ []

unfoldable pub from_path : Blob → Option DatabaseFile
from_path name = extension name >>= λ ext.
    if same_bytes ext sstable_extension
    then some sstable_file
    else (if same_bytes ext log_extension && starts_with name wal_prefix
        then some wal_file
        else none)

-- `str::parse::<u128>`: decimal digits, one at least, with a plus sign or none before them.
unfoldable pub parse_digits : ℕ → Blob → Option ℕ
parse_digits n [] = some n
parse_digits n (x ∷ xs) =
    let rest = parse_digits (10 * n + (x - 48)) xs in
    if leb 48 x && leb x 57
    then (if ltb (10 * n + (x - 48)) (2 ^ 128) then rest else none)
    else none

unfoldable pub parse_ts : Blob → Option ℕ
parse_ts [] = none
parse_ts (x ∷ xs) =
    if x == 43
    then elim xs [ [] ↦ none | y ∷ ys ↦ parse_digits 0 (y ∷ ys) ]
    else parse_digits 0 (x ∷ xs)

-- `WalArtifact` and `SSTableArtifact`, with the file in the place of its name.
pub record Artifact : Type 0 where
  pub file : Blob
  pub ts : ℕ

-- A name without a time in its place panics.
unfoldable pub wal_artifact : Blob → Blob → Option Artifact
wal_artifact name file = do
  part ← get_elem? (split_dots name) 2
  ts ← parse_ts part
  some (record { file = file; ts = ts })

unfoldable pub sstable_artifact : Blob → Blob → Option Artifact
sstable_artifact name file = do
  part ← get_elem? (split_dots name) 1
  ts ← parse_ts part
  some (record { file = file; ts = ts })

-- `Ord` on both kinds: by the time.
unfoldable pub no_later : Artifact → Artifact → Bool
no_later a b = leb a.ts b.ts

-- The standard library's sorts are stable: an element goes before the first that comes after it.
unfoldable pub place : (Artifact → Artifact → Bool) → Artifact → List Artifact → List Artifact
place before a [] = a ∷ []
place before a (b ∷ bs) =
    let rest = place before a bs in if before a b then a ∷ (b ∷ bs) else b ∷ rest

unfoldable pub sort_by : (Artifact → Artifact → Bool) → List Artifact → List Artifact
sort_by before [] = []
sort_by before (a ∷ files) = place before a (sort_by before files)

unfoldable pub oldest_first : List Artifact → List Artifact
oldest_first files = sort_by no_later files

-- `sort_by(|a, b| b.cmp(a))`
unfoldable pub newest_first : List Artifact → List Artifact
newest_first files = sort_by (λ a b. no_later b a) files

-- The loop over the directory's entries, each a name and a file. The lists are in the order of the
-- entries.
unfoldable pub sort_out : List (Blob × Blob) → Option (List Artifact × List Artifact)
sort_out [] = some ([], [])
sort_out ((name, file) ∷ entries) =
    let rest = sort_out entries in
    elim (from_path name) [
      | none ↦ rest
      | some kind ↦ elim kind [
        | wal_file ↦ wal_artifact name file >>= λ a. rest >>= λ r. some (r.0, a ∷ r.1)
        | sstable_file ↦ sstable_artifact name file >>= λ a. rest >>= λ r. some (a ∷ r.0, r.1)
      ]
    ]

unfoldable pub scan_directory : List (Blob × Blob) → Option (List Artifact × List Artifact)
scan_directory entries = do
  (sstable_files, wal_files) ← sort_out entries
  some (newest_first sstable_files, oldest_first wal_files)
