-- ===== src/Restart/Examples.antt =====
-- Names of files, and a directory of three files.
use lsmlite.Base.{◌≡◌, ◌≤◌, refl, true, All, none, some, [], ◌∷◌, List, Bool}
use lsmlite.Base.Bytes.{Blob}
use lsmlite.Restart.{Artifact, wal_file, sstable_file, from_path, parse_ts, split_dots}
use lsmlite.Restart.{extension, same_bytes, starts_with, parse_digits, newest_first, oldest_first}
use lsmlite.Restart.{
  scan_directory, sort_out, sstable_artifact, wal_artifact, sort_by, place, no_later,
}
use lsmlite.Restart.{sstable_extension}
use lsmlite.Restart.Sorted.{Ordered, count_if, count_tables, count_logs, named, scanned_files}

-- "lsmlite.30.sstable", "lsmlite.wal.20.log" and "other.log"
abbrev table_name : Blob
table_name = 108 ∷ 115 ∷ 109 ∷ 108 ∷ 105 ∷ 116 ∷ 101 ∷ 46 ∷ 51 ∷ 48 ∷ 46 ∷ sstable_extension

abbrev log_name : Blob
log_name =
    108 ∷ 115 ∷ 109 ∷ 108 ∷ 105 ∷ 116 ∷ 101 ∷ 46 ∷ 119 ∷ 97 ∷ 108 ∷ 46 ∷ 50 ∷ 48 ∷ 46 ∷ 108 ∷ 111
    ∷ 103 ∷ []

abbrev other_name : Blob
other_name = 111 ∷ 116 ∷ 104 ∷ 101 ∷ 114 ∷ 46 ∷ 108 ∷ 111 ∷ 103 ∷ []

from_path_table : from_path table_name ≡ some sstable_file
unfolding from_path extension split_dots same_bytes
from_path_table = refl

from_path_log : from_path log_name ≡ some wal_file
unfolding from_path extension split_dots same_bytes starts_with
from_path_log = refl

from_path_other : from_path other_name ≡ none
unfolding from_path extension split_dots same_bytes starts_with
from_path_other = refl

abbrev three : List (Blob × Blob)
three = (log_name, 1 ∷ []) ∷ ((other_name, []) ∷ ((table_name, 2 ∷ []) ∷ []))

scan_three :
    scan_directory three
    ≡ some (record { file = 2 ∷ []; ts = 30 } ∷ [], record { file = 1 ∷ []; ts = 20 } ∷ [])
unfolding scan_directory sort_out from_path extension split_dots same_bytes starts_with wal_artifact
    sstable_artifact parse_ts parse_digits newest_first oldest_first sort_by place no_later
scan_three = refl

times_there : All (λ e. named e ≡ true) three
unfolding from_path extension split_dots same_bytes starts_with wal_artifact sstable_artifact
    parse_ts parse_digits
times_there = (refl, (refl, (refl, tt)))

scanned_files_example :
    (tables : List Artifact) × (logs : List Artifact) × (scan_directory three ≡ some (tables, logs))
    × Ordered (λ a b. b.ts ≤ a.ts) tables
    × Ordered (λ a b. a.ts ≤ b.ts) logs
    × ((p : Artifact → Bool)
        → (count_if p tables ≡ count_tables p three) × (count_if p logs ≡ count_logs p three))
scanned_files_example = scanned_files three times_there
