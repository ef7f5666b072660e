-- ===== src/Record.antt =====
-- memtable/record.rs: a record holds its encoded bytes, and the ranges of the key and the value
-- in them. A slice out of range panics, which is `none`.
pub mod Update
pub mod Buffers
pub mod Overwrite
pub mod Shrunk
pub mod Reads
pub mod Tombstone
pub mod Revive
mod Examples
use Prim.Native.Nat.{Ordering}
use lsmlite.Base.{ℕ, Option, none, some, length, ◌>>=◌}
use lsmlite.Base.Bytes.{Blob, slice}
use lsmlite.Base.Key.{cmp}

pub data RecordType : Type 0 where
  data_record tombstone : RecordType

pub record Record : Type 0 where
  pub blob : Blob
  pub key : ℕ × ℕ
  pub value : Option (ℕ × ℕ)

unfoldable pub record_type : Record → RecordType
record_type r = elim r.value [ some _ ↦ data_record | none ↦ tombstone ]

-- `fn key`; `copy_key` returns the same bytes as a vector.
unfoldable pub get_key : Record → Option Blob
get_key r = slice r.blob r.key.0 r.key.1

-- `fn value`: `some none` is a tombstone, `none` a panic.
unfoldable pub get_value : Record → Option (Option Blob)
get_value r = elim r.value [
  | none ↦ some none
  | some (offset, len) ↦ slice r.blob offset len >>= λ bytes. some (some bytes)
]

unfoldable pub copy_value : Record → Option (Option Blob)
copy_value r = elim r.value [
  | none ↦ some none
  | some (offset, len) ↦ slice r.blob offset len >>= λ bytes. some (some bytes)
]

unfoldable pub copy_key : Record → Option Blob
copy_key r = slice r.blob r.key.0 r.key.1

-- `copy_record` clones the blob, `take_blob` and `From<Record>` move it out.
unfoldable pub copy_record : Record → Blob
copy_record r = r.blob

unfoldable pub size : Record → ℕ
size r = length r.blob

unfoldable pub cmp_key : Record → Record → Option Ordering
cmp_key r other = do a ← get_key r; b ← get_key other; some (cmp a b)
