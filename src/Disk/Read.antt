-- ===== src/Disk/Read.antt =====
-- The reads of disk/mod.rs. A file is its bytes; `none` is a panic, and an `Err` is a value.
use lsmlite.Base.{ℕ, ◌+◌, ◌-◌, ◌%◌, ◌^◌, Option, none, some, Bool, ◌++◌}
use lsmlite.Base.{length, get_elem?, take, drop, ◌==◌, ltb, if◌then◌else◌, ◌>>=◌}
use lsmlite.Base.Bytes.{Blob, slice, resize}
use lsmlite.Util.{decode_varint, varint_size_from_len}
use lsmlite.Disk.Encode.{tombstone_log_header}

-- error.rs: `Result<Blob, SSTableError>`, less `InvalidSSTableFile`, which only opening a file gives.
pub data SearchResult : Type 0 where
  ok : Blob → SearchResult
  disk_record_not_found : SearchResult
  tombstone : SearchResult
  io_error : SearchResult

-- constants/mod.rs
abbrev pub record_read_buffer_size : ℕ
record_read_buffer_size = 4096

unfoldable pub read_exact : Blob → ℕ → ℕ → (Blob → Option SearchResult) → Option SearchResult
read_exact file offset n next = elim (slice file offset n) [
  | none ↦ some io_error
  | some bytes ↦ next bytes
]

-- The rest of a long value is read at the file's position, which is behind the first read.
unfoldable pub read_oversized_record_from_disk : Blob → ℕ → ℕ → Blob → Option SearchResult
read_oversized_record_from_disk file position offset buffer = do
  (blob_size, bytes_walked) ← decode_varint buffer offset
  let first_part = drop (offset + bytes_walked) buffer
  if ltb blob_size (length first_part)
      then none
      else read_exact file position (blob_size - length first_part)
          (λ overflow. some (ok (first_part ++ overflow)))

-- The size of the log is taken in 64-bit words, as in the source.
unfoldable pub exceeds_buffer : ℕ → ℕ → ℕ → Bool
exceeds_buffer buffer_offset log_size total_key_bytes =
    let left = (log_size + 2 ^ 64 - total_key_bytes) % 2 ^ 64 in
    ltb record_read_buffer_size ((buffer_offset + left) % 2 ^ 64)

-- The branch of a data record.
unfoldable pub read_data : Blob → ℕ → Blob → Blob → Option SearchResult
read_data file position buffer key = do
  (log_size, log_bytes_walked) ← decode_varint buffer 1
  let total_key_bytes = varint_size_from_len (length key) + length key
  let buffer_offset = 1 + log_bytes_walked + total_key_bytes
  if exceeds_buffer buffer_offset log_size total_key_bytes
      then read_oversized_record_from_disk file position buffer_offset buffer
      else (decode_varint buffer buffer_offset >>= λ (blob_size, bytes_walked).
          slice buffer (buffer_offset + bytes_walked) blob_size >>= λ blob. some (ok blob))

-- A read takes what is there, and leaves zeros behind it.
unfoldable pub read_data_block : Blob → ℕ → Blob → Option SearchResult
read_data_block file offset key = do
  let buffer = resize (drop offset file) record_read_buffer_size
  let position = offset + length (take record_read_buffer_size (drop offset file))
  header ← get_elem? buffer 0
  if header == tombstone_log_header then some tombstone else read_data file position buffer key
