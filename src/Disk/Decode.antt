-- ===== src/Disk/Decode.antt =====
-- disk/decode.rs. The offset that the source advances through `&mut` is passed on: a result is the
-- record and the new offset. The outer `none` is a panic; `invalid` is the source's `None`, for an
-- unknown header.
use lsmlite.Base.{ℕ, ◌+◌, ◌-◌, Option, none, some, get_elem?, ◌==◌, if◌then◌else◌, ◌>>=◌}
use lsmlite.Base.Bytes.{Blob, slice}
use lsmlite.Util.{decode_varint}
use lsmlite.Record.{Record}
use lsmlite.Disk.Encode.{data_log_header, tombstone_log_header}

-- `offset` stands behind the header.
unfoldable pub decode_insert_record : Blob → ℕ → Option (Record × ℕ)
decode_insert_record buffer offset = do
  let start_offset = offset - 1
  (log_size, log_walked) ← decode_varint buffer offset
  let start = offset + log_walked
  (key_length, key_walked) ← decode_varint buffer start
  let key_start = start + key_walked
  let key_end = key_start + key_length
  (data_len, data_walked) ← decode_varint buffer key_end
  let value_start = key_end + data_walked
  let finish = value_start + data_len
  blob ← slice buffer start_offset (finish - start_offset)
  some (
    record {
      blob = blob;
      key = (key_start - start_offset, key_length);
      value = some (value_start - start_offset, data_len);
    },
    finish,
  )

unfoldable pub decode_tombstone_record : Blob → ℕ → Option (Record × ℕ)
decode_tombstone_record buffer offset = do
  let start_offset = offset - 1
  (log_size, log_walked) ← decode_varint buffer offset
  let start = offset + log_walked
  (key_length, key_walked) ← decode_varint buffer start
  let key_start = start + key_walked
  let finish = key_start + key_length
  blob ← slice buffer start_offset (finish - start_offset)
  some (record { blob = blob; key = (key_start - start_offset, key_length); value = none }, finish)

-- What `decode_disk_record` leaves in the offset, and the record if the header is known.
unfoldable pub decode_disk_record : Blob → ℕ → Option (Option Record × ℕ)
decode_disk_record buffer offset = do
  header ← get_elem? buffer offset
  let insert = λ (found : Record × ℕ). some (some found.0, found.1)
  if header == data_log_header
      then (decode_insert_record buffer (offset + 1) >>= insert)
      else if header == tombstone_log_header
      then (decode_tombstone_record buffer (offset + 1) >>= insert)
      else some (none, offset + 1)
