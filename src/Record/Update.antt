-- ===== src/Record/Update.antt =====
-- The updates of memtable/record.rs: `update_from_record`, `overwrite_data` and
-- `update_data_to_tombstone`. A subtraction below zero is `none`: it panics where overflow is
-- checked, and no buffer reaches to the wrapped value.
use lsmlite.Base.{ℕ, ◌+◌, ◌-◌, Option, none, some, not, [], ◌∷◌, length, take, ◌>>=◌}
use lsmlite.Base.{leb, ◌==◌, if◌then◌else◌}
use lsmlite.Base.Bytes.{Blob, slice, write, resize}
use lsmlite.Util.{varint_size_from_len, encode_varint}
use lsmlite.Record.{Record, data_record, tombstone, record_type, get_value, copy_key}
use lsmlite.Disk.Encode.{data_log_header, tombstone_log_header}

unfoldable pub checked_sub : ℕ → ℕ → Option ℕ
checked_sub a b = if leb b a then some (a - b) else none

-- The branch in which the length of the log size changes: the key is copied out, and the log size,
-- the key's length and the key are written again. The result has the blob and the key's offset.
unfoldable pub move_key : Record → Blob → Blob → ℕ → ℕ → Option (Blob × ℕ)
move_key r blob log_size_varint log_size_varint_len key_varint_len = do
  temp_key_buffer ← slice blob r.key.0 r.key.1
  let (key_varint, _) = encode_varint r.key.1
  b₁ ← write blob 1 (take log_size_varint_len log_size_varint)
  b₂ ← write b₁ (1 + log_size_varint_len) (take key_varint_len key_varint)
  b₃ ← write b₂ (1 + log_size_varint_len + key_varint_len) temp_key_buffer
  some (b₃, 1 + log_size_varint_len + key_varint_len)

-- The other branch: the log size is overwritten in place.
unfoldable pub keep_key : Record → Blob → Blob → ℕ → Option (Blob × ℕ)
keep_key r blob log_size_varint log_size_varint_len = do
  b₁ ← write blob 1 (take log_size_varint_len log_size_varint)
  some (b₁, r.key.0)

-- The field `value` is left as it was.
unfoldable pub overwrite_data : Record → Blob → Option Record
overwrite_data r new_value = do
  let key_len = r.key.1
  let key_varint_len = varint_size_from_len key_len
  let (value_varint, value_varint_len) = encode_varint (length new_value)
  let log_size = value_varint_len + key_varint_len + key_len + length new_value
  let (log_size_varint, log_size_varint_len) = encode_varint log_size
  let buffer_size = log_size_varint_len + log_size + 1
  let blob = resize r.blob buffer_size
  key_len_start ← checked_sub r.key.0 key_varint_len
  current_log_size_varint_len ← checked_sub key_len_start 1
  (b₁, key_offset) ←
      if not (current_log_size_varint_len == log_size_varint_len)
      then move_key r blob log_size_varint log_size_varint_len key_varint_len
      else keep_key r blob log_size_varint log_size_varint_len
  let value_varint_offset = key_offset + key_len
  b₂ ← write b₁ value_varint_offset (take value_varint_len value_varint)
  b₃ ← write b₂ (value_varint_offset + value_varint_len) new_value
  b₄ ← write b₃ 0 (data_log_header ∷ [])
  some (record { blob = b₄; key = (key_offset, key_len); value = r.value })

unfoldable pub update_data_to_tombstone : Record → Option Record
update_data_to_tombstone r = do
  key ← copy_key r
  let (key_varint, key_varint_len) = encode_varint (length key)
  let log_size = key_varint_len + length key
  let (log_size_varint, log_size_varint_len) = encode_varint log_size
  let total_size = log_size + log_size_varint_len + 1
  b₁ ← write (resize r.blob total_size) 0 (tombstone_log_header ∷ [])
  b₂ ← write b₁ 1 (take log_size_varint_len log_size_varint)
  b₃ ← write b₂ (1 + log_size_varint_len) (take key_varint_len key_varint)
  b₄ ← write b₃ (1 + log_size_varint_len + key_varint_len) key
  some (record {
    blob = b₄;
    key = (1 + log_size_varint_len + key_varint_len, length key);
    value = none;
  })

-- A data record's `value().unwrap()` is there.
unfoldable pub update_from_record : Record → Record → Option Record
update_from_record r other = elim (record_type other) [
  | data_record ↦
      get_value other >>= λ v. elim v [ none ↦ none | some new_value ↦ overwrite_data r new_value ]
  | tombstone ↦ update_data_to_tombstone r
]
