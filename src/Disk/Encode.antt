-- ===== src/Disk/Encode.antt =====
-- disk/encode.rs: a record is written piece by piece into a buffer of its final size.
use lsmlite.Base.{ℕ, ◌+◌, Option, none, some, [], ◌∷◌, length, take, ◌>>=◌}
use lsmlite.Base.Bytes.{Blob, write}
use lsmlite.Util.{make_blob_buffer, encode_varint}
use lsmlite.Record.{Record}

-- constants/mod.rs
abbrev pub data_log_header : ℕ
data_log_header = 0

abbrev pub tombstone_log_header : ℕ
tombstone_log_header = 1

-- `buffer[offset..offset + piece.len()].copy_from_slice(&piece); offset += piece.len();`
unfoldable pub put : Blob × ℕ → Blob → Option (Blob × ℕ)
put (buffer, offset) piece = do
  buffer' ← write buffer offset piece
  some (buffer', offset + length piece)

unfoldable pub encode_data_record : Blob → Blob → Option Record
unfolding put
encode_data_record key value = do
  let (key_varint, key_varint_len) = encode_varint (length key)
  let (value_varint, value_varint_len) = encode_varint (length value)
  let log_size = key_varint_len + value_varint_len + length key + length value
  let (log_size_varint, log_size_varint_len) = encode_varint log_size
  let buffer_size = log_size_varint_len + log_size + 1
  b₀ ← put (make_blob_buffer buffer_size, 0) (data_log_header ∷ [])
  b₁ ← put b₀ (take log_size_varint_len log_size_varint)
  b₂ ← put b₁ (take key_varint_len key_varint)
  b₃ ← put b₂ key
  b₄ ← put b₃ (take value_varint_len value_varint)
  b₅ ← put b₄ value
  some (record { blob = b₅.0; key = (b₂.1, length key); value = some (b₄.1, length value) })

unfoldable pub encode_tombstone_record : Blob → Option Record
unfolding put
encode_tombstone_record key = do
  let (key_varint, key_varint_len) = encode_varint (length key)
  let log_size = key_varint_len + length key
  let (log_size_varint, log_size_varint_len) = encode_varint log_size
  let buffer_size = log_size_varint_len + log_size + 1
  b₀ ← put (make_blob_buffer buffer_size, 0) (tombstone_log_header ∷ [])
  b₁ ← put b₀ (take log_size_varint_len log_size_varint)
  b₂ ← put b₁ (take key_varint_len key_varint)
  b₃ ← put b₂ key
  some (record { blob = b₃.0; key = (b₂.1, length key); value = none })
