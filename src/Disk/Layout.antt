-- ===== src/Disk/Layout.antt =====
-- The bytes that disk/encode.rs produces, as one list, and where the key and the value lie.
use lsmlite.Base.{
  ◌^◌, ◌<◌, replicate, ◌≤◌, ℕ, ◌+◌, ◌≡◌, refl, ap, arith, some, none, Option, [], ◌∷◌, ◌++◌,
}
use lsmlite.Base.{length, length-append, length-replicate, append-nil}
use lsmlite.Base.Bytes.{
  slice, slice-append, to_be_bytes, from_be_bytes, length-to_be_bytes, from_be_bytes-to_be_bytes,
  Blob, write_next,
}
use lsmlite.Util.{encode_varint, IsUsize, make_blob_buffer}
use lsmlite.Util.Varint.{varint}
use lsmlite.Record.{Record}
use lsmlite.Disk.Encode.{put}

unfoldable pub data_log_size : Blob → Blob → ℕ
data_log_size key value =
    (encode_varint (length key)).1 + (encode_varint (length value)).1 + length key + length value

unfoldable pub data_bytes : Blob → Blob → Blob
data_bytes key value =
    (0 ∷ varint (data_log_size key value))
    ++ (varint (length key) ++ (key ++ (varint (length value) ++ value)))

unfoldable pub data_layout : Blob → Blob → Record
data_layout key value =
    let key_start =
      1 + (encode_varint (data_log_size key value)).1 + (encode_varint (length key)).1 in
    record {
      blob = data_bytes key value;
      key = (key_start, length key);
      value = some (key_start + length key + (encode_varint (length value)).1, length value);
    }

unfoldable pub tombstone_log_size : Blob → ℕ
tombstone_log_size key = (encode_varint (length key)).1 + length key

unfoldable pub tombstone_bytes : Blob → Blob
tombstone_bytes key = (1 ∷ varint (tombstone_log_size key)) ++ (varint (length key) ++ key)

unfoldable pub tombstone_layout : Blob → Record
tombstone_layout key = record {
  blob = tombstone_bytes key;
  key =
      (1 + (encode_varint (tombstone_log_size key)).1 + (encode_varint (length key)).1, length key);
  value = none;
}

-- What a record stands for: a write of a key, or a delete.
pub data Entry : Type 0 where
  data_entry : Blob → Blob → Entry
  tombstone_entry : Blob → Entry

unfoldable pub bytes : Entry → Blob
bytes (data_entry key value) = data_bytes key value
bytes (tombstone_entry key) = tombstone_bytes key

unfoldable pub layout : Entry → Record
layout (data_entry key value) = data_layout key value
layout (tombstone_entry key) = tombstone_layout key

-- The size that the record's header holds is a `usize`.
abbrev pub Fits : Entry → Type 0
Fits (data_entry key value) = IsUsize (data_log_size key value)
Fits (tombstone_entry key) = IsUsize (tombstone_log_size key)

abbrev pub entry_key : Entry → Blob
entry_key (data_entry key value) = key
entry_key (tombstone_entry key) = key

abbrev pub entry_value : Entry → Option Blob
entry_value (data_entry key value) = some value
entry_value (tombstone_entry key) = none

-- A buffer whose bytes up to the offset are `done`, with `room` more behind.
abbrev pub Filled : Blob × ℕ → Blob → ℕ → Type 0
Filled b done room =
    (garbage : Blob) × (b ≡ (done ++ garbage, length done)) × (length garbage ≡ room)

pub put-Filled :
    (b : Blob × ℕ) (done piece : Blob) (room room' : ℕ)
    → Filled b done room
    → room ≡ length piece + room'
    → (b' : Blob × ℕ) × (put b piece ≡ some b') × Filled b' (done ++ piece) room'
unfolding put
put-Filled b done piece room room' (garbage, e, len) fits =
    let (rest, w, l) = write_next done garbage piece (length done) refl (omega arith) in
    (
      ((done ++ piece) ++ rest, length (done ++ piece)),
      rw (e, w) (ground (arith, length-append done piece)),
      (rest, refl, omega arith),
    )

pub Filled-end : (b : Blob × ℕ) (done : Blob) → Filled b done 0 → b ≡ (done, length done)
Filled-end b done ([], e, len) = rw append-nil at e
Filled-end b done (x ∷ xs, e, len) = absurd (omega arith)

pub Filled-offset : (b : Blob × ℕ) (done : Blob) (room : ℕ) → Filled b done room → b.1 ≡ length done
Filled-offset b done room (g, e, len) = ap (λ (p : Blob × ℕ). p.1) e

pub Filled-start : (size : ℕ) → Filled (make_blob_buffer size, 0) [] size
unfolding make_blob_buffer
Filled-start size = (_, refl, length-replicate size 0)

pub length-bytes_pos : (e : Entry) → 1 ≤ length (bytes e)
unfolding bytes data_bytes tombstone_bytes
length-bytes_pos (data_entry key value) = omega arith
length-bytes_pos (tombstone_entry key) = omega arith

pub Filled-zeros : (size : ℕ) → Filled (replicate size 0, 0) [] size
Filled-zeros size = (_, refl, length-replicate size 0)

-- A big-endian word is read back from where it stands in a buffer.
pub slice_word :
    (pre post : Blob) (w v offset : ℕ)
    → v < 256 ^ w
    → offset ≡ length pre
    → (bytes : Blob) × (slice (pre ++ (to_be_bytes w v ++ post)) offset w ≡ some bytes)
      × (from_be_bytes bytes ≡ v)
slice_word pre post w v offset h p =
    let l = length-to_be_bytes w v in
    (
      to_be_bytes w v,
      slice-append pre (to_be_bytes w v) post offset w p (omega arith),
      from_be_bytes-to_be_bytes w v h,
    )
