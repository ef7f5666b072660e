-- ===== src/Disk/RoundTrip.antt =====
-- disk/decode.rs on what disk/encode.rs wrote.
use lsmlite.Base.{ℕ, ◌+◌, ◌-◌, ◌≤◌, ◌≡◌, refl, sym, ap, ◌∙◌, arith, some, none, [], ◌∷◌, ◌++◌}
use lsmlite.Base.{length, length-append, append_assoc, append-nil, get_elem?}
use lsmlite.Base.{get_elem?-append_length}
use lsmlite.Base.Bytes.{Blob, slice, slice-append}
use lsmlite.Util.{encode_varint, IsUsize, decode_varint}
use lsmlite.Util.Varint.{varint, length-varint, decode_varint-encode_varint}
use lsmlite.Disk.Decode.{decode_insert_record, decode_tombstone_record, decode_disk_record}
use lsmlite.Disk.Layout.{data_log_size, data_bytes, data_layout}
use lsmlite.Disk.Layout.{tombstone_log_size, tombstone_bytes, tombstone_layout}
use lsmlite.Disk.Layout.{Entry, data_entry, tombstone_entry, bytes, layout, Fits}
use lsmlite.Disk.Writes.{with_value, no_value}

module _ (buffer : Blob) (pre post : Blob) (offset : ℕ) (at : offset ≡ length pre) where
  pub reads_varint :
      (v : ℕ)
      → IsUsize v
      → buffer ≡ pre ++ (varint v ++ post)
      → decode_varint buffer offset ≡ some (v, (encode_varint v).1)
  reads_varint v h e = rw e (decode_varint-encode_varint pre post v offset h at)

  reads_slice :
      (mid : Blob) (len : ℕ)
      → len ≡ length mid
      → buffer ≡ pre ++ (mid ++ post)
      → slice buffer offset len ≡ some mid
  reads_slice mid len h e = rw e (slice-append pre mid post offset len at h)

  reads_byte : (b : ℕ) → buffer ≡ pre ++ (b ∷ post) → get_elem? buffer offset ≡ some b
  reads_byte b e = rw (e, at) (get_elem?-append_length pre b post)

insert_reads :
    (buffer : Blob) (o log a klen b vlen c : ℕ) (blob : Blob)
    → decode_varint buffer o ≡ some (log, a)
    → decode_varint buffer (o + a) ≡ some (klen, b)
    → decode_varint buffer (o + a + b + klen) ≡ some (vlen, c)
    → slice buffer (o - 1) (o + a + b + klen + c + vlen - (o - 1)) ≡ some blob
    → decode_insert_record buffer o
      ≡ some (
        with_value blob (o + a + b - (o - 1)) klen (o + a + b + klen + c - (o - 1)) vlen,
        o + a + b + klen + c + vlen,
      )
unfolding decode_insert_record
insert_reads buffer o log a klen b vlen c blob e₁ e₂ e₃ e₄ = rw (e₁, e₂, e₃, e₄)

tombstone_reads :
    (buffer : Blob) (o log a klen b : ℕ) (blob : Blob)
    → decode_varint buffer o ≡ some (log, a)
    → decode_varint buffer (o + a) ≡ some (klen, b)
    → slice buffer (o - 1) (o + a + b + klen - (o - 1)) ≡ some blob
    → decode_tombstone_record buffer o
      ≡ some (no_value blob (o + a + b - (o - 1)) klen, o + a + b + klen)
unfolding decode_tombstone_record
tombstone_reads buffer o log a klen b blob e₁ e₂ e₃ = rw (e₁, e₂, e₃)

pub ruleset lengths = (length-append, length-varint, append_assoc)

length-data_bytes :
    (key value : Blob)
    → length (data_bytes key value)
      ≡ 1 + (encode_varint (data_log_size key value)).1 + data_log_size key value
unfolding data_bytes data_log_size
length-data_bytes key value = simp lengths (omega arith)

length-tombstone_bytes :
    (key : Blob)
    → length (tombstone_bytes key)
      ≡ 1 + (encode_varint (tombstone_log_size key)).1 + tombstone_log_size key
unfolding tombstone_bytes tombstone_log_size
length-tombstone_bytes key = simp lengths (omega arith)

data_log_size_bounds :
    (key value : Blob)
    → (length key ≤ data_log_size key value) × (length value ≤ data_log_size key value)
unfolding data_log_size
data_log_size_bounds key value = omega arith

tombstone_log_size_bound : (key : Blob) → length key ≤ tombstone_log_size key
unfolding tombstone_log_size
tombstone_log_size_bound key = omega arith

decode_insert_record-data :
    (before rest key value : Blob)
    → IsUsize (data_log_size key value)
    → decode_insert_record (before ++ (data_bytes key value ++ rest)) (length before + 1)
      ≡ some (data_layout key value, length before + length (data_bytes key value))
unfolding data_bytes data_layout
decode_insert_record-data before rest key value h =
    let log = data_log_size key value in
    let klen = length key in
    let vlen = length value in
    let buffer = before ++ (data_bytes key value ++ rest) in
    let pre = before ++ (0 ∷ []) in
    let tail = key ++ (varint vlen ++ (value ++ rest)) in
    let behind_key = pre ++ (varint log ++ (varint klen ++ key)) in
    let bounds = data_log_size_bounds key value in
    let e₁ : decode_varint buffer (length before + 1) ≡ some (log, (encode_varint log).1) =
      reads_varint buffer pre (varint klen ++ tail) _ (simp lengths) log h (simp append_assoc) in
    insert_reads buffer (length before + 1) log (encode_varint log).1 klen (encode_varint klen).1
      vlen (encode_varint vlen).1 (data_bytes key value) e₁
      (reads_varint buffer (pre ++ varint log) tail _ (simp lengths (omega arith)) klen
        (omega arith) (simp append_assoc))
      (reads_varint buffer behind_key (value ++ rest) _ (simp lengths (omega arith)) vlen
        (omega arith) (simp append_assoc))
      (reads_slice buffer before rest _ (omega arith) (data_bytes key value) _
        (unfold data_log_size in (simp lengths (omega arith))) refl)
    ∙ unfold data_log_size in (simp lengths (ground arith))

decode_tombstone_record-tombstone :
    (before rest key : Blob)
    → IsUsize (tombstone_log_size key)
    → decode_tombstone_record (before ++ (tombstone_bytes key ++ rest)) (length before + 1)
      ≡ some (tombstone_layout key, length before + length (tombstone_bytes key))
unfolding tombstone_bytes tombstone_layout
decode_tombstone_record-tombstone before rest key h =
    let log = tombstone_log_size key in
    let klen = length key in
    let buffer = before ++ (tombstone_bytes key ++ rest) in
    let pre = before ++ (1 ∷ []) in
    let bound = tombstone_log_size_bound key in
    tombstone_reads buffer (length before + 1) log (encode_varint log).1 klen (encode_varint klen).1
      (tombstone_bytes key)
      (reads_varint buffer pre (varint klen ++ (key ++ rest)) _ (simp lengths) log h
        (simp append_assoc))
      (reads_varint buffer (pre ++ varint log) (key ++ rest) _ (simp lengths (omega arith)) klen
        (omega arith) (simp append_assoc))
      (reads_slice buffer before rest _ (omega arith) (tombstone_bytes key) _
        (unfold tombstone_log_size in (simp lengths (omega arith))) refl)
    ∙ unfold tombstone_log_size in (simp lengths (ground arith))

-- `decode_disk_record` reads back each record that the encoder wrote, if its size fits 64 bits,
-- wherever it stands in a buffer: the same blob with the same ranges, and the offset is moved over its bytes and no more.
pub decode_disk_record-layout :
    (before rest : Blob) (e : Entry)
    → Fits e
    → decode_disk_record (before ++ (bytes e ++ rest)) (length before)
      ≡ some (some (layout e), length before + length (bytes e))
unfolding decode_disk_record bytes layout
decode_disk_record-layout before rest (data_entry key value) h =
    let head : get_elem? (before ++ (data_bytes key value ++ rest)) (length before) ≡ some 0 =
      unfold data_bytes in (get_elem?-append_length before 0 _) in
    rw (head, decode_insert_record-data before rest key value h)
decode_disk_record-layout before rest (tombstone_entry key) h =
    let head : get_elem? (before ++ (tombstone_bytes key ++ rest)) (length before) ≡ some 1 =
      unfold tombstone_bytes in (get_elem?-append_length before 1 _) in
    rw (head, decode_tombstone_record-tombstone before rest key h)
