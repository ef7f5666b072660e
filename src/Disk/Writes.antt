-- ===== src/Disk/Writes.antt =====
-- disk/encode.rs against its layout.
use lsmlite.Base.{ℕ, ◌+◌, ◌≡◌, refl, ◌∙◌, arith, some, none, [], ◌∷◌, ◌++◌}
use lsmlite.Base.{length, length-append, append_assoc, ◌>>=◌}
use lsmlite.Base.Bytes.{Blob}
use lsmlite.Util.{make_blob_buffer}
use lsmlite.Util.Varint.{varint, length-varint}
use lsmlite.Record.{Record}
use lsmlite.Disk.Encode.{put, encode_data_record, encode_tombstone_record}
use lsmlite.Disk.Layout.{data_log_size, data_bytes, data_layout, Filled}
use lsmlite.Disk.Layout.{tombstone_log_size, tombstone_bytes, tombstone_layout}
use lsmlite.Disk.Layout.{put-Filled, Filled-end, Filled-offset, Filled-start}

abbrev pub with_value : Blob → ℕ → ℕ → ℕ → ℕ → Record
with_value blob k m v n = record { blob = blob; key = (k, m); value = some (v, n) }

abbrev pub no_value : Blob → ℕ → ℕ → Record
no_value blob k m = record { blob = blob; key = (k, m); value = none }

-- The sequence of writes of `encode_data_record`, for any pieces that fill the buffer.
six_puts :
    (size : ℕ) (hd lv kv key vv value : Blob) (m n : ℕ)
    → size ≡ length hd + (length lv + (length kv + (length key + (length vv + length value))))
    → (do
      b₀ ← put (make_blob_buffer size, 0) hd
      b₁ ← put b₀ lv
      b₂ ← put b₁ kv
      b₃ ← put b₂ key
      b₄ ← put b₃ vv
      b₅ ← put b₄ value
      some (with_value b₅.0 b₂.1 m b₄.1 n))
      ≡ some (
          with_value
            (((((hd ++ lv) ++ kv) ++ key) ++ vv) ++ value)
            (length ((hd ++ lv) ++ kv))
            m
            (length ((((hd ++ lv) ++ kv) ++ key) ++ vv))
            n)
six_puts size hd lv kv key vv value m n total =
    let f₋ : Filled (make_blob_buffer size, 0) [] size = Filled-start size in
    let (b₀, e₀, f₀) = put-Filled _ [] hd size _ f₋ total in
    let (b₁, e₁, f₁) = put-Filled b₀ _ lv _ _ f₀ refl in
    let (b₂, e₂, f₂) = put-Filled b₁ _ kv _ _ f₁ refl in
    let (b₃, e₃, f₃) = put-Filled b₂ _ key _ _ f₂ refl in
    let (b₄, e₄, f₄) = put-Filled b₃ _ vv _ _ f₃ refl in
    let (b₅, e₅, f₅) = put-Filled b₄ _ value (length value) 0 f₄ (omega arith) in
    rw
      (e₀, e₁, e₂, e₃, e₄, e₅, Filled-end b₅ _ f₅, Filled-offset b₂ _ _ f₂, Filled-offset b₄ _ _ f₄)

-- The same for `encode_tombstone_record`.
four_puts :
    (size : ℕ) (hd lv kv key : Blob) (m : ℕ)
    → size ≡ length hd + (length lv + (length kv + length key))
    → (do
      b₀ ← put (make_blob_buffer size, 0) hd
      b₁ ← put b₀ lv
      b₂ ← put b₁ kv
      b₃ ← put b₂ key
      some (no_value b₃.0 b₂.1 m))
      ≡ some (no_value (((hd ++ lv) ++ kv) ++ key) (length ((hd ++ lv) ++ kv)) m)
four_puts size hd lv kv key m total =
    let f₋ : Filled (make_blob_buffer size, 0) [] size = Filled-start size in
    let (b₀, e₀, f₀) = put-Filled _ [] hd size _ f₋ total in
    let (b₁, e₁, f₁) = put-Filled b₀ _ lv _ _ f₀ refl in
    let (b₂, e₂, f₂) = put-Filled b₁ _ kv _ _ f₁ refl in
    let (b₃, e₃, f₃) = put-Filled b₂ _ key (length key) 0 f₂ (omega arith) in
    rw (e₀, e₁, e₂, e₃, Filled-end b₃ _ f₃, Filled-offset b₂ _ _ f₂)

data_writes :
    (key value : Blob)
    → let head = (0 ∷ varint (data_log_size key value)) ++ varint (length key) in
      let body = (head ++ key) ++ varint (length value) in
      encode_data_record key value
      ≡ some (with_value (body ++ value) (length head) (length key) (length body) (length value))
unfolding encode_data_record varint data_log_size
data_writes key value =
    let log = data_log_size key value in
    six_puts _ (0 ∷ []) (varint log) (varint (length key)) key (varint (length value)) value _ _
      (omega (arith, length-varint log, length-varint (length key), length-varint (length value)))

-- `encode_data_record` never panics, and gives the data layout of the key and the value.
pub encode_data_record_lem :
    (key value : Blob) → encode_data_record key value ≡ some (data_layout key value)
unfolding data_layout data_bytes
encode_data_record_lem key value =
    data_writes key value ∙ simp (append_assoc, length-append, length-varint) (ground arith)

tombstone_writes :
    (key : Blob)
    → let head = (1 ∷ varint (tombstone_log_size key)) ++ varint (length key) in
      encode_tombstone_record key ≡ some (no_value (head ++ key) (length head) (length key))
unfolding encode_tombstone_record varint tombstone_log_size
tombstone_writes key =
    let log = tombstone_log_size key in
    four_puts _ (1 ∷ []) (varint log) (varint (length key)) key _
      (omega (arith, length-varint log, length-varint (length key)))

-- `encode_tombstone_record` never panics, and gives the tombstone layout of the key.
pub encode_tombstone_record_lem :
    (key : Blob) → encode_tombstone_record key ≡ some (tombstone_layout key)
unfolding tombstone_layout tombstone_bytes
encode_tombstone_record_lem key =
    tombstone_writes key ∙ simp (append_assoc, length-append, length-varint) (ground arith)
