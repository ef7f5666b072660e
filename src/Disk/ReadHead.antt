-- ===== src/Disk/ReadHead.antt =====
-- The first read of `read_data_block` of disk/mod.rs, up to the value of a record.
use lsmlite.Base.{
  ℕ, ◌+◌, ◌-◌, ◌%◌, ◌^◌, ◌≤◌, ◌<◌, ◌≡◌, refl, ap, ◌∙◌, arith, some, none, [], ◌∷◌, ◌++◌,
}
use lsmlite.Base.{length, length-append, append_assoc, append-nil, drop}
use lsmlite.Base.{drop-length_append, ltb, if◌then◌else◌, Option, ◌>>=◌}
use lsmlite.Base.{true, false}
use lsmlite.Base.Bytes.{Blob, slice, resize}
use lsmlite.Util.{encode_varint, decode_varint}
use lsmlite.Util.Varint.{varint, length-varint, varint_bounds, varint_size_from_len-encode_varint}
use lsmlite.Record.Buffers.{resize_keeps, length-zero}
use lsmlite.Disk.Read.{SearchResult, ok, exceeds_buffer, read_data}
use lsmlite.Disk.Read.{read_exact, read_oversized_record_from_disk}
use lsmlite.Disk.Layout.{data_log_size, data_bytes}
use lsmlite.Disk.RoundTrip.{reads_varint}

-- The bytes of a data record up to its value.
abbrev pub data_head : Blob → Blob → Blob
data_head key value =
    (0 ∷ varint (data_log_size key value))
    ++ (varint (length key) ++ (key ++ varint (length value)))

pub data_bytes_split : (key value : Blob) → data_bytes key value ≡ data_head key value ++ value
unfolding data_bytes
data_bytes_split key value = simp append_assoc

pub length-data_head :
    (key value : Blob)
    → length (data_head key value) + length value
      ≡ 1 + (encode_varint (data_log_size key value)).1 + data_log_size key value
unfolding data_log_size
length-data_head key value = simp (length-append, length-varint) (omega arith)

-- The two branches, on a buffer that begins with the head of a record.
unfoldable pub after_head : Blob → ℕ → Blob → Blob → Blob → Option SearchResult
after_head file position key value post =
    let head = data_head key value in
    if ltb 4096 (length head + length value)
    then (if ltb (length value) (length post)
        then none
        else read_exact file position (length value - length post)
            (λ overflow. some (ok (post ++ overflow))))
    else (slice (head ++ post) (length head) (length value) >>= λ blob. some (ok blob))

pub log_bounds :
    (key value : Blob)
    → (length key ≤ data_log_size key value)
      × (length value ≤ data_log_size key value)
      × ((encode_varint (length key)).1 + length key ≤ data_log_size key value)
unfolding data_log_size
log_bounds key value = (omega arith, omega arith, omega arith)

pub exceeds_buffer-head :
    (key value : Blob)
    → data_log_size key value < 2 ^ 63
    → let total = (encode_varint (length key)).1 + length key in
      let log = data_log_size key value in
      exceeds_buffer (1 + (encode_varint log).1 + total) log total
      ≡ ltb 4096 (length (data_head key value) + length value)
unfolding exceeds_buffer
exceeds_buffer-head key value h =
    let total = (encode_varint (length key)).1 + length key in
    let log = data_log_size key value in
    let (b₁, b₂, b₃) = log_bounds key value in
    let (lo, hi) = varint_bounds log in
    let n = length-varint log in
    let e : (1 + (encode_varint log).1 + total + (log + 2 ^ 64 - total) % 2 ^ 64) % 2 ^ 64
        ≡ length (data_head key value) + length value =
      omega (arith, length-data_head key value) in
    ap (ltb 4096) e

pub read_data-head :
    (file key value post : Blob) (position : ℕ)
    → data_log_size key value < 2 ^ 63
    → read_data file position (data_head key value ++ post) key
      ≡ after_head file position key value post
unfolding read_data after_head read_oversized_record_from_disk
read_data-head file key value post position h =
    let log = data_log_size key value in
    let buffer = data_head key value ++ post in
    let (b₁, b₂, b₃) = log_bounds key value in
    let kn = (encode_varint (length key)).1 in
    let start = 1 + (encode_varint log).1 + (kn + length key) in
    let pre = (0 ∷ varint log) ++ (varint (length key) ++ key) in
    let lp : start ≡ length pre = simp (length-append, length-varint) (omega arith) in
    let e₁ : decode_varint buffer 1 ≡ some (log, (encode_varint log).1) =
      reads_varint buffer (0 ∷ []) (varint (length key) ++ (key ++ (varint (length value) ++ post)))
        1 refl log (omega arith) (simp append_assoc) in
    let e₂ = varint_size_from_len-encode_varint (length key) (omega arith) in
    let e₃ : decode_varint buffer start ≡ some (length value, (encode_varint (length value)).1) =
      reads_varint buffer pre post start lp (length value) (omega arith) (simp append_assoc) in
    let off : start + (encode_varint (length value)).1 ≡ length (data_head key value) =
      simp (length-append, length-varint) (omega arith) in
    let rest : drop (length (data_head key value)) buffer ≡ post =
      drop-length_append (data_head key value) post in
    rw (e₁, e₂, exceeds_buffer-head key value h, e₃, off, rest)

pub resize_full : (xs ys : Blob) (n : ℕ) → length xs ≡ n → resize (xs ++ ys) n ≡ xs
resize_full xs ys n h =
    let (rest, e, l) = resize_keeps xs ys n (omega arith) in
    let nil = length-zero rest (omega arith) in e ∙ (rw (nil, append-nil xs))

pub cut_at :
    (h v rest first second : Blob)
    → first ++ second ≡ v
    → (h ++ v) ++ rest ≡ (h ++ first) ++ (second ++ rest)
cut_at h v rest first second e = rw (← e, append_assoc, append_assoc, append_assoc)

pub long_test : (a b : ℕ) → 4096 < a + b → ltb 4096 (a + b) ≡ true
long_test a b h = ground arith

pub short_test : (a b : ℕ) → b ≤ a → ltb a b ≡ false
short_test a b h = ground arith

pub after_long :
    (file key value first second : Blob) (position : ℕ)
    → ltb 4096 (length (data_head key value) + length value) ≡ true
    → ltb (length value) (length first) ≡ false
    → length value - length first ≡ length second
    → slice file position (length second) ≡ some second
    → first ++ second ≡ value
    → after_head file position key value first ≡ some (ok value)
unfolding after_head read_exact
after_long file key value first second position t u left s whole =
    rw (t, u, left, read_exact, s, whole)
