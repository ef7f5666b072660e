-- ===== src/Record/Tombstone.antt =====
-- `update_data_to_tombstone` of memtable/record.rs.
use lsmlite.Base.{ℕ, zero, suc, ◌+◌, ◌≡◌, refl, arith, Option, none, some, [], ◌∷◌, append-nil}
use lsmlite.Base.{length}
use lsmlite.Base.Bytes.{Blob, resize, write-append}
use lsmlite.Util.{encode_varint}
use lsmlite.Util.Varint.{varint, length-varint}
use lsmlite.Record.{Record, copy_key}
use lsmlite.Record.Update.{update_data_to_tombstone}
use lsmlite.Record.Buffers.{resize_keeps, refill, length-zero}
use lsmlite.Disk.Layout.{tombstone_log_size, tombstone_bytes, tombstone_layout}

resize-suc :
    (xs : Blob) (n : ℕ)
    → (hd : ℕ) × (garbage : Blob) × (resize xs (suc n) ≡ hd ∷ garbage) × (length garbage ≡ n)
resize-suc xs n = go (resize_keeps [] xs (suc n) (omega arith))
  where
    go :
        (post : Blob) × (resize xs (suc n) ≡ post) × (zero + length post ≡ suc n)
        → (hd : ℕ) × (garbage : Blob) × (resize xs (suc n) ≡ hd ∷ garbage) × (length garbage ≡ n)
    go ([], e, l) = absurd (omega arith)
    go (x ∷ post, e, l) = (x, post, e, omega arith)

-- Whatever bytes and value a record has, if its key can be copied out, then its update to a
-- tombstone gives the tombstone layout of that key.
pub update_data_to_tombstone_lem :
    (r : Record) (key : Blob)
    → copy_key r ≡ some key
    → update_data_to_tombstone r ≡ some (tombstone_layout key)
unfolding update_data_to_tombstone tombstone_layout tombstone_log_size tombstone_bytes
update_data_to_tombstone_lem r key read =
    let kn = (encode_varint (length key)).1 in
    let log = tombstone_log_size key in
    let n = (encode_varint log).1 in
    let (hd, g, rz, gl) = resize-suc r.blob (log + n) in
    let size : kn + length key + n + 1 ≡ suc (log + n) = omega arith in
    let w = write-append [] (hd ∷ []) g (1 ∷ []) 0 refl refl in
    let cont : Blob → Option Record =
      λ b. some (record { blob = b; key = (1 + n + kn, length key); value = none }) in
    let (rest, f, fl) =
      refill cont 1 g (varint log) (varint (length key)) key (1 + n) (1 + n + kn)
        (omega (arith, length-varint log, length-varint (length key)))
        (omega (arith, length-varint log)) (omega (arith, length-varint (length key))) in
    let nil : rest ≡ [] =
      length-zero rest (omega (arith, length-varint log, length-varint (length key))) in
    let f' = rw (nil, append-nil) at f in rw (read, size, rz, w) (unfold varint in f')
