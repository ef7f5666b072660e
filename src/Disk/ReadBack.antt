-- ===== src/Disk/ReadBack.antt =====
-- `read_data_block` of disk/mod.rs on a file that holds a record.
use lsmlite.Base.{ℕ, ◌+◌, ◌-◌, ◌^◌, ◌≤◌, ◌<◌, ◌≡◌, refl, sym, ap, ◌∙◌, arith, some, ◌++◌}
use lsmlite.Base.{length, length-append, append_assoc, length-take, length-drop, take, drop}
use lsmlite.Base.{take-append-drop, drop-length_append, ltb, inl, inr}
use lsmlite.Base.{ltb→lt, Bool-cases, true, false, get_elem?}
use lsmlite.Base.Bytes.{Blob, slice, resize, slice-append}
use lsmlite.Util.Varint.{varint}
use lsmlite.Record.Buffers.{resize_keeps, resize-cons}
use lsmlite.Disk.Read.{ok, tombstone, read_data, read_data_block}
use lsmlite.Disk.Read.{read_exact}
use lsmlite.Disk.Layout.{data_log_size, data_bytes, tombstone_bytes, tombstone_log_size}
use lsmlite.Disk.ReadHead.{data_head}
use lsmlite.Disk.ReadHead.{data_bytes_split}
use lsmlite.Disk.ReadHead.{after_head}
use lsmlite.Disk.ReadHead.{read_data-head}
use lsmlite.Disk.ReadHead.{resize_full}
use lsmlite.Disk.ReadHead.{cut_at}
use lsmlite.Disk.ReadHead.{long_test}
use lsmlite.Disk.ReadHead.{short_test}
use lsmlite.Disk.ReadHead.{after_long}

module _ (before rest key value : Blob) (small : data_log_size key value < 2 ^ 63)
    (fits : length (data_head key value) ≤ 4096) where
  file : Blob
  file = before ++ (data_bytes key value ++ rest)

  head : Blob
  head = data_head key value

  -- The record ends within the first read.
  read_short :
      (position : ℕ)
      → length head + length value ≤ 4096
      → read_data file position (resize (data_bytes key value ++ rest) 4096) key ≡ some (ok value)
  unfolding head file after_head
  read_short position h =
      let (post, e, l) =
        resize_keeps (head ++ value) rest 4096 (omega (arith, length-append head value)) in
      let b : resize (data_bytes key value ++ rest) 4096 ≡ head ++ (value ++ post) =
        rw data_bytes_split (e ∙ append_assoc head value post) in
      let t : ltb 4096 (length head + length value) ≡ false = ground arith in
      let s = slice-append head value post (length head) (length value) refl refl in
      rw b (read_data-head file key value (value ++ post) position small ∙ rw (t, s))

  -- The record goes on behind the first read, which ends between `first` and `second`.
  read_long :
      (first second : Blob)
      → first ++ second ≡ value
      → length head + length first ≡ 4096
      → 0 < length second
      → read_data file (length before + 4096) (resize (data_bytes key value ++ rest) 4096) key
        ≡ some (ok value)
  unfolding head file after_head read_exact
  read_long first second whole full more =
      let split =
        ap (λ b. b ++ rest) (data_bytes_split key value)
        ∙ cut_at head value rest first second whole in
      let b : resize (data_bytes key value ++ rest) 4096 ≡ head ++ first = rw split (
        resize_full (head ++ first) (second ++ rest) 4096
          (omega (arith, length-append head first))) in
      let lv : length value ≡ length first + length second =
        ap length (sym whole) ∙ length-append first second in
      let t : ltb 4096 (length head + length value) ≡ true =
        long_test (length head) (length value) (omega arith) in
      let u : ltb (length value) (length first) ≡ false =
        short_test (length value) (length first) (omega arith) in
      let left : length value - length first ≡ length second = omega arith in
      let s : slice file (length before + 4096) (length second) ≡ some second =
        rw (split, ← append_assoc before (head ++ first) (second ++ rest))
          (slice-append (before ++ (head ++ first)) second rest _ _
            (omega (arith, length-append before (head ++ first), length-append head first)) refl) in
      rw b (
        read_data-head file key value first (length before + 4096) small
        ∙ after_long file key value first second _ t u left s whole)

header_zero :
    (key value rest : Blob) → get_elem? (resize (data_bytes key value ++ rest) 4096) 0 ≡ some 0
unfolding data_bytes
header_zero key value rest =
    let tail =
      varint (data_log_size key value)
      ++ (varint (length key) ++ (key ++ (varint (length value) ++ value))) in
    rw (resize-cons 0 (tail ++ rest) 4095)

not_long : (n : ℕ) → ltb 4096 n ≡ false → n ≤ 4096
not_long n h = ground arith

-- `read_data_block`, at the offset of a data record in a file, returns the record's value, if the
-- record is shorter than 2 ^ 63 and all of it before the value lies in the first 4096 bytes,
-- whether or not the value goes on behind them.
pub read_data_block-data_bytes :
    (before rest key value : Blob)
    → data_log_size key value < 2 ^ 63
    → length (data_head key value) ≤ 4096
    → read_data_block (before ++ (data_bytes key value ++ rest)) (length before) key
      ≡ some (ok value)
unfolding read_data_block head file
read_data_block-data_bytes before rest key value small fits =
    let all = data_bytes key value ++ rest in
    let d : drop (length before) (before ++ all) ≡ all = drop-length_append before all in
    rw (d, header_zero key value rest)
      (elim (Bool-cases (ltb 4096 (length (data_head key value) + length value))) [
        | inl t ↦ long (ltb→lt _ _ t)
        | inr f ↦ read_short before rest key value small fits _ (not_long _ f)
      ])
  where
    long :
        4096 < length (data_head key value) + length value
        → let all = data_bytes key value ++ rest in
          read_data (before ++ all) (length before + length (take 4096 all)) (resize all 4096) key
          ≡ some (ok value)
    long h =
        let all = data_bytes key value ++ rest in
        let m = 4096 - length (data_head key value) in
        let e = length-take 4096 all (
          omega (
            arith,
            length-append (data_bytes key value) rest,
            ap length (data_bytes_split key value),
            length-append (data_head key value) value,
          )) in
        let l₁ = length-take m value (omega arith) in
        let l₂ = length-drop m value in
        rw e (
          read_long before rest key value small fits (take m value) (drop m value)
            (take-append-drop m value) (omega arith) (omega arith))

-- `read_data_block` at the offset of a tombstone says that the key is deleted.
pub read_data_block-tombstone_bytes :
    (before rest key key' : Blob)
    → read_data_block (before ++ (tombstone_bytes key ++ rest)) (length before) key'
      ≡ some tombstone
unfolding read_data_block tombstone_bytes
read_data_block-tombstone_bytes before rest key key' =
    let tail = varint (tombstone_log_size key) ++ (varint (length key) ++ key) in
    let d = drop-length_append before (tombstone_bytes key ++ rest) in
    rw (d, resize-cons 1 (tail ++ rest) 4095)
