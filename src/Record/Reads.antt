-- ===== src/Record/Reads.antt =====
-- The accessors of memtable/record.rs on a record as the encoder lays it out.
use lsmlite.Base.{◌+◌, ◌≡◌, refl, arith, some, [], ◌∷◌, ◌++◌, append_assoc, append-nil}
use lsmlite.Base.{length, length-append}
use lsmlite.Base.Bytes.{slice-append}
use lsmlite.Util.{encode_varint}
use lsmlite.Util.Varint.{varint, length-varint}
use lsmlite.Record.{get_key, copy_key, get_value, copy_value}
use lsmlite.Disk.Layout.{data_log_size, data_bytes, data_layout, Entry, data_entry}
use lsmlite.Disk.Layout.{tombstone_log_size, tombstone_bytes, tombstone_layout}
use lsmlite.Disk.Layout.{tombstone_entry, layout, entry_key, entry_value}

-- `copy_key` reads the key back.
pub copy_key-layout : (e : Entry) → copy_key (layout e) ≡ some (entry_key e)
unfolding copy_key layout data_layout tombstone_layout data_bytes tombstone_bytes
copy_key-layout (data_entry key value) =
    let lv = varint (data_log_size key value) in
    let kv = varint (length key) in
    rw (← append_assoc (0 ∷ lv) kv (key ++ (varint (length value) ++ value))) (
      slice-append ((0 ∷ lv) ++ kv) key _ _ _ (simp (length-append, length-varint) (omega arith))
        refl)
copy_key-layout (tombstone_entry key) =
    let lv = varint (tombstone_log_size key) in
    let kv = varint (length key) in
    let e : (1 ∷ lv) ++ (kv ++ key) ≡ ((1 ∷ lv) ++ kv) ++ (key ++ []) =
      simp (append_assoc, append-nil) in
    rw e (
      slice-append ((1 ∷ lv) ++ kv) key [] _ _ (simp (length-append, length-varint) (omega arith))
        refl)

pub get_key-layout : (e : Entry) → get_key (layout e) ≡ some (entry_key e)
unfolding get_key copy_key
get_key-layout e = copy_key-layout e

-- `copy_value` reads the value back, and a tombstone as no value.
pub copy_value-layout : (e : Entry) → copy_value (layout e) ≡ some (entry_value e)
unfolding copy_value layout data_layout tombstone_layout data_bytes
copy_value-layout (data_entry key value) =
    let lv = varint (data_log_size key value) in
    let kv = varint (length key) in
    let vv = varint (length value) in
    let head = 1 + (encode_varint (data_log_size key value)).1 + (encode_varint (length key)).1 in
    let start = head + length key + (encode_varint (length value)).1 in
    let pre = ((0 ∷ lv) ++ kv) ++ (key ++ vv) in
    let e : (0 ∷ lv) ++ (kv ++ (key ++ (vv ++ value))) ≡ pre ++ (value ++ []) =
      simp (append_assoc, append-nil) in
    rw e (
      rw (
        slice-append pre value [] start _ (simp (length-append, length-varint) (omega arith)) refl))
copy_value-layout (tombstone_entry key) = refl

pub get_value-layout : (e : Entry) → get_value (layout e) ≡ some (entry_value e)
unfolding get_value copy_value
get_value-layout e = copy_value-layout e
