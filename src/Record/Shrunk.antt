-- ===== src/Record/Shrunk.antt =====
-- `overwrite_data` of memtable/record.rs where the record gets much shorter.
use lsmlite.Base.{ℕ, ◌+◌, ◌^◌, ◌<◌, ◌≡◌, refl, arith, none, some}
use lsmlite.Base.{[], length}
use lsmlite.Base.{◌==◌}
use lsmlite.Base.{lt→leb_false, false}
use lsmlite.Base.Bytes.{slice, Blob, resize}
use lsmlite.Util.{encode_varint}
use lsmlite.Util.Varint.{varint_size_from_len-encode_varint}
use lsmlite.Record.{Record}
use lsmlite.Record.Update.{move_key, overwrite_data}
use lsmlite.Record.Update.{checked_sub}
use lsmlite.Disk.Layout.{data_log_size, Entry}
use lsmlite.Disk.Layout.{layout, entry_key}
use lsmlite.Record.Buffers.{resize_keeps}
use lsmlite.Record.Overwrite.{old_len}
use lsmlite.Record.Overwrite.{new_len}
use lsmlite.Record.Overwrite.{key_len_size}
use lsmlite.Record.Overwrite.{layout_key}
use lsmlite.Record.Overwrite.{value_len}
use lsmlite.Record.Overwrite.{same_log}
use lsmlite.Record.Overwrite.{checked_sub-add}

length-resize : (xs : Blob) (n : ℕ) → length (resize xs n) ≡ n
length-resize xs n = let (post, e, l) = resize_keeps [] xs n (omega arith) in rw e (omega arith)

move_key_short :
    (r : Record) (blob array : Blob) (n kn : ℕ)
    → length blob < r.key.0 + r.key.1
    → move_key r blob array n kn ≡ none
unfolding move_key slice
move_key_short r blob array n kn h = rw (lt→leb_false _ _ h)

-- For a record as it was encoded, where the new log size and value are shorter together than the
-- old log size, so that the old key no longer lies in the resized buffer, and the key is shorter
-- than 2 ^ 63, the overwrite panics.
pub overwrite_data_panics :
    (e : Entry) (new : Blob)
    → length (entry_key e) < 2 ^ 63
    → new_len e new + value_len new + length new < old_len e
    → overwrite_data (layout e) new ≡ none
unfolding overwrite_data
overwrite_data_panics e new small short =
    let key = entry_key e in
    let kn = key_len_size e in
    let n = new_len e new in
    let log = data_log_size key new in
    let vs = varint_size_from_len-encode_varint (length key) small in
    let c₁ : checked_sub (1 + old_len e + kn) kn ≡ some (1 + old_len e) = checked_sub-add _ kn in
    let c₂ : checked_sub (1 + old_len e) 1 ≡ some (old_len e) =
      unfold checked_sub in ground arith in
    let sl = same_log key new kn refl in
    let moved : (old_len e == n) ≡ false = ground arith in
    let r : Record = record {
      blob = (layout e).blob;
      key = (1 + old_len e + kn, length key);
      value = (layout e).value;
    } in
    let blob = resize (layout e).blob (n + log + 1) in
    let mk =
      move_key_short r blob (encode_varint log).0 n kn
        (omega (arith, length-resize (layout e).blob (n + log + 1))) in
    rw (layout_key e, vs, sl, c₁, c₂, moved, mk)
