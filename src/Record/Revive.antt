-- ===== src/Record/Revive.antt =====
-- `update_from_record` of memtable/record.rs on records that the encoders built.
use lsmlite.Base.{◌+◌, ◌^◌, ◌≤◌, ◌<◌, ◌≡◌, refl, ◌∙◌, some, none, length}
use lsmlite.Base.Bytes.{Blob}
use lsmlite.Record.{Record, record_type, get_value, tombstone}
use lsmlite.Record.Update.{update_from_record, overwrite_data}
use lsmlite.Record.Overwrite.{overwrite_data_lem, overwritten, old_len, new_len, value_len}
use lsmlite.Record.Reads.{get_value-layout}
use lsmlite.Disk.Layout.{data_entry, tombstone_entry, layout}
use lsmlite.Disk.Layout.{data_layout, tombstone_layout}

by_value :
    (r : Record) (key value : Blob)
    → update_from_record r (layout (data_entry key value)) ≡ overwrite_data r value
unfolding update_from_record record_type layout data_layout
by_value r key value = rw (get_value-layout (data_entry key value))

-- Where the short encodings leave room for the old log size, and the key is shorter than 2 ^ 63, a
-- tombstone as it was encoded that is updated from a data record has the new bytes, and still reads
-- as a tombstone.
pub revived_reads_tombstone :
    (key value other : Blob)
    → length key < 2 ^ 63
    → let e = tombstone_entry key in
      old_len e ≤ new_len e value + value_len value + length value
      → (r : Record) × (update_from_record (layout e) (layout (data_entry other value)) ≡ some r)
        × (r.blob ≡ (data_layout key value).blob)
        × (record_type r ≡ tombstone)
        × (get_value r ≡ some none)
unfolding record_type get_value layout tombstone_layout data_layout
revived_reads_tombstone key value other small room =
    let e = tombstone_entry key in
    (
      overwritten e value,
      by_value (layout e) other value ∙ overwrite_data_lem e value small room,
      refl,
      refl,
      refl,
    )
