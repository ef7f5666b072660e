-- ===== src/Record/Examples.antt =====
-- The updates of memtable/record.rs on concrete records.
use lsmlite.Base.{ℕ, ◌≡◌, refl, arith, some, none, [], ◌∷◌, replicate, length-replicate}
use lsmlite.Base.Bytes.{slice}
use lsmlite.Util.{encode_varint, encode_loop}
use lsmlite.Util.Varint.{varint}
use lsmlite.Record.{Record, copy_key, record_type, get_value, tombstone}
use lsmlite.Record.Update.{overwrite_data, update_data_to_tombstone, update_from_record}
use lsmlite.Record.Shrunk.{overwrite_data_panics}
use lsmlite.Record.Overwrite.{overwrite_data_lem, overwritten, head_log}
use lsmlite.Record.Tombstone.{update_data_to_tombstone_lem}
use lsmlite.Record.Revive.{revived_reads_tombstone}
use lsmlite.Disk.Layout.{
  Entry, data_entry, tombstone_entry, layout, data_layout, tombstone_layout, data_bytes,
}
use lsmlite.Disk.Layout.{data_log_size, tombstone_log_size}
use lsmlite.Disk.Examples.{key, value, entry}

abbrev large : Entry
large = data_entry key (replicate 16384 0)

overwrite_data_example :
    overwrite_data (layout entry) (1 ∷ 2 ∷ []) ≡ some (overwritten entry (1 ∷ 2 ∷ []))
unfolding head_log data_log_size encode_varint encode_loop
overwrite_data_example = overwrite_data_lem entry (1 ∷ 2 ∷ []) (omega arith) (omega arith)

overwrite_data_panics_example : overwrite_data (layout large) [] ≡ none
unfolding head_log data_log_size encode_varint encode_loop
overwrite_data_panics_example =
    overwrite_data_panics large [] (omega arith) (omega (arith, length-replicate {A = ℕ} 16384 0))

-- The record of a key that was set twice.
key_read : copy_key (overwritten entry (1 ∷ 2 ∷ [])) ≡ some key
unfolding copy_key data_bytes data_log_size encode_varint encode_loop slice varint
key_read = refl

update_data_to_tombstone_example :
    update_data_to_tombstone (overwritten entry (1 ∷ 2 ∷ [])) ≡ some (tombstone_layout key)
update_data_to_tombstone_example =
    update_data_to_tombstone_lem (overwritten entry (1 ∷ 2 ∷ [])) key key_read

revived_reads_tombstone_example :
    (r : Record) × (update_from_record
        (layout (tombstone_entry key))
        (layout (data_entry key value))
      ≡ some r)
    × (r.blob ≡ (data_layout key value).blob)
    × (record_type r ≡ tombstone)
    × (get_value r ≡ some none)
unfolding head_log data_log_size tombstone_log_size encode_varint encode_loop
revived_reads_tombstone_example = revived_reads_tombstone key value key (omega arith) (omega arith)
