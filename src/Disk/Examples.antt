-- ===== src/Disk/Examples.antt =====
-- The encoder and the decoder of disk/ on concrete records.
use lsmlite.Base.{◌+◌, ◌≡◌, arith, some, [], ◌∷◌, ◌++◌, length}
use lsmlite.Base.Bytes.{Blob}
use lsmlite.Util.{encode_varint, encode_loop}
use lsmlite.Disk.Encode.{encode_data_record, encode_tombstone_record}
use lsmlite.Disk.Decode.{decode_disk_record}
use lsmlite.Disk.Layout.{Entry, data_entry, bytes, layout, Fits, data_log_size}
use lsmlite.Disk.Layout.{data_layout, tombstone_layout}
use lsmlite.Util.Varint.{varint}
use lsmlite.Disk.Layout.{data_bytes, tombstone_bytes}
use lsmlite.Disk.Read.{ok, tombstone, read_data_block}
use lsmlite.Disk.ReadBack.{read_data_block-data_bytes, read_data_block-tombstone_bytes}
use lsmlite.Disk.Writes.{encode_data_record_lem, encode_tombstone_record_lem}
use lsmlite.Disk.RoundTrip.{decode_disk_record-layout}

abbrev pub key : Blob
key = 107 ∷ 49 ∷ []

abbrev pub value : Blob
value = 118 ∷ []

abbrev pub entry : Entry
entry = data_entry key value

pub entry-Fits : Fits entry
unfolding data_log_size encode_varint encode_loop
entry-Fits = omega arith

encode_data_record_example : encode_data_record key value ≡ some (data_layout key value)
encode_data_record_example = encode_data_record_lem key value

encode_tombstone_record_example : encode_tombstone_record key ≡ some (tombstone_layout key)
encode_tombstone_record_example = encode_tombstone_record_lem key

decode_disk_record-layout_example :
    decode_disk_record ((5 ∷ []) ++ (bytes entry ++ (6 ∷ []))) 1
    ≡ some (some (layout entry), 1 + length (bytes entry))
decode_disk_record-layout_example = decode_disk_record-layout (5 ∷ []) (6 ∷ []) entry entry-Fits

read_data_block-data_bytes_example :
    read_data_block ((5 ∷ []) ++ (data_bytes key value ++ (6 ∷ []))) 1 key ≡ some (ok value)
unfolding data_log_size encode_varint encode_loop varint
read_data_block-data_bytes_example =
    read_data_block-data_bytes (5 ∷ []) (6 ∷ []) key value (omega arith) (omega arith)

read_data_block-tombstone_bytes_example :
    read_data_block ((5 ∷ []) ++ (tombstone_bytes key ++ (6 ∷ []))) 1 key ≡ some tombstone
read_data_block-tombstone_bytes_example = read_data_block-tombstone_bytes (5 ∷ []) (6 ∷ []) key key
