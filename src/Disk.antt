-- ===== src/Disk.antt =====
-- disk/mod.rs, disk/encode.rs and disk/decode.rs: the binary form of a record.
--   data       [0][log size][key length][key][value length][value]
--   tombstone  [1][log size][key length][key]
pub mod Encode
pub mod Decode
pub mod Layout
pub mod Writes
pub mod RoundTrip
pub mod Read
pub mod ReadHead
pub mod ReadBack
pub mod Examples
