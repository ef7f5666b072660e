-- ===== src/Util.antt =====
-- util/mod.rs: variable-length integers, and reads of fixed-width words.
-- A mask `x & 0x7F` is `x % 128`, `x >> 7` is `x / 128`, and `byte | 0x80` on a byte below 128
-- adds 128.
pub mod Varint
mod Examples
use lsmlite.Base.{ℕ, zero, suc, ◌+◌, ◌-◌, ◌*◌, ◌/◌, ◌%◌, ◌^◌, ◌<◌, Option, none, some}
use lsmlite.Base.{Bool, ◌&&◌, ◌==◌, ltb, leb, if◌then◌else◌, ◌>>=◌}
use lsmlite.Base.{List, [], ◌∷◌, ◌++◌, length, drop, take, replicate}
use lsmlite.Base.Bytes.{Blob, slice, from_be_bytes}

abbrev pub IsUsize : ℕ → Type 0
IsUsize v = v < 2 ^ 64

-- `make_blob_buffer`: the content is garbage that the callers overwrite; zeros stand for it.
unfoldable pub make_blob_buffer : ℕ → Blob
make_blob_buffer size = replicate size 0

-- `u64::from_be_bytes(get_be_array8(buffer, offset))`, and so for the other widths.
unfoldable pub get_be_array8 : Blob → ℕ → Option Blob
get_be_array8 buffer offset = slice buffer offset 8

unfoldable pub get_be_array4 : Blob → ℕ → Option Blob
get_be_array4 buffer offset = slice buffer offset 4

-- The vector converts into an array only if it has two bytes.
unfoldable pub get_be_array2 : Blob → Option Blob
get_be_array2 buffer = if length buffer == 2 then some buffer else none

-- `size` counts from 1 and the loop stops above 10, so ten rounds are all there are.
-- `upper_bound <<= 7` drops the bits above the word.
varint_size_loop : ℕ → ℕ → ℕ → ℕ → ℕ
varint_size_loop zero len size upper_bound = size
varint_size_loop (suc rounds) len size upper_bound =
    let next = varint_size_loop rounds len (size + 1) (upper_bound * 128 % 2 ^ 64) in
    if leb upper_bound len && leb size 10 then next else size

unfoldable pub varint_size_from_len : ℕ → ℕ
unfolding varint_size_loop
varint_size_from_len len = varint_size_loop 10 len 1 128

-- The bytes that the loop stores in the ten slots of `buffer`, from slot `idx` on. A store past
-- the last slot would panic; for a `usize` it is not reached.
unfoldable pub encode_loop : ℕ → ℕ → Blob
encode_loop zero value = []
encode_loop (suc slots) value =
    let byte = value % 128 in
    let value' = value / 128 in
    let rest = encode_loop slots value' in if value' == 0 then byte ∷ [] else (byte + 128) ∷ rest

-- The array of ten bytes, and the number of those in use.
unfoldable pub encode_varint : ℕ → Blob × ℕ
encode_varint value =
    let bytes = encode_loop 10 value in (bytes ++ replicate (10 - length bytes) 0, length bytes)

-- The buffer from `offset` on; `walked` is `offset - start`. A read past the end panics, and so
-- does a shift by the word's width.
decode_loop : Blob → ℕ → ℕ → Option (ℕ × ℕ)
decode_loop [] varint walked = none
decode_loop (byte ∷ bytes) varint walked =
    let varint' = varint + byte % 128 * 2 ^ (7 * walked) % 2 ^ 64 in
    let more = decode_loop bytes varint' (walked + 1) in
    if leb 64 (7 * walked)
    then none
    else if byte / 128 % 2 == 0
    then some (varint', walked + 1)
    else more

unfoldable pub decode_varint : Blob → ℕ → Option (ℕ × ℕ)
unfolding decode_loop
decode_varint buffer offset = decode_loop (drop offset buffer) 0 0
