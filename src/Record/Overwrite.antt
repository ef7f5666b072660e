-- ===== src/Record/Overwrite.antt =====
-- What the updates of memtable/record.rs leave in the buffer.
use lsmlite.Base.{ℕ, ◌+◌, ◌^◌, ◌≤◌, ◌<◌, ◌≡◌, refl, arith, Option, some}
use lsmlite.Base.{[], ◌∷◌, ◌++◌, append_assoc, append-nil, length, length-append}
use lsmlite.Base.{take, ◌==◌, if◌then◌else◌}
use lsmlite.Base.{inl, inr, Bool-cases, not}
use lsmlite.Base.Bytes.{slice, Blob, resize, slice-append, write-append}
use lsmlite.Util.{encode_varint}
use lsmlite.Util.Varint.{varint, length-varint, varint_size_from_len-encode_varint}
use lsmlite.Record.{Record}
use lsmlite.Record.Update.{move_key, keep_key, overwrite_data}
use lsmlite.Record.Update.{checked_sub}
use lsmlite.Disk.Layout.{data_log_size, data_bytes, data_layout, Entry, data_entry}
use lsmlite.Disk.Layout.{tombstone_log_size, tombstone_bytes, tombstone_layout}
use lsmlite.Disk.Layout.{tombstone_entry, bytes, layout, entry_key}
use lsmlite.Record.Buffers.{resize_keeps, refill, regroup, finish_writes}

-- The encoding of an entry's log size, and the rest of its bytes behind the key.
unfoldable pub head_log : Entry → ℕ
head_log (data_entry key value) = data_log_size key value
head_log (tombstone_entry key) = tombstone_log_size key

bytes_split :
    (e : Entry)
    → (hd : ℕ) × (tail : Blob) × (bytes e
        ≡ (hd ∷ varint (head_log e)) ++ (varint (length (entry_key e)) ++ (entry_key e ++ tail)))
unfolding head_log bytes data_bytes tombstone_bytes
bytes_split (data_entry key value) = (0, _, refl)
bytes_split (tombstone_entry key) = (1, [], simp append-nil)

abbrev pub old_len : Entry → ℕ
old_len e = (encode_varint (head_log e)).1

abbrev pub new_len : Entry → Blob → ℕ
new_len e new = (encode_varint (data_log_size (entry_key e) new)).1

abbrev pub key_len_size : Entry → ℕ
key_len_size e = (encode_varint (length (entry_key e))).1

pub layout_key :
    (e : Entry) → (layout e).key ≡ (1 + old_len e + key_len_size e, length (entry_key e))
unfolding layout data_layout tombstone_layout head_log
layout_key (data_entry key value) = refl
layout_key (tombstone_entry key) = refl

pub layout_blob : (e : Entry) → (layout e).blob ≡ bytes e
unfolding layout data_layout tombstone_layout bytes
layout_blob (data_entry key value) = refl
layout_blob (tombstone_entry key) = refl

-- After the resize the record still begins with its header, its old log size and its key.
resized :
    (e : Entry) (size : ℕ)
    → 1 + old_len e + key_len_size e + length (entry_key e) ≤ size
    → (hd : ℕ) × (rest : Blob) × (resize (layout e).blob size
        ≡ (hd ∷ varint (head_log e)) ++ (varint (length (entry_key e)) ++ (entry_key e ++ rest)))
      × (1 + old_len e + key_len_size e + length (entry_key e) + length rest ≡ size)
resized e size h =
    let (hd, tail, q) = bytes_split e in
    let key = entry_key e in
    let pre = (hd ∷ varint (head_log e)) ++ (varint (length key) ++ key) in
    let l : length pre ≡ 1 + old_len e + key_len_size e + length key =
      simp (length-append, length-varint) (omega arith) in
    let (rest, r, m) = resize_keeps pre tail size (omega arith) in
    (
      hd,
      rest,
      rw (layout_blob e, q, regroup hd _ _ key tail, regroup hd _ _ key rest) r,
      omega arith,
    )

move_key_lem :
    (r : Record) (hd : ℕ) (old key rest array : Blob) (n : ℕ)
    → let kn = (encode_varint (length key)).1 in
      let kv = varint (length key) in
      r.key ≡ (1 + length old + kn, length key)
      → length (take n array) ≡ n
      → n ≤ length old + length rest
      → (rest' : Blob) × (move_key r ((hd ∷ old) ++ (kv ++ (key ++ rest))) array n kn
          ≡ some ((hd ∷ take n array) ++ (kv ++ (key ++ rest')), 1 + n + kn))
        × (length rest' + n ≡ length rest + length old)
unfolding move_key
move_key_lem r hd old key rest array n k l room =
    let kn = (encode_varint (length key)).1 in
    let kv = varint (length key) in
    let pre = (hd ∷ old) ++ kv in
    let lk = length-varint (length key) in
    let buffer = (hd ∷ old) ++ (kv ++ (key ++ rest)) in
    let temp : slice buffer (1 + length old + kn) (length key) ≡ some key =
      rw (← append_assoc (hd ∷ old) kv (key ++ rest))
        (slice-append pre key rest _ _ (simp (length-append, length-varint) (omega arith)) refl) in
    let cont : Blob → Option (Blob × ℕ) = λ b. some (b, 1 + n + kn) in
    let (r₃, e, m) =
      refill cont hd (old ++ (kv ++ (key ++ rest))) (take n array) kv key (1 + n) (1 + n + kn)
        (simp (length-append) (omega arith)) (omega arith) (omega arith) in
    let m' : length r₃ + length (take n array) + length kv + length key
        ≡ length old + (length kv + (length key + length rest)) =
      simp length-append at m in
    (r₃, rw (k, temp) (unfold varint in e), omega arith)

keep_key_lem :
    (r : Record) (hd : ℕ) (old tail array : Blob) (n : ℕ)
    → length (take n array) ≡ n
    → n ≡ length old
    → keep_key r ((hd ∷ old) ++ tail) array n ≡ some ((hd ∷ take n array) ++ tail, r.key.0)
unfolding keep_key
keep_key_lem r hd old tail array n l m =
    rw (write-append (hd ∷ []) old tail (take n array) 1 refl (omega arith))

abbrev pub value_len : Blob → ℕ
value_len new = (encode_varint (length new)).1

-- The record that an overwrite leaves: the data layout of the key and the new value, but for the
-- range of the value, which is the old one.
abbrev pub overwritten : Entry → Blob → Record
overwritten e new = record {
  blob = data_bytes (entry_key e) new;
  key = (1 + new_len e new + key_len_size e, length (entry_key e));
  value = (layout e).value;
}

pub same_log :
    (key new : Blob) (kn : ℕ)
    → kn ≡ (encode_varint (length key)).1
    → value_len new + kn + length key + length new ≡ data_log_size key new
unfolding data_log_size
same_log key new kn h = omega arith

pub checked_sub-add : (a b : ℕ) → checked_sub (a + b) b ≡ some a
unfolding checked_sub
checked_sub-add a b = ground arith

-- The branch on the length of the log size, in both cases.
branch_lem :
    (e : Entry) (new : Blob) (r : Record) (hd : ℕ) (rest : Blob)
    → let n = new_len e new in
      let key = entry_key e in
      let kn = key_len_size e in
      let blob = (hd ∷ varint (head_log e)) ++ (varint (length key) ++ (key ++ rest)) in
      let array = (encode_varint (data_log_size key new)).0 in
      r.key ≡ (1 + old_len e + kn, length key)
      → n ≤ old_len e + length rest
      → (rest' : Blob) × ((if not (old_len e == n)
            then move_key r blob array n kn
            else keep_key r blob array n)
          ≡ some (
            (hd ∷ varint (data_log_size key new)) ++ (varint (length key) ++ (key ++ rest')),
            1 + n + kn,
          ))
        × (length rest' + n ≡ length rest + old_len e)
unfolding varint
branch_lem e new r hd rest k room =
    let n = new_len e new in
    let key = entry_key e in
    let log = data_log_size key new in
    let array = (encode_varint log).0 in
    let lo = length-varint (head_log e) in
    let ln = length-varint log in
    elim (Bool-cases (old_len e == n)) [
      | inl same ↦ (
        rest,
        rw
            (
              same,
              keep_key_lem r hd (varint (head_log e)) (varint (length key) ++ (key ++ rest)) array n
                  ln (ground (arith, lo)),
              k,
            )
            (ground arith),
        ground arith,
      )
      | inr moved ↦
          let (rest', q, m) =
            move_key_lem r hd (varint (head_log e)) key rest array n (rw lo k) ln (omega arith) in
          (rest', rw (moved, q), omega arith)
    ]

-- For a record as it was encoded, where the new log size and value leave room for the old log size,
-- and the key is shorter than 2 ^ 63, an overwrite does not panic: the bytes and the range of the key
-- are the data layout of the key and the new value, and the range of the value is the old one.
pub overwrite_data_lem :
    (e : Entry) (new : Blob)
    → length (entry_key e) < 2 ^ 63
    → old_len e ≤ new_len e new + value_len new + length new
    → overwrite_data (layout e) new ≡ some (overwritten e new)
unfolding overwrite_data
overwrite_data_lem e new small room =
    let key = entry_key e in
    let kn = key_len_size e in
    let n = new_len e new in
    let log = data_log_size key new in
    let vs = varint_size_from_len-encode_varint (length key) small in
    let c₁ : checked_sub (1 + old_len e + kn) kn ≡ some (1 + old_len e) = checked_sub-add _ kn in
    let c₂ : checked_sub (1 + old_len e) 1 ≡ some (old_len e) =
      unfold checked_sub in ground arith in
    let sl = same_log key new kn refl in
    let (hd, rest, rz, rl) = resized e (n + log + 1) (omega arith) in
    let r : Record = record {
      blob = (layout e).blob;
      key = (1 + old_len e + kn, length key);
      value = (layout e).value;
    } in
    let (rest', br, bl) = branch_lem e new r hd rest refl (omega arith) in
    let cont : Blob → Option Record =
      λ b. some (record { blob = b; key = (1 + n + kn, length key); value = (layout e).value }) in
    let fin =
      finish_writes cont hd (varint log) (varint (length key)) key (varint (length new)) new rest'
        (1 + n + kn + length key) (1 + n + kn + length key + value_len new)
        (omega (arith, length-varint (length new)))
        (omega (arith, length-varint log, length-varint (length key)))
        (omega (arith, length-varint (length new))) in
    rw (layout_key e, vs, sl, c₁, c₂, rz, br) (unfold varint data_bytes in fin)
