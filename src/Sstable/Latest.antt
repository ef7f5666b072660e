-- ===== src/Sstable/Latest.antt =====
-- What a sequence of records says of a key, and where in a file it is said.
use lsmlite.Base.{ℕ, ◌+◌, ◌≤◌, ◌<◌, ◌^◌, ◌≡◌, refl, ap, ◌∙◌, arith, All, ◌⊎◌, inl, inr}
use lsmlite.Base.{Option, none, some, Bool, true, false, List, [], ◌∷◌, ◌++◌, length, length-append}
use lsmlite.Base.{append_assoc, if◌then◌else◌, Bool-cases}
use lsmlite.Base.Bytes.{Blob}
use lsmlite.Base.Key.{key_eq, eq_of_key_eq}
use lsmlite.Disk.Layout.{Entry, data_entry, tombstone_entry, bytes, entry_key, data_log_size}
use lsmlite.Disk.Read.{SearchResult, ok, disk_record_not_found, tombstone, read_data_block}
use lsmlite.Disk.ReadHead.{data_head}
use lsmlite.Disk.ReadBack.{read_data_block-data_bytes, read_data_block-tombstone_bytes}
use lsmlite.Wal.Replay.{log_bytes, log_bytes-append}

unfoldable pub or_this {ℓ} : {A : Type ℓ} → Option A → Bool → A → Option A
or_this (some a) b this = some a
or_this none true this = some this
or_this none false this = none

-- The last entry for a key.
unfoldable pub last_entry : List Entry → Blob → Option Entry
last_entry [] key = none
last_entry (e ∷ es) key = or_this (last_entry es key) (key_eq (entry_key e) key) e

-- Its offset in a file in which the entries' bytes begin at `offset`.
unfoldable pub last_offset : List Entry → ℕ → Blob → Option ℕ
last_offset [] offset key = none
last_offset (e ∷ es) offset key =
    or_this (last_offset es (offset + length (bytes e)) key) (key_eq (entry_key e) key) offset

unfoldable pub answer : Entry → SearchResult
answer (data_entry key value) = ok value
answer (tombstone_entry key) = tombstone

-- What the last entry for a key says.
unfoldable pub latest : List Entry → Blob → SearchResult
latest es key = elim (last_entry es key) [ none ↦ disk_record_not_found | some e ↦ answer e ]

-- All of a data record before its value is in the first read.
abbrev pub Readable : Entry → Type 0
Readable (data_entry key value) =
    (data_log_size key value < 2 ^ 63) × (length (data_head key value) ≤ 4096)
Readable (tombstone_entry key) = Unit {0}

pub last_offset-append :
    (es : List Entry) (e : Entry) (offset : ℕ) (key : Blob)
    → last_offset (es ++ (e ∷ [])) offset key ≡ (
        if key_eq (entry_key e) key
        then some (offset + length (log_bytes es))
        else last_offset es offset key)
unfolding last_offset or_this
last_offset-append [] e offset key = elim (Bool-cases (key_eq (entry_key e) key)) [
  | inl t ↦ rw t (ap some (omega arith))
  | inr f ↦ rw f
]
last_offset-append (x ∷ es) e offset key = elim (Bool-cases (key_eq (entry_key e) key)) [
  | inl t ↦
      rw (last_offset-append es e (offset + length (bytes x)) key, t)
        (ap some (omega (arith, length-append (bytes x) (log_bytes es))))
  | inr f ↦ rw (last_offset-append es e (offset + length (bytes x)) key, f)
]

-- Both are there or neither is.
found_at :
    (es : List Entry) (offset : ℕ) (key : Blob)
    → ((last_offset es offset key ≡ none) × (last_entry es key ≡ none))
      ⊎ ((before : List Entry) × (e : Entry) × (after : List Entry) × (es ≡ before ++ (e ∷ after))
          × (last_offset es offset key ≡ some (offset + length (log_bytes before)))
          × (last_entry es key ≡ some e)
          × (entry_key e ≡ key))
unfolding last_offset last_entry or_this
found_at [] offset key = inl (refl, refl)
found_at (x ∷ es) offset key = elim (found_at es (offset + length (bytes x)) key) [
  | inr (before, e, after, s, p, q, k) ↦ inr (
    x ∷ before,
    e,
    after,
    ap (λ l. x ∷ l) s,
    rw p (ap some (omega (arith, length-append (bytes x) (log_bytes before)))),
    rw q,
    k,
  )
  | inl (p, q) ↦ elim (Bool-cases (key_eq (entry_key x) key)) [
    | inl t ↦ inr (
      [],
      x,
      es,
      refl,
      rw (p, t) (ap some (omega arith)),
      rw (q, t),
      eq_of_key_eq (entry_key x) key t,
    )
    | inr f ↦ inl (rw (p, f), rw (q, f))
  ]
]

read_entry :
    (before rest : Blob) (e : Entry)
    → Readable e
    → read_data_block (before ++ (bytes e ++ rest)) (length before) (entry_key e) ≡ some (answer e)
unfolding bytes answer
read_entry before rest (data_entry key value) h =
    read_data_block-data_bytes before rest key value h.0 h.1
read_entry before rest (tombstone_entry key) h = read_data_block-tombstone_bytes before rest key key

All-at :
    (P : Entry → Type 0) (xs : List Entry) (e : Entry) (ys : List Entry)
    → All P (xs ++ (e ∷ ys))
    → P e
All-at P [] e ys a = a.0
All-at P (x ∷ xs) e ys a = All-at P xs e ys a.1

-- Reading a file at the last offset of a key gives what the last entry for it says.
pub read_last :
    (es : List Entry) (pre rest file : Blob) (key : Blob)
    → file ≡ pre ++ (log_bytes es ++ rest)
    → All Readable es
    → (elim (last_offset es (length pre) key) [
      | none ↦ some disk_record_not_found
      | some o ↦ read_data_block file o key
    ])
      ≡ some (latest es key)
unfolding latest
read_last es pre rest file key f h = elim (found_at es (length pre) key) [
  | inl (p, q) ↦ rw (p, latest, q)
  | inr (before, e, after, s, p, q, k) ↦
      let r =
        read_entry (pre ++ log_bytes before) (log_bytes after ++ rest) e
          (All-at Readable before e after (rw s at h)) in
      let l : length (pre ++ log_bytes before) ≡ length pre + length (log_bytes before) =
        length-append pre (log_bytes before) in
      let split : file ≡ (pre ++ log_bytes before) ++ (bytes e ++ (log_bytes after ++ rest)) =
        f ∙ rw (s, log_bytes-append before (e ∷ after)) (simp append_assoc) in
      rw (p, latest, q, split, ← k, ← l) r
]
