-- ===== src/Wal/Replay.antt =====
-- Reading a log back.
use lsmlite.Base.{ℕ, zero, suc, ◌+◌, ◌≤◌, ◌<◌, ◌≡◌, refl, arith, some, List, [], ◌∷◌, ◌++◌}
use lsmlite.Base.{length, length-append, append_assoc, All, map, leb, le→leb}
use lsmlite.Base.{lt→leb_false, true, false}
use lsmlite.Base.Bytes.{Blob}
use lsmlite.Wal.{WalIterator, next, collect, replay}
use lsmlite.Disk.Layout.{Entry, Fits, bytes, layout, length-bytes_pos}
use lsmlite.Disk.RoundTrip.{decode_disk_record-layout}

-- The records one behind the other.
abbrev pub log_bytes : List Entry → Blob
log_bytes [] = []
log_bytes (e ∷ es) = bytes e ++ log_bytes es

pub log_bytes-append : (xs ys : List Entry) → log_bytes (xs ++ ys) ≡ log_bytes xs ++ log_bytes ys
log_bytes-append [] ys = refl
log_bytes-append (x ∷ xs) ys = rw (log_bytes-append xs ys, append_assoc)

abbrev at : Blob → ℕ → WalIterator
at buffer offset = record { buffer = buffer; offset = offset }

next-layout :
    (before rest : Blob) (e : Entry)
    → Fits e
    → let buffer = before ++ (bytes e ++ rest) in
      next (at buffer (length before))
      ≡ some (some (layout e), at buffer (length before + length (bytes e)))
unfolding next
next-layout before rest e h =
    let room : leb (length (before ++ (bytes e ++ rest))) (length before) ≡ false =
      lt→leb_false _ _ (
        omega (
          arith,
          length-append before (bytes e ++ rest),
          length-append (bytes e) rest,
          length-bytes_pos e,
        )) in
    rw (room, decode_disk_record-layout before rest e h)

collect-log_bytes :
    (es : List Entry) (before : Blob) (rounds : ℕ)
    → All Fits es
    → length es < rounds
    → collect rounds (at (before ++ log_bytes es) (length before)) ≡ some (map layout es)
unfolding collect
collect-log_bytes es before zero h r = absurd (omega arith)
collect-log_bytes [] before (suc rounds) h r =
    let full : leb (length (before ++ [])) (length before) ≡ true =
      le→leb _ _ (omega (arith, length-append before [])) in
    unfold next in (rw full)
collect-log_bytes (e ∷ es) before (suc rounds) (h, hs) r =
    let move =
      rw (length-append before (bytes e), append_assoc before (bytes e) (log_bytes es)) at
        (collect-log_bytes es (before ++ bytes e) rounds hs (omega arith)) in
    rw (next-layout before (log_bytes es) e h, move)

length-log_bytes : (es : List Entry) → length es ≤ length (log_bytes es)
length-log_bytes [] = omega arith
length-log_bytes (e ∷ es) =
    omega (arith, length-append (bytes e) (log_bytes es), length-bytes_pos e, length-log_bytes es)

-- A log of any records whose sizes fit 64 bits reads back as these records, in order.
pub replay-log_bytes :
    (es : List Entry) → All Fits es → replay (log_bytes es) ≡ some (map layout es)
unfolding replay
replay-log_bytes es h = collect-log_bytes es [] _ h (omega (arith, length-log_bytes es))
