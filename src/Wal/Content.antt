-- ===== src/Wal/Content.antt =====
-- What the log's file and its buffer hold after any sequence of writes.
use lsmlite.Base.{ℕ, ◌<◌, ◌≡◌, refl, ap, ◌∙◌, arith, some, inl, inr, false}
use lsmlite.Base.{List, [], ◌∷◌, ◌++◌, map, append_assoc, append-nil, length, All}
use lsmlite.Base.{Bool-cases}
use lsmlite.Wal.{Wal, new, needs_flush, flush, write_log, wal_buffer_size}
use lsmlite.Wal.{replay}
use lsmlite.Wal.Replay.{log_bytes, log_bytes-append, replay-log_bytes}
use lsmlite.Disk.Layout.{Entry, Fits, bytes, layout}

-- A write with its two readings of the clock.
pub record Write : Type 0 where
  pub checked : ℕ
  pub flushed : ℕ
  pub entry : Entry

unfoldable pub write_logs : List Write → Wal → Wal
write_logs [] w = w
write_logs (op ∷ ops) w = write_logs ops (write_log op.checked op.flushed w (bytes op.entry))

abbrev pub entries : List Write → List Entry
entries ops = map (λ op. op.entry) ops

-- The entries `es` lie in the file, up to `kept`, and behind it in the buffer; all but the last
-- of those in the buffer are less than the flush size.
pub record Holds (w : Wal) (es kept : List Entry) (pending : List Entry) : Type 0 where
  pub whole : es ≡ kept ++ pending
  pub in_file : w.fd ≡ log_bytes kept
  pub in_buffer : w.buffer ≡ log_bytes pending

-- All but the last record of the buffer take less than the flush size.
abbrev pub FewPending : List Entry → Type 0
FewPending [] = Unit {0}
FewPending (e ∷ es) =
    (front : List Entry) × (last : Entry) × (e ∷ es ≡ front ++ (last ∷ []))
    × (length (log_bytes front) < wal_buffer_size)

few_snoc :
    (es : List Entry) (e : Entry)
    → length (log_bytes es) < wal_buffer_size
    → FewPending (es ++ (e ∷ []))
few_snoc [] e h = ([], e, refl, h)
few_snoc (x ∷ xs) e h = (x ∷ xs, e, refl, h)

write_log-Holds :
    (c f : ℕ) (w : Wal) (es kept pending : List Entry) (e : Entry)
    → Holds w es kept pending
    → (kept' : List Entry) × (pending' : List Entry) × Holds
        (write_log c f w (bytes e))
        (es ++ (e ∷ []))
        kept'
        pending'
      × FewPending pending'
unfolding write_log
write_log-Holds c f w es kept pending e h = elim (Bool-cases (needs_flush c w)) [
  | inl full ↦ (
    kept ++ pending,
    e ∷ [],
    rw full (record {
      whole = ap (λ l. l ++ (e ∷ [])) h.whole;
      in_file = unfold flush in rw (h.in_file, h.in_buffer, log_bytes-append kept pending);
      in_buffer = unfold flush in rw append-nil;
    }),
    few_snoc [] e (omega arith),
  )
  | inr room ↦ (
    kept,
    pending ++ (e ∷ []),
    rw room (record {
      whole = ap (λ l. l ++ (e ∷ [])) h.whole ∙ append_assoc kept pending (e ∷ []);
      in_file = h.in_file;
      in_buffer = rw (h.in_buffer, log_bytes-append pending (e ∷ []), append-nil);
    }),
    few_snoc pending e (few c w pending room h.in_buffer),
  )
]
  where
    few :
        (c : ℕ) (w : Wal) (pending : List Entry)
        → needs_flush c w ≡ false
        → w.buffer ≡ log_bytes pending
        → length (log_bytes pending) < wal_buffer_size
    few c w pending room e = rw (← e) (unfold needs_flush in ground arith)

write_logs-Holds :
    (ops : List Write) (w : Wal) (es kept pending : List Entry)
    → Holds w es kept pending
    → FewPending pending
    → (kept' : List Entry) × (pending' : List Entry) × Holds
        (write_logs ops w)
        (es ++ entries ops)
        kept'
        pending'
      × FewPending pending'
unfolding write_logs
write_logs-Holds [] w es kept pending h few = (kept, pending, rw append-nil h, few)
write_logs-Holds (op ∷ ops) w es kept pending h few =
    let (kept', pending', h', few') =
      write_log-Holds op.checked op.flushed w es kept pending op.entry h in
    rw (← append_assoc es (op.entry ∷ []) (entries ops))
      (write_logs-Holds ops _ (es ++ (op.entry ∷ [])) kept' pending' h' few')

-- Whatever the clock says, after any writes of records whose sizes fit 64 bits to a fresh log, the
-- file reads back as a prefix of the records written, and of the others all but the last take less
-- than the flush size.
pub crash_replay :
    (ops : List Write) (filename now : ℕ)
    → All Fits (entries ops)
    → (kept : List Entry) × (lost : List Entry) × (entries ops ≡ kept ++ lost)
      × (replay (write_logs ops (new filename now)).fd ≡ some (map layout kept))
      × FewPending lost
crash_replay ops filename now fits =
    let start : Holds (new filename now) [] [] [] =
      unfold new in record { whole = refl; in_file = refl; in_buffer = refl } in
    let (kept, lost, h, few) = write_logs-Holds ops (new filename now) [] [] [] start tt in
    (
      kept,
      lost,
      h.whole,
      rw h.in_file (replay-log_bytes kept (fits_front kept lost (rw h.whole at fits))),
      few,
    )
  where
    fits_front : (xs ys : List Entry) → All Fits (xs ++ ys) → All Fits xs
    fits_front [] ys a = tt
    fits_front (x ∷ xs) ys a = (a.0, fits_front xs ys a.1)
