-- ===== src/Wal/Shard/Invariant.antt =====
-- The file and the writer of a host in pkg/metricstore/walCheckpoint.go hold the messages of the log.
use cc_backend.Common.{
  ℕ, zero, suc, ◌≤◌, ◌<◌, ◌≡◌, refl, sym, ap, ◌∙◌, Bool, true, false, ◌&&◌, Option, none, some,
  List, [], ◌∷◌, ◌++◌, append-nil, append_assoc, ltb, leb, length, ◌⊎◌, inl, inr, take, drop, arith,
  Bool-cases, Option-cases, length-append,
}
use mathlib.Core.Bool.{true≢false}
use mathlib.Core.Path.{subst⁻¹}
use cc_backend.Bytes.{Bytes, put_le, length-put_le}
use cc_backend.Wal.{Encoding, WalMessage, write_wal_record, write_wal_records}
use cc_backend.Wal.Shard.{
  wal_file_magic, Writer, HostWal, Effect, unchanged, added, restarted, cleared, apply_effect,
  WalEvent, message, rotate, tick, spill, shut_down, open_writer, get_or_open_wal, flush_dirty,
  removed, process_rotate, spill_some, close_all, append_record, process_msg, step, run,
}

module _ (en : Encoding) where
  open en use {Float}

  -- What the file of a list of messages holds in the end.
  unfoldable pub image : List (WalMessage Float) → Bytes
  image log = put_le 4 wal_file_magic ++ write_wal_records en log

  -- A writer that is not dirty holds the magic number of the file at most.
  abbrev pub IsOpen : Bytes → Writer → List (WalMessage Float) → Type 0
  IsOpen file w log =
      (file ++ w.pending ≡ image log) × (w.dirty ≡ false → (w.pending ≡ []) ⊎ (log ≡ []))

  -- The state of a file that no writer is open on.
  unfoldable pub IsClosed : Bytes → List (WalMessage Float) → Type 0
  IsClosed file log = ((file ≡ []) × (log ≡ [])) ⊎ (file ≡ image log)

  unfoldable pub IsLog : HostWal → List (WalMessage Float) → Type 0
  IsLog h log = elim h.writer [ none ↦ IsClosed h.file log | some w ↦ IsOpen h.file w log ]

  take-drop : (k : ℕ) (bs : Bytes) → take k bs ++ drop k bs ≡ bs
  take-drop zero bs = refl
  take-drop (suc k) [] = refl
  take-drop (suc k) (b ∷ bs) = ap (λ l. b ∷ l) (take-drop k bs)

  drop-none : (k : ℕ) → drop {A = ℕ} k [] ≡ []
  drop-none zero = refl
  drop-none (suc k) = refl

  write_all-append :
      (log more : List (WalMessage Float))
      → write_wal_records en (log ++ more) ≡ write_wal_records en log ++ write_wal_records en more
  unfolding write_wal_records
  write_all-append [] more = refl
  write_all-append (m ∷ log) more =
      ap (λ bs. write_wal_record en m ++ bs) (write_all-append log more)
      ∙ sym (
          append_assoc (write_wal_record en m) (write_wal_records en log)
            (write_wal_records en more))

  length-image : (log : List (WalMessage Float)) → 4 ≤ length (image log)
  unfolding image
  length-image log = omega (
    arith,
    length-append (put_le 4 wal_file_magic) (write_wal_records en log),
    length-put_le 4 wal_file_magic,
  )

  empty-log :
      (file : Bytes) (log : List (WalMessage Float)) → file ≡ [] → IsClosed file log → log ≡ []
  unfolding IsClosed
  empty-log file log e (inl (p, q)) = q
  empty-log file log e (inr p) = absurd (omega (arith, length-image log, ap length p, ap length e))

  kept-image :
      (file : Bytes) (log : List (WalMessage Float))
      → 0 < length file
      → IsClosed file log
      → file ≡ image log
  unfolding IsClosed
  kept-image file log h (inl (p, q)) = absurd (omega (arith, ap length p))
  kept-image file log h (inr p) = p

  open_kept :
      (b : ℕ) (file : Bytes)
      → open_writer (record { file = b ∷ file; writer = none })
        ≡ record { pending = []; size = length (b ∷ file); dirty = false }
  unfolding open_writer
  open_kept b file = ground arith

  get_or_open_wal-IsOpen :
      (can_open : Bool) (file : Bytes) (wr : Option Writer) (log : List (WalMessage Float))
      (w : Writer)
      → IsLog (record { file = file; writer = wr }) log
      → get_or_open_wal can_open (record { file = file; writer = wr }) ≡ some w
      → IsOpen file w log
  unfolding IsLog get_or_open_wal open_writer image write_wal_records
  get_or_open_wal-IsOpen can_open file (some v) log w inv e =
      let same : v ≡ w = cc in rw (sym same) inv
  get_or_open_wal-IsOpen false file none log w inv e = cc
  get_or_open_wal-IsOpen true [] none log w inv e =
      let same : open_writer (record { file = []; writer = none }) ≡ w = cc in
      let none_yet = empty-log [] log refl inv in
      rw (sym same, none_yet) (sym (append-nil (put_le 4 wal_file_magic)), λ q. inr refl)
  get_or_open_wal-IsOpen true (b ∷ file) none log w inv e =
      let same : open_writer (record { file = b ∷ file; writer = none }) ≡ w = cc in
      rw (sym same, open_kept b file)
        (append-nil (b ∷ file) ∙ kept-image (b ∷ file) log (omega arith) inv, λ q. inl refl)

  append-IsLog :
      (max : ℕ) (h : HostWal) (w : Writer) (log : List (WalMessage Float)) (msg : WalMessage Float)
      → IsOpen h.file w log
      → IsLog (append_record en max h w msg) (log ++ msg ∷ [])
  unfolding IsLog append_record image write_wal_records
  append-IsLog max h w log msg (p, q) = (
    sym (append_assoc h.file w.pending (write_wal_record en msg))
        ∙ ap (λ bs. bs ++ write_wal_record en msg) p
        ∙ append_assoc (put_le 4 wal_file_magic) (write_wal_records en log)
            (write_wal_record en msg)
        ∙ ap (λ bs. put_le 4 wal_file_magic ++ bs)
            (sym (
              write_all-append log (msg ∷ [])
              ∙ ap (λ bs. write_wal_records en log ++ bs) (append-nil (write_wal_record en msg)))),
    λ d. absurd (true≢false d),
  )

  pub removed-IsLog : IsLog removed []
  unfolding IsLog IsClosed
  removed-IsLog = inl (refl, refl)

  abbrev Stays : List (WalMessage Float) → HostWal × Effect (WalMessage Float) → Type 0
  Stays log r = IsLog r.0 (apply_effect r.1 log)

  moved :
      (log : List (WalMessage Float)) (r r' : HostWal × Effect (WalMessage Float))
      → r ≡ r'
      → Stays log r'
      → Stays log r
  moved log r r' e = subst⁻¹ (Stays log) e

  process-Stays :
      (max : ℕ) (h : HostWal) (can_open can_reopen : Bool) (msg : WalMessage Float)
      (log : List (WalMessage Float))
      → IsLog h log
      → Stays log (process_msg en max h can_open can_reopen msg)
  unfolding process_msg
  process-Stays max h can_open can_reopen msg log inv =
      elim (Option-cases (get_or_open_wal can_open h)) [
        | inl closed ↦ moved log _ (h, unchanged) (rw (process_msg, closed) refl) inv
        | inr (w, opened) ↦ elim (Bool-cases (ltb 0 max && leb max w.size)) [
          | inr small ↦
              moved log _ (append_record en max h w msg, added msg)
                (rw (process_msg, opened, small) refl)
                (append-IsLog max h w log msg
                  (get_or_open_wal-IsOpen can_open h.file h.writer log w inv opened))
          | inl full ↦ elim (Option-cases (get_or_open_wal can_reopen removed)) [
            | inl closed ↦
                moved log _ (removed, cleared) (rw (process_msg, opened, full, closed) refl)
                  removed-IsLog
            | inr (v, again) ↦
                moved log _ (append_record en max removed v msg, restarted msg)
                  (rw (process_msg, opened, full, again) refl)
                  (append-IsLog max removed v [] msg
                    (get_or_open_wal-IsOpen can_reopen [] none [] v removed-IsLog again))
          ]
        ]
      ]

  flush-IsLog :
      (file : Bytes) (wr : Option Writer) (log : List (WalMessage Float))
      → IsLog (record { file = file; writer = wr }) log
      → IsLog (flush_dirty (record { file = file; writer = wr })) log
  unfolding IsLog flush_dirty
  flush-IsLog file none log inv = inv
  flush-IsLog file (some w) log (p, q) = elim (Bool-cases w.dirty) [
    | inl d ↦ rw d (append-nil (file ++ w.pending) ∙ p, λ e. inl refl)
    | inr d ↦ rw d (p, λ e. q d)
  ]

  spill-IsLog :
      (k : ℕ) (file : Bytes) (wr : Option Writer) (log : List (WalMessage Float))
      → IsLog (record { file = file; writer = wr }) log
      → IsLog (spill_some k (record { file = file; writer = wr })) log
  unfolding IsLog spill_some
  spill-IsLog k file none log inv = inv
  spill-IsLog k file (some w) log (p, q) = (
    append_assoc file (take k w.pending) (drop k w.pending)
        ∙ ap (λ bs. file ++ bs) (take-drop k w.pending)
        ∙ p,
    λ d. elim (q d) [ inl e ↦ inl (ap (drop k) e ∙ drop-none k) | inr e ↦ inr e ],
  )

  close-IsLog :
      (file : Bytes) (wr : Option Writer) (log : List (WalMessage Float))
      → IsLog (record { file = file; writer = wr }) log
      → IsLog (close_all (record { file = file; writer = wr })) log
  unfolding IsLog IsClosed close_all
  close-IsLog file none log inv = inv
  close-IsLog file (some w) log (p, q) = inr p

  rotate-Stays :
      (file : Bytes) (wr : Option Writer) (log : List (WalMessage Float))
      → IsLog (record { file = file; writer = wr }) log
      → Stays log (process_rotate (record { file = file; writer = wr }))
  unfolding IsLog IsClosed process_rotate
  rotate-Stays file none log inv = inv
  rotate-Stays file (some w) log inv = inl (refl, refl)

  step-Stays :
      (max : ℕ) (h : HostWal) (log : List (WalMessage Float)) (e : WalEvent (WalMessage Float))
      → IsLog h log
      → Stays log (step en max h e)
  unfolding step
  step-Stays max h log (message can_open can_reopen msg) inv =
      process-Stays max h can_open can_reopen msg log inv
  step-Stays max h log rotate inv = rotate-Stays h.file h.writer log inv
  step-Stays max h log tick inv = flush-IsLog h.file h.writer log inv
  step-Stays max h log (spill k) inv = spill-IsLog k h.file h.writer log inv
  step-Stays max h log shut_down inv = close-IsLog h.file h.writer log inv

  pub run-IsLog :
      (max : ℕ) (h : HostWal) (log : List (WalMessage Float))
      (es : List (WalEvent (WalMessage Float)))
      → IsLog h log
      → let (h', log') = run en max h log es in IsLog h' log'
  unfolding run
  run-IsLog max h log [] inv = inv
  run-IsLog max h log (e ∷ es) inv =
      let (h', effect) = step en max h e in
      run-IsLog max h' (apply_effect effect log) es (step-Stays max h log e inv)
