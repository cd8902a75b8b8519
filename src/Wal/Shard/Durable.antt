-- ===== src/Wal/Shard/Durable.antt =====
-- What a crash leaves of the log of a host in pkg/metricstore/walCheckpoint.go.
use cc_backend.Common.{
  ℕ, ◌<◌, ◌≡◌, refl, sym, ap, ◌∙◌, Option, none, some, List, [], ◌∷◌, ◌++◌, map, append-nil, ◌==◌,
  length, ◌⊎◌, inl, inr, ◌≢◌, take, if◌then◌else◌, arith, Bool-cases, length-append, All,
}
use mathlib.Core.Path.{subst}
use cc_backend.Bytes.{
  Bytes, put_le, get_le, split_at, split_at-append, split_at_short, length-put_le,
}
use cc_backend.Wal.{
  Encoding, WalMessage, payload_size, write_wal_record, write_wal_records, replay_records,
}
use cc_backend.Wal.RoundTrip.{IsWritable, recorded}
use cc_backend.Wal.Shard.{
  wal_file_magic, Writer, HostWal, WalEvent, flush_dirty, removed, close_all, run, load_wal_file,
}
use cc_backend.Wal.Shard.Invariant.{image, IsClosed, IsLog, removed-IsLog, run-IsLog}
use cc_backend.Wal.Shard.Prefix.{cuts, replay-cut}

module _ (en : Encoding) where
  open en use {Float}

  load_rest :
      (bs magic rest : Bytes)
      → 0 < length bs
      → split_at 4 bs ≡ some (magic, rest)
      → load_wal_file en bs
        ≡ (if get_le magic == wal_file_magic then some (replay_records en rest) else none)
  unfolding load_wal_file
  load_rest [] magic rest h e = absurd (omega arith)
  load_rest (b ∷ bs) magic rest h e = rw (load_wal_file, e) refl

  load-image :
      (bs : Bytes) → load_wal_file en (put_le 4 wal_file_magic ++ bs) ≡ some (replay_records en bs)
  unfolding get_le put_le
  load-image bs =
      load_rest (put_le 4 wal_file_magic ++ bs) (put_le 4 wal_file_magic) bs
        (omega (arith, length-append (put_le 4 wal_file_magic) bs, length-put_le 4 wal_file_magic))
        (split_at-append (put_le 4 wal_file_magic) bs 4 (length-put_le 4 wal_file_magic))

  load-short : (bs : Bytes) → 0 < length bs → length bs < 4 → load_wal_file en bs ≡ none
  unfolding load_wal_file
  load-short [] h h' = absurd (omega arith)
  load-short (b ∷ bs) h h' = rw (load_wal_file, split_at_short 4 (b ∷ bs) h') refl

  -- What is read of a file that holds a part of the log.
  Loads : Option (List (WalMessage Float)) → List (WalMessage Float) → ℕ → Type 0
  Loads loaded log size =
      ((k : ℕ) × (loaded ≡ some (map (recorded en) (take k log)))) ⊎ ((loaded ≡ none) × (size < 4))

  load-part :
      (log : List (WalMessage Float)) (xs ys : Bytes)
      → All (λ m. IsWritable (payload_size en m) m) log
      → xs ++ ys ≡ image en log
      → Loads (load_wal_file en xs) log (length xs)
  unfolding Loads image load_wal_file replay_records cc_backend.Wal.replay_loop
  load-part log xs ys h e =
      elim (cuts xs ys (put_le 4 wal_file_magic) (write_wal_records en log) e) [
        | inl (xs', p, q) ↦
            let (k, same, all) = replay-cut en log xs' ys (length xs') h q (omega arith) in
            inl (k, ap (load_wal_file en) p ∙ load-image xs' ∙ ap some same)
        | inr (lost, back, p) ↦ short xs (
            omega
              (arith, ap length p, length-put_le 4 wal_file_magic, length-append xs (lost ∷ back)))
      ]
    where
      short : (xs : Bytes) → length xs < 4 → Loads (load_wal_file en xs) log (length xs)
      short [] h = inl (0, refl)
      short (x ∷ xs) h = inr (load-short (x ∷ xs) (omega arith) h, h)

  load-whole :
      (log : List (WalMessage Float)) (xs : Bytes)
      → All (λ m. IsWritable (payload_size en m) m) log
      → xs ≡ image en log
      → load_wal_file en xs ≡ some (map (recorded en) log)
  unfolding image replay_records
  load-whole log xs h e =
      let bs = write_wal_records en log in
      let (k, same, all) = replay-cut en log bs [] (length bs) h (append-nil bs) (omega arith) in
      ap (load_wal_file en) e ∙ load-image bs ∙ ap some (same ∙ ap (map (recorded en)) (all refl))

  load-close :
      (file : Bytes) (wr : Option Writer) (log : List (WalMessage Float))
      → All (λ m. IsWritable (payload_size en m) m) log
      → IsLog en (record { file = file; writer = wr }) log
      → load_wal_file en (close_all (record { file = file; writer = wr })).file
        ≡ some (map (recorded en) log)
  unfolding IsLog IsClosed close_all load_wal_file
  load-close file none log h (inl (p, q)) = rw (p, q) refl
  load-close file none log h (inr p) = load-whole log file h p
  load-close file (some w) log h (p, q) = load-whole log _ h p

  load-flush :
      (file : Bytes) (wr : Option Writer) (log : List (WalMessage Float))
      → All (λ m. IsWritable (payload_size en m) m) log
      → IsLog en (record { file = file; writer = wr }) log
      → log ≢ []
      → load_wal_file en (flush_dirty (record { file = file; writer = wr })).file
        ≡ some (map (recorded en) log)
  unfolding IsLog IsClosed flush_dirty
  load-flush file none log h (inl (p, q)) some_log = absurd (some_log q)
  load-flush file none log h (inr p) some_log = load-whole log file h p
  load-flush file (some w) log h (p, q) some_log = elim (Bool-cases w.dirty) [
    | inl d ↦ rw d (load-whole log (file ++ w.pending) h p)
    | inr d ↦ rw d (elim (q d) [
      | inl e ↦ load-whole log file h (sym (append-nil file) ∙ ap (λ bs. file ++ bs) (sym e) ∙ p)
      | inr e ↦ absurd (some_log e)
    ])
  ]

  load-now :
      (file : Bytes) (wr : Option Writer) (log : List (WalMessage Float))
      → All (λ m. IsWritable (payload_size en m) m) log
      → IsLog en (record { file = file; writer = wr }) log
      → Loads (load_wal_file en file) log (length file)
  unfolding IsLog IsClosed Loads load_wal_file
  load-now file none log h (inl (p, q)) = rw p (inl (0, refl))
  load-now file none log h (inr p) = load-part log file [] h (append-nil file ∙ p)
  load-now file (some w) log h (p, q) = load-part log file w.pending h p

  module _ (max : ℕ) (es : List (WalEvent (WalMessage Float))) (h : HostWal)
      (log : List (WalMessage Float)) (ran : run en max removed [] es ≡ (h, log))
      (writable : All (λ m. IsWritable (payload_size en m) m) log) where
    ran-IsLog : IsLog en h log
    ran-IsLog =
        subst (λ r. IsLog en r.0 r.1) ran (run-IsLog en max removed [] es (removed-IsLog en))

    -- After any run of the loop over a directory without a log, stopped at any
    -- point, what a load reads of the file is an initial part of the messages that the log stands
    -- for, each as it was recorded, where all of them are writable; or the load is an error and
    -- fewer than four bytes are in the file.
    pub load_wal_file-run :
        ((k : ℕ) × (load_wal_file en h.file ≡ some (map (recorded en) (take k log))))
        ⊎ ((load_wal_file en h.file ≡ none) × (length h.file < 4))
    unfolding Loads
    load_wal_file-run = load-now h.file h.writer log writable ran-IsLog

    -- After any run of the loop over a directory without a log, where all messages that the log
    -- stands for are writable: closing the writer leaves a file that loads them all, in order; so
    -- does a tick where there is a message at all.
    pub load_wal_file-run_flushed :
        (load_wal_file en (close_all h).file ≡ some (map (recorded en) log))
        × (log ≢ [] → load_wal_file en (flush_dirty h).file ≡ some (map (recorded en) log))
    load_wal_file-run_flushed = (
      load-close h.file h.writer log writable ran-IsLog,
      load-flush h.file h.writer log writable ran-IsLog,
    )
