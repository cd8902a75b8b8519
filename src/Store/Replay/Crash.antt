-- ===== src/Store/Replay/Crash.antt =====
-- From a sample in the log of pkg/metricstore/walCheckpoint.go, over a crash, back to the store.
use cc_backend.Common.{
  ℕ, zero, suc, ◌<◌, ℤ, ◌≡◌, refl, ap, Option, none, some, List, [], ◌∷◌, map, length, ◌⊎◌, inl,
  inr, take, All,
}
use cc_backend.Bytes.{Bytes}
use cc_backend.Buffer.{Floats, Pool}
use cc_backend.Level.{Level}
use cc_backend.Wal.{WalMessage, payload_size}
use cc_backend.Wal.RoundTrip.{IsWritable, recorded}
use cc_backend.Wal.Shard.{HostWal, WalEvent, removed, run, close_all, load_wal_file}
use cc_backend.Wal.Shard.Durable.{load_wal_file-run, load_wal_file-run_flushed}
use cc_backend.Store.Replay.{Codec, encoding, load_wal}
use cc_backend.Store.Replay.Cache.{IsPlain}
use cc_backend.Store.Replay.Writes.{write_messages, replay_messages-writes}

module _ (fl : Floats) (codec : Codec (Floats.Float fl)) where
  open fl use {Float}

  recorded-IsPlain :
      (k : ℕ) (log : List (WalMessage Float))
      → All (λ m. All IsPlain m.selector) log
      → All (λ m. All IsPlain m.selector) (map (recorded (encoding codec)) (take k log))
  unfolding recorded
  recorded-IsPlain zero log h = tt
  recorded-IsPlain (suc k) [] h = tt
  recorded-IsPlain (suc k) (m ∷ log) (h, hs) = (h, recorded-IsPlain k log hs)

  recorded-All :
      (log : List (WalMessage Float))
      → All (λ m. All IsPlain m.selector) log
      → All (λ m. All IsPlain m.selector) (map (recorded (encoding codec)) log)
  unfolding recorded
  recorded-All [] h = tt
  recorded-All (m ∷ log) (h, hs) = (h, recorded-All log hs)

  module _ (n : ℕ) (retained : Bytes → Option (ℕ × ℕ)) (from : ℤ)
      (frequencies : (name : Bytes) (config : ℕ × ℕ) → retained name ≡ some config → 0 < config.1)
      (pool : Pool Float) (tree : Level Float) where
    load_some :
        (file : Bytes) (msgs : List (WalMessage Float))
        → load_wal_file (encoding codec) file ≡ some msgs
        → All (λ m. All IsPlain m.selector) msgs
        → load_wal fl codec n retained from pool tree file
          ≡ some (write_messages fl n retained from pool tree msgs)
    unfolding load_wal
    load_some file msgs e plain =
        rw (load_wal, e)
          (ap some (replay_messages-writes fl n retained from frequencies pool tree msgs plain))

    load_error :
        (file : Bytes)
        → load_wal_file (encoding codec) file ≡ none
        → load_wal fl codec n retained from pool tree file ≡ none
    unfolding load_wal
    load_error file e = rw (load_wal, e) refl

    module _ (max : ℕ) (es : List (WalEvent (WalMessage Float))) (h : HostWal)
        (log : List (WalMessage Float)) (ran : run (encoding codec) max removed [] es ≡ (h, log))
        (writable : All (λ m. IsWritable (payload_size (encoding codec) m) m) log)
        (plain : All (λ m. All IsPlain m.selector) log) where
      -- A store that samples were logged for, in a directory without a log, and that stopped at any
      -- point: reading the log into a tree does what WriteToLevel does for an initial part of the
      -- messages that the log stands for, in their order and as they were recorded; or it is an
      -- error, and fewer than four bytes were on the disk. The messages are writable, every known
      -- metric has a frequency, and the names of the selectors are not empty and have no null byte.
      pub load_wal-run :
          ((k : ℕ) × (load_wal fl codec n retained from pool tree h.file
              ≡ some (
                  write_messages fl n retained from pool tree
                    (map (recorded (encoding codec)) (take k log)))))
          ⊎ ((load_wal fl codec n retained from pool tree h.file ≡ none) × (length h.file < 4))
      load_wal-run = elim (load_wal_file-run (encoding codec) max es h log ran writable) [
        | inl (k, e) ↦ inl (k, load_some h.file _ e (recorded-IsPlain k log plain))
        | inr (e, short) ↦ inr (load_error h.file e, short)
      ]

      -- Under the same conditions, once the writer has been closed nothing is missing: reading the log
      -- writes every message that the log stands for and that is recent enough.
      pub load_wal-run_closed :
          load_wal fl codec n retained from pool tree (close_all h).file
          ≡ some (write_messages fl n retained from pool tree (map (recorded (encoding codec)) log))
      load_wal-run_closed =
          load_some (close_all h).file _
            (load_wal_file-run_flushed (encoding codec) max es h log ran writable).0
            (recorded-All log plain)
