-- ===== src/Store/Replay/Tests.antt =====
-- A log of pkg/metricstore/walCheckpoint.go that is written, cut off and loaded.
use cc_backend.Common.{
  ℕ, zero, suc, ◌+◌, ◌*◌, ◌%◌, ◌^◌, ◌<◌, pos, ◌≡◌, refl, sym, true, Option, none, some, List, [],
  ◌∷◌, map, length, ◌⊎◌, take, arith, All,
}
use cc_backend.Bytes.{Bytes}
use cc_backend.Level.{Level, level, nil}
use cc_backend.Wal.{Encoding, WalMessage, payload_size}
use cc_backend.Wal.RoundTrip.{IsWritable, recorded}
use cc_backend.Wal.Shard.{HostWal, WalEvent, tick, spill, removed, run, close_all}
use cc_backend.Store.Tests.{numbers}
use cc_backend.Store.Replay.{Codec, encoding, load_wal, replay_messages}
use cc_backend.Store.Replay.Cache.{IsPlain}
use cc_backend.Store.Replay.Writes.{write_messages, replay_messages-writes}
use cc_backend.Store.Replay.Crash.{load_wal-run, load_wal-run_closed}

mod_lt : (n : ℕ) → n % 2 ^ 32 < 2 ^ 32
mod_lt n = omega arith

abbrev bits : Option ℕ → ℕ
bits none = 0
bits (some x) = (x + 1) % 2 ^ 32

bits_lt : (v : Option ℕ) → bits v < 2 ^ 32
bits_lt none = omega arith
bits_lt (some x) = mod_lt (x + 1)

abbrev value_of : ℕ → Option ℕ
value_of zero = none
value_of (suc x) = some x

abbrev codec : Codec (Option ℕ)
codec = record {
  to_bits = bits;
  from_bits = value_of;
  checksum = λ bs. length bs % 2 ^ 32;
  to_bits_lt = bits_lt;
  checksum_lt = λ bs. mod_lt (length bs);
}

-- Two messages for one core.
abbrev flops : ℕ → WalMessage (Option ℕ)
flops v = record {
  metric_name = b'f' ∷ [];
  cluster = b'c' ∷ [];
  node = b'n' ∷ [];
  selector = (b'c' ∷ b'0' ∷ []) ∷ [];
  value = some v;
  timestamp = pos (1000 + 60 * v);
}

abbrev log : List (WalMessage (Option ℕ))
log = flops 1 ∷ flops 2 ∷ []

abbrev events : List (WalEvent (WalMessage (Option ℕ)))
events =
    WalEvent.message true true (flops 1)
    ∷ tick
    ∷ WalEvent.message true true (flops 2)
    ∷ spill 9
    ∷ []

abbrev retained : Bytes → Option (ℕ × ℕ)
retained name = some (0, 60)

retained_frequency : (name : Bytes) (config : ℕ × ℕ) → retained name ≡ some config → 0 < config.1
retained_frequency name config e = (let same : (0, 60) ≡ config = cc in rw (sym same) (omega arith))

abbrev state : HostWal
state = (run (encoding codec) 0 removed [] events).0

ran : run (encoding codec) 0 removed [] events ≡ (state, log)
unfolding run cc_backend.Wal.Shard.step cc_backend.Wal.Shard.process_msg
    cc_backend.Wal.Shard.append_record cc_backend.Wal.Shard.get_or_open_wal
    cc_backend.Wal.Shard.open_writer cc_backend.Wal.Shard.flush_dirty
    cc_backend.Wal.Shard.spill_some cc_backend.Wal.write_wal_record cc_backend.Bytes.put_le
    cc_backend.Wal.payload cc_backend.Wal.put_selectors
ran = refl

writable : (v : ℕ) → v < 100 → IsWritable (payload_size (encoding codec) (flops v)) (flops v)
unfolding payload_size
writable v h = record {
  name_fits = omega arith;
  count_fits = omega arith;
  selectors_fit = (omega arith, tt);
  is_time = omega arith;
  size_fits = omega arith;
}

name-IsPlain : IsPlain (b'c' ∷ b'0' ∷ [])
name-IsPlain = ((λ e. absurd (omega (arith, e)), (λ e. absurd (omega (arith, e)), tt)), λ e. cc)

log-IsPlain : All (λ m. All IsPlain m.selector) log
log-IsPlain = ((name-IsPlain, tt), ((name-IsPlain, tt), tt))

abbrev empty_tree : Level (Option ℕ)
empty_tree = level nil ([] ∷ [])

replay_messages-writes_example :
    let st =
      replay_messages numbers 1 retained
        (pos 0)
        (record { pool = []; tree = empty_tree; cache = [] })
        log in
    (st.pool, st.tree) ≡ write_messages numbers 1 retained (pos 0) [] empty_tree log
replay_messages-writes_example =
    replay_messages-writes numbers 1 retained (pos 0) retained_frequency [] empty_tree log
      log-IsPlain

load_wal-run_example :
    ((k : ℕ) × (load_wal numbers codec 1 retained (pos 0) [] empty_tree state.file
        ≡ some (
            write_messages numbers 1 retained
              (pos 0)
              []
              empty_tree
              (map (recorded (encoding codec)) (take k log)))))
    ⊎ ((load_wal numbers codec 1 retained (pos 0) [] empty_tree state.file ≡ none)
        × (length state.file < 4))
load_wal-run_example =
    load_wal-run numbers codec 1 retained (pos 0) retained_frequency [] empty_tree 0 events state
      log ran (writable 1 (omega arith), (writable 2 (omega arith), tt)) log-IsPlain

load_wal-run_closed_example :
    load_wal numbers codec 1 retained (pos 0) [] empty_tree (close_all state).file
    ≡ some (
        write_messages numbers 1 retained
          (pos 0)
          []
          empty_tree
          (map (recorded (encoding codec)) log))
load_wal-run_closed_example =
    load_wal-run_closed numbers codec 1 retained (pos 0) retained_frequency [] empty_tree 0 events
      state log ran (writable 1 (omega arith), (writable 2 (omega arith), tt)) log-IsPlain
