-- ===== src/Wal/Shard/Tests.antt =====
-- Runs of the loop of a shard of pkg/metricstore/walCheckpoint.go.
use cc_backend.Common.{ℕ, ◌≡◌, refl, true, false, none, some, List, [], ◌∷◌, map, ◌≢◌}
use cc_backend.Bytes.{Bytes, put_le, get_le}
use cc_backend.Wal.{
  Encoding, WalMessage, payload_size, write_wal_record, write_wal_records, read_wal_record,
  replay_loop, replay_records,
}
use cc_backend.Wal.RoundTrip.{recorded}
use cc_backend.Wal.Tests.{numbers, message, message-IsWritable}
use cc_backend.Wal.Shard.{
  HostWal, WalEvent, rotate, tick, spill, open_writer, get_or_open_wal, flush_dirty, removed,
  process_rotate, spill_some, close_all, append_record, process_msg, step, run, load_wal_file,
}
use cc_backend.Wal.Shard.Durable.{load_wal_file-run_flushed}

-- The file is rotated, cannot be opened once, and gets two records, the last of them in part.
abbrev events : List (WalEvent (WalMessage ℕ))
events =
    WalEvent.message true true message
    ∷ tick
    ∷ rotate
    ∷ WalEvent.message false true message
    ∷ WalEvent.message true true message
    ∷ tick
    ∷ WalEvent.message true true message
    ∷ spill 9
    ∷ []

abbrev state : HostWal
state = (run numbers 1000 removed [] events).0

ran : run numbers 1000 removed [] events ≡ (state, message ∷ message ∷ [])
unfolding run step process_msg append_record get_or_open_wal open_writer flush_dirty process_rotate
    spill_some write_wal_record put_le cc_backend.Wal.payload cc_backend.Wal.put_selectors
ran = refl

load_wal_file-run_flushed_example :
    (load_wal_file numbers (close_all state).file
      ≡ some (map (recorded numbers) (message ∷ message ∷ [])))
    × (message ∷ message ∷ [] ≢ []
        → load_wal_file numbers (flush_dirty state).file
          ≡ some (map (recorded numbers) (message ∷ message ∷ [])))
load_wal_file-run_flushed_example =
    load_wal_file-run_flushed numbers 1000 events state (message ∷ message ∷ []) ran
      (message-IsWritable, (message-IsWritable, tt))

-- A log that was torn is opened again at its end. The record that is written then stands behind the
-- torn one, and a load does not reach it.
abbrev torn_file : Bytes
torn_file = 0x01 ∷ 0xA7 ∷ 0x1D ∷ 0xCC ∷ 0xA1 ∷ []

appended_to_torn :
    load_wal_file numbers
      (close_all
        (run numbers 1000
          (record { file = torn_file; writer = none })
          []
          (WalEvent.message true true message ∷ [])).0).file
    ≡ some []
unfolding run step process_msg append_record get_or_open_wal open_writer close_all load_wal_file
    write_wal_record put_le get_le cc_backend.Wal.payload cc_backend.Wal.put_selectors
    cc_backend.Wal.replay_records cc_backend.Wal.replay_loop cc_backend.Wal.read_wal_record
    cc_backend.Wal.read_checked cc_backend.Wal.take_bytes cc_backend.Bytes.split_at
appended_to_torn = refl
