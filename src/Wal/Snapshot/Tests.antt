-- ===== src/Wal/Snapshot/Tests.antt =====
-- A run of the binary snapshots of pkg/metricstore/walCheckpoint.go: a host with one metric, and a
-- core of it with none.
use cc_backend.Common.{ℕ, ◌%◌, ◌^◌, ◌<◌, pos, ◌≡◌, some, [], ◌∷◌, length, arith}
use cc_backend.Common.{ok}
use cc_backend.Wal.{Encoding}
use cc_backend.Wal.Snapshot.{
  Entry, CheckpointFile, file, no_files, sub, load_binary_file, write_binary_snapshot_file,
}
use cc_backend.Wal.Snapshot.RoundTrip.{IsEntry, IsStorable, rounded_file, load-write_snapshot}

below : (n : ℕ) → n % 2 ^ 32 < 2 ^ 32
below n = omega arith

abbrev numbers : Encoding
numbers = record {
  Float = ℕ;
  to_bits = λ v. v % 2 ^ 32;
  from_bits = λ b. b;
  checksum = λ bs. length bs % 2 ^ 32;
  to_bits_lt = below;
  checksum_lt = λ bs. below (length bs);
}

abbrev load : Entry ℕ
load = record { name = b'l' ∷ []; frequency = pos 60; start = pos 970; values = 1 ∷ 2 ∷ [] }

abbrev host : CheckpointFile ℕ
host = file (load ∷ []) (sub (b'0' ∷ []) (file [] no_files) no_files)

load-IsEntry : IsEntry load
load-IsEntry = record {
  name_fits = omega arith;
  count_fits = omega arith;
  is_frequency = omega arith;
  is_start = omega arith;
}

host-IsStorable : IsStorable host
host-IsStorable = (
  omega arith,
  (load-IsEntry, tt),
  omega arith,
  (omega arith, (omega arith, tt, omega arith, tt), tt),
)

load-write_snapshot_example :
    load_binary_file numbers
      (pos 900)
      (write_binary_snapshot_file numbers (pos 970) (pos 1090) host)
    ≡ ok (some (pos 970, pos 1090, rounded_file numbers host))
load-write_snapshot_example =
    load-write_snapshot numbers (pos 900) (pos 970) (pos 1090) host host-IsStorable (omega arith)
      (omega arith) (omega arith)
