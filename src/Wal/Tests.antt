-- ===== src/Wal/Tests.antt =====
-- Runs of the write-ahead log of pkg/metricstore/walCheckpoint.go.
use cc_backend.Common.{
  ok, ℕ, ◌%◌, ◌^◌, ◌<◌, negsuc, ◌≡◌, refl, some, [], ◌∷◌, ◌++◌, length, drop, arith,
}
use cc_backend.Bytes.{Bytes, put_le, to_u64}
use cc_backend.Wal.{
  Encoding, WalMessage, payload_size, payload, write_wal_record, read_wal_record, put_selectors,
}
use cc_backend.Wal.RoundTrip.{IsWritable, recorded, read-write_wal_record}
use cc_backend.Wal.Replay.{IsTorn}

-- Whole numbers below 2 ^ 32 in place of floats, and the length in place of a CRC.
pub mod_lt : (n : ℕ) → n % 2 ^ 32 < 2 ^ 32
mod_lt n = omega arith

abbrev pub numbers : Encoding
numbers = record {
  Float = ℕ;
  to_bits = λ v. v % 2 ^ 32;
  from_bits = λ b. b;
  checksum = λ bs. length bs % 2 ^ 32;
  to_bits_lt = mod_lt;
  checksum_lt = λ bs. mod_lt (length bs);
}

abbrev pub message : WalMessage ℕ
message = record {
  metric_name = b'f' ∷ b'l' ∷ b'o' ∷ b'p' ∷ [];
  cluster = b'c' ∷ [];
  node = b'n' ∷ [];
  selector = (b'c' ∷ b'0' ∷ []) ∷ [] ∷ [];
  value = 42;
  timestamp = negsuc 1;
}

pub message-IsWritable : IsWritable (payload_size numbers message) message
unfolding payload_size
message-IsWritable = record {
  name_fits = omega arith;
  count_fits = omega arith;
  selectors_fit = (omega arith, (omega arith, tt));
  is_time = omega arith;
  size_fits = omega arith;
}

read-write_wal_record_example :
    read_wal_record numbers (write_wal_record numbers message ++ 7 ∷ [])
    ≡ ok (some (recorded numbers message), 7 ∷ [])
read-write_wal_record_example = read-write_wal_record numbers message (7 ∷ []) message-IsWritable

abbrev torn_front : Bytes
torn_front = 0xA1 ∷ 0xA7 ∷ 0x1D ∷ 0xCC ∷ 23 ∷ []

torn : IsTorn numbers torn_front
torn = record {
  msg = message;
  writable = message-IsWritable;
  lost = 0;
  back = drop 6 (write_wal_record numbers message);
  cut = unfold write_wal_record put_le payload_size payload put_selectors to_u64 in refl;
}
