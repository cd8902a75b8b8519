-- ===== src/Wal.antt =====
-- The write-ahead log of pkg/metricstore/walCheckpoint.go: the record format, its reader, and the
-- stream of records that a replay reads from a file.
pub mod RoundTrip
pub mod Replay
pub mod Snapshot
pub mod Shard
pub mod Channels
mod Tests
use cc_backend.Common.{
  Result, ok, err, ◌>>=◌, ℕ, zero, suc, ◌+◌, ◌-◌, ◌*◌, ◌/◌, ◌%◌, ◌^◌, ◌≤◌, ◌<◌, ℤ, pos, negsuc,
  pos_part, neg_part, ltb_ℤ, leb_ℤ, ◌≤ℤ◌, ◌<ℤ◌, ◌≡◌, refl, sym, ap, ◌∙◌, Bool, true, false, not,
  ◌&&◌, ◌||◌, Option, none, some, List, [], ◌∷◌, ◌++◌, map, append-nil, append_assoc, ltb, leb,
  ◌==◌, length, get_elem?, ◌⊎◌, inl, inr, ◌↔◌, ◌≢◌, get_or, set, replicate, take, drop,
  if◌then◌else◌, arith, int_laws, Bool-cases, Option-cases, length-append, length-replicate,
  length-set, All, All-append, le→leb, gt→leb, lt→ltb, ge→ltb, ltb→lt, leb→le, ==_iff,
}
use cc_backend.Bytes.{Bytes, put_le, get_le, to_u64, from_u64, split_at}

-- What the format takes from the standard library: math.Float32bits(float32(v)) and its inverse on
-- schema.Float, and crc32.ChecksumIEEE. Both yield 32 bits.
pub record Encoding : Type 1 where
  pub Float : Type 0
  pub to_bits : Float → ℕ
  pub from_bits : ℕ → Float
  pub checksum : Bytes → ℕ
  pub to_bits_lt : (v : Float) → to_bits v < 2 ^ 32
  pub checksum_lt : (bs : Bytes) → checksum bs < 2 ^ 32

pub record WalMessage (F : Type 0) : Type 0 where
  pub metric_name : Bytes
  pub cluster : Bytes
  pub node : Bytes
  pub selector : List Bytes
  pub value : F
  pub timestamp : ℤ

-- One constructor for each `fmt.Errorf` of `readWALRecord` and `parseWALPayload`.
pub data WalError : Type 0 where
  read_magic invalid_magic read_length too_large read_payload read_crc crc_mismatch : WalError
  payload_short name_length name_bytes selector_count selector_length selector_bytes : WalError
  value_bytes : WalError

abbrev pub wal_record_magic : ℕ
wal_record_magic = 0xCC1DA7A1

abbrev pub max_payload : ℕ
max_payload = 2 ^ 20

-- Reads of `n` bytes and of one byte, with the error of the place.
unfoldable pub take_bytes : ℕ → WalError → Bytes → Result WalError (Bytes × Bytes)
take_bytes n e bs = elim (split_at n bs) [ none ↦ err e | some p ↦ ok p ]

abbrev pub next_byte : WalError → Bytes → Result WalError (ℕ × Bytes)
next_byte e [] = err e
next_byte e (b ∷ rest) = ok (b, rest)

-- The loop over the selectors: a byte for the length, and the bytes.
unfoldable pub put_selectors : List Bytes → Bytes
put_selectors [] = []
put_selectors (s ∷ sels) = length s % 256 ∷ (s ++ put_selectors sels)

unfoldable pub read_selectors : ℕ → Bytes → Result WalError (List Bytes × Bytes)
read_selectors zero p = ok ([], p)
read_selectors (suc n) p = do
  (len, p1) ← next_byte selector_length p
  (sel, p2) ← take_bytes len selector_bytes p1
  (sels, p3) ← read_selectors n p2
  ok (sel ∷ sels, p3)

abbrev pub selectors_size : List Bytes → ℕ
selectors_size [] = 0
selectors_size (s ∷ sels) = 1 + length s + selectors_size sels

module _ (en : Encoding) where
  open en use {Float, to_bits, from_bits, checksum}

  unfoldable pub payload_size : WalMessage Float → ℕ
  payload_size msg = 8 + 2 + length msg.metric_name + 1 + 4 + selectors_size msg.selector

  -- The bytes 8 .. 8 + payloadSize of the buffer. `put_le` and `% 256` wrap as the conversions
  -- uint16(len(name)), byte(len(selector)) and byte(len(sel)) do.
  unfoldable pub payload : WalMessage Float → Bytes
  payload msg =
      put_le 8 (to_u64 msg.timestamp)
      ++ (put_le 2 (length msg.metric_name)
          ++ (msg.metric_name
              ++ (length msg.selector % 256
                  ∷ (put_selectors msg.selector ++ put_le 4 (to_bits msg.value)))))

  unfoldable pub write_wal_record : WalMessage Float → Bytes
  write_wal_record msg =
      put_le 4 wal_record_magic
      ++ (put_le 4 (payload_size msg) ++ (payload msg ++ put_le 4 (checksum (payload msg))))

  unfoldable pub parse_wal_payload : Bytes → Result WalError (WalMessage Float)
  parse_wal_payload p = if ltb (length p) 15 then err payload_short else do
    (ts, p1) ← take_bytes 8 payload_short p
    (len, p2) ← take_bytes 2 name_length p1
    (name, p3) ← take_bytes (get_le len) name_bytes p2
    (count, p4) ← next_byte selector_count p3
    (sels, p5) ← read_selectors count p4
    (bits, p6) ← take_bytes 4 value_bytes p5
    ok (record {
      metric_name = name;
      cluster = [];
      node = [];
      selector = sels;
      value = from_bits (get_le bits);
      timestamp = from_u64 (get_le ts);
    })

  -- `readWALRecord` from its test of the magic number on.
  unfoldable pub read_checked : Bytes → Bytes → Result WalError (Option (WalMessage Float) × Bytes)
  read_checked magic r1 = if not (get_le magic == wal_record_magic) then err invalid_magic else do
    (len, r2) ← take_bytes 4 read_length r1
    if ltb max_payload (get_le len) then err too_large else do
      (body, r3) ← take_bytes (get_le len) read_payload r2
      (crc, r4) ← take_bytes 4 read_crc r3
      if not (checksum body == get_le crc)
          then err crc_mismatch
          else do msg ← parse_wal_payload body; ok (some msg, r4)

  -- `none` is the clean end of the file; the second part is what the reader has not taken.
  unfoldable pub read_wal_record : Bytes → Result WalError (Option (WalMessage Float) × Bytes)
  read_wal_record [] = ok (none, [])
  read_wal_record (b ∷ bs) = take_bytes 4 read_magic (b ∷ bs) >>= λ x. read_checked x.0 x.1

  -- The loop of `loadWALFile` up to what it does with a record: it stops at the end of the file and
  -- at the first record that is not whole. A record takes a byte at least, so the length of the
  -- file is enough fuel.
  unfoldable pub replay_loop : ℕ → Bytes → List (WalMessage Float)
  replay_loop zero bs = []
  replay_loop (suc fuel) bs = elim (read_wal_record bs) [
    | err e ↦ []
    | ok (none, rest) ↦ []
    | ok (some msg, rest) ↦ msg ∷ replay_loop fuel rest
  ]

  unfoldable pub replay_records : Bytes → List (WalMessage Float)
  replay_records bs = replay_loop (length bs) bs

  -- What `writeWALRecordDirect` appends to the file for a list of messages.
  unfoldable pub write_wal_records : List (WalMessage Float) → Bytes
  write_wal_records [] = []
  write_wal_records (msg ∷ msgs) = write_wal_record msg ++ write_wal_records msgs
