-- ===== src/Wal/RoundTrip.antt =====
-- What the WAL of pkg/metricstore/walCheckpoint.go reads back of what it wrote.
use cc_backend.Common.{
  ok, ◌>>=◌, ℕ, ◌%◌, ◌^◌, ◌≤◌, ◌<◌, ◌≡◌, refl, sym, ap, ◌∙◌, some, List, [], ◌∷◌, ◌++◌, append-nil,
  append_assoc, length, arith, length-append, All, ge→ltb, ==_iff,
}
use cc_backend.Bytes.{
  Bytes, put_le, to_u64, IsI64, length-put_le, get_le-put_le, from_u64-to_u64, to_u64-lt,
  split_at-append,
}
use cc_backend.Wal.{
  Encoding, WalMessage, WalError, wal_record_magic, max_payload, read_magic, read_length,
  read_payload, read_crc, payload_short, name_length, name_bytes, value_bytes, take_bytes,
  put_selectors, read_selectors, selectors_size, payload_size, payload, write_wal_record,
  parse_wal_payload, read_checked, read_wal_record, selector_bytes,
}

-- The messages that the record format has room for.
pub record IsWritable {F : Type 0} (size : ℕ) (msg : WalMessage F) : Type 0 where
  pub name_fits : length msg.metric_name < 2 ^ 16
  pub count_fits : length msg.selector < 256
  pub selectors_fit : All (λ s. length s < 256) msg.selector
  pub is_time : IsI64 msg.timestamp
  pub size_fits : size ≤ max_payload

take_append :
    (xs rest : Bytes) (n : ℕ) (e : WalError)
    → length xs ≡ n
    → take_bytes n e (xs ++ rest) ≡ ok (xs, rest)
unfolding take_bytes
take_append xs rest n e h = rw (split_at-append xs rest n h, take_bytes)

take_all : (xs : Bytes) (n : ℕ) (e : WalError) → length xs ≡ n → take_bytes n e xs ≡ ok (xs, [])
take_all xs n e h = ap (take_bytes n e) (sym (append-nil xs)) ∙ take_append xs [] n e h

byte_fits : (n : ℕ) → n < 256 → n % 256 ≡ n
byte_fits n h = omega arith

length-put_selectors : (sels : List Bytes) → length (put_selectors sels) ≡ selectors_size sels
unfolding put_selectors
length-put_selectors [] = refl
length-put_selectors (s ∷ sels) =
    omega (arith, length-append s (put_selectors sels), length-put_selectors sels)

read-put_selectors :
    (sels : List Bytes) (rest : Bytes)
    → All (λ s. length s < 256) sels
    → read_selectors (length sels) (put_selectors sels ++ rest) ≡ ok (sels, rest)
unfolding put_selectors read_selectors
read-put_selectors [] rest h = refl
read-put_selectors (s ∷ sels) rest (h, hs) = rw (
  append_assoc s (put_selectors sels) rest,
  take_append s (put_selectors sels ++ rest) (length s % 256) selector_bytes (omega arith),
  read-put_selectors sels rest hs,
)

module _ (en : Encoding) where
  open en use {Float, to_bits, from_bits, checksum, to_bits_lt, checksum_lt}

  -- A record does not carry the cluster and the node, and holds the value at single precision.
  unfoldable pub recorded : WalMessage Float → WalMessage Float
  recorded msg = record msg { cluster = []; node = []; value = from_bits (to_bits msg.value) }

  length-payload : (msg : WalMessage Float) → length (payload en msg) ≡ payload_size en msg
  unfolding payload payload_size
  length-payload msg = omega (
    arith,
    length-append (put_le 8 (to_u64 msg.timestamp)) (
        put_le 2 (length msg.metric_name)
        ++ (msg.metric_name
            ++ (length msg.selector % 256
                ∷ (put_selectors msg.selector ++ put_le 4 (to_bits msg.value))))),
    length-append (put_le 2 (length msg.metric_name)) (
        msg.metric_name
        ++ (length msg.selector % 256
            ∷ (put_selectors msg.selector ++ put_le 4 (to_bits msg.value)))),
    length-append msg.metric_name
        (length msg.selector % 256 ∷ (put_selectors msg.selector ++ put_le 4 (to_bits msg.value))),
    length-append (put_selectors msg.selector) (put_le 4 (to_bits msg.value)),
    length-put_selectors msg.selector,
    length-put_le 8 (to_u64 msg.timestamp),
    length-put_le 2 (length msg.metric_name),
    length-put_le 4 (to_bits msg.value),
  )

  size_floor : (msg : WalMessage Float) → 15 ≤ payload_size en msg
  unfolding payload_size
  size_floor msg = omega arith

  parse-payload :
      (msg : WalMessage Float)
      → IsWritable (payload_size en msg) msg
      → parse_wal_payload en (payload en msg) ≡ ok (recorded msg)
  unfolding parse_wal_payload payload recorded
  parse-payload msg w = rw (
    ge→ltb (length (payload en msg)) 15 (omega (arith, length-payload msg, size_floor msg)),
    take_append (put_le 8 (to_u64 msg.timestamp)) _ 8 payload_short
        (length-put_le 8 (to_u64 msg.timestamp)),
    take_append (put_le 2 (length msg.metric_name)) _ 2 name_length
        (length-put_le 2 (length msg.metric_name)),
    get_le-put_le 2 (length msg.metric_name) (omega (arith, w.name_fits)),
    take_append msg.metric_name _ (length msg.metric_name) name_bytes refl,
    byte_fits (length msg.selector) w.count_fits,
    read-put_selectors msg.selector (put_le 4 (to_bits msg.value)) w.selectors_fit,
    take_all (put_le 4 (to_bits msg.value)) 4 value_bytes (length-put_le 4 (to_bits msg.value)),
    get_le-put_le 4 (to_bits msg.value) (to_bits_lt msg.value),
    get_le-put_le 8 (to_u64 msg.timestamp) (to_u64-lt msg.timestamp),
    from_u64-to_u64 msg.timestamp w.is_time,
  )

  -- The bytes of a record, bracketed as the reader takes them.
  record_bytes :
      (msg : WalMessage Float) (rest : Bytes)
      → write_wal_record en msg ++ rest
        ≡ put_le 4 wal_record_magic
          ++ (put_le 4 (payload_size en msg)
              ++ (payload en msg ++ (put_le 4 (checksum (payload en msg)) ++ rest)))
  unfolding write_wal_record
  record_bytes msg rest = simp append_assoc

  -- The reader behind the test for the end of the file.
  read_record_body :
      (bs : Bytes)
      → 0 < length bs
      → read_wal_record en bs ≡ (take_bytes 4 read_magic bs >>= λ x. read_checked en x.0 x.1)
  unfolding read_wal_record
  read_record_body [] h = absurd (omega arith)
  read_record_body (b ∷ bs) h = refl

  -- The reader returns what the writer recorded, for every message that the format has room for,
  -- and leaves the bytes that follow.
  pub read-write_wal_record :
      (msg : WalMessage Float) (rest : Bytes)
      → IsWritable (payload_size en msg) msg
      → read_wal_record en (write_wal_record en msg ++ rest) ≡ ok (some (recorded msg), rest)
  unfolding read_checked
  read-write_wal_record msg rest w =
      ap (read_wal_record en) (record_bytes msg rest)
      ∙ read_record_body _ (
          omega (
            arith,
            length-append (put_le 4 wal_record_magic) (
                put_le 4 (payload_size en msg)
                ++ (payload en msg ++ (put_le 4 (checksum (payload en msg)) ++ rest))),
            length-put_le 4 wal_record_magic,
          ))
      ∙ rw
          (
            take_append (put_le 4 wal_record_magic) _ 4 read_magic
                (length-put_le 4 wal_record_magic),
            read_checked,
            get_le-put_le 4 wal_record_magic (omega arith),
          )
          (rw (
            take_append (put_le 4 (payload_size en msg)) _ 4 read_length
                (length-put_le 4 (payload_size en msg)),
            get_le-put_le 4 (payload_size en msg) (omega (arith, w.size_fits)),
            ge→ltb max_payload (payload_size en msg) w.size_fits,
            take_append (payload en msg) _ (payload_size en msg) read_payload (length-payload msg),
            take_append (put_le 4 (checksum (payload en msg))) rest 4 read_crc
                (length-put_le 4 (checksum (payload en msg))),
            get_le-put_le 4 (checksum (payload en msg)) (checksum_lt (payload en msg)),
            (==_iff (checksum (payload en msg)) (checksum (payload en msg))).1 refl,
            parse-payload msg w,
          ))
