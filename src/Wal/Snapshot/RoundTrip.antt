-- ===== src/Wal/Snapshot/RoundTrip.antt =====
-- The reader of the binary snapshots of pkg/metricstore/walCheckpoint.go inverts the writer.
use cc_backend.Common.{
  ℕ, zero, suc, ◌+◌, ◌^◌, ◌≤◌, ◌<◌, ℤ, ◌≤ℤ◌, ◌≡◌, refl, some, List, [], ◌∷◌, ◌++◌, map, length,
  arith, length-append, All,
}
use cc_backend.Common.{ok, ge→ltb_ℤ}
use cc_backend.Bytes.{
  Bytes, put_le, to_u64, IsI64, length-put_le, get_le-put_le, from_u64-to_u64, to_u64-lt,
  split_at-append,
}
use cc_backend.Wal.{Encoding}
use cc_backend.Wal.Snapshot.{
  Entry, CheckpointFile, file, Files, no_files, sub, snap_file_magic, files_count, write_string16,
  read_bytes, read_number, read_string16, read_files, put_values, put_entry, put_entries,
  write_binary_level, put_files, write_binary_snapshot_file, read_values, read_entry, read_entries,
  read_binary_level, load_binary_file,
}

-- What the fields of the format have room for.
pub record IsEntry {F : Type 0} (e : Entry F) : Type 0 where
  pub name_fits : length e.name < 256 ^ 2
  pub count_fits : length e.values < 256 ^ 4
  pub is_frequency : IsI64 e.frequency
  pub is_start : IsI64 e.start

abbrev mutual
  pub IsStorable : {F : Type 0} → CheckpointFile F → Type 0
  IsStorable (file es fs) =
      (length es < 256 ^ 4) × All IsEntry es × (files_count fs < 256 ^ 4) × AreStorable fs

  pub AreStorable : {F : Type 0} → Files F → Type 0
  AreStorable no_files = Unit {0}
  AreStorable (sub k f fs) = (length k < 256 ^ 2) × IsStorable f × AreStorable fs

-- The number of levels on the longest way down.
unfoldable mutual
  depth : {F : Type 0} → CheckpointFile F → ℕ
  depth (file es fs) = suc (depth_below fs)

  depth_below : {F : Type 0} → Files F → ℕ
  depth_below no_files = 0
  depth_below (sub k f fs) = depth f + depth_below fs

read_bytes-append :
    (xs rest : Bytes) (n : ℕ) → length xs ≡ n → read_bytes n (xs ++ rest) ≡ ok (xs, rest)
unfolding read_bytes
read_bytes-append xs rest n h = rw (split_at-append xs rest n h, read_bytes)

read-put_number :
    (k n : ℕ) (rest : Bytes) → n < 256 ^ k → read_number k (put_le k n ++ rest) ≡ ok (n, rest)
unfolding read_number
read-put_number k n rest h =
    rw (read_bytes-append (put_le k n) rest k (length-put_le k n), get_le-put_le k n h)

read-write_string16 :
    (s rest : Bytes) → length s < 256 ^ 2 → read_string16 (write_string16 s rest) ≡ ok (s, rest)
unfolding read_string16 write_string16
read-write_string16 s rest h =
    rw (read-put_number 2 (length s) (s ++ rest) h) (read_bytes-append s rest (length s) refl)

module _ (en : Encoding) where
  open en use {Float, to_bits, from_bits, to_bits_lt}

  -- The tree with its floats rounded as the format does it.
  abbrev pub rounded : Entry Float → Entry Float
  rounded e = record e { values = map (λ v. from_bits (to_bits v)) e.values }

  unfoldable mutual
    pub rounded_file : CheckpointFile Float → CheckpointFile Float
    rounded_file (file es fs) = file (map rounded es) (rounded_files fs)

    pub rounded_files : Files Float → Files Float
    rounded_files no_files = no_files
    rounded_files (sub k f fs) = sub k (rounded_file f) (rounded_files fs)

  read-put_values :
      (vs : List Float) (rest : Bytes)
      → read_values en (length vs) (put_values en vs rest)
        ≡ ok (map (λ v. from_bits (to_bits v)) vs, rest)
  unfolding read_values put_values
  read-put_values [] rest = refl
  read-put_values (v ∷ vs) rest = rw (
    read-put_number 4 (to_bits v) (put_values en vs rest) (omega (arith, to_bits_lt v)),
    read-put_values vs rest,
  )

  read-put_entry :
      (e : Entry Float) (rest : Bytes)
      → IsEntry e
      → read_entry en (put_entry en e rest) ≡ ok (rounded e, rest)
  unfolding read_entry put_entry
  read-put_entry e rest h = rw (
    read-write_string16 e.name _ h.name_fits,
    read-put_number 8 (to_u64 e.frequency) _ (to_u64-lt e.frequency),
    read-put_number 8 (to_u64 e.start) _ (to_u64-lt e.start),
    read-put_number 4 (length e.values) _ h.count_fits,
    read-put_values e.values rest,
    from_u64-to_u64 e.frequency h.is_frequency,
    from_u64-to_u64 e.start h.is_start,
  )

  read-put_entries :
      (es : List (Entry Float)) (rest : Bytes)
      → All IsEntry es
      → read_entries en (length es) (put_entries en es rest) ≡ ok (map rounded es, rest)
  unfolding read_entries put_entries
  read-put_entries [] rest h = refl
  read-put_entries (e ∷ es) rest (h, hs) =
      rw (read-put_entry e (put_entries en es rest) h, read-put_entries es rest hs)

  mutual
    unfolding read_binary_level write_binary_level put_files read_files rounded_file rounded_files
        depth depth_below

    read-write_level :
        (cf : CheckpointFile Float) (fuel : ℕ) (rest : Bytes)
        → depth cf ≤ fuel
        → IsStorable cf
        → read_binary_level en fuel (write_binary_level en cf rest) ≡ ok (rounded_file cf, rest)
    read-write_level (file es fs) zero rest enough h = absurd (omega (arith, enough))
    read-write_level (file es fs) (suc fuel) rest enough (metrics_fit, hs, children_fit, ks) = rw (
      read-put_number 4 (length es) _ metrics_fit,
      read-put_entries es _ hs,
      read-put_number 4 (files_count fs) _ children_fit,
      read-put_files fs fuel rest (omega (arith, enough)) ks,
    )

    read-put_files :
        (fs : Files Float) (fuel : ℕ) (rest : Bytes)
        → depth_below fs ≤ fuel
        → AreStorable fs
        → read_files (read_binary_level en fuel) (files_count fs) (put_files en fs rest)
          ≡ ok (rounded_files fs, rest)
    read-put_files no_files fuel rest enough h = refl
    read-put_files (sub k f fs) fuel rest enough (name_fits, h, hs) = rw (
      read-write_string16 k _ name_fits,
      read-write_level f fuel _ (omega (arith, enough)) h,
      read-put_files fs fuel rest (omega (arith, enough)) hs,
    )

  length-write_string16 : (s rest : Bytes) → length rest < length (write_string16 s rest)
  unfolding write_string16
  length-write_string16 s rest = omega (
    arith,
    length-append (put_le 2 (length s)) (s ++ rest),
    length-append s rest,
    length-put_le 2 (length s),
  )

  length-put_values :
      (vs : List Float) (rest : Bytes) → length rest ≤ length (put_values en vs rest)
  unfolding put_values
  length-put_values [] rest = omega arith
  length-put_values (v ∷ vs) rest = omega (
    arith,
    length-append (put_le 4 (to_bits v)) (put_values en vs rest),
    length-put_values vs rest,
  )

  length-put_entries :
      (es : List (Entry Float)) (rest : Bytes) → length rest ≤ length (put_entries en es rest)
  unfolding put_entries put_entry
  length-put_entries [] rest = omega arith
  length-put_entries (e ∷ es) rest = omega (
    arith,
    length-put_entries es rest,
    length-put_values e.values (put_entries en es rest),
    length-append (put_le 4 (length e.values)) (put_values en e.values (put_entries en es rest)),
    length-append (put_le 8 (to_u64 e.start))
        (put_le 4 (length e.values) ++ put_values en e.values (put_entries en es rest)),
    length-append (put_le 8 (to_u64 e.frequency)) (
        put_le 8 (to_u64 e.start)
        ++ (put_le 4 (length e.values) ++ put_values en e.values (put_entries en es rest))),
    length-write_string16 e.name (
        put_le 8 (to_u64 e.frequency)
        ++ (put_le 8 (to_u64 e.start)
            ++ (put_le 4 (length e.values) ++ put_values en e.values (put_entries en es rest)))),
  )

  -- There are at least as many bytes as levels on the way down.
  mutual
    unfolding write_binary_level put_files depth depth_below

    depth-le-length :
        (cf : CheckpointFile Float) (rest : Bytes)
        → depth cf + length rest ≤ length (write_binary_level en cf rest)
    depth-le-length (file es fs) rest = omega (
      arith,
      depth_below-le-length fs rest,
      length-append (put_le 4 (files_count fs)) (put_files en fs rest),
      length-put_le 4 (files_count fs),
      length-put_entries es (put_le 4 (files_count fs) ++ put_files en fs rest),
      length-append (put_le 4 (length es))
          (put_entries en es (put_le 4 (files_count fs) ++ put_files en fs rest)),
      length-put_le 4 (length es),
    )

    depth_below-le-length :
        (fs : Files Float) (rest : Bytes)
        → depth_below fs + length rest ≤ length (put_files en fs rest)
    depth_below-le-length no_files rest = omega arith
    depth_below-le-length (sub k f fs) rest = omega (
      arith,
      depth_below-le-length fs rest,
      depth-le-length f (put_files en fs rest),
      length-write_string16 k (write_binary_level en f (put_files en fs rest)),
    )

  -- A snapshot that the format has room for is loaded as it was written, its floats rounded, unless
  -- it is older than the retention window.
  pub load-write_snapshot :
      (oldest from to : ℤ) (cf : CheckpointFile Float)
      → IsStorable cf
      → IsI64 from
      → IsI64 to
      → oldest ≤ℤ to
      → load_binary_file en oldest (write_binary_snapshot_file en from to cf)
        ≡ ok (some (from, to, rounded_file cf))
  unfolding load_binary_file write_binary_snapshot_file
  load-write_snapshot oldest from to cf h f t young =
      rw
        (
          read-put_number 4 snap_file_magic _ (omega arith),
          read-put_number 8 (to_u64 from) _ (to_u64-lt from),
          read-put_number 8 (to_u64 to) _ (to_u64-lt to),
          from_u64-to_u64 to t,
          from_u64-to_u64 from f,
          ge→ltb_ℤ to oldest young,
          read-write_level cf (length (write_binary_level en cf [])) []
              (omega (arith, depth-le-length cf [])) h,
        )
        (ground arith)
