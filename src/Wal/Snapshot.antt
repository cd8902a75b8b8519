-- ===== src/Wal/Snapshot.antt =====
-- The binary snapshots of pkg/metricstore/walCheckpoint.go. A map of a CheckpointFile is the list
-- of its entries in the order in which Go walks it, or in which they are set. A writer takes what
-- is written behind it.
pub mod RoundTrip
mod Tests
use cc_backend.Common.{
  ℕ, zero, suc, ◌+◌, ◌-◌, ◌*◌, ◌/◌, ◌%◌, ◌^◌, ◌≤◌, ◌<◌, ℤ, pos, negsuc, sub_ℕ, pos_part, neg_part,
  ltb_ℤ, leb_ℤ, ◌≤ℤ◌, ◌<ℤ◌, ◌+ℤ◌, ◌-ℤ◌, ◌≡◌, refl, sym, ap, ◌∙◌, Bool, true, false, not, ◌&&◌, ◌||◌,
  Option, none, some, List, [], ◌∷◌, ◌++◌, map, append-nil, append_assoc, ltb, leb, ◌==◌, length,
  get_elem?, ◌⊎◌, inl, inr, ◌↔◌, ◌≢◌, get_or, set, replicate, take, drop, if◌then◌else◌, arith,
  int_laws, Bool-cases, Option-cases, length-append, length-replicate, length-set, All, All-append,
  le→leb, gt→leb, lt→ltb, ge→ltb, ltb→lt, leb→le, ==_iff,
}
use cc_backend.Common.{Result, ok, err, ◌>>=◌}
use cc_backend.Bytes.{Bytes, put_le, get_le, to_u64, from_u64, split_at}
use cc_backend.Wal.{Encoding}

-- The errors of the readers, those of a file that ends too early joined.
pub data SnapshotError : Type 0 where
  truncated invalid_magic out_of_fuel : SnapshotError

-- CheckpointMetrics with its name
pub record Entry (F : Type 0) : Type 0 where
  pub name : Bytes
  pub frequency : ℤ
  pub start : ℤ
  pub values : List F

mutual
  pub data CheckpointFile (F : Type 0) : Type 0 where
    file : List (Entry F) → Files F → CheckpointFile F

  pub data Files (F : Type 0) : Type 0 where
    no_files : Files F
    sub : Bytes → CheckpointFile F → Files F → Files F

abbrev pub snap_file_magic : ℕ
snap_file_magic = 0xCC5B0001

abbrev pub files_count : {F : Type 0} → Files F → ℕ
files_count no_files = 0
files_count (sub k f fs) = suc (files_count fs)

unfoldable pub write_string16 : Bytes → Bytes → Bytes
write_string16 s rest = put_le 2 (length s) ++ (s ++ rest)

-- binary.Read of `k` bytes, io.ReadFull, and `readString16`
unfoldable pub read_bytes : ℕ → Bytes → Result SnapshotError (Bytes × Bytes)
read_bytes n bs = elim (split_at n bs) [ none ↦ err truncated | some p ↦ ok p ]

unfoldable pub read_number : ℕ → Bytes → Result SnapshotError (ℕ × Bytes)
read_number k bs = read_bytes k bs >>= λ x. ok (get_le x.0, x.1)

unfoldable pub read_string16 : Bytes → Result SnapshotError (Bytes × Bytes)
read_string16 bs = read_number 2 bs >>= λ x. read_bytes x.0 x.1

-- The loop over the children, with the reader of a level.
unfoldable pub read_files :
    {F : Type 0}
    → (Bytes → Result SnapshotError (CheckpointFile F × Bytes))
    → ℕ
    → Bytes
    → Result SnapshotError (Files F × Bytes)
read_files level zero bs = ok (no_files, bs)
read_files level (suc n) bs = do
  (name, b1) ← read_string16 bs
  (child, b2) ← level b1
  (fs, b3) ← read_files level n b2
  ok (sub name child fs, b3)

module _ (en : Encoding) where
  open en use {Float, to_bits, from_bits}

  unfoldable pub put_values : List Float → Bytes → Bytes
  put_values [] rest = rest
  put_values (v ∷ vs) rest = put_le 4 (to_bits v) ++ put_values vs rest

  unfoldable pub put_entry : Entry Float → Bytes → Bytes
  put_entry e rest = write_string16 e.name (
      put_le 8 (to_u64 e.frequency)
      ++ (put_le 8 (to_u64 e.start) ++ (put_le 4 (length e.values) ++ put_values e.values rest)))

  unfoldable pub put_entries : List (Entry Float) → Bytes → Bytes
  put_entries [] rest = rest
  put_entries (e ∷ es) rest = put_entry e (put_entries es rest)

  unfoldable mutual
    pub write_binary_level : CheckpointFile Float → Bytes → Bytes
    write_binary_level (file es fs) rest =
        put_le 4 (length es) ++ put_entries es (put_le 4 (files_count fs) ++ put_files fs rest)

    pub put_files : Files Float → Bytes → Bytes
    put_files no_files rest = rest
    put_files (sub k f fs) rest = write_string16 k (write_binary_level f (put_files fs rest))

  unfoldable pub write_binary_snapshot_file : ℤ → ℤ → CheckpointFile Float → Bytes
  write_binary_snapshot_file from to cf =
      put_le 4 snap_file_magic
      ++ (put_le 8 (to_u64 from) ++ (put_le 8 (to_u64 to) ++ write_binary_level cf []))

  unfoldable pub read_values : ℕ → Bytes → Result SnapshotError (List Float × Bytes)
  read_values zero bs = ok ([], bs)
  read_values (suc n) bs = do
    (bits, b1) ← read_number 4 bs
    (vs, b2) ← read_values n b1
    ok (from_bits bits ∷ vs, b2)

  unfoldable pub read_entry : Bytes → Result SnapshotError (Entry Float × Bytes)
  read_entry bs = do
    (name, b1) ← read_string16 bs
    (freq, b2) ← read_number 8 b1
    (start, b3) ← read_number 8 b2
    (n, b4) ← read_number 4 b3
    (values, b5) ← read_values n b4
    ok (
      record { name = name; frequency = from_u64 freq; start = from_u64 start; values = values },
      b5,
    )

  unfoldable pub read_entries : ℕ → Bytes → Result SnapshotError (List (Entry Float) × Bytes)
  read_entries zero bs = ok ([], bs)
  read_entries (suc n) bs = do
    (e, b1) ← read_entry bs
    (es, b2) ← read_entries n b1
    ok (e ∷ es, b2)

  -- The recursion takes a byte at each level, so the length of the input is enough fuel.
  unfoldable pub read_binary_level : ℕ → Bytes → Result SnapshotError (CheckpointFile Float × Bytes)
  read_binary_level zero bs = err out_of_fuel
  read_binary_level (suc fuel) bs = do
    (metrics, b1) ← read_number 4 bs
    (es, b2) ← read_entries metrics b1
    (children, b3) ← read_number 4 b2
    (fs, b4) ← read_files (read_binary_level fuel) children b3
    ok (file es fs, b4)

  -- `loadBinaryFile` up to `loadFile`: the bounds of the file and its tree, or `none` for a file
  -- that is older than the retention window.
  unfoldable pub load_binary_file :
      ℤ → Bytes → Result SnapshotError (Option (ℤ × ℤ × CheckpointFile Float))
  load_binary_file from bs = do
    (magic, b1) ← read_number 4 bs
    if not (magic == snap_file_magic) then err invalid_magic else do
      (file_from, b2) ← read_number 8 b1
      (file_to, b3) ← read_number 8 b2
      if not (file_to == 0) && ltb_ℤ (from_u64 file_to) from then ok none else do
        (cf, b4) ← read_binary_level (length b3) b3
        ok (some (from_u64 file_from, from_u64 file_to, cf))
