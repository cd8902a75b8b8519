-- ===== src/Store/Tests.antt =====
-- A run of `WriteToLevel` of pkg/metricstore/metricstore.go into an empty tree.
use cc_backend.Common.{ℕ, ◌+◌, ◌*◌, ◌<◌, ◌≤ℤ◌, ◌+ℤ◌, ◌↔◌, arith, length, true, false}
use cc_backend.Buffer.{Buffer, first_write}
use cc_backend.Buffer.Chain.{IsBuffer}
use cc_backend.Buffer.Refine.{chain_at}
use cc_backend.Buffer.Read.Values.{Exhausted}
use cc_backend.Store.Load.{buffer_of_entry}
use cc_backend.Store.Save.{nothing, IsArchivedLevel, data_of, to_checkpoint_file}
use cc_backend.Store.Archived.{to_checkpoint_file-IsArchivedLevel}
use cc_backend.Store.Restored.{entry_of, data_of-restored}
use cc_backend.Common.{pos, ◌≡◌, refl, Option, none, some, List, [], ◌∷◌}
use cc_backend.Bytes.{Bytes}
use cc_backend.Buffer.{Floats}
use cc_backend.Buffer.Chain.{IsPool, IsChain}
use cc_backend.Level.{level, nil}
use cc_backend.Level.Free.Books.{AllChains}
use cc_backend.Store.{Metric, write_to_level}
use cc_backend.Store.Keep.{write_to_level-IsChain}
use cc_backend.Wal.Snapshot.{CheckpointFile, file, no_files, sub}
use cc_backend.Store.Load.{load_file, StartsOrdered, load_file-StartsOrdered}

-- Numbers with a NaN, `none`.
abbrev pub plus : Option ℕ → Option ℕ → Option ℕ
plus (some x) (some y) = some (x + y)
plus _ _ = none

pub plus-nan : (x : Option ℕ) → plus x none ≡ none
plus-nan none = refl
plus-nan (some x) = refl

abbrev pub numbers : Floats
numbers = record { Float = Option ℕ; nan = none; add = plus; add_nan = plus-nan }

abbrev host : List Bytes
host = (b'c' ∷ []) ∷ (b'h' ∷ []) ∷ []

abbrev two_metrics : List (Metric (Option ℕ))
two_metrics =
    record { offset = 1; frequency = 60; value = some 7 }
    ∷ record { offset = 0; frequency = 0; value = some 8 }
    ∷ []

write_to_level-IsChain_example :
    IsPool (write_to_level numbers 2 [] (level nil ([] ∷ [] ∷ [])) host (pos 1000) two_metrics).pool
    × AllChains IsChain
        (write_to_level numbers 2 [] (level nil ([] ∷ [] ∷ [])) host (pos 1000) two_metrics).left
write_to_level-IsChain_example =
    write_to_level-IsChain numbers 2 [] (level nil ([] ∷ [] ∷ [])) host (pos 1000) two_metrics tt
      ((tt, (tt, tt)), tt)

-- The metric `m` of a host, and the same of a core of it.
abbrev snapshot : CheckpointFile ℕ
snapshot =
    file
      (record { name = b'm' ∷ []; frequency = pos 60; start = pos 970; values = 1 ∷ 2 ∷ [] } ∷ [])
      (sub (b'0' ∷ [])
        (file
          (record { name = b'm' ∷ []; frequency = pos 60; start = pos 970; values = 3 ∷ [] } ∷ [])
          no_files)
        no_files)

abbrev first_offset : Bytes → Option ℕ
first_offset name = some 0

load_file-StartsOrdered_example :
    AllChains
      (StartsOrdered first_offset 1)
      (load_file first_offset 1 snapshot (level nil ([] ∷ []))).0
load_file-StartsOrdered_example =
    load_file-StartsOrdered first_offset 1 snapshot (level nil ([] ∷ [])) ((tt, tt), tt)

-- An archived buffer with two values, and one in front of it that was not archived.
abbrev older_buffer : Buffer (Option ℕ)
older_buffer = record {
  contents = some 1 ∷ some 2 ∷ [];
  cap = 2;
  frequency = 60;
  start = pos 100;
  archived = true;
  closed = true;
  last_used = pos 0;
}

abbrev newer_buffer : Buffer (Option ℕ)
newer_buffer = record {
  contents = some 5 ∷ some 6 ∷ some 7 ∷ [];
  cap = 512;
  frequency = 60;
  start = pos 220;
  archived = false;
  closed = false;
  last_used = pos 0;
}

abbrev one_metric : List (Bytes × ℕ)
one_metric = (b'm' ∷ [], 0) ∷ []

to_checkpoint_file-IsArchivedLevel_example :
    (to_checkpoint_file numbers
        (some 0)
        one_metric
        (pos 100)
        (pos 150)
        (level nil ((newer_buffer ∷ older_buffer ∷ []) ∷ []))
      ≡ nothing)
    ↔ IsArchivedLevel one_metric
        (pos 100)
        (pos 150)
        (level nil ((newer_buffer ∷ older_buffer ∷ []) ∷ []))
to_checkpoint_file-IsArchivedLevel_example =
    to_checkpoint_file-IsArchivedLevel numbers (some 0) one_metric (pos 100) (pos 150)
      (level nil ((newer_buffer ∷ older_buffer ∷ []) ∷ []))

newer-IsBuffer : IsBuffer newer_buffer
newer-IsBuffer = record { positive = omega arith; room = omega arith; fits = omega arith }

covers_start : first_write newer_buffer ≤ℤ pos 280
unfolding first_write ◌+ℤ◌
covers_start = omega arith

data_of-restored_example :
    (values : List (Option ℕ)) × (data_of numbers
        (some 0)
        one_metric
        (pos 280)
        (pos 400)
        newer_buffer
        (older_buffer ∷ [])
      ≡ some (values, pos 280))
    × Exhausted numbers newer_buffer (pos 280 +ℤ pos (length values * 60)) (pos 400)
    × ((k : ℕ)
        → k < length values
        → (w : Option ℕ) × (chain_at numbers
              (newer_buffer ∷ older_buffer ∷ [])
              (pos 280 +ℤ pos (k * 60))
            ≡ some w)
          × (chain_at numbers
                (buffer_of_entry (entry_of (b'm' ∷ []) 60 (pos 280) values) ∷ [])
                (pos 280 +ℤ pos (k * 60))
              ≡ some (plus (some 0) w)))
data_of-restored_example =
    data_of-restored numbers (some 0) one_metric (b'm' ∷ []) newer_buffer (older_buffer ∷ [])
      (pos 280) (pos 400) newer-IsBuffer (refl, tt) (omega arith) covers_start
