-- ===== src/Store/Save.antt =====
-- `toCheckpointFile` of pkg/metricstore/checkpoint.go: the snapshot of a tree, and when there is
-- nothing to save. `names` are the metrics of the store with their offsets.
use cc_backend.Common.{
  ℕ, ◌-◌, ℤ, pos, pos_part, ltb_ℤ, ◌≤ℤ◌, ◌+ℤ◌, ◌-ℤ◌, ◌≡◌, Bool, true, ◌&&◌, Option, none, some,
  List, [], ◌∷◌, ◌++◌, length, get_or, replicate, take, if◌then◌else◌, All,
}
use cc_backend.Bytes.{Bytes}
use cc_backend.Common.{go_div}
use cc_backend.Buffer.{Buffer, Floats, finish}
use cc_backend.Buffer.Read.{ReadResult, read}
use cc_backend.Level.{Level, level, Children, nil, cons}
use cc_backend.Level.Visit.{iter_from_to}
use cc_backend.Wal.Snapshot.{Entry, CheckpointFile, file, Files, no_files, sub}

-- nil, a snapshot, or a panic
pub data Saved (F : Type 0) : Type 0 where
  panics : Saved F
  nothing : Saved F
  holds : CheckpointFile F → Saved F

module _ {F : Type 0} where
  unfoldable pub all_archived : List (Buffer F) → Bool
  all_archived [] = true
  all_archived (b ∷ bs) = b.archived && all_archived bs

  unfoldable pub saved_if : List (Entry F) → Files F → Saved F
  saved_if [] no_files = nothing
  saved_if [] (sub k f fs) = holds (file [] (sub k f fs))
  saved_if (e ∷ es) fs = holds (file (e ∷ es) fs)

  -- The end of `toCheckpointFile`, with what the two loops yield.
  unfoldable pub level_file : Option (List (Entry F)) → Option (Files F) → Saved F
  level_file none below = panics
  level_file (some es) none = panics
  level_file (some es) (some fs) = saved_if es fs

  -- One round of the loop over the children.
  unfoldable pub child_file : Bytes → Saved F → Option (Files F) → Option (Files F)
  child_file k panics rest = none
  child_file k nothing rest = rest
  child_file k (holds f) none = none
  child_file k (holds f) (some fs) = some (sub k f fs)

  -- Every buffer of the chain that overlaps with the span is archived.
  abbrev pub IsArchived : ℤ → ℤ → List (Buffer F) → Type 0
  IsArchived from to c = All (λ b. from ≤ℤ finish b → b.start ≤ℤ to → b.archived ≡ true) c

  -- So it is for every metric of the store, on the level and below.
  unfoldable mutual
    pub IsArchivedLevel : List (Bytes × ℕ) → ℤ → ℤ → Level F → Type 0
    IsArchivedLevel names from to (level cs ms) =
        All (λ x. IsArchived from to (get_or ms x.1 [])) names × IsArchivedBelow names from to cs

    pub IsArchivedBelow : List (Bytes × ℕ) → ℤ → ℤ → Children F → Type 0
    IsArchivedBelow names from to nil = Unit {0}
    IsArchivedBelow names from to (cons k l cs) =
        IsArchivedLevel names from to l × IsArchivedBelow names from to cs

module _ (fl : Floats) (zero_float : fl.Float) (names : List (Bytes × ℕ)) (from to : ℤ) where
  open fl use {Float, nan}

  -- The values of `read` in a slice of zeros, with NaN behind its end, and its start; `none` is a
  -- panic.
  unfoldable pub data_of : Buffer Float → List (Buffer Float) → Option (List Float × ℤ)
  data_of b older =
      let size = go_div (to -ℤ from) b.frequency +ℤ pos 1 in
      if ltb_ℤ size (pos 0)
      then none
      else elim (read fl b older from to (replicate (pos_part size) zero_float)) [
        | ReadResult.panic ↦ none
        | ReadResult.ok vs start end ↦
            (let n = pos_part (go_div (end -ℤ start) b.frequency) in
              some (take n vs ++ replicate (length vs - n) nan, start))
      ]

  unfoldable pub save_metrics :
      List (Bytes × ℕ) → List (List (Buffer Float)) → Option (List (Entry Float))
  save_metrics [] ms = some []
  save_metrics ((name, offset) ∷ others) ms =
      let rest = save_metrics others ms in
      elim (get_or ms offset []) [
        | [] ↦ rest
        | b ∷ older ↦
            if all_archived (iter_from_to (b ∷ older) from to)
            then rest
            else elim (data_of b older) [
              | none ↦ none
              | some (values, start) ↦ elim rest [
                | none ↦ none
                | some es ↦ some (
                    record {
                      name = name;
                      frequency = pos b.frequency;
                      start = start;
                      values = values;
                    }
                    ∷ es)
              ]
            ]
      ]

  unfoldable mutual
    pub to_checkpoint_file : Level Float → Saved Float
    to_checkpoint_file (level cs ms) = level_file (save_metrics names ms) (save_children cs)

    pub save_children : Children Float → Option (Files Float)
    save_children nil = some no_files
    save_children (cons k l cs) = child_file k (to_checkpoint_file l) (save_children cs)
