-- ===== src/Store.antt =====
-- `WriteToLevel` of pkg/metricstore/metricstore.go: samples of one timestamp go to the chains of
-- one level, which is made where it is missing. An offset is below the number of metrics.
pub mod Keep
pub mod Load
pub mod Save
pub mod Archived
pub mod Restored
pub mod Replay
mod Tests
use cc_backend.Common.{
  ℕ, zero, suc, ◌+◌, ◌-◌, ◌*◌, ◌/◌, ◌%◌, ◌^◌, ◌≤◌, ◌<◌, ℤ, pos, negsuc, sub_ℕ, pos_part, neg_part,
  ltb_ℤ, leb_ℤ, ◌≤ℤ◌, ◌<ℤ◌, ◌+ℤ◌, ◌-ℤ◌, ◌≡◌, refl, sym, ap, ◌∙◌, Bool, true, false, not, ◌&&◌, ◌||◌,
  Option, none, some, List, [], ◌∷◌, ◌++◌, map, append-nil, append_assoc, ltb, leb, ◌==◌, length,
  get_elem?, ◌⊎◌, inl, inr, ◌↔◌, ◌≢◌, get_or, set, replicate, take, drop, if◌then◌else◌, arith,
  int_laws, Bool-cases, Option-cases, length-append, length-replicate, length-set, All, All-append,
  le→leb, gt→leb, lt→ltb, ge→ltb, ltb→lt, leb→le, ==_iff,
}
use cc_backend.Bytes.{Bytes}
use cc_backend.Buffer.{Floats, Buffer, Pool, new_buffer, write}
use cc_backend.Level.{
  Level, level, Children, children, metrics, find_child, set_child, find_level,
  find_level_or_create,
}

-- A Metric: the offset and the frequency of its MetricConfig, and the value.
pub record Metric (F : Type 0) : Type 0 where
  pub offset : ℕ
  pub frequency : ℕ
  pub value : F

-- What is left in the chains of the level, or in the tree, and whether an error was returned.
pub record Outcome (F : Type 0) (A : Type 0) : Type 0 where
  pub pool : Pool F
  pub left : A
  pub failed : Bool

-- if b == nil { b = newBuffer(..) }
unfoldable pub open_chain :
    {F : Type 0} → Pool F → List (Buffer F) → ℤ → ℕ → Pool F × List (Buffer F)
open_chain pool [] ts freq = let (b, rest) = new_buffer pool ts freq in (rest, b ∷ [])
open_chain pool (b ∷ older) ts freq = (pool, b ∷ older)

-- l.metrics of the level at a path, replaced
unfoldable pub replace_metrics :
    {F : Type 0} → Level F → List Bytes → List (List (Buffer F)) → Level F
replace_metrics (level cs ms) [] ms' = level cs ms'
replace_metrics (level cs ms) (s ∷ sel) ms' = elim (find_child s cs) [
  | none ↦ level cs ms
  | some child ↦ level (set_child s (replace_metrics child sel ms') cs) ms
]

module _ (fl : Floats) where
  open fl use {Float}

  unfoldable pub write_chain :
      Pool Float → List (Buffer Float) → ℤ → Float → Option (Pool Float × List (Buffer Float))
  write_chain pool [] ts v = none
  write_chain pool (b ∷ older) ts v = write fl pool b older ts v

  -- The loop over the metrics. A chain is not empty once it is opened.
  unfoldable pub write_metrics :
      Pool Float
      → List (List (Buffer Float))
      → ℤ
      → List (Metric Float)
      → Outcome Float (List (List (Buffer Float)))
  write_metrics pool ms ts [] = record { pool = pool; left = ms; failed = false }
  write_metrics pool ms ts (m ∷ rest) =
      let skip = write_metrics pool ms ts rest in
      let (p, c) = open_chain pool (get_or ms m.offset []) ts m.frequency in
      let one : Outcome Float (List (List (Buffer Float))) = elim (write_chain p c ts m.value) [
        | none ↦ record { pool = p; left = set ms m.offset c; failed = true }
        | some (p', c') ↦ write_metrics p' (set ms m.offset c') ts rest
      ] in
      if m.frequency == 0 then skip else one

  -- `n` is the number of metrics. The level is there once it was made.
  unfoldable pub write_to_level :
      ℕ
      → Pool Float
      → Level Float
      → List Bytes
      → ℤ
      → List (Metric Float)
      → Outcome Float (Level Float)
  write_to_level n pool root selector ts ms =
      let tree = find_level_or_create root selector n in
      elim (find_level tree selector) [
        | none ↦ record { pool = pool; left = tree; failed = false }
        | some l ↦
            (let r = write_metrics pool (metrics l) ts ms in
              record {
                pool = r.pool;
                left = replace_metrics tree selector r.left;
                failed = r.failed;
              })
      ]
