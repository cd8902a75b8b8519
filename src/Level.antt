-- ===== src/Level.antt =====
-- pkg/metricstore/level.go: the tree of levels. A level holds its children by name and, for each
-- metric, the chain of its buffers; an empty list stands for a nil pointer, and a nil map of
-- children is an empty one. A pointer to a level is the path to it from the root.
pub mod Create
pub mod Free
pub mod Visit
mod Tests
use cc_backend.Common.{
  ℕ, zero, suc, ◌+◌, ◌-◌, ◌*◌, ◌/◌, ◌%◌, ◌^◌, ◌≤◌, ◌<◌, ℤ, pos, negsuc, pos_part, neg_part, ltb_ℤ,
  leb_ℤ, ◌≤ℤ◌, ◌<ℤ◌, ◌≡◌, refl, sym, ap, ◌∙◌, Bool, true, false, not, ◌&&◌, ◌||◌, Option, none,
  some, List, [], ◌∷◌, ◌++◌, map, append-nil, append_assoc, ltb, leb, ◌==◌, length, get_elem?, ◌⊎◌,
  inl, inr, ◌↔◌, ◌≢◌, get_or, set, replicate, take, drop, if◌then◌else◌, arith, int_laws,
  Bool-cases, Option-cases, length-append, length-replicate, length-set, All, All-append, le→leb,
  gt→leb, lt→ltb, ge→ltb, ltb→lt, leb→le, ==_iff,
}
use cc_backend.Bytes.{Bytes, key_eq}
use cc_backend.Buffer.{Buffer, Pool, buffer_cap}
use cc_backend.Buffer.Free.{Freed, retire, free, force_free_oldest, count, buffer_count}

mutual
  pub data Level (F : Type 0) : Type 0 where
    level : Children F → List (List (Buffer F)) → Level F

  pub data Children (F : Type 0) : Type 0 where
    nil : Children F
    cons : Bytes → Level F → Children F → Children F

module _ {F : Type 0} where
  abbrev pub children : Level F → Children F
  children (level cs ms) = cs

  abbrev pub metrics : Level F → List (List (Buffer F))
  metrics (level cs ms) = ms

  -- l.children[key], and l.children[key] = child
  unfoldable pub find_child : Bytes → Children F → Option (Level F)
  find_child k nil = none
  find_child k (cons j l cs) = if key_eq j k then some l else find_child k cs

  unfoldable pub set_child : Bytes → Level F → Children F → Children F
  set_child k l nil = cons k l nil
  set_child k l (cons j m cs) = if key_eq j k then cons j l cs else cons j m (set_child k l cs)

  -- &Level{metrics: make([]*buffer, nMetrics), children: nil}
  unfoldable pub fresh : ℕ → Level F
  fresh n_metrics = level nil (replicate n_metrics [])

  unfoldable pub find_level : Level F → List Bytes → Option (Level F)
  find_level l [] = some l
  find_level (level cs ms) (s ∷ sel) = elim (find_child s cs) [
    | none ↦ none
    | some child ↦ find_level child sel
  ]

  -- The tree after `findLevelOrCreate`; the pointer that it returns is `selector`.
  unfoldable pub find_level_or_create : Level F → List Bytes → ℕ → Level F
  find_level_or_create l [] n = l
  find_level_or_create (level cs ms) (s ∷ sel) n = elim (find_child s cs) [
    | some child ↦ level (set_child s (find_level_or_create child sel n) cs) ms
    | none ↦ level (set_child s (find_level_or_create (fresh n) sel n) cs) ms
  ]
