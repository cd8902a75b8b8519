-- ===== src/Level/Free.antt =====
-- Freeing buffers in the tree of levels: freeAndCheckEmpty, forceFree and sizeInBytes of
-- pkg/metricstore/level.go. A Go map is walked in an unspecified order; the list of children is one.
pub mod Oldest
pub mod Books
pub mod Left
use cc_backend.Common.{
  ℕ, zero, suc, ◌+◌, ◌-◌, ◌*◌, ◌/◌, ◌%◌, ◌^◌, ◌≤◌, ◌<◌, ℤ, pos, negsuc, pos_part, neg_part, ltb_ℤ,
  leb_ℤ, ◌≤ℤ◌, ◌<ℤ◌, ◌≡◌, refl, sym, ap, ◌∙◌, Bool, true, false, not, ◌&&◌, ◌||◌, Option, none,
  some, List, [], ◌∷◌, ◌++◌, map, append-nil, append_assoc, ltb, leb, ◌==◌, length, get_elem?, ◌⊎◌,
  inl, inr, ◌↔◌, ◌≢◌, get_or, set, replicate, take, drop, if◌then◌else◌, arith, int_laws,
  Bool-cases, Option-cases, length-append, length-replicate, length-set, All, All-append, le→leb,
  gt→leb, lt→ltb, ge→ltb, ltb→lt, leb→le, ==_iff,
}
use cc_backend.Bytes.{Bytes}
use cc_backend.Buffer.{Buffer, Pool, buffer_cap, finish}
use cc_backend.Buffer.Free.{Freed, retire, free, force_free_oldest, count, buffer_count}
use cc_backend.Level.{Level, level, Children, nil, cons, children, metrics}

-- What a sweep over something that holds buffers returns: how many it freed, what is left of the
-- thing, and the pool.
pub record Swept (F : Type 0) (A : Type 0) : Type 0 where
  pub freed : ℕ
  pub left : A
  pub pool : Pool F

module _ {F : Type 0} where
  -- The part of `forceFree` and of `freeAndCheckEmpty` behind the call on a head `b`.
  abbrev pub swept_head : ℤ → Buffer F → Freed F → Swept F (List (Buffer F))
  swept_head now b r = record {
    freed = r.freed;
    left = if r.delme then [] else b ∷ r.older;
    pool = if r.delme then retire now r.pool b else r.pool;
  }

  unfoldable pub free_chain : ℤ → ℤ → Pool F → List (Buffer F) → Swept F (List (Buffer F))
  free_chain now t pool [] = record { freed = 0; left = []; pool = pool }
  free_chain now t pool (b ∷ older) = swept_head now b (free now pool b older t)

  unfoldable pub force_free_chain : ℤ → Pool F → List (Buffer F) → Swept F (List (Buffer F))
  force_free_chain now pool [] = record { freed = 0; left = []; pool = pool }
  force_free_chain now pool (b ∷ older) = swept_head now b (force_free_oldest now pool b older)

  -- The loop over `l.metrics`, for either way to treat a chain.
  unfoldable pub sweep_metrics :
      (Pool F → List (Buffer F) → Swept F (List (Buffer F)))
      → Pool F
      → List (List (Buffer F))
      → Swept F (List (List (Buffer F)))
  sweep_metrics sweep pool [] = record { freed = 0; left = []; pool = pool }
  sweep_metrics sweep pool (c ∷ ms) =
      let r = sweep pool c in
      let rest = sweep_metrics sweep r.pool ms in
      record { freed = r.freed + rest.freed; left = r.left ∷ rest.left; pool = rest.pool }

  unfoldable pub all_nil : List (List (Buffer F)) → Bool
  all_nil [] = true
  all_nil ([] ∷ ms) = all_nil ms
  all_nil ((b ∷ c) ∷ ms) = false

  unfoldable pub no_children : Children F → Bool
  no_children nil = true
  no_children (cons k l cs) = false

  -- len(l.children) == 0 and no metric is left
  abbrev pub is_empty : Level F → Bool
  is_empty (level cs ms) = if no_children cs then all_nil ms else false

-- `freeAndCheckEmpty`: an empty child is deleted from the map. Its error is always nil.
unfoldable mutual
  pub free_and_check_empty : {F : Type 0} → ℤ → ℤ → Pool F → Level F → Swept F (Level F)
  free_and_check_empty now t pool (level cs ms) =
      let own = sweep_metrics (free_chain now t) pool ms in
      let rest = free_children now t own.pool cs in
      record { freed = own.freed + rest.freed; left = level rest.left own.left; pool = rest.pool }

  pub free_children : {F : Type 0} → ℤ → ℤ → Pool F → Children F → Swept F (Children F)
  free_children now t pool nil = record { freed = 0; left = nil; pool = pool }
  free_children now t pool (cons key child cs) =
      let r = free_and_check_empty now t pool child in
      let rest = free_children now t r.pool cs in
      record {
        freed = r.freed + rest.freed;
        left = if is_empty r.left then rest.left else cons key r.left rest.left;
        pool = rest.pool;
      }

unfoldable mutual
  pub force_free : {F : Type 0} → ℤ → Pool F → Level F → Swept F (Level F)
  force_free now pool (level cs ms) =
      let own = sweep_metrics (force_free_chain now) pool ms in
      let rest = force_free_children now own.pool cs in
      record { freed = own.freed + rest.freed; left = level rest.left own.left; pool = rest.pool }

  pub force_free_children : {F : Type 0} → ℤ → Pool F → Children F → Swept F (Children F)
  force_free_children now pool nil = record { freed = 0; left = nil; pool = pool }
  force_free_children now pool (cons key child cs) =
      let r = force_free now pool child in
      let rest = force_free_children now r.pool cs in
      record { freed = r.freed + rest.freed; left = cons key r.left rest.left; pool = rest.pool }
