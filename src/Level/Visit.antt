-- ===== src/Level/Visit.antt =====
-- The read-only walks of pkg/metricstore/level.go: collectPaths, sizeInBytes and findBuffers, and
-- iterFromTo of pkg/metricstore/buffer.go. A walk that calls a function is the list of what it is
-- called with, in order; an error of the function ends the calls there.
use cc_backend.Common.{
  ℕ, ◌+◌, ◌*◌, ◌<◌, ℤ, leb_ℤ, ◌≡◌, refl, ap, Bool, false, not, ◌&&◌, Option, none, some, List, [],
  ◌∷◌, ◌++◌, ◌==◌, length, inl, inr, get_or, if◌then◌else◌, arith, Bool-cases, Option-cases,
  length-append, All, All-append, ==_iff,
}
use cc_backend.Bytes.{Bytes}
use cc_backend.Buffer.{Buffer, finish}
use cc_backend.Buffer.Free.{count, buffer_count, buffer_count-eq-length}
use cc_backend.Level.{Level, level, Children, nil, cons, children, find_child, find_level}
use cc_backend.Level.Free.Books.{total, total_children, total_metrics}

-- util.SelectorElement of the package cc-lib: its fields `String`, `Group` (nil is `none`) and `Any`.
pub record Selector : Type 0 where
  pub string : Bytes
  pub group : Option (List Bytes)
  pub any : Bool

-- A selector of names.
abbrev pub by_name : List Bytes → List Selector
by_name [] = []
by_name (s ∷ sel) = record { string = s; group = none; any = false } ∷ by_name sel

abbrev IsAt : ℕ → List Bytes → ℕ → List Bytes → Type 0
IsAt depth path target p = length p + depth ≡ length path + target

IsAt-deeper :
    (depth target : ℕ) (path : List Bytes) (key : Bytes) (ps : List (List Bytes))
    → All (IsAt (depth + 1) (path ++ key ∷ []) target) ps
    → All (IsAt depth path target) ps
IsAt-deeper depth target path key [] h = tt
IsAt-deeper depth target path key (p ∷ ps) (h, hs) =
    (omega (arith, h, length-append path (key ∷ [])), IsAt-deeper depth target path key ps hs)

module _ {F : Type 0} where
  -- The buffers that overlap with the span, the oldest first.
  unfoldable pub iter_from_to : List (Buffer F) → ℤ → ℤ → List (Buffer F)
  iter_from_to [] from to = []
  iter_from_to (b ∷ older) from to =
      let rest = iter_from_to older from to in
      if leb_ℤ from (finish b) && leb_ℤ b.start to then rest ++ b ∷ [] else rest

  -- The chain of the slot, unless it is nil.
  abbrev pub present : List (Buffer F) → List (List (Buffer F)) → List (List (Buffer F))
  present [] others = others
  present (b ∷ older) others = (b ∷ older) ∷ []

  -- `findBuffers` with an empty selector
  unfoldable mutual
    pub first_buffers : ℕ → Level F → List (List (Buffer F))
    first_buffers offset (level cs ms) =
        present (get_or ms offset []) (first_buffers_below offset cs)

    pub first_buffers_below : ℕ → Children F → List (List (Buffer F))
    first_buffers_below offset nil = []
    first_buffers_below offset (cons k l cs) =
        first_buffers offset l ++ first_buffers_below offset cs

  -- The loops over the keys of a group and over all children.
  unfoldable pub for_keys :
      (Level F → List (List (Buffer F))) → Children F → List Bytes → List (List (Buffer F))
  for_keys f cs [] = []
  for_keys f cs (k ∷ keys) =
      (elim (find_child k cs) [ none ↦ [] | some l ↦ f l ]) ++ for_keys f cs keys

  unfoldable pub for_all : (Level F → List (List (Buffer F))) → Children F → List (List (Buffer F))
  for_all f nil = []
  for_all f (cons k l cs) = f l ++ for_all f cs

  unfoldable pub find_buffers : List Selector → ℕ → Level F → List (List (Buffer F))
  find_buffers [] offset l = first_buffers offset l
  find_buffers (sel ∷ selector) offset l =
      if not (length sel.string == 0)
      then (elim (find_child sel.string (children l)) [
        | none ↦ []
        | some child ↦ find_buffers selector offset child
      ])
      else elim sel.group [
        | some keys ↦ for_keys (find_buffers selector offset) (children l) keys
        | none ↦ if sel.any then for_all (find_buffers selector offset) (children l) else []
      ]

  unfoldable mutual
    pub collect_paths : ℕ → ℕ → List Bytes → Level F → List (List Bytes)
    collect_paths depth target path (level cs ms) = collect_paths_below depth target path cs

    -- The loop over the children.
    pub collect_paths_below : ℕ → ℕ → List Bytes → Children F → List (List Bytes)
    collect_paths_below depth target path nil = []
    collect_paths_below depth target path (cons key child cs) =
        let deeper = collect_paths (depth + 1) target (path ++ key ∷ []) child in
        let rest = collect_paths_below depth target path cs in
        if depth + 1 == target then (path ++ key ∷ []) ∷ rest else deeper ++ rest

  -- The sizes of a float and of a buffer are given by the compiler.
  module _ (float_size buffer_size : ℕ) where
    unfoldable pub size_of_metrics : List (List (Buffer F)) → ℕ
    size_of_metrics [] = 0
    size_of_metrics (c ∷ ms) =
        count c * float_size + buffer_count c * buffer_size + size_of_metrics ms

    unfoldable mutual
      pub size_in_bytes : Level F → ℕ
      size_in_bytes (level cs ms) = size_of_metrics ms + size_below cs

      pub size_below : Children F → ℕ
      size_below nil = 0
      size_below (cons k l cs) = size_in_bytes l + size_below cs

  abbrev pub buffers_at : ℕ → Option (Level F) → List (List (Buffer F))
  buffers_at offset none = []
  buffers_at offset (some l) = first_buffers offset l

  -- With a selector of names that are not empty, `findBuffers` is `findLevel` with the same names,
  -- and finds there the buffers of the metric or else those of the levels below.
  find_buffers-by_name :
      (sel : List Bytes) (offset : ℕ) (l : Level F)
      → All (λ s. 0 < length s) sel
      → find_buffers (by_name sel) offset l ≡ buffers_at offset (find_level l sel)
  unfolding find_buffers find_level
  find_buffers-by_name [] offset l h = refl
  find_buffers-by_name (s ∷ sel) offset (level cs ms) (h, hs) =
      elim (Option-cases (find_child s cs)) [
        | inl e ↦ rw (named, e, find_buffers, find_level)
        | inr (child, e) ↦
            rw (named, e, find_buffers, find_level) (find_buffers-by_name sel offset child hs)
      ]
    where
      named : (length s == 0) ≡ false
      named = ground (arith, h)

  -- The number of values in a tree.
  unfoldable pub samples_of_metrics : List (List (Buffer F)) → ℕ
  samples_of_metrics [] = 0
  samples_of_metrics (c ∷ ms) = count c + samples_of_metrics ms

  unfoldable mutual
    pub samples : Level F → ℕ
    samples (level cs ms) = samples_of_metrics ms + samples_below cs

    pub samples_below : Children F → ℕ
    samples_below nil = 0
    samples_below (cons k l cs) = samples l + samples_below cs

  module _ (float_size buffer_size : ℕ) where
    size_of_metrics_lem :
        (ms : List (List (Buffer F)))
        → size_of_metrics float_size buffer_size ms
          ≡ samples_of_metrics ms * float_size + total_metrics ms * buffer_size
    unfolding size_of_metrics samples_of_metrics
    size_of_metrics_lem [] = omega arith
    size_of_metrics_lem (c ∷ ms) =
        grind (
          arith,
          size_of_metrics_lem ms,
          ap (λ (n : ℕ). n * buffer_size) (buffer_count-eq-length c),
        )

    mutual
      unfolding size_in_bytes size_below samples samples_below total total_children

      size_lem :
          (l : Level F)
          → size_in_bytes float_size buffer_size l ≡ samples l * float_size + total l * buffer_size
      size_lem (level cs ms) = grind (arith, size_of_metrics_lem ms, size_below_lem cs)

      size_below_lem :
          (cs : Children F)
          → size_below float_size buffer_size cs
            ≡ samples_below cs * float_size + total_children cs * buffer_size
      size_below_lem nil = omega arith
      size_below_lem (cons k l cs) = grind (arith, size_lem l, size_below_lem cs)

    -- `sizeInBytes` is the size of a float for each value and the size of a buffer for each buffer
    -- of the tree.
    size_in_bytes-total :
        (l : Level F)
        → size_in_bytes float_size buffer_size l ≡ samples l * float_size + total l * buffer_size
    size_in_bytes-total l = size_lem l

  mutual
    unfolding collect_paths collect_paths_below

    paths-IsAt :
        (depth target : ℕ) (path : List Bytes) (l : Level F)
        → All (IsAt depth path target) (collect_paths depth target path l)
    paths-IsAt depth target path (level cs ms) = paths_below-IsAt depth target path cs

    paths_below-IsAt :
        (depth target : ℕ) (path : List Bytes) (cs : Children F)
        → All (IsAt depth path target) (collect_paths_below depth target path cs)
    paths_below-IsAt depth target path nil = tt
    paths_below-IsAt depth target path (cons key child cs) =
        elim (Bool-cases (depth + 1 == target)) [
          | inl there ↦ rw there (
            omega (arith, (==_iff (depth + 1) target).0 there, length-append path (key ∷ [])),
            paths_below-IsAt depth target path cs,
          )
          | inr above ↦ rw above (
              All-append (IsAt depth path target) _ _
                (IsAt-deeper depth target path key _
                  (paths-IsAt (depth + 1) target (path ++ key ∷ []) child))
                (paths_below-IsAt depth target path cs))
        ]

  -- Each path that `collectPaths` adds goes as many levels deeper than the path that it was called
  -- with as the target is deeper than the current depth.
  pub collect_paths-length :
      (depth target : ℕ) (path : List Bytes) (l : Level F)
      → All (λ p. length p + depth ≡ length path + target) (collect_paths depth target path l)
  collect_paths-length depth target path l = paths-IsAt depth target path l
