-- ===== src/Buffer/Read.antt =====
-- `read` of pkg/metricstore/buffer.go: the walk back to the buffer that covers `from`, and the loop
-- that adds the stored values into the caller's slice.
pub mod Values
use cc_backend.Common.{
  ℕ, zero, suc, ◌+◌, ◌-◌, ◌*◌, ◌/◌, ◌%◌, ◌≤◌, ◌<◌, ℤ, pos, ◌+ℤ◌, ◌-ℤ◌, go_div, pos_part, neg_part,
  ltb_ℤ, leb_ℤ, ◌≤ℤ◌, ◌<ℤ◌, ◌≡◌, refl, sym, ap, ◌∙◌, Bool, true, false, Option, none, some, List,
  [], ◌∷◌, ◌++◌, ltb, leb, ◌==◌, length, get_elem?, ◌⊎◌, inl, inr, ◌↔◌, get_or, set, replicate,
  if◌then◌else◌, arith, int_laws, Bool-cases, Option-cases, length-append, length-replicate,
  length-set, ltb_ℤ→ge, ltb_ℤ→lt, ge→ltb_ℤ, lt→ltb_ℤ, All, eq_of_parts, +ℤ_parts, -ℤ_parts,
}
use cc_backend.Buffer.Chain.{
  IsBuffer, Follows, IsChain, IsPool, div_bounds, index_pos, index_covers,
}
use cc_backend.Buffer.{Buffer, Floats, first_write, write, slot, index}

-- Where the reader stands: the buffer, what its `next` links lead to, and `from` as adjusted.
pub record Cursor (F : Type 0) : Type 0 where
  pub newer : List (Buffer F)
  pub here : Buffer F
  pub from : ℤ

-- `panic` is an index out of the caller's slice.
pub data ReadResult (F : Type 0) : Type 0 where
  ok : List F → ℤ → ℤ → ReadResult F
  panic : ReadResult F

module _ {F : Type 0} where
  unfoldable pub locate : List (Buffer F) → Buffer F → List (Buffer F) → ℤ → Cursor F
  locate newer b [] from = record {
    newer = newer;
    here = b;
    from = if ltb_ℤ from (first_write b) then first_write b else from;
  }
  locate newer b (p ∷ older) from =
      let back = locate (b ∷ newer) p older from in
      if ltb_ℤ from (first_write b) then back else record { newer = newer; here = b; from = from }

  -- if b.next == nil { break }; b = b.next
  unfoldable pub follow_next : List (Buffer F) → Option (List (Buffer F) × Buffer F)
  follow_next [] = none
  follow_next (n ∷ newer) = some (newer, n)

  unfoldable pub advance : List (Buffer F) → Buffer F → ℤ → Option (List (Buffer F) × Buffer F)
  advance newer b t = if leb_ℤ (pos b.cap) (index b t) then follow_next newer else some (newer, b)

  -- b.next == nil || to <= b.next.start
  unfoldable pub ends_here : List (Buffer F) → ℤ → Bool
  ends_here [] to = true
  ends_here (n ∷ _) to = leb_ℤ to n.start

module _ (fl : Floats) where
  open fl use {Float, nan, add, add_nan}

  -- What a round adds at `t`; `none` is the break.
  unfoldable pub sample : List (Buffer Float) → Buffer Float → ℤ → ℤ → Option Float
  sample newer b t to =
      if leb_ℤ (pos (length b.contents)) (index b t)
      then (if ends_here newer to then none else some nan)
      else if ltb_ℤ t b.start
      then some nan
      else some (get_or b.contents (pos_part (index b t)) nan)

  -- One round: the links that remain, the buffer to go on with and the value to add.
  unfoldable pub round :
      List (Buffer Float)
      → Buffer Float
      → ℤ
      → ℤ
      → Option (List (Buffer Float) × Buffer Float × Float)
  round newer b t to =
      if ltb_ℤ t to
      then elim (advance newer b t) [
        | none ↦ none
        | some (newer', b') ↦ elim (sample newer' b' t to) [
          | none ↦ none
          | some v ↦ some (newer', b', v)
        ]
      ]
      else none

  -- The loop over `i` and `t`; the slice is what has not been reached yet.
  unfoldable pub read_loop :
      List (Buffer Float) → Buffer Float → ℤ → ℤ → List Float → Option (List Float × ℤ)
  read_loop newer b t to [] = elim (round newer b t to) [ none ↦ some ([], t) | some _ ↦ none ]
  read_loop newer b t to (x ∷ cells) = elim (round newer b t to) [
    | none ↦ some ([], t)
    | some (newer', b', v) ↦ elim (read_loop newer' b' (t +ℤ pos b'.frequency) to cells) [
      | none ↦ none
      | some (vs, t') ↦ some (add x v ∷ vs, t')
    ]
  ]

  -- return data[:i], from, t, nil
  abbrev outcome : ℤ → Option (List Float × ℤ) → ReadResult Float
  outcome from none = panic
  outcome from (some (vs, t)) = ok vs from t

  unfoldable pub read : Buffer Float → List (Buffer Float) → ℤ → ℤ → List Float → ReadResult Float
  read b older from to cells =
      let c = locate [] b older from in outcome c.from (read_loop c.newer c.here c.from to cells)

  abbrev push : Float → Option (List Float × ℤ) → Option (List Float × ℤ)
  push v none = none
  push v (some (vs, t)) = some (v ∷ vs, t)

  read_loop_stop :
      (newer : List (Buffer Float)) (b : Buffer Float) (t to : ℤ) (cells : List Float)
      → round newer b t to ≡ none
      → read_loop newer b t to cells ≡ some ([], t)
  unfolding read_loop
  read_loop_stop newer b t to [] e = rw (e, read_loop)
  read_loop_stop newer b t to (x ∷ cells) e = rw (e, read_loop)

  read_loop_more :
      (newer : List (Buffer Float)) (b : Buffer Float) (t to : ℤ) (x : Float) (cells : List Float)
      {newer' : List (Buffer Float)} {b' : Buffer Float} {v : Float}
      → round newer b t to ≡ some (newer', b', v)
      → read_loop newer b t to (x ∷ cells)
        ≡ push (add x v) (read_loop newer' b' (t +ℤ pos b'.frequency) to cells)
  unfolding read_loop
  read_loop_more newer b t to x cells {newer'} {b'} {v} e =
      rw (e, read_loop) (push_eq (add x v) (read_loop newer' b' (t +ℤ pos b'.frequency) to cells))
    where
      push_eq :
          (w : Float) (r : Option (List Float × ℤ))
          → (elim r [ none ↦ none | some (vs, t') ↦ some (w ∷ vs, t') ]) ≡ push w r
      push_eq w none = refl
      push_eq w (some (vs, t')) = refl

  module _ (f : ℕ) where
    abbrev pub Paced : List (Buffer Float) → Type 0
    Paced bs = All (λ b. b.frequency ≡ f) bs

    round-Paced :
        (newer : List (Buffer Float)) (b : Buffer Float) (t to : ℤ) {newer' : List (Buffer Float)}
        {b' : Buffer Float} {v : Float}
        → Paced newer
        → b.frequency ≡ f
        → round newer b t to ≡ some (newer', b', v)
        → (t <ℤ to) × (b'.frequency ≡ f) × Paced newer'
    unfolding round advance follow_next sample
    round-Paced [] b t to h k e = ground arith
    round-Paced (n ∷ newer) b t to h k e = ground arith

    -- What the loop guarantees, for a slice that is long enough.
    abbrev Covers : ℤ → ℤ → ℕ → Option (List Float × ℤ) → Type 0
    Covers t to n none = ⊥
    Covers t to n (some (vs, t')) =
        (t' ≡ t +ℤ pos (length vs * f)) × (length vs ≤ n) × ((vs ≡ []) ⊎ (t' <ℤ to +ℤ pos f))

    -- One more round in front of a loop that covers the rest.
    Covers-step :
        (t to : ℤ) (n g : ℕ) (r : Option (List Float × ℤ)) (x : Float)
        → g ≡ f
        → t <ℤ to
        → Covers (t +ℤ pos g) to n r
        → Covers t to (suc n) (push x r)
    Covers-step t to n g none x pace before h = h
    Covers-step t to n g (some ([], t')) x pace before (at_end, _, _) = (
      at_end ∙ omega int_laws,
      omega arith,
      inr (omega (int_laws, ap pos_part at_end, ap neg_part at_end)),
    )
    Covers-step t to n g (some (v ∷ vs, t')) x pace before (at_end, fits, inl e) = cc
    Covers-step t to n g (some (v ∷ vs, t')) x pace before (at_end, fits, inr e) =
        (at_end ∙ omega int_laws, omega arith, inr e)

    read_loop-Covers :
        (cells : List Float) (newer : List (Buffer Float)) (b : Buffer Float) (t to : ℤ)
        → Paced newer
        → b.frequency ≡ f
        → to ≤ℤ t +ℤ pos (length cells * f)
        → Covers t to (length cells) (read_loop newer b t to cells)
    read_loop-Covers [] newer b t to h k e = elim (Option-cases (round newer b t to)) [
      | inl stop ↦ rw (read_loop_stop newer b t to [] stop) (omega int_laws, omega arith, inl refl)
      | inr ((newer', b', v), more) ↦ absurd (omega (int_laws, round-Paced newer b t to h k more))
    ]
    read_loop-Covers (x ∷ cells) newer b t to h k e = elim (Option-cases (round newer b t to)) [
      | inl stop ↦
          rw (read_loop_stop newer b t to (x ∷ cells) stop) (omega int_laws, omega arith, inl refl)
      | inr ((newer', b', v), more) ↦
          let (before, pace, paced) = round-Paced newer b t to h k more in
          let rest =
            read_loop-Covers cells newer' b' (t +ℤ pos b'.frequency) to paced pace
              (omega int_laws) in
          rw (read_loop_more newer b t to x cells more)
            (Covers-step t to (length cells) b'.frequency _ (add x v) pace before rest)
    ]

  locate-Paced :
      (f : ℕ) (newer : List (Buffer Float)) (b : Buffer Float) (older : List (Buffer Float))
      (from : ℤ)
      → Paced f newer
      → b.frequency ≡ f
      → Paced f older
      → Paced f (locate newer b older from).newer
        × ((locate newer b older from).here.frequency ≡ f)
        × (from ≤ℤ (locate newer b older from).from)
  unfolding locate
  locate-Paced f newer b [] from h k i = (h, k, ground arith)
  locate-Paced f newer b (p ∷ older) from h k (pace, i) =
      elim (Bool-cases (ltb_ℤ from (first_write b))) [
        | inl before ↦ rw before (locate-Paced f (b ∷ newer) p older from (k, h) pace i)
        | inr found ↦ rw found (h, k, omega arith)
      ]

  -- What `read` promises: the number of values is the number of intervals between the bounds that
  -- it returns, and the end is less than an interval past the end asked for.
  abbrev pub Promise : ℕ → ℤ → ℤ → ReadResult Float → Type 0
  Promise f from to panic = ⊥
  Promise f from to (ok vs from' to') =
      (from ≤ℤ from') × (to' ≡ from' +ℤ pos (length vs * f)) × ((vs ≡ []) ⊎ (to' <ℤ to +ℤ pos f))

  Promise-outcome :
      (f : ℕ) (from to : ℤ) (n : ℕ) (from' : ℤ) (r : Option (List Float × ℤ))
      → from ≤ℤ from'
      → Covers f from' to n r
      → Promise f from to (outcome from' r)
  Promise-outcome f from to n from' none later h = h
  Promise-outcome f from to n from' (some (vs, t)) later (at_end, _, last) = (later, at_end, last)

  -- Over a chain of one frequency, a slice of (to - from) / frequency + 1 cells is long enough:
  -- `read` does not index out of it.
  pub read-Promise :
      (f : ℕ) (b : Buffer Float) (older : List (Buffer Float)) (from to : ℤ) (cells : List Float)
      → 0 < f
      → Paced f (b ∷ older)
      → length cells ≡ pos_part (to -ℤ from) / f + 1
      → Promise f from to (read b older from to cells)
  unfolding read
  read-Promise f b older from to cells h (pace, paced) k =
      let (near, here, later) = locate-Paced f [] b older from tt pace paced in
      let enough = (div_bounds (pos_part (to -ℤ from)) f h).1 in
      Promise-outcome f from to (length cells) _ _ later (
        read_loop-Covers f cells _ _ _ to near here
          (omega (int_laws, later, enough, ap (λ (n : ℕ). n * f) k)))
