-- ===== src/Buffer/Read/Values.antt =====
-- What `read` of pkg/metricstore/buffer.go returns from the newest buffer, and after a `write`.
use cc_backend.Common.{
  ℕ, ℤ, pos, ◌+ℤ◌, pos_part, ◌≤ℤ◌, ◌<ℤ◌, ◌≡◌, refl, sym, ap, ◌∙◌, Option, none, some, List, [], ◌∷◌,
  length, ◌⊎◌, inl, inr, arith, int_laws, ge→ltb_ℤ,
}
use cc_backend.Buffer.Chain.{IsBuffer}
use cc_backend.Buffer.Refine.{chain_at}
use cc_backend.Buffer.{Buffer, Floats, first_write, slot, index}
use cc_backend.Buffer.Read.{
  ok, locate, round, advance, sample, read_loop, read, push, outcome, read_loop_stop,
  read_loop_more, follow_next, ends_here,
}

module _ (fl : Floats) where
  open fl use {Float, nan, add}

  -- Each value is a cell of the caller with what the chain holds for that time added.
  abbrev pub Sampled : List (Buffer Float) → ℕ → ℤ → List Float → List Float → Type 0
  Sampled c f t [] cells = Unit {0}
  Sampled c f t (v ∷ vs) [] = ⊥
  Sampled c f t (v ∷ vs) (x ∷ cells) =
      ((w : Float) × (chain_at fl c t ≡ some w) × (v ≡ add x w)) × Sampled c f (t +ℤ pos f) vs cells

  -- The loop ended at `to`, or where the data of the buffer does.
  abbrev pub Exhausted : Buffer Float → ℤ → ℤ → Type 0
  Exhausted b t to = (to ≤ℤ t) ⊎ (pos (length b.contents) ≤ℤ index b t)

  round_head :
      (b : Buffer Float) (t to : ℤ)
      → IsBuffer b
      → b.start ≤ℤ t
      → ((round fl [] b t to ≡ none) × Exhausted b t to)
        ⊎ ((round fl [] b t to ≡ some ([], b, slot fl b (pos_part (index b t)))))
  unfolding round advance follow_next sample ends_here slot
  round_head b t to h k = ground (arith, h.fits)

  pub chain_at_head :
      (b : Buffer Float) (older : List (Buffer Float)) (t : ℤ)
      → b.start ≤ℤ t
      → chain_at fl (b ∷ older) t ≡ some (slot fl b (pos_part (index b t)))
  unfolding chain_at
  chain_at_head b older t k = rw (ge→ltb_ℤ t b.start k)

  abbrev LoopValues :
      Buffer Float → List (Buffer Float) → ℤ → ℤ → List Float → Option (List Float × ℤ) → Type 0
  LoopValues b older t to cells none = Unit {0}
  LoopValues b older t to cells (some (vs, t')) =
      Sampled (b ∷ older) b.frequency t vs cells × Exhausted b t' to

  push_values :
      (b : Buffer Float) (older : List (Buffer Float)) (t to : ℤ) (x : Float) (cells : List Float)
      (r : Option (List Float × ℤ))
      → b.start ≤ℤ t
      → LoopValues b older (t +ℤ pos b.frequency) to cells r
      → LoopValues b older t to (x ∷ cells) (push fl (add x (slot fl b (pos_part (index b t)))) r)
  push_values b older t to x cells none k h = tt
  push_values b older t to x cells (some (vs, t')) k (h, e) =
      (((_, chain_at_head b older t k, refl), h), e)

  loop_values :
      (cells : List Float) (b : Buffer Float) (older : List (Buffer Float)) (t to : ℤ)
      → IsBuffer b
      → b.start ≤ℤ t
      → LoopValues b older t to cells (read_loop fl [] b t to cells)
  loop_values [] b older t to h k = elim (round_head b t to h k) [
    | inl (stop, done) ↦ rw (read_loop_stop fl [] b t to [] stop) (tt, done)
    | inr more ↦ unfold read_loop in rw (more, read_loop) tt
  ]
  loop_values (x ∷ cells) b older t to h k = elim (round_head b t to h k) [
    | inl (stop, done) ↦ rw (read_loop_stop fl [] b t to (x ∷ cells) stop) (tt, done)
    | inr more ↦ rw (read_loop_more fl [] b t to x cells more) (
        push_values b older t to x cells _ k
          (loop_values cells b older (t +ℤ pos b.frequency) to h (omega int_laws)))
  ]

  locate_head :
      (b : Buffer Float) (older : List (Buffer Float)) (from : ℤ)
      → first_write b ≤ℤ from
      → locate [] b older from ≡ record { newer = []; here = b; from = from }
  unfolding locate
  locate_head b [] from h = rw (ge→ltb_ℤ from (first_write b) h)
  locate_head b (p ∷ older) from h = rw (ge→ltb_ℤ from (first_write b) h)

  start-le-first_write : (b : Buffer Float) → b.start ≤ℤ first_write b
  unfolding first_write
  start-le-first_write b = omega int_laws

  read-head :
      (b : Buffer Float) (older : List (Buffer Float)) (from to : ℤ) (cells : List Float)
      → first_write b ≤ℤ from
      → read fl b older from to cells ≡ outcome fl from (read_loop fl [] b from to cells)
  unfolding read
  read-head b older from to cells h = rw (locate_head b older from h)

  outcome-eq-ok :
      (from : ℤ) (r : Option (List Float × ℤ)) {vs : List Float} {from' to' : ℤ}
      → outcome fl from r ≡ ok vs from' to'
      → (r ≡ some (vs, to')) × (from' ≡ from)
  outcome-eq-ok from none e = cc
  outcome-eq-ok from (some (vs, t)) e = (cc, cc)

  pub read-Sampled :
      (b : Buffer Float) (older : List (Buffer Float)) (from to : ℤ) (cells : List Float)
      {vs : List Float} {from' to' : ℤ}
      → IsBuffer b
      → first_write b ≤ℤ from
      → read fl b older from to cells ≡ ok vs from' to'
      → (from' ≡ from) × Sampled (b ∷ older) b.frequency from vs cells × Exhausted b to' to
  read-Sampled b older from to cells h k e =
      let (loop, at) = outcome-eq-ok from _ (sym (read-head b older from to cells k) ∙ e) in
      let values = loop_values cells b older from to h (omega (int_laws, start-le-first_write b)) in
      let (s, x) = rw loop at values in (at, s, x)

  round_over : (b : Buffer Float) (t to : ℤ) → to ≤ℤ t → round fl [] b t to ≡ none
  unfolding round
  round_over b t to h = rw (ge→ltb_ℤ t to h)

  -- A `read` of the second at `ts` returns the one value that the chain holds for `ts`.
  pub read_one :
      (b : Buffer Float) (older : List (Buffer Float)) (ts : ℤ) (x v : Float) (cells : List Float)
      → IsBuffer b
      → first_write b ≤ℤ ts
      → index b ts <ℤ pos (length b.contents)
      → chain_at fl (b ∷ older) ts ≡ some v
      → read fl b older ts (ts +ℤ pos 1) (x ∷ cells) ≡ ok (add x v ∷ []) ts (ts +ℤ pos b.frequency)
  read_one b older ts x v cells h k held c =
      let started : b.start ≤ℤ ts = omega (int_laws, start-le-first_write b) in
      elim (round_head b ts (ts +ℤ pos 1) h started) [
        | inl (_, inl over) ↦ absurd (omega int_laws)
        | inl (_, inr over) ↦ absurd (omega int_laws)
        | inr more ↦
            read-head b older ts (ts +ℤ pos 1) (x ∷ cells) k
            ∙ rw
                (
                  read_loop_more fl [] b ts (ts +ℤ pos 1) x cells more,
                  read_loop_stop fl [] b (ts +ℤ pos b.frequency) (ts +ℤ pos 1) cells (
                      round_over b (ts +ℤ pos b.frequency) (ts +ℤ pos 1)
                        (omega (int_laws, h.positive))),
                )
                (ap (λ w. ok (add x w ∷ []) ts (ts +ℤ pos b.frequency))
                  (cc (c, chain_at_head b older ts started)))
      ]
