-- ===== src/Buffer/Refine.antt =====
-- A chain as a map from timestamps to values, and `write` of pkg/metricstore/buffer.go on it.
use cc_backend.Common.{
  ℕ, zero, suc, ◌*◌, ◌/◌, ◌<◌, ℤ, pos, ◌+ℤ◌, ◌-ℤ◌, pos_part, ltb_ℤ, leb_ℤ, ◌≤ℤ◌, ◌<ℤ◌, ◌≡◌, refl,
  sym, ◌∙◌, Option, none, some, List, [], ◌∷◌, ◌==◌, inl, inr, if◌then◌else◌, arith, int_laws,
  Bool-cases, ltb_ℤ→ge, ge→ltb_ℤ, lt→ltb_ℤ,
}
use cc_backend.Buffer.Chain.{index_covers}
use cc_backend.Buffer.Write.{slot-put_slot, new_start, Written, in_place, appended, write-inversion}
use cc_backend.Buffer.{Buffer, Floats, Pool, new_buffer, put_slot, write, slot, index}

module _ (fl : Floats) where
  open fl use {Float, nan}

  -- The value that a chain holds for `t`: that of the newest buffer which starts at `t` or before.
  unfoldable pub chain_at : List (Buffer Float) → ℤ → Option Float
  chain_at [] t = none
  chain_at (b ∷ older) t =
      if ltb_ℤ t b.start then chain_at older t else some (slot fl b (pos_part (index b t)))

  -- What a write of `v` at `ts` makes of the map.
  abbrev pub updated : Buffer Float → List (Buffer Float) → ℤ → Float → ℤ → Option Float
  updated b older ts v t =
      if leb_ℤ (pos b.cap) (index b ts)
      then (if ltb_ℤ t (ts -ℤ pos (b.frequency / 2))
          then chain_at (b ∷ older) t
          else if ltb_ℤ t (ts -ℤ pos (b.frequency / 2) +ℤ pos b.frequency)
          then some v
          else some nan)
      else if ltb_ℤ t b.start
      then chain_at older t
      else if pos_part (index b t) == pos_part (index b ts)
      then some v
      else chain_at (b ∷ older) t

  pub index-put_slot :
      (b : Buffer Float) (i : ℕ) (v : Float) (t : ℤ) → index (put_slot fl b i v) t ≡ index b t
  unfolding index put_slot
  index-put_slot b i v t = refl

  put_slot_start : (b : Buffer Float) (i : ℕ) (v : Float) → (put_slot fl b i v).start ≡ b.start
  unfolding put_slot
  put_slot_start b i v = refl

  stored-chain_at :
      (b : Buffer Float) (rest : List (Buffer Float)) (i : ℕ) (v : Float) (t : ℤ)
      → chain_at (put_slot fl b i v ∷ rest) t ≡ (
          if ltb_ℤ t b.start
          then chain_at rest t
          else if pos_part (index b t) == i
          then some v
          else some (slot fl b (pos_part (index b t))))
  unfolding chain_at
  stored-chain_at b rest i v t =
      simp
        (
          put_slot_start b i v,
          index-put_slot b i v t,
          slot-put_slot fl b i (pos_part (index b t)) v,
        )
        (ground arith)

  -- A fresh buffer holds NaN everywhere.
  new_slot : (pool : Pool Float) (ts : ℤ) (freq j : ℕ) → slot fl (new_buffer pool ts freq).0 j ≡ nan
  unfolding slot new_buffer
  new_slot pool ts freq j = refl

  pub new_frequency :
      (pool : Pool Float) (ts : ℤ) (freq : ℕ) → (new_buffer pool ts freq).0.frequency ≡ freq
  unfolding new_buffer
  new_frequency pool ts freq = refl

  first_interval :
      (i f : ℕ) (s t : ℤ)
      → s +ℤ pos (i * f) ≤ℤ t
      → t <ℤ s +ℤ pos (suc i * f)
      → (i == 0) ≡ ltb_ℤ t (s +ℤ pos f)
  first_interval zero f s t h k = sym (lt→ltb_ℤ t (s +ℤ pos f) (omega int_laws))
  first_interval (suc i) f s t h k = rw (ge→ltb_ℤ t (s +ℤ pos f) (omega int_laws)) (ground arith)

  -- The first slot of a buffer lasts for one interval.
  pub first_slot :
      (b : Buffer Float) (t : ℤ)
      → 0 < b.frequency
      → b.start ≤ℤ t
      → (pos_part (index b t) == 0) ≡ ltb_ℤ t (b.start +ℤ pos b.frequency)
  first_slot b t h k =
      let covers = index_covers b t k h in
      first_interval (pos_part (index b t)) b.frequency b.start t covers.0 covers.1

  module _ (pool : Pool Float) (b : Buffer Float) (older : List (Buffer Float)) (ts : ℤ)
      (v : Float) where
    fresh : Buffer Float
    fresh = (new_buffer pool ts b.frequency).0

    fresh_start : fresh.start ≡ ts -ℤ pos (b.frequency / 2)
    unfolding fresh
    fresh_start = new_start fl pool ts b.frequency

    fresh_nan : (j : ℕ) → slot fl fresh j ≡ nan
    unfolding fresh
    fresh_nan j = new_slot pool ts b.frequency j

    fresh_slot :
        (t : ℤ)
        → 0 < b.frequency
        → fresh.start ≤ℤ t
        → (pos_part (index fresh t) == 0) ≡ ltb_ℤ t (fresh.start +ℤ pos b.frequency)
    unfolding fresh
    fresh_slot t h k =
        first_slot (new_buffer pool ts b.frequency).0 t (rw new_frequency h) k ∙ rw new_frequency

    appended-chain_at :
        (t : ℤ)
        → 0 < b.frequency
        → chain_at (put_slot fl fresh 0 v ∷ b ∷ older) t ≡ (
            if ltb_ℤ t fresh.start
            then chain_at (b ∷ older) t
            else if ltb_ℤ t (fresh.start +ℤ pos b.frequency)
            then some v
            else some nan)
    appended-chain_at t h = elim (Bool-cases (ltb_ℤ t fresh.start)) [
      | inl before ↦ stored-chain_at fresh (b ∷ older) 0 v t ∙ rw before
      | inr inside ↦
          stored-chain_at fresh (b ∷ older) 0 v t
          ∙ rw (
            inside,
            fresh_slot t h (ltb_ℤ→ge t fresh.start inside),
            fresh_nan (pos_part (index fresh t)),
          )
    ]

    Written-chain_at :
        {p : Pool Float} {c : List (Buffer Float)}
        → 0 < b.frequency
        → Written fl pool b older ts v p c
        → (t : ℤ) → chain_at c t ≡ updated b older ts v t
    unfolding fresh chain_at
    Written-chain_at pf (in_place room _ e) t =
        rw e (stored-chain_at b older (pos_part (index b ts)) v t ∙ ground arith)
    Written-chain_at pf (appended full _ e) t =
        rw e (appended-chain_at t pf ∙ ground (arith, new_start fl pool ts b.frequency))

  -- A successful `write` is an update of the map: the slot of `ts` gets `v`, a buffer allocated
  -- for it reads as NaN behind its first slot, and nothing else changes.
  pub write-chain_at :
      (pool : Pool Float) (b : Buffer Float) (older : List (Buffer Float)) (ts : ℤ) (v : Float)
      {p : Pool Float} {c : List (Buffer Float)}
      → 0 < b.frequency
      → write fl pool b older ts v ≡ some (p, c)
      → (t : ℤ) → chain_at c t ≡ updated b older ts v t
  write-chain_at pool b older ts v pf e t =
      Written-chain_at pool b older ts v pf (write-inversion fl pool b older ts v e).1 t

  -- What was written at `ts` is what the chain holds for `ts`.
  pub write-chain_at_self :
      (pool : Pool Float) (b : Buffer Float) (older : List (Buffer Float)) (ts : ℤ) (v : Float)
      {p : Pool Float} {c : List (Buffer Float)}
      → 0 < b.frequency
      → write fl pool b older ts v ≡ some (p, c)
      → chain_at c ts ≡ some v
  write-chain_at_self pool b older ts v pf e =
      write-chain_at pool b older ts v pf e ts
      ∙ rw
          (
            ge→ltb_ℤ ts b.start (write-inversion fl pool b older ts v e).0,
            ge→ltb_ℤ ts (ts -ℤ pos (b.frequency / 2)) (omega int_laws),
            lt→ltb_ℤ ts (ts -ℤ pos (b.frequency / 2) +ℤ pos b.frequency) (omega int_laws),
          )
          (ground arith)
