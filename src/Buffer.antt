-- ===== src/Buffer.antt =====
-- pkg/metricstore/buffer.go: the chain of buffers that holds one metric of one level.
-- A chain is the list of its buffers from the head (the newest) along the `prev` links; while a
-- reader stands inside a chain, the buffers that `next` leads to are a second list, nearest first.
pub mod Write
pub mod Chain
pub mod Free
pub mod RoundTrip
pub mod Read
pub mod Keep
pub mod Refine
mod Tests
use cc_backend.Common.{
  ℕ, zero, suc, ◌+◌, ◌-◌, ◌*◌, ◌/◌, ◌<◌, ◌≤◌, ℤ, pos, ◌+ℤ◌, ◌-ℤ◌, go_div, pos_part, ltb_ℤ, leb_ℤ,
  ◌≡◌, Bool, true, false, Option, none, some, List, [], ◌∷◌, ◌++◌, ltb, leb, get_or, set, get_elem?,
  replicate, length, if◌then◌else◌, ◌&&◌, not,
}

-- schema.Float of the package cc-lib: a number type with a NaN, which addition propagates.
pub record Floats : Type 1 where
  pub Float : Type 0
  pub nan : Float
  pub add : Float → Float → Float
  pub add_nan : (x : Float) → add x nan ≡ nan

-- `DefaultBufferCapacity` of config.go
abbrev pub buffer_cap : ℕ
buffer_cap = 512

-- The links are not fields: see above. `cap` is the capacity of the slice `data`.
pub record Buffer (F : Type 0) : Type 0 where
  pub contents : List F
  pub cap : ℕ
  pub frequency : ℕ
  pub start : ℤ
  pub archived : Bool
  pub closed : Bool
  pub last_used : ℤ

unfoldable pub first_write : {F : Type 0} → Buffer F → ℤ
first_write b = b.start +ℤ pos (b.frequency / 2)

unfoldable pub finish : {F : Type 0} → Buffer F → ℤ
finish b = first_write b +ℤ pos (length b.contents * b.frequency)

-- The bufferPool, from its end: `Get` takes the buffer that `Put` added last.
abbrev pub Pool : Type 0 → Type 0
Pool F = List (Buffer F)

module _ {F : Type 0} where
  pub pool_get : Pool F → Buffer F × Pool F
  pool_get [] = (
    record {
      contents = [];
      cap = buffer_cap;
      frequency = 0;
      start = pos 0;
      archived = false;
      closed = false;
      last_used = pos 0;
    },
    [],
  )
  pool_get (b ∷ pool) = (b, pool)

  pub pool_put : Pool F → Buffer F → Pool F
  pool_put pool b = record b { contents = [] } ∷ pool

  pub pool_clean : ℤ → Pool F → Pool F
  pool_clean threshold [] = []
  pool_clean threshold (b ∷ pool) =
      let rest = pool_clean threshold pool in if leb_ℤ threshold b.last_used then b ∷ rest else rest

  unfoldable pub new_buffer : Pool F → ℤ → ℕ → Buffer F × Pool F
  new_buffer pool ts freq =
      let (b, rest) = pool_get pool in
      (
        record b {
          frequency = freq;
          start = ts -ℤ pos (freq / 2);
          archived = false;
          closed = false;
          contents = [];
        },
        rest,
      )

-- int((ts - b.start) / b.frequency)
pub index : {F : Type 0} → Buffer F → ℤ → ℤ
index b ts = go_div (ts -ℤ b.start) b.frequency

module _ (fl : Floats) where
  open fl use {Float, nan}

  -- The tail of `write`, behind the choice of the buffer: the slots up to `idx` that were never
  -- written get NaN. There `idx < cap`, so `append` does not move the slice.
  pub put_slot : Buffer Float → ℕ → Float → Buffer Float
  put_slot b idx value = record b {
    contents =
        if ltb idx (length b.contents)
        then set b.contents idx value
        else b.contents ++ (replicate (idx - length b.contents) nan ++ value ∷ []);
  }

  -- The buffer `b` with the chain `older` behind it; `none` is the error. `index` is not negative
  -- where its positive part is taken.
  pub write :
      Pool Float
      → Buffer Float
      → List (Buffer Float)
      → ℤ
      → Float
      → Option (Pool Float × List (Buffer Float))
  write pool b older ts value =
      if ltb_ℤ ts b.start
      then none
      else if leb_ℤ (pos b.cap) (index b ts)
      then (let (newbuf, rest) = new_buffer pool ts b.frequency in
          some (rest, put_slot newbuf 0 value ∷ b ∷ older))
      else some (pool, put_slot b (pos_part (index b ts)) value ∷ older)

  -- The value in slot `i`; a slot that was never written holds NaN.
  unfoldable pub slot : Buffer Float → ℕ → Float
  slot b i = get_or b.contents i nan
