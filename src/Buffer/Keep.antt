-- ===== src/Buffer/Keep.antt =====
-- `write` of pkg/metricstore/buffer.go keeps chains and the pool well formed.
use cc_backend.Common.{
  ℕ, ◌*◌, ◌≤◌, ◌<◌, ℤ, pos, ◌+ℤ◌, pos_part, neg_part, ◌≤ℤ◌, ◌≡◌, ap, some, List, [], ◌∷◌, length,
  arith, int_laws,
}
use cc_backend.Buffer.Chain.{IsBuffer, Follows, IsChain, IsPool, index_pos, index_covers}
use cc_backend.Buffer.Write.{
  new_start, new_first_write, new_cap, put_slot-IsBuffer, Written, in_place, appended,
  write-inversion,
}
use cc_backend.Buffer.{Buffer, Floats, Pool, first_write, new_buffer, put_slot, write, index}

mul_le : (m n f : ℕ) → m ≤ n → m * f ≤ n * f
mul_le m n f h = grind arith

-- The timestamp of a new buffer lies behind all slots of the full one.
full_end :
    {F : Type 0} (b : Buffer F) (ts : ℤ)
    → IsBuffer b
    → b.start ≤ℤ ts
    → pos b.cap ≤ℤ index b ts
    → (b.start +ℤ pos (b.cap * b.frequency) ≤ℤ ts) × (b.start +ℤ pos b.frequency ≤ℤ ts)
full_end b ts h k full =
    let i = pos_part (index b ts) in
    let covers = index_covers b ts k h.positive in
    let fits : b.cap ≤ i = omega (arith, ap neg_part (index_pos b ts k)) in
    let above = mul_le b.cap i b.frequency fits in
    let one = mul_le 1 i b.frequency (omega (arith, fits, h.room)) in
    (omega (int_laws, covers, above), omega (int_laws, covers, one))

module _ (fl : Floats) where
  open fl use {Float, nan}

  put_slot-Follows :
      (b : Buffer Float) (i : ℕ) (v : Float) (older : List (Buffer Float))
      → Follows b older
      → Follows (put_slot fl b i v) older
  unfolding put_slot first_write
  put_slot-Follows b i v [] h = tt
  put_slot-Follows b i v (p ∷ older) h = h

  module _ (pool : Pool Float) (b : Buffer Float) (older : List (Buffer Float)) (ts : ℤ)
      (v : Float) where
    new-IsBuffer : IsPool pool → 0 < b.frequency → IsBuffer (new_buffer pool ts b.frequency).0
    unfolding new_buffer
    new-IsBuffer h k = record {
      positive = k;
      room = unfold new_buffer in omega (arith, (new_cap fl pool ts b.frequency h).0);
      fits = omega arith;
    }

    new-Follows :
        IsBuffer b
        → b.start ≤ℤ ts
        → pos b.cap ≤ℤ index b ts
        → Follows (new_buffer pool ts b.frequency).0 (b ∷ older)
    new-Follows k m full =
        rw (new_first_write fl pool ts b.frequency, new_start fl pool ts b.frequency)
          (let behind = full_end b ts k m full in
            let short = mul_le (length b.contents) b.cap b.frequency k.fits in
            (omega (int_laws, behind, short), omega (int_laws, behind)))

    Written-IsChain :
        {p : Pool Float} {c : List (Buffer Float)}
        → IsPool pool
        → IsChain (b ∷ older)
        → b.start ≤ℤ ts
        → Written fl pool b older ts v p c
        → IsPool p × IsChain c
    Written-IsChain ip (ib, fb, io) k (in_place room e f) =
        rw (e, f)
          (
            ip,
            (
              put_slot-IsBuffer fl b _ v (omega (arith, ap neg_part (index_pos b ts k))) ib,
              put_slot-Follows b _ v older fb,
              io,
            ),
          )
    Written-IsChain ip (ib, fb, io) k (appended full e f) =
        let made = new_cap fl pool ts b.frequency ip in
        rw (e, f)
          (
            made.1,
            (
              put_slot-IsBuffer fl _ 0 v (omega (arith, made.0)) (new-IsBuffer ip ib.positive),
              put_slot-Follows _ 0 v (b ∷ older) (new-Follows ib k full),
              (ib, fb, io),
            ),
          )

  -- A successful `write` to a well-formed chain, over a pool of buffers of standard capacity,
  -- leaves such a pool and a well-formed chain: no slice outgrows its capacity, and each buffer
  -- starts where the data of the one behind it is over.
  pub write-IsChain :
      (pool : Pool Float) (b : Buffer Float) (older : List (Buffer Float)) (ts : ℤ) (v : Float)
      {p : Pool Float} {c : List (Buffer Float)}
      → IsPool pool
      → IsChain (b ∷ older)
      → write fl pool b older ts v ≡ some (p, c)
      → IsPool p × IsChain c
  write-IsChain pool b older ts v ip h e =
      let (late, w) = write-inversion fl pool b older ts v e in
      Written-IsChain pool b older ts v ip h late w
