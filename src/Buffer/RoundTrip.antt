-- ===== src/Buffer/RoundTrip.antt =====
-- A `read` behind a `write` of pkg/metricstore/buffer.go.
use cc_backend.Common.{
  ℕ, ◌-◌, ◌<◌, ℤ, pos, ◌+ℤ◌, pos_part, neg_part, ◌≤ℤ◌, ◌<ℤ◌, ◌≡◌, refl, ap, ◌∙◌, some, List, [],
  ◌∷◌, ◌++◌, ltb, length, inl, inr, replicate, arith, int_laws, Bool-cases, length-append,
  length-replicate, length-set, lt→ltb_ℤ, ltb→lt, ==_iff,
}
use cc_backend.Buffer.Chain.{IsChain, IsPool, index_pos}
use cc_backend.Buffer.Refine.{write-chain_at_self, first_slot, new_frequency, index-put_slot}
use cc_backend.Buffer.Keep.{write-IsChain}
use cc_backend.Buffer.Write.{Written, in_place, appended, write-inversion, new_start}
use cc_backend.Buffer.Read.Values.{read_one}
use cc_backend.Buffer.Read.{ok, read}
use cc_backend.Buffer.{Buffer, Floats, Pool, first_write, new_buffer, put_slot, write, index}

module _ (fl : Floats) where
  open fl use {Float, nan, add}

  put_slot_holds : (b : Buffer Float) (i : ℕ) (v : Float) → i < length (put_slot fl b i v).contents
  unfolding put_slot
  put_slot_holds b i v = elim (Bool-cases (ltb i (length b.contents))) [
    | inl p ↦ rw p (omega (arith, length-set b.contents i v, ltb→lt i (length b.contents) p))
    | inr p ↦ rw p (
        ground (
          arith,
          length-append b.contents (replicate (i - length b.contents) nan ++ v ∷ []),
          length-append (replicate (i - length b.contents) nan) (v ∷ []),
          length-replicate (i - length b.contents) nan,
        ))
  ]

  stored_holds :
      (b : Buffer Float) (i : ℕ) (v : Float) (ts : ℤ)
      → pos_part (index b ts) ≡ i
      → neg_part (index b ts) ≡ 0
      → index (put_slot fl b i v) ts <ℤ pos (length (put_slot fl b i v).contents)
  stored_holds b i v ts e k = rw (index-put_slot fl b i v ts) (omega (arith, put_slot_holds b i v))

  index_nonneg : (b : Buffer Float) (ts : ℤ) → b.start ≤ℤ ts → neg_part (index b ts) ≡ 0
  index_nonneg b ts h = ap neg_part (index_pos b ts h)

  new_index :
      (pool : Pool Float) (ts : ℤ) (freq : ℕ)
      → 0 < freq
      → (pos_part (index (new_buffer pool ts freq).0 ts) ≡ 0)
        × (neg_part (index (new_buffer pool ts freq).0 ts) ≡ 0)
  new_index pool ts freq h =
      let made = new_start fl pool ts freq in
      let started : (new_buffer pool ts freq).0.start ≤ℤ ts = rw made (omega int_laws) in
      let covers = first_slot fl (new_buffer pool ts freq).0 ts (rw (new_frequency fl) h) started in
      (
        (==_iff _ 0).0 (covers ∙ rw (made, new_frequency fl) (lt→ltb_ℤ ts _ (omega int_laws))),
        index_nonneg (new_buffer pool ts freq).0 ts started,
      )

  Written_holds :
      (pool : Pool Float) (b : Buffer Float) (older : List (Buffer Float)) (ts : ℤ) (v : Float)
      {p : Pool Float} {h : Buffer Float} {rest : List (Buffer Float)}
      → b.start ≤ℤ ts
      → 0 < b.frequency
      → Written fl pool b older ts v p (h ∷ rest)
      → index h ts <ℤ pos (length h.contents)
  Written_holds pool b older ts v {h = h} k f (in_place room e c) =
      let same : h ≡ put_slot fl b (pos_part (index b ts)) v = cc in
      rw same (stored_holds b (pos_part (index b ts)) v ts refl (index_nonneg b ts k))
  Written_holds pool b older ts v {h = h} k f (appended full e c) =
      let same : h ≡ put_slot fl (new_buffer pool ts b.frequency).0 0 v = cc in
      let (first, nonneg) = new_index pool ts b.frequency f in
      rw same (stored_holds (new_buffer pool ts b.frequency).0 0 v ts first nonneg)

  -- Reading back the second of a successful `write` returns the value written, and that alone. The
  -- head's first half interval is left out, as `read` takes it for the buffer before.
  pub read-write :
      (pool : Pool Float) (b : Buffer Float) (older : List (Buffer Float)) (ts : ℤ) (v x : Float)
      (cells : List Float) {p : Pool Float} {h : Buffer Float} {rest : List (Buffer Float)}
      → IsPool pool
      → IsChain (b ∷ older)
      → write fl pool b older ts v ≡ some (p, h ∷ rest)
      → first_write h ≤ℤ ts
      → read fl h rest ts (ts +ℤ pos 1) (x ∷ cells) ≡ ok (add x v ∷ []) ts (ts +ℤ pos h.frequency)
  read-write pool b older ts v x cells {h = h} {rest = rest} ip ic e k =
      let (late, w) = write-inversion fl pool b older ts v e in
      read_one fl h rest ts x v cells (write-IsChain fl pool b older ts v ip ic e).1.0 k
        (Written_holds pool b older ts v late ic.0.positive w)
        (write-chain_at_self fl pool b older ts v ic.0.positive e)
