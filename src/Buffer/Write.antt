-- ===== src/Buffer/Write.antt =====
-- `write` of pkg/metricstore/buffer.go, and what a chain holds after it.
use cc_backend.Common.{
  ℕ, zero, suc, ◌-◌, ◌/◌, ◌≤◌, ◌<◌, ℤ, pos, ◌-ℤ◌, pos_part, ltb_ℤ, leb_ℤ, ◌≤ℤ◌, ◌<ℤ◌, ◌≡◌, refl,
  some, List, [], ◌∷◌, ◌++◌, ltb, ◌==◌, length, inl, inr, get_or, set, replicate, if◌then◌else◌,
  arith, int_laws, Bool-cases, length-append, length-replicate, length-set, ltb_ℤ→ge, ge→ltb_ℤ,
}
use cc_backend.Buffer.Chain.{IsBuffer, IsPool}
use cc_backend.Buffer.{
  Buffer, Floats, Pool, first_write, new_buffer, buffer_cap, pool_get, put_slot, write, slot, index,
}

module _ (fl : Floats) where
  open fl use {Float, nan}

  get_or-set :
      (xs : List Float) (i j : ℕ) (v : Float)
      → i < length xs
      → get_or (set xs i v) j nan ≡ (if j == i then v else get_or xs j nan)
  get_or-set [] i j v h = elim h [ ]
  get_or-set (x ∷ xs) zero zero v h = refl
  get_or-set (x ∷ xs) zero (suc j) v h = ground arith
  get_or-set (x ∷ xs) (suc i) zero v h = ground arith
  get_or-set (x ∷ xs) (suc i) (suc j) v h = ground (arith, get_or-set xs i j v)

  get_or-pad :
      (n j : ℕ) (v : Float) → get_or (replicate n nan ++ v ∷ []) j nan ≡ (if j == n then v else nan)
  get_or-pad zero zero v = refl
  get_or-pad zero (suc j) v = ground arith
  get_or-pad (suc n) zero v = ground arith
  get_or-pad (suc n) (suc j) v = ground (arith, get_or-pad n j v)

  get_or-append_pad :
      (xs : List Float) (i j : ℕ) (v : Float)
      → length xs ≤ i
      → get_or (xs ++ (replicate (i - length xs) nan ++ v ∷ [])) j nan
        ≡ (if j == i then v else get_or xs j nan)
  get_or-append_pad [] i j v h = ground (arith, get_or-pad i j v)
  get_or-append_pad (x ∷ xs) zero j v h = absurd (omega arith)
  get_or-append_pad (x ∷ xs) (suc i) zero v h = ground arith
  get_or-append_pad (x ∷ xs) (suc i) (suc j) v h = ground (arith, get_or-append_pad xs i j v)

  -- Storing at `i` changes slot `i` alone.
  pub slot-put_slot :
      (b : Buffer Float) (i j : ℕ) (v : Float)
      → slot fl (put_slot fl b i v) j ≡ (if j == i then v else slot fl b j)
  unfolding slot put_slot
  slot-put_slot b i j v = elim (Bool-cases (ltb i (length b.contents))) [
    | inl p ↦ rw p (get_or-set b.contents i j v (ground arith))
    | inr p ↦ rw p (get_or-append_pad b.contents i j v (ground arith))
  ]

  -- The buffer that `write` allocates begins at `ts` and takes its data from the pool's next buffer.
  pub new_start :
      (pool : Pool Float) (ts : ℤ) (freq : ℕ)
      → (new_buffer pool ts freq).0.start ≡ ts -ℤ pos (freq / 2)
  unfolding new_buffer
  new_start pool ts freq = refl

  pub new_first_write :
      (pool : Pool Float) (ts : ℤ) (freq : ℕ) → first_write (new_buffer pool ts freq).0 ≡ ts
  unfolding new_buffer first_write
  new_first_write pool ts freq = omega int_laws

  pub new_cap :
      (pool : Pool Float) (ts : ℤ) (freq : ℕ)
      → IsPool pool
      → ((new_buffer pool ts freq).0.cap ≡ buffer_cap) × IsPool (new_buffer pool ts freq).1
  unfolding new_buffer pool_get
  new_cap [] ts freq h = (refl, tt)
  new_cap (b ∷ pool) ts freq h = (h.0, h.1)

  put_slot-length :
      (b : Buffer Float) (i : ℕ) (v : Float)
      → i < b.cap
      → length b.contents ≤ b.cap
      → length (put_slot fl b i v).contents ≤ b.cap
  unfolding put_slot
  put_slot-length b i v h k = elim (Bool-cases (ltb i (length b.contents))) [
    | inl p ↦ rw p (omega (arith, length-set b.contents i v))
    | inr p ↦ rw p (
        ground (
          arith,
          length-append b.contents (replicate (i - length b.contents) nan ++ v ∷ []),
          length-append (replicate (i - length b.contents) nan) (v ∷ []),
          length-replicate (i - length b.contents) nan,
        ))
  ]

  pub put_slot-IsBuffer :
      (b : Buffer Float) (i : ℕ) (v : Float) → i < b.cap → IsBuffer b → IsBuffer (put_slot fl b i v)
  unfolding put_slot
  put_slot-IsBuffer b i v h k = record {
    positive = k.positive;
    room = k.room;
    fits = unfold put_slot in put_slot-length b i v h k.fits;
  }

  -- The two ways in which `write` succeeds.
  pub data Written (pool : Pool Float) (b : Buffer Float) (older : List (Buffer Float)) (ts : ℤ)
      (v : Float) : Pool Float → List (Buffer Float) → Type 0 where
    in_place :
        index b ts <ℤ pos b.cap
        → {p : Pool Float} {c : List (Buffer Float)} → p ≡ pool
        → c ≡ put_slot fl b (pos_part (index b ts)) v ∷ older
        → Written pool b older ts v p c
    appended :
        pos b.cap ≤ℤ index b ts
        → {p : Pool Float} {c : List (Buffer Float)} → p ≡ (new_buffer pool ts b.frequency).1
        → c ≡ put_slot fl (new_buffer pool ts b.frequency).0 0 v ∷ b ∷ older
        → Written pool b older ts v p c

  pub write-Written :
      (pool : Pool Float) (b : Buffer Float) (older : List (Buffer Float)) (ts : ℤ) (v : Float)
      → b.start ≤ℤ ts
      → (p : Pool Float) × (c : List (Buffer Float)) × (write fl pool b older ts v ≡ some (p, c))
        × Written pool b older ts v p c
  unfolding write
  write-Written pool b older ts v h =
      rw (ge→ltb_ℤ ts b.start h) (elim (Bool-cases (leb_ℤ (pos b.cap) (index b ts))) [
        | inl full ↦ (_, _, rw full, appended (ground arith) refl refl)
        | inr has_room ↦ (_, _, rw has_room, in_place (ground arith) refl refl)
      ])

  pub write-inversion :
      (pool : Pool Float) (b : Buffer Float) (older : List (Buffer Float)) (ts : ℤ) (v : Float)
      {p : Pool Float} {c : List (Buffer Float)}
      → write fl pool b older ts v ≡ some (p, c)
      → (b.start ≤ℤ ts) × Written pool b older ts v p c
  unfolding write
  write-inversion pool b older ts v e = elim (Bool-cases (ltb_ℤ ts b.start)) [
    | inl early ↦ cc (rw early at e)
    | inr late ↦ (
      ltb_ℤ→ge ts b.start late,
      elim (Bool-cases (leb_ℤ (pos b.cap) (index b ts))) [
        | inl full ↦ appended (ground arith) (ground (arith, late)) (ground (arith, late))
        | inr has_room ↦ in_place (ground arith) (ground (arith, late)) (ground (arith, late))
      ],
    )
  ]
