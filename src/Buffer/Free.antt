-- ===== src/Buffer/Free.antt =====
-- `free`, `forceFreeOldest`, `count` and `bufferCount` of pkg/metricstore/buffer.go.
use cc_backend.Common.{
  ℕ, suc, ◌+◌, ℤ, ltb_ℤ, ◌≤ℤ◌, ◌<ℤ◌, ◌≡◌, refl, sym, ap, ◌∙◌, Bool, true, false, List, [], ◌∷◌,
  ◌++◌, ◌==◌, length, inl, inr, if◌then◌else◌, arith, Bool-cases, ltb_ℤ→lt, lt→ltb_ℤ,
}
use cc_backend.Buffer.Chain.{IsPool}
use cc_backend.Buffer.{Buffer, Pool, finish, buffer_cap, pool_put}

-- What the recursion over a chain returns: the flag `delme`, the number of buffers freed, the
-- buffers that stay behind the one it was called on, and the pool.
pub record Freed (F : Type 0) : Type 0 where
  pub delme : Bool
  pub freed : ℕ
  pub older : List (Buffer F)
  pub pool : Pool F

module _ {F : Type 0} (now : ℤ) where
  -- The caller's part of handing a buffer back: a slice of another capacity is replaced.
  unfoldable pub retire : Pool F → Buffer F → Pool F
  unfolding pool_put
  retire pool b =
      pool_put pool
        (record b { cap = if b.cap == buffer_cap then b.cap else buffer_cap; last_used = now })

  -- The statements behind the recursive call, in `free` and in `forceFreeOldest`.
  abbrev pub unlink : Buffer F → Freed F → Freed F
  unlink p r = record r {
    older = if r.delme then [] else p ∷ r.older;
    pool = if r.delme then retire r.pool p else r.pool;
  }

  abbrev pub mark : Buffer F → ℤ → Freed F → Freed F
  mark b t r =
      if ltb_ℤ (finish b) t
      then record r { delme = true; freed = r.freed + 1 }
      else record r { delme = false }

  unfoldable pub free : Pool F → Buffer F → List (Buffer F) → ℤ → Freed F
  free pool b [] t = mark b t (record { delme = false; freed = 0; older = []; pool = pool })
  free pool b (p ∷ older) t = mark b t (unlink p (free pool p older t))

  unfoldable pub force_free_oldest : Pool F → Buffer F → List (Buffer F) → Freed F
  force_free_oldest pool b [] = record { delme = true; freed = 1; older = []; pool = pool }
  force_free_oldest pool b (p ∷ older) = record (unlink p (force_free_oldest pool p older)) {
    delme = false;
  }

module _ {F : Type 0} where
  unfoldable pub count : List (Buffer F) → ℕ
  count [] = 0
  count (b ∷ older) = length b.contents + count older

  unfoldable pub buffer_count : List (Buffer F) → ℕ
  buffer_count [] = 0
  buffer_count (b ∷ older) = 1 + buffer_count older

  -- No buffer ends later than the one before it in the list.
  abbrev pub EndsOrdered : Buffer F → List (Buffer F) → Type 0
  EndsOrdered b [] = Unit {0}
  EndsOrdered b (p ∷ older) = (finish p ≤ℤ finish b) × EndsOrdered p older

  -- The sum of what a test, or any weight, makes of the frequency and the start of each buffer.
  abbrev pub weigh : (ℕ → ℤ → ℕ) → List (Buffer F) → ℕ
  weigh w [] = 0
  weigh w (b ∷ bs) = w b.frequency b.start + weigh w bs

  -- The buffers whose data does not end before `t`.
  unfoldable pub live : ℤ → List (Buffer F) → List (Buffer F)
  live t [] = []
  live t (b ∷ older) = if ltb_ℤ (finish b) t then live t older else b ∷ live t older

  pub all_dead :
      (t : ℤ) (b : Buffer F) (older : List (Buffer F))
      → EndsOrdered b older
      → finish b <ℤ t
      → live t older ≡ []
  unfolding live
  all_dead t b [] h k = refl
  all_dead t b (p ∷ older) h k =
      rw (lt→ltb_ℤ (finish p) t (omega arith)) (all_dead t p older h.1 (omega arith))

  -- What `free` does to a chain whose buffers end one after the other.
  pub record IsFreed (now t : ℤ) (pool : Pool F) (b : Buffer F) (older : List (Buffer F))
      (r : Freed F) : Type 0 where
    pub head_dead : r.delme ≡ ltb_ℤ (finish b) t
    pub kept : r.older ≡ live t older
    pub counted : r.freed + length r.older ≡ length older + (if r.delme then 1 else 0)
    pub returned : length r.pool + (if r.delme then 1 else 0) ≡ length pool + r.freed
    pub conserved :
        (w : ℕ → ℤ → ℕ) → weigh w r.pool + weigh w r.older ≡ weigh w pool + weigh w older
    pub standard : IsPool pool → IsPool r.pool

  pub retire-IsPool :
      (now : ℤ) (pool : Pool F) (b : Buffer F) → IsPool pool → IsPool (retire now pool b)
  unfolding retire
  retire-IsPool now pool b h = (ground arith, h)

  pub length-retire :
      (now : ℤ) (pool : Pool F) (b : Buffer F) → length (retire now pool b) ≡ suc (length pool)
  unfolding retire
  length-retire now pool b = refl

  pub weigh-retire :
      (w : ℕ → ℤ → ℕ) (now : ℤ) (pool : Pool F) (b : Buffer F)
      → weigh w (retire now pool b) ≡ w b.frequency b.start + weigh w pool
  unfolding retire
  weigh-retire w now pool b = refl

  -- Before the head is looked at.
  record IsUnlinked (t : ℤ) (pool : Pool F) (older : List (Buffer F)) (r : Freed F) : Type 0 where
    kept : r.older ≡ live t older
    counted : r.freed + length r.older ≡ length older
    returned : length r.pool ≡ length pool + r.freed
    conserved : (w : ℕ → ℤ → ℕ) → weigh w r.pool + weigh w r.older ≡ weigh w pool + weigh w older
    standard : IsPool pool → IsPool r.pool

  mark-IsFreed :
      (now t : ℤ) (pool : Pool F) (b : Buffer F) (older : List (Buffer F)) (r : Freed F)
      → IsUnlinked t pool older r
      → IsFreed now t pool b older (mark now b t r)
  mark-IsFreed now t pool b older r u = record {
    head_dead = ground arith;
    kept = ground arith;
    counted = ground arith;
    returned = ground arith;
    conserved = λ w. elim (Bool-cases (ltb_ℤ (finish b) t)) [
      | inl dead ↦ rw dead (u.conserved w)
      | inr alive ↦ rw alive (u.conserved w)
    ];
    standard = λ i. elim (Bool-cases (ltb_ℤ (finish b) t)) [
      | inl dead ↦ rw dead (u.standard i)
      | inr alive ↦ rw alive (u.standard i)
    ];
  }

  unlink-IsUnlinked :
      (now t : ℤ) (pool : Pool F) (p : Buffer F) (older : List (Buffer F)) (r : Freed F)
      → EndsOrdered p older
      → IsFreed now t pool p older r
      → IsUnlinked t pool (p ∷ older) (unlink now p r)
  unfolding live
  unlink-IsUnlinked now t pool p older r h f = elim (Bool-cases (ltb_ℤ (finish p) t)) [
    | inl dead ↦
        let gone = all_dead t p older h (ltb_ℤ→lt (finish p) t dead) in
        let d : r.delme ≡ true = f.head_dead ∙ dead in
        record {
          kept = rw (d, dead) (sym gone);
          counted = ground (arith, f.counted, ap length (f.kept ∙ gone));
          returned = ground (arith, f.returned, length-retire now r.pool p);
          conserved = λ w. rw d (
              omega
                (arith, f.conserved w, weigh-retire w now r.pool p, ap (weigh w) (f.kept ∙ gone)));
          standard = λ i. rw d (retire-IsPool now r.pool p (f.standard i));
        }
    | inr alive ↦
        let d : r.delme ≡ false = f.head_dead ∙ alive in
        record {
          kept = rw (d, alive) (ap (λ l. p ∷ l) f.kept);
          counted = ground (arith, f.counted);
          returned = ground (arith, f.returned);
          conserved = λ w. rw d (omega (arith, f.conserved w));
          standard = λ i. rw d (f.standard i);
        }
  ]

  -- `free` on a chain whose buffers end one after the other keeps exactly the buffers behind the
  -- head whose data does not end before `t`, tells whether the head is to go, and counts what it and
  -- its caller remove. The removed ones go to the pool, at standard capacity: for any weight of a
  -- frequency and a start, the pool and the kept ones weigh together what they did before.
  pub free-IsFreed :
      (now t : ℤ) (pool : Pool F) (b : Buffer F) (older : List (Buffer F))
      → EndsOrdered b older
      → IsFreed now t pool b older (free now pool b older t)
  unfolding free live
  free-IsFreed now t pool b [] h =
      mark-IsFreed now t pool b [] (record { delme = false; freed = 0; older = []; pool = pool })
        (record {
          kept = unfold live in refl;
          counted = refl;
          returned = omega arith;
          conserved = λ w. refl;
          standard = λ i. i;
        })
  free-IsFreed now t pool b (p ∷ older) h =
      mark-IsFreed now t pool b (p ∷ older) _
        (unlink-IsUnlinked now t pool p older _ h.1 (free-IsFreed now t pool p older h.1))

  -- `forceFreeOldest` on a chain of two buffers or more removes the last one alone, which goes to
  -- the pool; on a single buffer it only tells the caller to remove it.
  force_free_oldest_lem :
      (now : ℤ) (pool : Pool F) (b last : Buffer F) (front : List (Buffer F))
      → (force_free_oldest now pool b (front ++ last ∷ [])
          ≡ record { delme = false; freed = 1; older = front; pool = retire now pool last })
        × (force_free_oldest now pool b []
            ≡ record { delme = true; freed = 1; older = []; pool = pool })
  unfolding force_free_oldest
  force_free_oldest_lem now pool b last [] = (refl, refl)
  force_free_oldest_lem now pool b last (p ∷ front) =
      (rw ((force_free_oldest_lem now pool p last front).0, force_free_oldest) refl, refl)

  pub buffer_count-eq-length : (c : List (Buffer F)) → buffer_count c ≡ length c
  unfolding buffer_count
  buffer_count-eq-length [] = refl
  buffer_count-eq-length (b ∷ c) = omega (arith, buffer_count-eq-length c)
