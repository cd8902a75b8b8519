-- ===== src/Store/Restored.antt =====
-- A snapshot that `toCheckpointFile` of pkg/metricstore/checkpoint.go makes, as `loadFile` reads it:
-- the values of the newest buffer of a chain.
use cc_backend.Common.{
  ℕ, zero, suc, ◌+◌, ◌-◌, ◌*◌, ◌/◌, ◌<◌, ℤ, pos, pos_part, neg_part, ltb_ℤ, ◌≤ℤ◌, ◌<ℤ◌, ◌+ℤ◌, ◌-ℤ◌,
  ◌≡◌, refl, sym, ap, ◌∙◌, false, some, List, [], ◌∷◌, append-nil, length, ◌⊎◌, inl, inr, get_or,
  replicate, take, arith, int_laws, length-replicate,
}
use cc_backend.Common.{ok}
use cc_backend.Bytes.{Bytes}
use cc_backend.Common.{go_div, ge→ltb_ℤ}
use cc_backend.Buffer.{Buffer, Floats, first_write, slot, index}
use cc_backend.Buffer.Chain.{IsBuffer, div_bounds, go_div_nonneg, index_pos}
use cc_backend.Buffer.Refine.{chain_at}
use cc_backend.Buffer.Read.{ok, panic, ReadResult, read, Paced, Promise, read-Promise}
use cc_backend.Buffer.Read.Values.{chain_at_head, Sampled, Exhausted, read-Sampled}
use cc_backend.Wal.Snapshot.{Entry}
use cc_backend.Store.Load.{buffer_of_entry}
use cc_backend.Store.Save.{data_of}

-- The entry of a metric in a snapshot.
abbrev pub entry_of : {F : Type 0} → Bytes → ℕ → ℤ → List F → Entry F
entry_of name f start values = record {
  name = name;
  frequency = pos f;
  start = start;
  values = values;
}

div_whole : (n f : ℕ) → 0 < f → n * f / f ≡ n
div_whole n f h = let (low, high) = div_bounds (n * f) f h in grind (arith, low, high)

take_all : {A : Type 0} (xs : List A) → take (length xs) xs ≡ xs
take_all [] = refl
take_all (x ∷ xs) = ap (λ ys. x ∷ ys) (take_all xs)

gap_nonneg : (a b : ℤ) → a ≤ℤ b → neg_part (b -ℤ a) ≡ 0
unfolding ◌-ℤ◌
gap_nonneg a b h = ground arith

get_or-replicate : {A : Type 0} (n k : ℕ) (x : A) → get_or (replicate n x) k x ≡ x
get_or-replicate zero k x = refl
get_or-replicate (suc n) zero x = refl
get_or-replicate (suc n) (suc k) x = get_or-replicate n k x

module _ (fl : Floats) (zero_float : fl.Float) (f : ℕ) where
  open fl use {Float, nan, add}

  -- The k-th of the values that were read into zeros.
  kth_value :
      (c : List (Buffer Float)) (t : ℤ) (vs : List Float) (n k : ℕ)
      → Sampled fl c f t vs (replicate n zero_float)
      → k < length vs
      → (w : Float) × (chain_at fl c (t +ℤ pos (k * f)) ≡ some w)
        × (get_or vs k nan ≡ add zero_float w)
  kth_value c t [] n k h less = absurd (omega arith)
  kth_value c t (v ∷ vs) zero k h less = absurd h
  kth_value c t (v ∷ vs) (suc n) zero ((w, held, value), rest) less =
      let time : t +ℤ pos (0 * f) ≡ t = omega int_laws in (w, ap (chain_at fl c) time ∙ held, value)
  kth_value c t (v ∷ vs) (suc n) (suc k) (here, rest) less =
      let (w, held, value) = kth_value c (t +ℤ pos f) vs n k rest (omega arith) in
      let time : t +ℤ pos (suc k * f) ≡ t +ℤ pos f +ℤ pos (k * f) = omega int_laws in
      (w, ap (chain_at fl c) time ∙ held, value)

  -- The loaded buffer holds the k-th value of its entry.
  loaded_at :
      (name : Bytes) (start : ℤ) (values : List Float) (k : ℕ)
      → 0 < f
      → chain_at fl (buffer_of_entry (entry_of name f start values) ∷ []) (start +ℤ pos (k * f))
        ≡ some (get_or values k nan)
  unfolding buffer_of_entry slot
  loaded_at name start values k h =
      let b : Buffer Float = buffer_of_entry (entry_of name f start values) in
      let ts : ℤ = start +ℤ pos (k * f) in
      let later : start ≤ℤ ts = omega int_laws in
      let far : pos_part (ts -ℤ start) ≡ k * f = omega (int_laws, gap_nonneg start ts later) in
      let slot_of : pos_part (index b ts) ≡ k =
        ap pos_part (index_pos b ts later) ∙ ap (λ d. d / f) far ∙ div_whole k f h in
      chain_at_head fl b [] ts later ∙ ap (λ i. some (get_or values i nan)) slot_of

  -- The cells that toCheckpointFile makes.
  cells_of :
      (from to : ℤ)
      → from ≤ℤ to
      → (ltb_ℤ (go_div (to -ℤ from) f +ℤ pos 1) (pos 0) ≡ false)
        × (pos_part (go_div (to -ℤ from) f +ℤ pos 1) ≡ pos_part (to -ℤ from) / f + 1)
  cells_of from to h =
      let size : go_div (to -ℤ from) f ≡ pos (pos_part (to -ℤ from) / f) =
        go_div_nonneg (to -ℤ from) f (gap_nonneg from to h) in
      let n : ℕ = pos_part (to -ℤ from) / f in
      let sum : pos n +ℤ pos 1 ≡ pos (n + 1) = omega int_laws in
      rw (size, sum) (ge→ltb_ℤ (pos (n + 1)) (pos 0) (omega arith), refl)

  -- The end of what was read is that of its values: nothing is blanked.
  tail_of :
      (vs : List Float) (start end : ℤ)
      → 0 < f
      → end ≡ start +ℤ pos (length vs * f)
      → pos_part (go_div (end -ℤ start) f) ≡ length vs
  tail_of vs start end h e =
      let later : start ≤ℤ end = rw e (omega int_laws) in
      let gap : neg_part (end -ℤ start) ≡ 0 = gap_nonneg start end later in
      let far : pos_part (end -ℤ start) ≡ length vs * f =
        omega (int_laws, gap, ap pos_part e, ap neg_part e) in
      ap pos_part (go_div_nonneg (end -ℤ start) f gap)
      ∙ ap (λ d. d / f) far
      ∙ div_whole (length vs) f h

module _ (fl : Floats) (zero_float : fl.Float) where
  open fl use {Float, nan, add}

  read-cases :
      (r : ReadResult Float)
      → (r ≡ panic) ⊎ ((vs : List Float) × (start : ℤ) × (end : ℤ) × (r ≡ ok vs start end))
  read-cases panic = inl refl
  read-cases (ok vs start end) = inr (vs, start, end, refl)

  -- What toCheckpointFile saves of the newest buffer of a chain of one frequency, from a time that it
  -- covers, is loaded again as it was: for each step from there to the end asked for, or to the end
  -- of the data, the loaded buffer holds what the chain holds, added to zero.
  pub data_of-restored :
      (names : List (Bytes × ℕ)) (name : Bytes) (b : Buffer Float) (older : List (Buffer Float))
      (from to : ℤ)
      → IsBuffer b
      → Paced fl b.frequency older
      → from ≤ℤ to
      → first_write b ≤ℤ from
      → (values : List Float) × (data_of fl zero_float names from to b older ≡ some (values, from))
        × Exhausted fl b (from +ℤ pos (length values * b.frequency)) to
        × ((k : ℕ)
            → k < length values
            → (w : Float) × (chain_at fl (b ∷ older) (from +ℤ pos (k * b.frequency)) ≡ some w)
              × (chain_at fl
                    (buffer_of_entry (entry_of name b.frequency from values) ∷ [])
                    (from +ℤ pos (k * b.frequency))
                  ≡ some (add zero_float w)))
  unfolding data_of
  data_of-restored names name b older from to h paced ordered covered =
      let f : ℕ = b.frequency in
      let size : ℤ = go_div (to -ℤ from) f +ℤ pos 1 in
      let cells : List Float = replicate (pos_part size) zero_float in
      let (room, count) = cells_of fl zero_float f from to ordered in
      let promise : Promise fl f from to (read fl b older from to cells) =
        read-Promise fl f b older from to cells h.positive (refl, paced)
          (length-replicate (pos_part size) zero_float ∙ count) in
      elim (read-cases (read fl b older from to cells)) [
        | inl crash ↦ absurd (rw crash at promise)
        | inr (vs, start, end, got) ↦
            (let (begins, samples, exhausted) =
                read-Sampled fl b older from to cells h covered got in
              let (_, ends, _) : (from ≤ℤ start)
                  × (end ≡ start +ℤ pos (length vs * f))
                  × ((vs ≡ []) ⊎ (end <ℤ to +ℤ pos f)) =
                rw got at promise in
              let n : pos_part (go_div (end -ℤ start) f) ≡ length vs =
                tail_of fl zero_float f vs start end h.positive ends in
              let none_left : length vs - length vs ≡ 0 = omega arith in
              let made : data_of fl zero_float names from to b older ≡ some (vs, from) =
                rw (room, got, n, begins, take_all vs, none_left)
                  (ap (λ xs. some (xs, from)) (append-nil vs)) in
              (
                vs,
                made,
                rw (sym (ends ∙ ap (λ s. s +ℤ pos (length vs * f)) begins)) exhausted,
                λ k less.
                    (let (w, held, value) =
                        kth_value fl zero_float f (b ∷ older) from vs (pos_part size) k samples
                          less in
                      (
                        w,
                        held,
                        loaded_at fl zero_float f name from vs k h.positive ∙ ap some value,
                      )),
              ))
      ]
