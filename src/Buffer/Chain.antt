-- ===== src/Buffer/Chain.antt =====
-- When a chain is well formed, for pkg/metricstore/buffer.go.
use cc_backend.Common.{
  ℕ, suc, ◌+◌, ◌*◌, ◌/◌, ◌≤◌, ◌<◌, ℤ, pos, negsuc, ◌+ℤ◌, ◌-ℤ◌, go_div, pos_part, neg_part, ◌≤ℤ◌,
  ◌<ℤ◌, ◌≡◌, refl, List, [], ◌∷◌, length, arith, int_laws, All,
}
use native.Mathlib.Nat.{div-add-mod, mod-lt}
use cc_backend.Buffer.{Buffer, Pool, first_write, buffer_cap, index}

pub record IsBuffer {F : Type 0} (b : Buffer F) : Type 0 where
  pub positive : 0 < b.frequency
  pub room : 0 < b.cap
  pub fits : length b.contents ≤ b.cap

-- `b` starts where the data of the buffer behind it is over, and not before that buffer.
abbrev pub Follows : {F : Type 0} → Buffer F → List (Buffer F) → Type 0
Follows b [] = Unit {0}
Follows b (p ∷ _) =
    (p.start +ℤ pos (length p.contents * p.frequency) ≤ℤ first_write b) × (p.start ≤ℤ b.start)

abbrev pub IsChain : {F : Type 0} → List (Buffer F) → Type 0
IsChain [] = Unit {0}
IsChain (b ∷ older) = IsBuffer b × Follows b older × IsChain older

-- Every pooled buffer has the standard capacity.
abbrev pub IsPool : {F : Type 0} → Pool F → Type 0
IsPool pool = All (λ b. b.cap ≡ buffer_cap) pool

pub div_bounds : (d f : ℕ) → 0 < f → (d / f * f ≤ d) × (d < suc (d / f) * f)
div_bounds d f h = grind (arith, div-add-mod d f, mod-lt d h)

pub go_div_nonneg : (d : ℤ) (f : ℕ) → neg_part d ≡ 0 → go_div d f ≡ pos (pos_part d / f)
unfolding go_div
go_div_nonneg (pos n) f h = refl
go_div_nonneg (negsuc n) f h = absurd (omega arith)

module _ {F : Type 0} (b : Buffer F) (ts : ℤ) (later : b.start ≤ℤ ts) where
  gap : neg_part (ts -ℤ b.start) ≡ 0
  unfolding ◌-ℤ◌
  gap = ground arith

  gap_pos :
      pos_part (ts -ℤ b.start) + pos_part b.start + neg_part ts ≡ neg_part b.start + pos_part ts
  gap_pos = omega (int_laws, gap)

  -- Behind the start of a buffer, the index is not negative.
  pub index_pos : index b ts ≡ pos (pos_part (ts -ℤ b.start) / b.frequency)
  unfolding index
  index_pos = go_div_nonneg (ts -ℤ b.start) b.frequency gap

  -- The slot of `ts` covers `ts`.
  pub index_covers :
      0 < b.frequency
      → (b.start +ℤ pos (pos_part (index b ts) * b.frequency) ≤ℤ ts)
        × (ts <ℤ b.start +ℤ pos (suc (pos_part (index b ts)) * b.frequency))
  index_covers h =
      rw index_pos (omega (int_laws, gap_pos, div_bounds (pos_part (ts -ℤ b.start)) b.frequency h))
