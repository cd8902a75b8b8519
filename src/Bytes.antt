-- ===== src/Bytes.antt =====
-- Byte strings as the binary formats of pkg/metricstore/walCheckpoint.go use them: encoding/binary
-- in little-endian order, and reads of a fixed number of bytes. A byte slice is a list of numbers.
use cc_backend.Common.{
  ℕ, zero, suc, ◌+◌, ◌-◌, ◌*◌, ◌/◌, ◌%◌, ◌^◌, ◌<◌, ℤ, pos, negsuc, ◌≡◌, refl, ap, Bool, true, false,
  Option, none, some, List, [], ◌∷◌, ◌++◌, ltb, leb, ◌==◌, length, ◌↔◌, ◌&&◌, take, drop,
  if◌then◌else◌, arith, length-append, le→leb, gt→leb, take-append_length, drop-append_length,
}

abbrev pub Bytes : Type 0
Bytes = List ℕ

abbrev pub IsByte : ℕ → Type 0
IsByte b = b < 256

-- The low `k` bytes of `n`, the lowest first.
unfoldable pub put_le : ℕ → ℕ → Bytes
put_le zero n = []
put_le (suc k) n = n % 256 ∷ put_le k (n / 256)

unfoldable pub get_le : Bytes → ℕ
get_le [] = 0
get_le (b ∷ bs) = b + 256 * get_le bs

-- uint64(ts) and int64(n), on two's complement bit patterns
unfoldable pub to_u64 : ℤ → ℕ
to_u64 (pos n) = n % 2 ^ 64
to_u64 (negsuc n) = 2 ^ 64 - 1 - n % 2 ^ 64

unfoldable pub from_u64 : ℕ → ℤ
from_u64 n = if ltb n (2 ^ 63) then pos n else negsuc (2 ^ 64 - 1 - n)

abbrev pub IsI64 : ℤ → Type 0
IsI64 (pos n) = n < 2 ^ 63
IsI64 (negsuc n) = n < 2 ^ 63

-- The first `n` bytes and the rest; `none` where there are fewer.
unfoldable pub split_at : ℕ → Bytes → Option (Bytes × Bytes)
split_at n bs = if leb n (length bs) then some (take n bs, drop n bs) else none

pub length-put_le : (k n : ℕ) → length (put_le k n) ≡ k
unfolding put_le
length-put_le zero n = refl
length-put_le (suc k) n = ap suc (length-put_le k (n / 256))

pub get_le-put_le : (k n : ℕ) → n < 256 ^ k → get_le (put_le k n) ≡ n
unfolding put_le get_le
get_le-put_le zero n h = omega arith
get_le-put_le (suc k) n h = omega (arith, get_le-put_le k (n / 256) (omega arith))

pub from_u64-to_u64 : (t : ℤ) → IsI64 t → from_u64 (to_u64 t) ≡ t
unfolding from_u64 to_u64
from_u64-to_u64 (pos n) h = ground arith
from_u64-to_u64 (negsuc n) h = ground arith

pub to_u64-lt : (t : ℤ) → to_u64 t < 256 ^ 8
unfolding to_u64
to_u64-lt (pos n) = omega arith
to_u64-lt (negsuc n) = omega arith

pub split_at-append :
    (xs ys : Bytes) (n : ℕ) → length xs ≡ n → split_at n (xs ++ ys) ≡ some (xs, ys)
unfolding split_at
split_at-append xs ys n h = rw (
  ← h,
  le→leb (length xs) (length (xs ++ ys)) (omega (arith, length-append xs ys)),
  take-append_length xs ys,
  drop-append_length xs ys,
)

pub split_at_short : (n : ℕ) (bs : Bytes) → length bs < n → split_at n bs ≡ none
unfolding split_at
split_at_short n bs h = rw (gt→leb n (length bs) h)

-- Go's == on strings.
unfoldable pub key_eq : Bytes → Bytes → Bool
key_eq [] [] = true
key_eq [] (y ∷ ys) = false
key_eq (x ∷ xs) [] = false
key_eq (x ∷ xs) (y ∷ ys) = x == y && key_eq xs ys

pub key_eq_iff : (a b : Bytes) → (key_eq a b ≡ true) ↔ (a ≡ b)
unfolding key_eq
key_eq_iff [] [] = (λ h. refl, λ h. refl)
key_eq_iff [] (y ∷ ys) = (λ h. cc, λ h. cc)
key_eq_iff (x ∷ xs) [] = (λ h. cc, λ h. cc)
key_eq_iff (x ∷ xs) (y ∷ ys) =
    (λ h. ground (arith, (key_eq_iff xs ys).0), λ h. ground (arith, (key_eq_iff xs ys).1))

pub key_eq_refl : (a : Bytes) → key_eq a a ≡ true
key_eq_refl a = (key_eq_iff a a).1 refl
