-- ===== src/NodeList/Decimal.antt =====
-- Zero-padded decimals in pkg/archive/nodelist.go: reading back what `PrintList` formats.
use cc_backend.Common.{
  ℕ, zero, suc, ◌+◌, ◌-◌, ◌*◌, ◌/◌, ◌%◌, ◌^◌, ◌≤◌, ◌<◌, pos, ◌≡◌, refl, ap, ◌∙◌, true, Option, none,
  some, [], ◌∷◌, ◌++◌, ltb, ◌==◌, length, inl, inr, replicate, arith, Bool-cases, length-append,
  length-replicate, All, All-append, lt→ltb, ltb→lt,
}
use cc_backend.Bytes.{Bytes}
use cc_backend.NodeList.{is_digit, parse_digits, parse_uint, parse_int32, positive, strip_zeros}
use cc_backend.NodeList.Print.{decimal, format_padded}

abbrev chain_digits : Option ℕ → Bytes → Option ℕ
chain_digits none ys = none
chain_digits (some a) ys = parse_digits a ys

parse_digits-append :
    (acc : ℕ) (xs ys : Bytes) → parse_digits acc (xs ++ ys) ≡ chain_digits (parse_digits acc xs) ys
unfolding parse_digits
parse_digits-append acc [] ys = refl
parse_digits-append acc (x ∷ xs) ys = elim (Bool-cases (is_digit x)) [
  | inl d ↦ rw d (parse_digits-append (acc * 10 + (x - 48)) xs ys)
  | inr d ↦ rw d refl
]

digit_step : (a d : ℕ) → d < 10 → parse_digits a ((d + b'0') ∷ []) ≡ some (a * 10 + d)
unfolding parse_digits
digit_step a d h = ground arith

parse-decimal : (fuel n : ℕ) → n < fuel → parse_digits 0 (decimal fuel n) ≡ some n
unfolding decimal
parse-decimal zero n h = elim h [ ]
parse-decimal (suc fuel) n h = elim (Bool-cases (ltb n 10)) [
  | inl one ↦ rw one (digit_step 0 n (ltb→lt n 10 one) ∙ ap some (omega arith))
  | inr more ↦
      let shorter : n / 10 < fuel = ground arith in
      rw
        (
          more,
          parse_digits-append 0 (decimal fuel (n / 10)) ((n % 10 + b'0') ∷ []),
          parse-decimal fuel (n / 10) shorter,
        )
        (digit_step (n / 10) (n % 10) (omega arith) ∙ ap some (omega arith))
]

length-decimal : (w fuel n : ℕ) → n < 10 ^ suc w → length (decimal fuel n) ≤ suc w
unfolding decimal
length-decimal w zero n h = omega arith
length-decimal zero (suc fuel) n h = rw (lt→ltb n 10 (omega arith)) (omega arith)
length-decimal (suc w) (suc fuel) n h = elim (Bool-cases (ltb n 10)) [
  | inl one ↦ rw one (omega arith)
  | inr more ↦
      rw (more, length-append (decimal fuel (n / 10)) ((n % 10 + b'0') ∷ []))
        (omega (arith, length-decimal w fuel (n / 10) (omega arith)))
]

abbrev AllDigits : Bytes → Type 0
AllDigits s = All (λ c. is_digit c ≡ true) s

AllDigits-decimal : (fuel n : ℕ) → AllDigits (decimal fuel n)
unfolding decimal
AllDigits-decimal zero n = tt
AllDigits-decimal (suc fuel) n = elim (Bool-cases (ltb n 10)) [
  | inl one ↦ rw one (ground arith, tt)
  | inr more ↦ rw more (
      All-append (λ c. is_digit c ≡ true) (decimal fuel (n / 10)) _
        (AllDigits-decimal fuel (n / 10)) (ground arith, tt))
]

AllDigits-replicate : (k : ℕ) → AllDigits (replicate k b'0')
AllDigits-replicate zero = tt
AllDigits-replicate (suc k) = (refl, AllDigits-replicate k)

parse-zeros : (k : ℕ) (ds : Bytes) → parse_digits 0 (replicate k b'0' ++ ds) ≡ parse_digits 0 ds
unfolding parse_digits
parse-zeros zero ds = refl
parse-zeros (suc k) ds = parse-zeros k ds

-- The digits of a number below 10 ^ width, filled up on the left.
pub padded : (width n : ℕ) → Bytes
padded width n = replicate (width - length (decimal (n + 1) n)) b'0' ++ decimal (n + 1) n

pub format_padded-pos : (width n : ℕ) → format_padded width (pos n) ≡ padded width n
unfolding format_padded padded
format_padded-pos width n = refl

pub length-padded : (w n : ℕ) → n < 10 ^ suc w → length (padded (suc w) n) ≡ suc w
unfolding padded
length-padded w n h = omega (
  arith,
  length-append (replicate (suc w - length (decimal (n + 1) n)) b'0') (decimal (n + 1) n),
  length-replicate {A = ℕ} (suc w - length (decimal (n + 1) n)) b'0',
  length-decimal w (n + 1) n h,
)

pub AllDigits-padded : (width n : ℕ) → AllDigits (padded width n)
unfolding padded
AllDigits-padded width n =
    All-append (λ c. is_digit c ≡ true) _ _ (AllDigits-replicate _) (AllDigits-decimal (n + 1) n)

parse-padded : (width n : ℕ) → parse_digits 0 (padded width n) ≡ some n
unfolding padded
parse-padded width n =
    parse-zeros (width - length (decimal (n + 1) n)) (decimal (n + 1) n)
    ∙ parse-decimal (n + 1) n (omega arith)

parse_int32-digits :
    (c : ℕ) (cs : Bytes)
    → is_digit c ≡ true
    → parse_int32 (c ∷ cs) ≡ positive (parse_digits 0 (c ∷ cs))
unfolding parse_int32 parse_uint
parse_int32-digits c cs h = ground arith

leading_zero :
    (c : ℕ) (cs : Bytes) → (c == b'0') ≡ true → parse_digits 0 (c ∷ cs) ≡ parse_digits 0 cs
unfolding parse_digits
leading_zero c cs h = ground arith

-- Leading zeros change nothing.
parse-strip_zeros :
    (s : Bytes)
    → AllDigits s
    → 0 < length s
    → parse_int32 (strip_zeros s) ≡ positive (parse_digits 0 s)
unfolding strip_zeros
parse-strip_zeros [] h k = elim k [ ]
parse-strip_zeros (c ∷ []) (h, _) k = parse_int32-digits c [] h
parse-strip_zeros (c ∷ d ∷ cs) (h, hs) k = elim (Bool-cases (c == b'0')) [
  | inl zero_first ↦
      rw (zero_first, leading_zero c (d ∷ cs) zero_first)
        (parse-strip_zeros (d ∷ cs) hs (omega arith))
  | inr other ↦ rw other (parse_int32-digits c (d ∷ cs) h)
]

-- Reading a padded number back, with its leading zeros and without them.
pub parse-strip-padded :
    (w n : ℕ)
    → n < 10 ^ suc w
    → n < 2 ^ 31
    → parse_int32 (strip_zeros (padded (suc w) n)) ≡ some (pos n)
parse-strip-padded w n h k =
    parse-strip_zeros (padded (suc w) n) (AllDigits-padded (suc w) n)
      (omega (arith, length-padded w n h))
    ∙ rw (parse-padded (suc w) n) (rw (lt→ltb n (2 ^ 31) k))

int32-nonempty :
    (s : Bytes) → AllDigits s → 0 < length s → parse_int32 s ≡ positive (parse_digits 0 s)
int32-nonempty [] h k = elim k [ ]
int32-nonempty (c ∷ cs) (h, _) k = parse_int32-digits c cs h

pub parse_int32-padded :
    (w n : ℕ) → n < 10 ^ suc w → n < 2 ^ 31 → parse_int32 (padded (suc w) n) ≡ some (pos n)
parse_int32-padded w n h k =
    int32-nonempty (padded (suc w) n) (AllDigits-padded (suc w) n)
      (omega (arith, length-padded w n h))
    ∙ rw (parse-padded (suc w) n) (rw (lt→ltb n (2 ^ 31) k))
