-- ===== src/NodeList/Member.antt =====
-- `Contains` against `PrintList` of pkg/archive/nodelist.go.
use cc_backend.Common.{
  ℕ, zero, suc, ◌+◌, ◌^◌, ◌<◌, ℤ, pos, negsuc, pos_part, neg_part, ltb_ℤ, leb_ℤ, ◌≤ℤ◌, ◌<ℤ◌, ◌+ℤ◌,
  ◌-ℤ◌, ◌≡◌, refl, sym, ap, ◌∙◌, Bool, true, false, ◌&&◌, ◌||◌, Option, none, some, List, [], ◌∷◌,
  ◌++◌, append-nil, length, ◌⊎◌, inl, inr, take, drop, if◌then◌else◌, arith, int_laws, -ℤ_nonneg,
  ltb_ℤ→ge, Bool-cases, All, All-append, ge→ltb, ==_iff,
}
use cc_backend.Bytes.{Bytes, key_eq}
use cc_backend.NodeList.{
  IntRange, str, int_ranges, Term, NodeList, cut_prefix, consume_range, consume_ranges, consume,
  limits, prefix, match_term, contains_from, contains,
}
use cc_backend.NodeList.Print.{
  print_from, rounds, print_limits, print_term, print_list, format_padded, join_names,
  print_list-cons,
}
use cc_backend.NodeList.Decimal.{padded, format_padded-pos, length-padded, parse-strip-padded}

-- A range of numbers of `w + 1` digits that an int32 holds.
pub record IsRange (w : ℕ) (r : IntRange) : Type 0 where
  pub is_padded : r.zero_padded ≡ true
  pub width : r.digits ≡ suc w
  pub from_zero : pos 0 ≤ℤ r.start
  pub fits : r.end <ℤ pos (10 ^ suc w)
  pub int32 : r.end <ℤ pos (2 ^ 31)

-- A name, or a name with ranges of one width behind it.
abbrev pub IsTerm : Term → Type 0
IsTerm (str p ∷ []) = Unit {0}
IsTerm (str p ∷ int_ranges rs ∷ []) = (w : ℕ) × All (IsRange w) rs
IsTerm _ = ⊥

in_range : IntRange → ℕ → Bool
in_range r n = leb_ℤ r.start (pos n) && leb_ℤ (pos n) r.end

in_any : List IntRange → ℕ → Bool
in_any [] n = false
in_any (r ∷ rs) n = in_range r n || in_any rs n

take_all : {A : Type 0} (xs : List A) (n : ℕ) → length xs ≡ n → (take n xs ≡ xs) × (drop n xs ≡ [])
take_all [] zero h = (refl, refl)
take_all [] (suc n) h = absurd (omega arith)
take_all (x ∷ xs) zero h = absurd (omega arith)
take_all (x ∷ xs) (suc n) h =
    let rest = take_all xs n (omega arith) in (ap (λ t. x ∷ t) rest.0, rest.1)

module _ (w n : ℕ) (small : n < 10 ^ suc w) (int32 : n < 2 ^ 31) where
  -- A padded number is consumed whole by the ranges of its width that hold it, and by no other.
  consume-padded :
      (r : IntRange)
      → IsRange w r
      → consume_range r (padded (suc w) n) ≡ (if in_range r n then some [] else none)
  unfolding consume_range in_range
  consume-padded r h =
      let len = length-padded w n small in
      let all = take_all (padded (suc w) n) (suc w) len in
      simp
        (
          h.is_padded,
          h.width,
          ge→ltb (length (padded (suc w) n)) (suc w) (omega (arith, len)),
          all.0,
          all.1,
          parse-strip-padded w n small int32,
        )
        (ground arith)

  consume_ranges-padded :
      (rs : List IntRange)
      → All (IsRange w) rs
      → in_any rs n ≡ true
      → consume_ranges rs (padded (suc w) n) ≡ some []
  unfolding consume_ranges in_any
  consume_ranges-padded [] h k = cc
  consume_ranges-padded (q ∷ rs) (h, hs) k = elim (Bool-cases (in_range q n)) [
    | inl found ↦ rw (consume-padded q h, found, consume_ranges)
    | inr other ↦
        rw (consume-padded q h, other, consume_ranges) (consume_ranges-padded rs hs (rw other at k))
  ]

cut_prefix-append : (p s : Bytes) → cut_prefix p (p ++ s) ≡ some s
unfolding cut_prefix
cut_prefix-append [] s = refl
cut_prefix-append (c ∷ p) s = rw ((==_iff c c).1 refl) (cut_prefix-append p s)

-- The names of a term, whatever `ok` was before it.
match_ranges :
    (p : Bytes) (rs : List IntRange) (w n : ℕ) (ok : Bool)
    → n < 10 ^ suc w
    → n < 2 ^ 31
    → All (IsRange w) rs
    → in_any rs n ≡ true
    → match_term ok (str p ∷ int_ranges rs ∷ []) (p ++ padded (suc w) n) ≡ (true, [])
unfolding match_term consume
match_ranges p rs w n ok small int32 h k =
    rw (cut_prefix-append p (padded (suc w) n), match_term, consume)
      (rw (consume_ranges-padded w n small int32 rs h k, match_term))

match_name : (p : Bytes) (ok : Bool) → match_term ok (str p ∷ []) p ≡ (true, [])
unfolding match_term consume
match_name p ok = rw (ap (cut_prefix p) (sym (append-nil p)) ∙ cut_prefix-append p [], match_term)

-- A name that the term matches, whatever the terms before it did.
abbrev Matches : Term → Bytes → Type 0
Matches t name = (ok : Bool) → match_term ok t name ≡ (true, [])

contains-here :
    (ok : Bool) (t : Term) (nl : NodeList) (name : Bytes)
    → Matches t name
    → contains_from ok (t ∷ nl) name ≡ true
unfolding contains_from
contains-here ok t nl name h = rw (h ok, contains_from) (unfold key_eq in refl)

abbrev Held : NodeList → Bytes → Type 0
Held nl name = (ok : Bool) → contains_from ok nl name ≡ true

contains-later : (t : Term) (nl : NodeList) (name : Bytes) → Held nl name → Held (t ∷ nl) name
unfolding contains_from
contains-later t nl name h ok = ground (arith, h (match_term ok t name).0)

in_range_lem : (r : IntRange) (k : ℕ) → r.start ≤ℤ pos k → pos k ≤ℤ r.end → in_range r k ≡ true
unfolding in_range
in_range_lem r k h g = ground arith

parts_normal : (a : ℤ) → (pos_part a ≡ 0) ⊎ (neg_part a ≡ 0)
parts_normal (pos n) = inr refl
parts_normal (negsuc n) = inl refl

either_way : (a : Bool) {b : Bool} → b ≡ true → (a || b) ≡ true
either_way true h = refl
either_way false h = h

no_rounds : (l : IntRange) → ltb_ℤ (l.end +ℤ pos 1) l.start ≡ true → rounds l ≡ 0
unfolding ◌-ℤ◌
no_rounds l h = ground arith

module _ (P : Bytes → Type 0) (p : Bytes) (w : ℕ) where
  print_from-All :
      (inner : IntRange) (n k : ℕ) (i : ℤ)
      → IsRange w inner
      → i ≡ pos k
      → inner.start ≤ℤ pos k
      → pos (k + n) ≤ℤ inner.end +ℤ pos 1
      → ((m : ℕ)
          → m < 10 ^ suc w
          → m < 2 ^ 31
          → in_range inner m ≡ true
          → P (p ++ padded (suc w) m))
      → All P (print_from p inner n i)
  unfolding print_from
  print_from-All inner zero k i h at low high f = tt
  print_from-All inner (suc n) k i h at low high f =
      let name : format_padded inner.digits i ≡ padded (suc w) k =
        ap (λ d. format_padded d i) h.width
        ∙ ap (format_padded (suc w)) at
        ∙ format_padded-pos (suc w) k in
      let last : pos k ≤ℤ inner.end = omega int_laws in
      simp (h.is_padded, name)
        (
          f k (omega (arith, last, h.fits)) (omega (arith, last, h.int32))
              (in_range_lem inner k low last),
          print_from-All inner n (suc k) (i +ℤ pos 1) h (ap (λ z. z +ℤ pos 1) at ∙ omega int_laws)
              (omega arith) (omega int_laws) f,
        )

  from_start : (inner : IntRange) → IsRange w inner → inner.start ≡ pos (pos_part inner.start)
  from_start inner h = omega (int_laws, h.from_zero, parts_normal inner.start)

  print_limits-All :
      (ls : List IntRange)
      → All (IsRange w) ls
      → ((m : ℕ) → m < 10 ^ suc w → m < 2 ^ 31 → in_any ls m ≡ true → P (p ++ padded (suc w) m))
      → All P (print_limits p ls)
  unfolding print_limits in_any
  print_limits-All [] h f = tt
  print_limits-All (l ∷ ls) (h, hs) f =
      All-append P (print_from p l (rounds l) l.start) (print_limits p ls)
        (elim (Bool-cases (ltb_ℤ (l.end +ℤ pos 1) l.start)) [
          | inl empty ↦ rw (no_rounds l empty) (unfold print_from in tt)
          | inr some_left ↦
              print_from-All l (rounds l) (pos_part l.start) l.start h (from_start l h)
                (omega (arith, h.from_zero))
                (omega (
                  int_laws,
                  parts_normal l.start,
                  h.from_zero,
                  ltb_ℤ→ge (l.end +ℤ pos 1) l.start some_left,
                  -ℤ_nonneg (l.end +ℤ pos 1) l.start (ltb_ℤ→ge (l.end +ℤ pos 1) l.start some_left),
                ))
                (λ m a b c. f m a b (rw c))
        ])
        (print_limits-All ls hs (λ m a b c. f m a b (either_way (in_range l m) c)))

abbrev AllSome : (Bytes → Type 0) → Option (List Bytes) → Type 0
AllSome P none = Unit {0}
AllSome P (some names) = All P names

All-implies :
    (P Q : Bytes → Type 0) (names : List Bytes)
    → ((n : Bytes) → P n → Q n)
    → All P names
    → All Q names
All-implies P Q [] f h = tt
All-implies P Q (n ∷ names) f (h, hs) = (f n h, All-implies P Q names f hs)

AllSome-join :
    (P : Bytes → Type 0) (a b : Option (List Bytes))
    → AllSome P a
    → AllSome P b
    → AllSome P (join_names a b)
AllSome-join P none b h k = tt
AllSome-join P (some xs) none h k = tt
AllSome-join P (some xs) (some ys) h k = All-append P xs ys h k

AllSome-implies :
    (P Q : Bytes → Type 0) (o : Option (List Bytes))
    → ((n : Bytes) → P n → Q n)
    → AllSome P o
    → AllSome Q o
AllSome-implies P Q none f h = tt
AllSome-implies P Q (some names) f h = All-implies P Q names f h

print_term-Held : (t : Term) (nl : NodeList) → IsTerm t → AllSome (Held (t ∷ nl)) (print_term t)
unfolding print_term prefix limits
print_term-Held [] nl h = absurd h
print_term-Held (str p ∷ []) nl h = (λ ok. contains-here ok (str p ∷ []) nl p (match_name p), tt)
print_term-Held (int_ranges rs ∷ t) nl h = absurd h
print_term-Held (str p ∷ str q ∷ t) nl h = absurd h
print_term-Held (str p ∷ int_ranges rs ∷ e ∷ t) nl h = absurd h
print_term-Held (str p ∷ int_ranges rs ∷ []) nl (w, h) =
    print_limits-All (Held ((str p ∷ int_ranges rs ∷ []) ∷ nl)) p w rs h (λ m a b c ok.
      contains-here ok (str p ∷ int_ranges rs ∷ []) nl (p ++ padded (suc w) m)
        (λ ok'. match_ranges p rs w m ok' a b h c))

print_list-Held : (nl : NodeList) → All IsTerm nl → AllSome (Held nl) (print_list nl)
print_list-Held [] h = unfold print_list in tt
print_list-Held (t ∷ nl) (h, hs) = rw (print_list-cons t nl) (
    AllSome-join (Held (t ∷ nl)) (print_term t) (print_list nl) (print_term-Held t nl h) (
      AllSome-implies (Held nl) (Held (t ∷ nl)) (print_list nl) (λ n k. contains-later t nl n k)
        (print_list-Held nl hs)))

-- Every name that `PrintList` returns for a list of names, and of names with ranges of one width,
-- is a name that `Contains` accepts.
pub contains-print_list :
    (nl : NodeList) (names : List Bytes)
    → All IsTerm nl
    → print_list nl ≡ some names
    → All (λ name. contains nl name ≡ true) names
contains-print_list nl names h e =
    All-implies (Held nl) (λ name. contains nl name ≡ true) names
      (λ n k. (unfold contains in k false)) (rw e at (print_list-Held nl h))
