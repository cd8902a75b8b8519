-- ===== src/NodeList/Print.antt =====
-- `PrintList` and `NodeCount` of pkg/archive/nodelist.go.
use cc_backend.Common.{
  ℕ, zero, suc, ◌+◌, ◌-◌, ◌/◌, ◌%◌, ℤ, pos, negsuc, pos_part, ◌≤ℤ◌, ◌+ℤ◌, ◌-ℤ◌, ◌≡◌, refl, sym, ap,
  true, Option, none, some, List, [], ◌∷◌, ◌++◌, ltb, length, replicate, if◌then◌else◌, arith,
  int_laws, -ℤ_nonneg, length-append, All,
}
use cc_backend.Bytes.{Bytes}
use mathlib.Core.Option
use cc_backend.NodeList.{Limits, Term, NodeList, limits, prefix}

-- The decimal digits of a number; `n + 1` is enough fuel.
unfoldable pub decimal : ℕ → ℕ → Bytes
decimal zero n = []
decimal (suc fuel) n =
    let rest = decimal fuel (n / 10) in
    if ltb n 10 then (n + b'0') ∷ [] else rest ++ (n % 10 + b'0') ∷ []

-- fmt's %0*d: the sign counts for the width.
unfoldable pub format_padded : ℕ → ℤ → Bytes
unfolding decimal
format_padded width (pos n) = let ds = decimal (n + 1) n in replicate (width - length ds) b'0' ++ ds
format_padded width (negsuc n) =
    let ds = decimal (n + 2) (n + 1) in b'-' ∷ (replicate (width - 1 - length ds) b'0' ++ ds)

-- for i := start; i < end+1; i++, by the rounds left
unfoldable pub print_from : Bytes → Limits → ℕ → ℤ → List Bytes
print_from name inner zero i = []
print_from name inner (suc rounds) i =
    let rest = print_from name inner rounds (i +ℤ pos 1) in
    if inner.zero_padded then (name ++ format_padded inner.digits i) ∷ rest else rest

-- The rounds of that loop.
abbrev pub rounds : Limits → ℕ
rounds inner = pos_part (inner.end +ℤ pos 1 -ℤ inner.start)

unfoldable pub print_limits : Bytes → List Limits → List Bytes
print_limits name [] = []
print_limits name (inner ∷ rest) =
    print_from name inner (rounds inner) inner.start ++ print_limits name rest

-- `none` is the panic of an index into an empty term.
unfoldable pub print_term : Term → Option (List Bytes)
print_term [] = none
print_term (e ∷ []) = some (prefix e ∷ [])
print_term (e ∷ f ∷ rest) = some (print_limits (prefix e) (limits f))

unfoldable pub print_list : NodeList → Option (List Bytes)
print_list [] = some []
print_list (term ∷ nl) = elim (print_term term) [
  | none ↦ none
  | some names ↦ elim (print_list nl) [ none ↦ none | some rest ↦ some (names ++ rest) ]
]

unfoldable pub count_limits : List Limits → ℤ
count_limits [] = pos 0
count_limits (inner ∷ rest) = inner.end -ℤ inner.start +ℤ pos 1 +ℤ count_limits rest

unfoldable pub count_term : Term → Option ℤ
count_term [] = none
count_term (e ∷ []) = some (pos 1)
count_term (e ∷ f ∷ rest) = some (count_limits (limits f))

unfoldable pub node_count : NodeList → Option ℤ
node_count [] = some (pos 0)
node_count (term ∷ nl) = elim (count_term term) [
  | none ↦ none
  | some n ↦ elim (node_count nl) [ none ↦ none | some m ↦ some (n +ℤ m) ]
]

-- A range that is written upwards, or whose end is just before its start.
abbrev pub IsUpward : Limits → Type 0
IsUpward inner = inner.start ≤ℤ inner.end +ℤ pos 1

abbrev pub PrintsAll : Term → Type 0
PrintsAll [] = Unit {0}
PrintsAll (e ∷ []) = Unit {0}
PrintsAll (e ∷ f ∷ rest) = All (λ l. IsUpward l × (l.zero_padded ≡ true)) (limits f)

length-print_from :
    (name : Bytes) (inner : Limits) (n : ℕ) (i : ℤ)
    → inner.zero_padded ≡ true
    → length (print_from name inner n i) ≡ n
unfolding print_from
length-print_from name inner zero i h = refl
length-print_from name inner (suc n) i h =
    rw h (ap suc (length-print_from name inner n (i +ℤ pos 1) h))

length-print_limits :
    (name : Bytes) (ls : List Limits)
    → All (λ l. IsUpward l × (l.zero_padded ≡ true)) ls
    → count_limits ls ≡ pos (length (print_limits name ls))
unfolding count_limits print_limits
length-print_limits name [] h = refl
length-print_limits name (l ∷ ls) ((up, padded), hs) =
    rw
      (
        length-print_limits name ls hs,
        length-append (print_from name l (rounds l) l.start) (print_limits name ls),
        length-print_from name l (rounds l) l.start padded,
      )
      (omega (int_laws, -ℤ_nonneg (l.end +ℤ pos 1) l.start up))

count-print_term :
    (t : Term)
    → PrintsAll t
    → count_term t ≡ Option.map (λ names. pos (length names)) (print_term t)
unfolding count_term print_term
count-print_term [] h = refl
count-print_term (e ∷ []) h = refl
count-print_term (e ∷ f ∷ rest) h = ap some (length-print_limits (prefix e) (limits f) h)

-- The two folds over the terms, joined.
abbrev pub join_names : Option (List Bytes) → Option (List Bytes) → Option (List Bytes)
join_names none r = none
join_names (some names) none = none
join_names (some names) (some rest) = some (names ++ rest)

abbrev add_counts : Option ℤ → Option ℤ → Option ℤ
add_counts none r = none
add_counts (some n) none = none
add_counts (some n) (some m) = some (n +ℤ m)

abbrev sized : Option (List Bytes) → Option ℤ
sized o = Option.map (λ names. pos (length names)) o

sized-join : (a b : Option (List Bytes)) → sized (join_names a b) ≡ add_counts (sized a) (sized b)
sized-join none b = refl
sized-join (some names) none = refl
sized-join (some names) (some rest) = ap some (rw (length-append names rest) (omega int_laws))

pub print_list-cons :
    (t : Term) (nl : NodeList) → print_list (t ∷ nl) ≡ join_names (print_term t) (print_list nl)
unfolding print_list
print_list-cons t nl = ground arith

node_count-cons :
    (t : Term) (nl : NodeList) → node_count (t ∷ nl) ≡ add_counts (count_term t) (node_count nl)
unfolding node_count
node_count-cons t nl = ground arith

-- `NodeCount` is the number of names that `PrintList` returns, and panics where that does, if every
-- range is zero-padded and no range ends more than one below its start.
pub node_count-print_list :
    (nl : NodeList)
    → All PrintsAll nl
    → node_count nl ≡ Option.map (λ names. pos (length names)) (print_list nl)
node_count-print_list [] h = unfold node_count print_list in refl
node_count-print_list (t ∷ nl) (h, hs) =
    rw
      (
        node_count-cons t nl,
        print_list-cons t nl,
        count-print_term t h,
        node_count-print_list nl hs,
      )
      (sym (sized-join (print_term t) (print_list nl)))
