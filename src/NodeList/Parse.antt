-- ===== src/NodeList/Parse.antt =====
-- `ParseNodeList` of pkg/archive/nodelist.go.
use cc_backend.Common.{
  Result, ok, err, ◌>>=◌, or_error, ℕ, zero, suc, Bool, true, false, not, ◌||◌, Option, none, some,
  List, [], ◌∷◌, ◌++◌, ◌==◌, length, if◌then◌else◌,
}
use cc_backend.Bytes.{Bytes}
use cc_backend.NodeList.{
  IntRange, Expr, str, int_ranges, NodeList, is_letter, is_digit, is_dash, parse_int32,
}

-- One constructor for each error, the two for an unclosed bracket joined.
pub data ParseError : Type 0 where
  unclosed no_dash bad_length bad_int invalid_character : ParseError
  out_of_fuel : ParseError

-- The first loop: it cuts at the commas outside of brackets. The flag says that the inner loop is
-- looking for `]`; `term` is raw[prevterm:i].
unfoldable pub split_terms : Bool → Bytes → Bytes → Result ParseError (List Bytes)
split_terms true term [] = err unclosed
split_terms false [] [] = ok []
split_terms false (c ∷ term) [] = ok ((c ∷ term) ∷ [])
split_terms true term (c ∷ raw) = split_terms (not (c == b']')) (term ++ c ∷ []) raw
split_terms false term (c ∷ raw) =
    let cut = split_terms false [] raw in
    let go_on = split_terms (c == b'[') (term ++ c ∷ []) raw in
    if c == b',' then (cut >>= λ terms. ok (term ∷ terms)) else go_on

-- The longest prefix that passes the test, and the rest.
unfoldable pub span : (ℕ → Bool) → Bytes → Bytes × Bytes
span p [] = ([], [])
span p (c ∷ cs) = let (a, b) = span p cs in if p c then (c ∷ a, b) else ([], c ∷ cs)

abbrev pub is_word : ℕ → Bool
is_word b = is_letter b || is_digit b || is_dash b

-- strings.Split(s, ","), and strings.Cut(s, sep) by the first place of a byte
unfoldable pub split_commas : Bytes → Bytes → List Bytes
split_commas part [] = part ∷ []
split_commas part (c ∷ cs) =
    let next = split_commas [] cs in
    let go_on = split_commas (part ++ c ∷ []) cs in if c == b',' then part ∷ next else go_on

unfoldable pub cut_at : ℕ → Bytes → Option (Bytes × Bytes)
cut_at sep [] = none
cut_at sep (c ∷ cs) =
    let rest = cut_at sep cs in
    if c == sep then some ([], cs) else elim rest [ none ↦ none | some (a, b) ↦ some (c ∷ a, b) ]

-- The body of the loop over the parts in a pair of brackets.
unfoldable pub parse_range : Bytes → Result ParseError IntRange
parse_range part = do
  (s1, s2) ← or_error no_dash (cut_at b'-' part)
  if not (length s1 == length s2) || length s1 == 0 then err bad_length else do
    x1 ← or_error bad_int (parse_int32 s1)
    x2 ← or_error bad_int (parse_int32 s2)
    ok (record { start = x1; end = x2; zero_padded = true; digits = length s1 })

unfoldable pub parse_ranges : List Bytes → Result ParseError (List IntRange)
parse_ranges [] = ok []
parse_ranges (part ∷ parts) = do r ← parse_range part; rs ← parse_ranges parts; ok (r ∷ rs)

-- The loop over `i` in a term. Each round takes a byte at least, so its length is enough fuel.
unfoldable pub parse_exprs : ℕ → Bytes → Result ParseError (List Expr)
parse_exprs fuel [] = ok []
parse_exprs zero (c ∷ cs) = err out_of_fuel
parse_exprs (suc fuel) (c ∷ cs) =
    let after_word =
      (let (word, rest) = span is_word (c ∷ cs) in
        parse_exprs fuel rest >>= λ es. ok (str word ∷ es)) in
    let after_ranges =
      (or_error unclosed (cut_at b']' cs) >>= λ x. parse_ranges (split_commas [] x.0) >>= λ rs.
      parse_exprs fuel x.1 >>= λ es. ok (int_ranges rs ∷ es)) in
    if is_letter c || is_digit c
    then after_word
    else if c == b'['
    then after_ranges
    else err invalid_character

unfoldable pub parse_terms : List Bytes → Result ParseError NodeList
parse_terms [] = ok []
parse_terms (t ∷ ts) = do es ← parse_exprs (length t) t; nl ← parse_terms ts; ok (es ∷ nl)

unfoldable pub parse_node_list : Bytes → Result ParseError NodeList
parse_node_list raw = split_terms false [] raw >>= parse_terms
