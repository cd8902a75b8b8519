-- ===== src/NodeList.antt =====
-- pkg/archive/nodelist.go: compact node lists such as "node[01-10],login". Strings are lists of
-- bytes.
pub mod Print
pub mod Member
pub mod Decimal
pub mod Parse
mod Tests
use cc_backend.Common.{
  ℕ, zero, suc, ◌+◌, ◌-◌, ◌*◌, ◌/◌, ◌%◌, ◌^◌, ◌≤◌, ◌<◌, ℤ, pos, negsuc, sub_ℕ, pos_part, neg_part,
  ltb_ℤ, leb_ℤ, ◌≤ℤ◌, ◌<ℤ◌, ◌≡◌, refl, sym, ap, ◌∙◌, Bool, true, false, not, ◌&&◌, ◌||◌, Option,
  none, some, List, [], ◌∷◌, ◌++◌, map, append-nil, append_assoc, ltb, leb, ◌==◌, length, get_elem?,
  ◌⊎◌, inl, inr, ◌↔◌, ◌≢◌, get_or, set, replicate, take, drop, if◌then◌else◌, arith, int_laws,
  Bool-cases, Option-cases, length-append, length-replicate, length-set, All, All-append, le→leb,
  gt→leb, lt→ltb, ge→ltb, ltb→lt, leb→le, ==_iff,
}
use cc_backend.Bytes.{Bytes, key_eq}

-- The three types behind the interface of an expression; a term is a sequence of them.
pub record IntRange : Type 0 where
  pub start : ℤ
  pub end : ℤ
  pub zero_padded : Bool
  pub digits : ℕ

pub data Expr : Type 0 where
  str : Bytes → Expr
  int_ranges : List IntRange → Expr

-- The map that `limits` returns, by its four keys.
abbrev pub Limits : Type 0
Limits = IntRange

abbrev pub Term : Type 0
Term = List Expr

abbrev pub NodeList : Type 0
NodeList = List Term

-- strings.CutPrefix
unfoldable pub cut_prefix : Bytes → Bytes → Option Bytes
cut_prefix [] s = some s
cut_prefix (p ∷ ps) [] = none
cut_prefix (p ∷ ps) (c ∷ s) = if p == c then cut_prefix ps s else none

abbrev pub is_digit : ℕ → Bool
is_digit c = leb b'0' c && leb c b'9'

abbrev pub is_letter : ℕ → Bool
is_letter c = (leb b'a' c && leb c b'z') || (leb b'A' c && leb c b'Z')

abbrev pub is_dash : ℕ → Bool
is_dash c = c == b'-'

-- strconv.ParseInt(s, 10, 32): an optional sign, digits, and a value that an int32 holds.
unfoldable pub parse_digits : ℕ → Bytes → Option ℕ
parse_digits acc [] = some acc
parse_digits acc (c ∷ cs) = if is_digit c then parse_digits (acc * 10 + (c - 48)) cs else none

unfoldable pub parse_uint : Bytes → Option ℕ
parse_uint [] = none
parse_uint (c ∷ cs) = parse_digits 0 (c ∷ cs)

abbrev pub positive : Option ℕ → Option ℤ
positive none = none
positive (some n) = if ltb n (2 ^ 31) then some (pos n) else none

abbrev pub negative : Option ℕ → Option ℤ
negative none = none
negative (some n) = if leb n (2 ^ 31) then some (sub_ℕ 0 n) else none

unfoldable pub parse_int32 : Bytes → Option ℤ
parse_int32 [] = none
parse_int32 (c ∷ cs) =
    if c == b'+'
    then positive (parse_uint cs)
    else if c == b'-'
    then negative (parse_uint cs)
    else positive (parse_uint (c ∷ cs))

-- for len(numerals) > 1 && numerals[0] == '0' { numerals = numerals[1:] }
unfoldable pub strip_zeros : Bytes → Bytes
strip_zeros [] = []
strip_zeros (c ∷ []) = c ∷ []
strip_zeros (c ∷ d ∷ cs) = let rest = strip_zeros (d ∷ cs) in if c == b'0' then rest else c ∷ d ∷ cs

-- `consume` of NLExprIntRange; `none` is ("", false).
unfoldable pub consume_range : IntRange → Bytes → Option Bytes
consume_range r input =
    if not r.zero_padded || ltb r.digits 1
    then none
    else if ltb (length input) r.digits
    then none
    else elim (parse_int32 (strip_zeros (take r.digits input))) [
      | none ↦ none
      | some x ↦ if leb_ℤ r.start x && leb_ℤ x r.end then some (drop r.digits input) else none
    ]

unfoldable pub consume_ranges : List IntRange → Bytes → Option Bytes
consume_ranges [] input = none
consume_ranges (r ∷ rs) input =
    let rest = consume_ranges rs input in
    elim (consume_range r input) [ some next ↦ some next | none ↦ rest ]

unfoldable pub consume : Expr → Bytes → Option Bytes
consume (str s) input = cut_prefix s input
consume (int_ranges rs) input = consume_ranges rs input

-- `limits` and `prefix` of the three types
unfoldable pub limits : Expr → List Limits
limits (str s) = []
limits (int_ranges rs) = rs

unfoldable pub prefix : Expr → Bytes
prefix (str s) = s
prefix (int_ranges rs) = []

-- The inner loop of `Contains`, with the variables `ok` and `str`; `ok` keeps its value from the
-- term before where a term has no expression.
unfoldable pub match_term : Bool → Term → Bytes → Bool × Bytes
match_term ok [] s = (ok, s)
match_term ok (e ∷ es) s = elim (consume e s) [
  | none ↦ (false, [])
  | some s' ↦ match_term true es s'
]

unfoldable pub contains_from : Bool → NodeList → Bytes → Bool
contains_from ok [] name = false
contains_from ok (term ∷ nl) name =
    let (ok', s) = match_term ok term name in
    if ok' && key_eq s [] then true else contains_from ok' nl name

unfoldable pub contains : NodeList → Bytes → Bool
contains nl name = contains_from false nl name
