-- ===== src/Store/Replay/Cache.antt =====
-- The keys of the levels that `loadWALFile` of pkg/metricstore/walCheckpoint.go has looked up.
use cc_backend.Common.{
  ◌≡◌, refl, sym, ◌∙◌, some, List, [], ◌∷◌, ◌++◌, inl, inr, ◌≢◌, Bool-cases, All,
}
use cc_backend.Bytes.{Bytes, key_eq, key_eq_iff}
use cc_backend.Store.Replay.{join_rest, join_selector, LevelCache, look_up}

-- A name that is not empty and has no null byte.
abbrev pub IsPlain : Bytes → Type 0
IsPlain s = All (λ c. c ≢ 0) s × (s ≢ [])

AtZero : Bytes → Type 0
AtZero [] = Unit {0}
AtZero (c ∷ r) = c ≡ 0

join_rest-AtZero : (sel : List Bytes) → AtZero (join_rest sel)
unfolding AtZero join_rest
join_rest-AtZero [] = tt
join_rest-AtZero (s ∷ sel) = refl

-- A part without null bytes ends where the first one stands.
split_zero :
    (s t r q : Bytes)
    → All (λ c. c ≢ 0) s
    → All (λ c. c ≢ 0) t
    → AtZero r
    → AtZero q
    → s ++ r ≡ t ++ q
    → (s ≡ t) × (r ≡ q)
unfolding AtZero
split_zero [] [] r q hs ht zr zq e = (refl, e)
split_zero [] (c ∷ t) [] q hs ht zr zq e = cc
split_zero [] (c ∷ t) (d ∷ r) q hs (h, ht) zr zq e =
    (let same : c ≡ d = cc in absurd (h (same ∙ zr)))
split_zero (c ∷ s) [] r [] hs ht zr zq e = cc
split_zero (c ∷ s) [] r (d ∷ q) (h, hs) ht zr zq e =
    (let same : c ≡ d = cc in absurd (h (same ∙ zq)))
split_zero (c ∷ s) (d ∷ t) r q (h, hs) (k, ht) zr zq e =
    let here : c ≡ d = cc in
    let tail : s ++ r ≡ t ++ q = cc in let (p, p') = split_zero s t r q hs ht zr zq tail in (cc, p')

join_rest-injective :
    (xs ys : List Bytes) → All IsPlain xs → All IsPlain ys → join_rest xs ≡ join_rest ys → xs ≡ ys
unfolding join_rest
join_rest-injective [] [] hx hy e = refl
join_rest-injective [] (y ∷ ys) hx hy e = cc
join_rest-injective (x ∷ xs) [] hx hy e = cc
join_rest-injective (x ∷ xs) (y ∷ ys) (hx, hxs) (hy, hys) e =
    let tail : x ++ join_rest xs ≡ y ++ join_rest ys = cc in
    let (p, q) =
      split_zero x y (join_rest xs) (join_rest ys) hx.0 hy.0 (join_rest-AtZero xs)
        (join_rest-AtZero ys) tail in
    let same = join_rest-injective xs ys hxs hys q in cc

pub join_selector-injective :
    (xs ys : List Bytes)
    → All IsPlain xs
    → All IsPlain ys
    → join_selector xs ≡ join_selector ys
    → xs ≡ ys
unfolding join_selector
join_selector-injective [] [] hx hy e = refl
join_selector-injective [] ([] ∷ ys) hx (hy, hys) e = absurd (hy.1 refl)
join_selector-injective [] ((c ∷ y) ∷ ys) hx hy e = cc
join_selector-injective ([] ∷ xs) [] (hx, hxs) hy e = absurd (hx.1 refl)
join_selector-injective ((c ∷ x) ∷ xs) [] hx hy e = cc
join_selector-injective (x ∷ xs) (y ∷ ys) (hx, hxs) (hy, hys) e =
    let (p, q) =
      split_zero x y (join_rest xs) (join_rest ys) hx.0 hy.0 (join_rest-AtZero xs)
        (join_rest-AtZero ys) e in
    let same = join_rest-injective xs ys hxs hys q in cc

-- What a look-up finds has the property of all entries, and the key that was looked up.
pub look_up-All :
    (P : Bytes × List Bytes → Type 0) (key : Bytes) (cache : LevelCache) {path : List Bytes}
    → All P cache
    → look_up key cache ≡ some path
    → P (key, path)
unfolding look_up
look_up-All P key [] h e = cc
look_up-All P key ((k, q) ∷ cache) {path} (h, hs) e = elim (Bool-cases (key_eq k key)) [
  | inl here ↦
      (let found : some q ≡ some path = sym (rw here) ∙ e in
        let same : q ≡ path = cc in rw (sym same, sym ((key_eq_iff k key).0 here)) h)
  | inr there ↦ look_up-All P key cache hs (sym (rw there) ∙ e)
]
