-- ===== src/LineProtocol/Reorder.antt =====
-- `reorder` of pkg/metricstore/lineprotocol.go. A slice is its bytes, with those that stand behind
-- them in its array as a second list.
use cc_backend.Common.{
  ℕ, zero, suc, ◌+◌, ◌-◌, ◌≤◌, ◌<◌, ◌≡◌, refl, sym, ap, ◌∙◌, false, ◌&&◌, [], ◌∷◌, ◌++◌,
  append_assoc, ltb, leb, ◌==◌, length, inl, inr, get_or, set, take, drop, if◌then◌else◌, arith,
  Bool-cases, length-append, length-set, le→leb, lt→ltb,
}
use cc_backend.Common.{length-take, length-drop}
use cc_backend.Bytes.{Bytes}

-- for i := m - 1; i >= 0; i-- { buf[i+n] = buf[i] }, with the number of rounds left
unfoldable pub shift : ℕ → ℕ → Bytes → Bytes
shift zero n buf = buf
shift (suc i) n buf = shift i n (set buf (i + n) (get_or buf i 0))

-- for i := range n { buf[i] = prefix[i] }, from `i` on
unfoldable pub put_from : ℕ → Bytes → Bytes → Bytes
put_from i [] buf = buf
put_from i (c ∷ prefix) buf = put_from (suc i) prefix (set buf i c)

unfoldable pub reorder : Bytes → Bytes → Bytes → Bytes
reorder buf spare prefix =
    if ltb (length buf + length spare) (length buf + length prefix)
    then prefix ++ buf
    else take (length prefix + length buf)
        (put_from 0 prefix (shift (length buf) (length prefix) (buf ++ spare)))

get_or-set :
    (xs : Bytes) (i j v : ℕ)
    → i < length xs
    → get_or (set xs i v) j 0 ≡ (if j == i then v else get_or xs j 0)
get_or-set [] i j v h = elim h [ ]
get_or-set (x ∷ xs) zero zero v h = refl
get_or-set (x ∷ xs) zero (suc j) v h = ground arith
get_or-set (x ∷ xs) (suc i) zero v h = ground arith
get_or-set (x ∷ xs) (suc i) (suc j) v h = ground (arith, get_or-set xs i j v)

take-append-drop : (n : ℕ) (xs : Bytes) → take n xs ++ drop n xs ≡ xs
take-append-drop zero xs = refl
take-append-drop (suc n) [] = refl
take-append-drop (suc n) (x ∷ xs) = ap (λ l. x ∷ l) (take-append-drop n xs)

shifted : ℕ → ℕ → Bytes → ℕ → ℕ
shifted i n buf j = if leb n j && ltb j (n + i) then get_or buf (j - n) 0 else get_or buf j 0

length-shift : (i n : ℕ) (buf : Bytes) → length (shift i n buf) ≡ length buf
unfolding shift
length-shift zero n buf = refl
length-shift (suc i) n buf =
    length-shift i n (set buf (i + n) (get_or buf i 0)) ∙ length-set buf (i + n) (get_or buf i 0)

-- What the first loop leaves in each place.
get_or-shift :
    (i n : ℕ) (buf : Bytes) (j : ℕ)
    → n + i ≤ length buf
    → get_or (shift i n buf) j 0 ≡ shifted i n buf j
unfolding shift shifted
get_or-shift zero n buf j h = ground arith
get_or-shift (suc i) n buf j h =
    let v = get_or buf i 0 in
    get_or-shift i n (set buf (i + n) v) j (omega (arith, length-set buf (i + n) v))
    ∙ ground (arith, get_or-set buf (i + n) j v, get_or-set buf (i + n) (j - n) v)

ext :
    (xs ys : Bytes)
    → length xs ≡ length ys
    → ((i : ℕ) → i < length xs → get_or xs i 0 ≡ get_or ys i 0)
    → xs ≡ ys
ext [] [] h f = refl
ext [] (y ∷ ys) h f = absurd (omega arith)
ext (x ∷ xs) [] h f = absurd (omega arith)
ext (x ∷ xs) (y ∷ ys) h f =
    let first : x ≡ y = f 0 (omega arith) in
    let rest = ext xs ys (omega arith) (λ i k. f (suc i) (omega arith)) in cc

get_or-take : (n : ℕ) (xs : Bytes) (i : ℕ) → i < n → get_or (take n xs) i 0 ≡ get_or xs i 0
get_or-take zero xs i h = elim h [ ]
get_or-take (suc n) [] i h = refl
get_or-take (suc n) (x ∷ xs) zero h = refl
get_or-take (suc n) (x ∷ xs) (suc i) h = get_or-take n xs i (omega arith)

later : (n i : ℕ) → suc (n + i) ≡ suc n + i
later n i = omega arith

get_or-drop : (n : ℕ) (xs : Bytes) (i : ℕ) → get_or (drop n xs) i 0 ≡ get_or xs (n + i) 0
get_or-drop zero xs i = ap (λ k. get_or xs k 0) (omega arith)
get_or-drop (suc n) [] i = refl
get_or-drop (suc n) (x ∷ xs) i = get_or-drop n xs i ∙ ap (λ k. get_or (x ∷ xs) k 0) (later n i)

get_or-append : (xs ys : Bytes) (i : ℕ) → i < length xs → get_or (xs ++ ys) i 0 ≡ get_or xs i 0
get_or-append [] ys i h = elim h [ ]
get_or-append (x ∷ xs) ys zero h = refl
get_or-append (x ∷ xs) ys (suc i) h = get_or-append xs ys i (omega arith)

set-append : (xs ys : Bytes) (y v : ℕ) → set (xs ++ y ∷ ys) (length xs) v ≡ xs ++ v ∷ ys
set-append [] ys y v = refl
set-append (x ∷ xs) ys y v = ap (λ l. x ∷ l) (set-append xs ys y v)

-- The second loop overwrites the bytes behind what it has written.
put_from-append :
    (done prefix old rest : Bytes)
    → length old ≡ length prefix
    → put_from (length done) prefix (done ++ (old ++ rest)) ≡ done ++ (prefix ++ rest)
unfolding put_from
put_from-append done [] [] rest h = refl
put_from-append done [] (o ∷ old) rest h = absurd (omega arith)
put_from-append done (c ∷ prefix) [] rest h = absurd (omega arith)
put_from-append done (c ∷ prefix) (o ∷ old) rest h =
    let len : length (done ++ c ∷ []) ≡ suc (length done) =
      omega (arith, length-append done (c ∷ [])) in
    let again = put_from-append (done ++ c ∷ []) prefix old rest (omega arith) in
    rw (set-append done (old ++ rest) o c) (
      rw
        (len, append_assoc done (c ∷ []) (old ++ rest), append_assoc done (c ∷ []) (prefix ++ rest))
        at again)

-- Overwriting the first bytes of a list.
put_from-drop :
    (prefix buf : Bytes)
    → length prefix ≤ length buf
    → put_from 0 prefix buf ≡ prefix ++ drop (length prefix) buf
put_from-drop prefix buf h =
    ap (put_from 0 prefix) (sym (take-append-drop (length prefix) buf))
    ∙ put_from-append [] prefix (take (length prefix) buf) (drop (length prefix) buf)
        (omega (arith, length-take (length prefix) buf))

shifted_at : (m n : ℕ) (buf : Bytes) (i : ℕ) → i < m → shifted m n buf (n + i) ≡ get_or buf i 0
unfolding shifted
shifted_at m n buf i h =
    let back : n + i - n ≡ i = omega arith in
    rw (back, le→leb n (n + i) (omega arith), lt→ltb (n + i) (n + m) (omega arith)) refl

take-add : (xs ys : Bytes) (m : ℕ) → take (length xs + m) (xs ++ ys) ≡ xs ++ take m ys
take-add [] ys m = ap (λ k. take k ys) (zero_add m)
  where
    zero_add : (m : ℕ) → 0 + m ≡ m
    zero_add m = omega arith
take-add (x ∷ xs) ys m = rw (next (length xs) m) (ap (λ l. x ∷ l) (take-add xs ys m))
  where
    next : (n m : ℕ) → suc n + m ≡ suc (n + m)
    next n m = omega arith

-- The bytes of the slice, where the first loop has put them.
moved :
    (buf spare : Bytes) (n : ℕ)
    → n ≤ length spare
    → take (length buf) (drop n (shift (length buf) n (buf ++ spare))) ≡ buf
moved buf spare n h =
    let all = length-append buf spare in
    let room : n + length buf ≤ length (buf ++ spare) = omega (arith, all) in
    ext _ buf
      (omega (
        arith,
        all,
        length-take (length buf) (drop n (shift (length buf) n (buf ++ spare))),
        length-drop n (shift (length buf) n (buf ++ spare)),
        length-shift (length buf) n (buf ++ spare),
      ))
      (λ i k.
        let inside : i < length buf =
          omega
            (arith, k, length-take (length buf) (drop n (shift (length buf) n (buf ++ spare)))) in
        get_or-take (length buf) _ i inside
        ∙ get_or-drop n _ i
        ∙ get_or-shift (length buf) n (buf ++ spare) (n + i) room
        ∙ place i inside
        ∙ get_or-append buf spare i inside)
  where
    place :
        (i : ℕ)
        → i < length buf
        → shifted (length buf) n (buf ++ spare) (n + i) ≡ get_or (buf ++ spare) i 0
    place i k = shifted_at (length buf) n (buf ++ spare) i k

gt→le : (a b : ℕ) → ltb a b ≡ false → b ≤ a
gt→le a b h = ground arith

-- `reorder` puts the prefix in front of the buffer, whatever stands behind the buffer in its array:
-- the in-place branch and the one that allocates do the same.
pub reorder_lem : (buf spare prefix : Bytes) → reorder buf spare prefix ≡ prefix ++ buf
unfolding reorder
reorder_lem buf spare prefix =
    elim (Bool-cases (ltb (length buf + length spare) (length buf + length prefix))) [
      | inl small ↦ rw small
      | inr big ↦ rw big (
          ap (take (length prefix + length buf)) (
            put_from-drop prefix (shift (length buf) (length prefix) (buf ++ spare)) (
              omega (
                arith,
                gt→le _ _ big,
                length-append buf spare,
                length-shift (length buf) (length prefix) (buf ++ spare),
              )))
          ∙ take-add prefix _ (length buf)
          ∙ ap (λ l. prefix ++ l) (moved buf spare (length prefix) (omega (arith, gt→le _ _ big))))
    ]
