-- ===== src/Maps.antt =====
-- Maps with strings for keys, as lists in the order in which the keys were first set, and the
-- members of a list.
use cc_backend.Common.{true, false, ◌↔◌, ap}
use cc_backend.Common.{
  ◌≡◌, refl, sym, ◌∙◌, Option, none, some, List, [], ◌∷◌, ◌++◌, ◌⊎◌, inl, inr, if◌then◌else◌,
  Bool-cases, All,
}
use cc_backend.Bytes.{Bytes, key_eq, key_eq_iff, key_eq_refl}

-- A map with strings for keys, and m[key], m[key] = value.
abbrev pub Map : Type 0 → Type 0
Map A = List (Bytes × A)

unfoldable pub find_key : {A : Type 0} → Bytes → Map A → Option A
find_key key [] = none
find_key key ((k, a) ∷ m) = if key_eq k key then some a else find_key key m

unfoldable pub set_key : {A : Type 0} → Bytes → A → Map A → Map A
set_key key a [] = (key, a) ∷ []
set_key key a ((k, b) ∷ m) = if key_eq k key then (k, a) ∷ m else (k, b) ∷ set_key key a m

abbrev pub IsIn : {A : Type 0} → A → List A → Type 0
IsIn x [] = ⊥
IsIn x (y ∷ ys) = (x ≡ y) ⊎ IsIn x ys

pub IsIn-append : {A : Type 0} (x : A) (ys zs : List A) → IsIn x ys → IsIn x (ys ++ zs)
IsIn-append x [] zs h = elim h [ ]
IsIn-append x (y ∷ ys) zs (inl h) = inl h
IsIn-append x (y ∷ ys) zs (inr h) = inr (IsIn-append x ys zs h)

pub IsIn-last : {A : Type 0} (x : A) (ys : List A) → IsIn x (ys ++ x ∷ [])
IsIn-last x [] = inl refl
IsIn-last x (y ∷ ys) = inr (IsIn-last x ys)

pub All-map :
    {A : Type 0} (P Q : A → Type 0) (xs : List A) → ((x : A) → P x → Q x) → All P xs → All Q xs
All-map P Q [] f h = tt
All-map P Q (x ∷ xs) f (h, hs) = (f x h, All-map P Q xs f hs)

module _ {A : Type 0} (P : Bytes → A → Type 0) where
  abbrev pub AllKeys : Map A → Type 0
  AllKeys m = All (λ e. P e.0 e.1) m

  pub find_key-All :
      (key : Bytes) (m : Map A) {a : A} → AllKeys m → find_key key m ≡ some a → P key a
  unfolding find_key
  find_key-All key [] h e = cc
  find_key-All key ((k, b) ∷ m) {a} (h, hs) e = elim (Bool-cases (key_eq k key)) [
    | inl here ↦
        (let found : some b ≡ some a = sym (rw here) ∙ e in
          let same : b ≡ a = cc in rw (sym same, sym ((key_eq_iff k key).0 here)) h)
    | inr there ↦ find_key-All key m hs (sym (rw there) ∙ e)
  ]

  pub set_key-All :
      (key : Bytes) (a : A) (m : Map A) → AllKeys m → P key a → AllKeys (set_key key a m)
  unfolding set_key
  set_key-All key a [] h p = (p, tt)
  set_key-All key a ((k, b) ∷ m) (h, hs) p = elim (Bool-cases (key_eq k key)) [
    | inl here ↦ rw here ((rw ((key_eq_iff k key).0 here) p), hs)
    | inr there ↦ rw there (h, set_key-All key a m hs p)
  ]

key_eq_sym : (a b : Bytes) → key_eq a b ≡ false → key_eq b a ≡ false
key_eq_sym a b e = elim (Bool-cases (key_eq b a)) [
  | inr other ↦ other
  | inl same ↦
      (let never : true ≡ false = sym ((key_eq_iff a b).1 (sym ((key_eq_iff b a).0 same))) ∙ e in
        cc)
]

pub find_key-set_key :
    {A : Type 0} (key : Bytes) (a : A) (m : Map A) → find_key key (set_key key a m) ≡ some a
unfolding find_key set_key
find_key-set_key key a [] = rw (key_eq_refl key) refl
find_key-set_key key a ((k, b) ∷ m) = elim (Bool-cases (key_eq k key)) [
  | inl here ↦ rw (here, here) refl
  | inr there ↦ rw (there, there) (find_key-set_key key a m)
]

pub find_key-set_key_other :
    {A : Type 0} (key other : Bytes) (a : A) (m : Map A)
    → key_eq key other ≡ false
    → find_key other (set_key key a m) ≡ find_key other m
unfolding find_key set_key
find_key-set_key_other key other a [] e = rw e refl
find_key-set_key_other key other a ((k, b) ∷ m) e = elim (Bool-cases (key_eq k key)) [
  | inl here ↦
      (let away : key_eq k other ≡ false = rw ((key_eq_iff k key).0 here) e in rw (here, away) refl)
  | inr there ↦ elim (Bool-cases (key_eq k other)) [
    | inl found ↦ rw (there, found) refl
    | inr missing ↦ rw (there, missing) (find_key-set_key_other key other a m e)
  ]
]

-- No key stands twice.
abbrev pub IsKeyed : {A : Type 0} → Map A → Type 0
IsKeyed [] = Unit {0}
IsKeyed ((k, a) ∷ m) = (find_key k m ≡ none) × IsKeyed m

pub set_key-IsKeyed :
    {A : Type 0} (key : Bytes) (a : A) (m : Map A) → IsKeyed m → IsKeyed (set_key key a m)
unfolding set_key find_key
set_key-IsKeyed key a [] h = (refl, h)
set_key-IsKeyed key a ((k, b) ∷ m) (fresh, h) = elim (Bool-cases (key_eq k key)) [
  | inl here ↦ rw (set_key, here) (fresh, h)
  | inr there ↦
      rw there (
        find_key-set_key_other key k a m (key_eq_sym k key there) ∙ fresh,
        set_key-IsKeyed key a m h,
      )
]

pub find_key_iff :
    {A : Type 0} (key : Bytes) (a : A) (m : Map A)
    → IsKeyed m
    → IsIn (key, a) m ↔ (find_key key m ≡ some a)
unfolding find_key
find_key_iff key a [] h = (λ there. elim there [ ], λ e. let never : none ≡ some a = e in cc)
find_key_iff key a ((k, b) ∷ m) (fresh, h) = (
  λ there. elim there [
    | inl same ↦
        rw ((key_eq_iff k key).1 (sym (ap (λ p. p.0) same))) (ap some (sym (ap (λ p. p.1) same)))
    | inr later ↦
        (let found : find_key key m ≡ some a = (find_key_iff key a m h).0 later in
          elim (Bool-cases (key_eq k key)) [
            | inr other ↦ rw other found
            | inl here ↦
                (let never : none ≡ some a =
                    sym (rw ((key_eq_iff k key).0 here) at fresh) ∙ found in
                  cc)
          ])
  ],
  λ e. elim (Bool-cases (key_eq k key)) [
    | inr other ↦ inr ((find_key_iff key a m h).1 (sym (rw other) ∙ e))
    | inl here ↦
        (let found : some b ≡ some a = sym (rw here) ∙ e in
          let same : b ≡ a = cc in
          let name : k ≡ key = (key_eq_iff k key).0 here in inl (rw (name, same) refl))
  ],
)
