-- ===== src/Auth/Ldap/Marks.antt =====
-- The marks of internal/auth/ldap.go: whether a name is in the table, in the directory, or in both.
use cc_backend.Common.{
  ℕ, zero, suc, ◌≡◌, refl, sym, ap, ◌∙◌, Bool, true, false, Option, none, some, List, [], ◌∷◌, ◌⊎◌,
  inl, inr, ◌↔◌, if◌then◌else◌, arith, Bool-cases, Option-cases,
}
use cc_backend.Common.{ok}
use cc_backend.Bytes.{Bytes, key_eq, key_eq_iff}
use cc_backend.Maps.{Map, find_key, set_key, IsIn}
use cc_backend.Maps.{find_key-set_key, find_key-set_key_other, IsKeyed, set_key-IsKeyed}
use cc_backend.Auth.Ldap.{
  Where, in_db, in_ldap, in_both, SyncState, mark_db, mark_ldap, count, marks,
}

pub find_key-mark_db :
    (u : Bytes) (names : List Bytes) (m : Map Where)
    → (IsIn u names × (find_key u (mark_db names m) ≡ some in_db))
      ⊎ ((IsIn u names → ⊥) × (find_key u (mark_db names m) ≡ find_key u m))
unfolding mark_db
find_key-mark_db u [] m = inr (λ h. h, refl)
find_key-mark_db u (v ∷ names) m = elim (find_key-mark_db u names (set_key v in_db m)) [
  | inl (there, e) ↦ inl (inr there, e)
  | inr (missing, e) ↦ elim (Bool-cases (key_eq v u)) [
    | inl here ↦
        (let same : v ≡ u = (key_eq_iff v u).0 here in
          inl (inl (sym same), e ∙ (rw same (find_key-set_key u in_db m))))
    | inr other ↦ inr (
      λ h. elim h [
        | inl same ↦ (let never : true ≡ false = sym ((key_eq_iff v u).1 (sym same)) ∙ other in cc)
        | inr there ↦ missing there
      ],
      e ∙ find_key-set_key_other v u in_db m other,
    )
  ]
]

pub mark_db-IsKeyed : (names : List Bytes) (m : Map Where) → IsKeyed m → IsKeyed (mark_db names m)
unfolding mark_db
mark_db-IsKeyed [] m h = h
mark_db-IsKeyed (v ∷ names) m h =
    mark_db-IsKeyed names (set_key v in_db m) (set_key-IsKeyed v in_db m h)

marked :
    (u v : Bytes) (w : Where) (n : ℕ) (m : Map Where)
    → marks n (find_key u (set_key v w m))
      ≡ (if key_eq v u then marks n (some w) else marks n (find_key u m))
marked u v w n m = elim (Bool-cases (key_eq v u)) [
  | inl here ↦ rw here (rw ((key_eq_iff v u).0 here) (ap (marks n) (find_key-set_key u w m)))
  | inr other ↦ rw other (ap (marks n) (find_key-set_key_other v u w m other))
]

one_more :
    (u v : Bytes) (w : Where) (n : ℕ) (m : Map Where)
    → ((k : ℕ) → marks (suc k) (find_key v m) ≡ marks k (some w))
    → marks n (find_key u (set_key v w m)) ≡ marks (if key_eq v u then suc n else n) (find_key u m)
one_more u v w n m h = marked u v w n m ∙ (elim (Bool-cases (key_eq v u)) [
  | inl here ↦
      rw here (sym (h n) ∙ ap (λ x. marks (suc n) (find_key x m)) ((key_eq_iff v u).0 here))
  | inr other ↦ rw other refl
])

pub mark_ldap_lem :
    (entries : List (Bytes × Bytes)) (st : SyncState) {end : SyncState}
    → mark_ldap entries st ≡ ok end
    → IsKeyed st.users
    → IsKeyed end.users
      × ((u : Bytes) → find_key u end.users ≡ marks (count u entries) (find_key u st.users))
unfolding mark_ldap count marks
mark_ldap_lem [] st {end} e h = let same : st ≡ end = cc in rw (← same) (h, λ u. refl)
mark_ldap_lem (([], name) ∷ entries) st e h = cc
mark_ldap_lem ((c ∷ cs, name) ∷ entries) st {end} e h =
    elim (Option-cases (find_key (c ∷ cs) st.users)) [
      | inl missing ↦
          (let after : mark_ldap entries (record {
            users = set_key (c ∷ cs) in_ldap st.users;
            newnames = set_key (c ∷ cs) name st.newnames;
          })
                ≡ ok end =
              sym (rw (mark_ldap, missing)) ∙ e in
            let (keyed, found) =
              mark_ldap_lem entries
                (record {
                  users = set_key (c ∷ cs) in_ldap st.users;
                  newnames = set_key (c ∷ cs) name st.newnames;
                })
                after (set_key-IsKeyed (c ∷ cs) in_ldap st.users h) in
            (
              keyed,
              λ u.
                  found u
                  ∙ one_more u (c ∷ cs) in_ldap (count u entries) st.users
                      (λ k. rw (marks, missing) refl),
            ))
      | inr (w, there) ↦
          (let after : mark_ldap entries (record st { users = set_key (c ∷ cs) in_both st.users })
                ≡ ok end =
              sym (rw (mark_ldap, there)) ∙ e in
            let (keyed, found) =
              mark_ldap_lem entries (record st { users = set_key (c ∷ cs) in_both st.users }) after
                (set_key-IsKeyed (c ∷ cs) in_both st.users h) in
            (
              keyed,
              λ u.
                  found u
                  ∙ one_more u (c ∷ cs) in_both (count u entries) st.users
                      (λ k. rw (marks, there) refl),
            ))
    ]

marks_both : (n : ℕ) → marks n (some in_both) ≡ some in_both
unfolding marks
marks_both zero = refl
marks_both (suc n) = marks_both n

-- Marks are told apart by a test.
abbrev pub is_mark : Where → Option Where → Bool
is_mark w none = false
is_mark in_db (some in_db) = true
is_mark in_ldap (some in_ldap) = true
is_mark in_both (some in_both) = true
is_mark w (some v) = false

marks_in_db : (n : ℕ) → (marks n (some in_db) ≡ some in_db) ↔ (n ≡ 0)
unfolding marks
marks_in_db zero = (λ h. refl, λ h. refl)
marks_in_db (suc n) = (
  λ h.
      (let same : some in_both ≡ some in_db = sym (marks_both n) ∙ h in
        let never : false ≡ true = ap (is_mark in_db) same in cc),
  λ h. (let never : ⊥ = omega arith in elim never [ ]),
)

marks_new_table : (n : ℕ) → marks n none ≡ some in_db → ⊥
unfolding marks
marks_new_table zero h = let never : false ≡ true = ap (is_mark in_db) h in cc
marks_new_table (suc zero) h = let never : false ≡ true = ap (is_mark in_db) h in cc
marks_new_table (suc (suc n)) h =
    let same : some in_both ≡ some in_db = sym (marks_both n) ∙ h in
    let never : false ≡ true = ap (is_mark in_db) same in cc

marks_table_ldap : (n : ℕ) → marks n (some in_db) ≡ some in_ldap → ⊥
unfolding marks
marks_table_ldap zero h = let never : false ≡ true = ap (is_mark in_ldap) h in cc
marks_table_ldap (suc n) h =
    let same : some in_both ≡ some in_ldap = sym (marks_both n) ∙ h in
    let never : false ≡ true = ap (is_mark in_ldap) same in cc

marks_in_ldap : (n : ℕ) → (marks n none ≡ some in_ldap) ↔ (n ≡ 1)
unfolding marks
marks_in_ldap zero = (λ h. let never : false ≡ true = ap (is_mark in_ldap) h in cc, λ h. cc)
marks_in_ldap (suc zero) = (λ h. refl, λ h. refl)
marks_in_ldap (suc (suc n)) = (
  λ h.
      (let same : some in_both ≡ some in_ldap = sym (marks_both n) ∙ h in
        let never : false ≡ true = ap (is_mark in_ldap) same in cc),
  λ h. (let never : ⊥ = omega arith in elim never [ ]),
)

-- The loop leaves one mark for each name: in the table, in the directory, or in both.
pub marks_of :
    (u : Bytes) (usernames : List Bytes) (entries : List (Bytes × Bytes)) (users : Map Where)
    → find_key u users ≡ marks (count u entries) (find_key u (mark_db usernames []))
    → ((find_key u users ≡ some in_db) ↔ (IsIn u usernames × (count u entries ≡ 0)))
      × ((find_key u users ≡ some in_ldap) ↔ ((IsIn u usernames → ⊥) × (count u entries ≡ 1)))
unfolding find_key
marks_of u usernames entries users e = elim (find_key-mark_db u usernames []) [
  | inl (there, found) ↦
      (let now : find_key u users ≡ marks (count u entries) (some in_db) =
          e ∙ ap (marks (count u entries)) found in
        rw now (
          (
            λ h. (there, (marks_in_db (count u entries)).0 h),
            λ h. (marks_in_db (count u entries)).1 h.1,
          ),
          (λ h. elim (marks_table_ldap (count u entries) h) [ ], λ h. elim (h.0 there) [ ]),
        ))
  | inr (missing, found) ↦
      (let now : find_key u users ≡ marks (count u entries) none =
          e ∙ ap (marks (count u entries)) found in
        rw now (
          (λ h. elim (marks_new_table (count u entries) h) [ ], λ h. elim (missing h.0) [ ]),
          (
            λ h. (missing, (marks_in_ldap (count u entries)).0 h),
            λ h. (marks_in_ldap (count u entries)).1 h.1,
          ),
        ))
]
