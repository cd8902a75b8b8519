-- ===== src/Auth/Jobs.antt =====
-- SecurityCheckWithUser of internal/repository/jobQuery.go: which jobs a query of a user can find.
use cc_backend.Common.{
  ◌≡◌, refl, sym, ◌∙◌, Bool, true, false, ◌&&◌, ◌||◌, Option, none, some, List, [], ◌∷◌, ◌==◌,
  length, ◌⊎◌, inl, inr, ◌↔◌, if◌then◌else◌, Bool-cases, ==_iff,
}
use cc_backend.Common.{Result, ok, err}
use cc_backend.Bytes.{Bytes, key_eq, key_eq_iff}
use cc_backend.Maps.{IsIn}
use cc_backend.Auth.{User, Schema, AuthError, no_user, no_role, is_blank}
use cc_backend.Common.{and-eq-true}

-- The columns of a job that the conditions are about.
pub record JobRow : Type 0 where
  pub project : Bytes
  pub hpc_user : Bytes

-- A query by the jobs that its conditions let through; Where adds a condition.
abbrev pub JobQuery : Type 0
JobQuery = JobRow → Bool

unfoldable pub restrict_to : (JobRow → Bool) → JobQuery → JobQuery
restrict_to condition query job = query job && condition job

unfoldable pub is_own : User → JobRow → Bool
is_own user job = key_eq job.hpc_user user.username

-- sq.Eq with a list, which is the condition IN.
unfoldable pub is_one_of : Bytes → List Bytes → Bool
is_one_of x [] = false
is_one_of x (y ∷ ys) = key_eq x y || is_one_of x ys

is_one_of_iff : (x : Bytes) (ys : List Bytes) → (is_one_of x ys ≡ true) ↔ IsIn x ys
unfolding is_one_of
is_one_of_iff x [] = (λ h. (let never : false ≡ true = h in cc), λ h. elim h [ ])
is_one_of_iff x (y ∷ ys) = (
  λ h. elim (Bool-cases (key_eq x y)) [
    | inl same ↦ inl ((key_eq_iff x y).0 same)
    | inr other ↦ inr ((is_one_of_iff x ys).0 (sym (rw other) ∙ h))
  ],
  λ h. elim h [
    | inl same ↦ rw ((key_eq_iff x y).1 same) refl
    | inr there ↦ elim (Bool-cases (key_eq x y)) [
      | inl same ↦ rw same refl
      | inr other ↦ rw (other, (is_one_of_iff x ys).1 there) refl
    ]
  ],
)

-- A condition that stands for P.
restrict_iff :
    (condition query : JobQuery) (job : JobRow) {P : Type 0}
    → (condition job ≡ true) ↔ P
    → (restrict_to condition query job ≡ true) ↔ ((query job ≡ true) × P)
unfolding restrict_to
restrict_iff condition query job h = (
  λ e. (let (asked, met) = and-eq-true (query job) (condition job) e in (asked, h.0 met)),
  λ e. rw (e.0, h.1 e.1) refl,
)

all_of :
    (query : JobQuery) (job : JobRow) {P : Type 0}
    → P
    → (query job ≡ true) ↔ ((query job ≡ true) × P)
all_of query job p = (λ e. (e, p), λ e. e.0)

is_blank-eq-true : {A : Type 0} (xs : List A) → is_blank xs ≡ true → xs ≡ []
unfolding is_blank
is_blank-eq-true [] e = refl
is_blank-eq-true (x ∷ xs) e = cc

module _ (sc : Schema) where
  open sc use {has_role, has_any_role, role_api, role_admin, role_support, role_manager, role_user}

  unfoldable pub security_check_with_user : Option User → JobQuery → Result AuthError JobQuery
  security_check_with_user none query = err no_user
  security_check_with_user (some user) query =
      if length user.roles == 1 && has_role user role_api
      then ok query
      else if has_any_role user (role_admin ∷ role_support ∷ [])
      then ok query
      else if has_role user role_manager
      then (if is_blank user.projects
          then ok (restrict_to (is_own user) query)
          else ok
              (restrict_to (λ job. is_one_of job.project user.projects || is_own user job) query))
      else if has_role user role_user
      then ok (restrict_to (is_own user) query)
      else err no_role

  -- The role api alone, admin or support.
  abbrev pub SeesAll : User → Type 0
  SeesAll u =
      ((length u.roles ≡ 1) × IsIn (sc.role_name role_api) u.roles)
      ⊎ IsIn (sc.role_name role_admin) u.roles
      ⊎ IsIn (sc.role_name role_support) u.roles

  -- Such a user, the user of the job, or a manager of its project.
  abbrev pub MaySee : User → JobRow → Type 0
  MaySee u job =
      SeesAll u
      ⊎ (job.hpc_user ≡ u.username)
      ⊎ (IsIn (sc.role_name role_manager) u.roles × IsIn job.project u.projects)

  pub any_of_two :
      (u : User) (a b : sc.Role)
      → (has_any_role u (a ∷ b ∷ []) ≡ true)
        ↔ (IsIn (sc.role_name a) u.roles ⊎ IsIn (sc.role_name b) u.roles)
  any_of_two u a b =
      rw (sc.has_any_cons u a (b ∷ []), sc.has_any_cons u b [], sc.has_any_nil u)
        (
          λ h. elim (Bool-cases (has_role u a)) [
            | inl has_it ↦ inl ((sc.has_role_iff u a).0 has_it)
            | inr lacks ↦ elim (Bool-cases (has_role u b)) [
              | inl has_it ↦ inr ((sc.has_role_iff u b).0 has_it)
              | inr no2 ↦ (let never : false ≡ true = sym (rw (lacks, no2)) ∙ h in cc)
            ]
          ],
          λ h. elim h [
            | inl there ↦ rw ((sc.has_role_iff u a).1 there) refl
            | inr there ↦ elim (Bool-cases (has_role u a)) [
              | inl has_it ↦ rw has_it refl
              | inr lacks ↦ rw (lacks, (sc.has_role_iff u b).1 there) refl
            ]
          ],
        )

  not_all :
      (u : User)
      → (length u.roles == 1 && has_role u role_api) ≡ false
      → has_any_role u (role_admin ∷ role_support ∷ []) ≡ false
      → SeesAll u
      → ⊥
  not_all u no_api no_others (inl (single, api)) =
      let has_it : (length u.roles == 1 && has_role u role_api) ≡ true =
        rw (single, (sc.has_role_iff u role_api).1 api) refl in
      let never : true ≡ false = sym has_it ∙ no_api in cc
  not_all u no_api no_others (inr other) =
      let has_it : has_any_role u (role_admin ∷ role_support ∷ []) ≡ true =
        (any_of_two u role_admin role_support).1 other in
      let never : true ≡ false = sym has_it ∙ no_others in cc

  own_iff :
      (u : User) (job : JobRow)
      → (SeesAll u → ⊥)
      → (IsIn (sc.role_name role_manager) u.roles → IsIn job.project u.projects → ⊥)
      → (is_own u job ≡ true) ↔ MaySee u job
  unfolding is_own
  own_iff u job few unmanaged = (
    λ e. inr (inl ((key_eq_iff job.hpc_user u.username).0 e)),
    λ h. elim h [
      | inl all ↦ elim (few all) [ ]
      | inr (inl own) ↦ (key_eq_iff job.hpc_user u.username).1 own
      | inr (inr (manager, project)) ↦ elim (unmanaged manager project) [ ]
    ],
  )

  managed_iff :
      (u : User) (job : JobRow)
      → (SeesAll u → ⊥)
      → IsIn (sc.role_name role_manager) u.roles
      → ((is_one_of job.project u.projects || is_own u job) ≡ true) ↔ MaySee u job
  unfolding is_own
  managed_iff u job few manager = (
    λ e. elim (Bool-cases (is_one_of job.project u.projects)) [
      | inl there ↦ inr (inr (manager, (is_one_of_iff job.project u.projects).0 there))
      | inr missing ↦ inr (inl ((key_eq_iff job.hpc_user u.username).0 (sym (rw missing) ∙ e)))
    ],
    λ h. elim h [
      | inl all ↦ elim (few all) [ ]
      | inr (inl own) ↦ elim (Bool-cases (is_one_of job.project u.projects)) [
        | inl there ↦ rw there refl
        | inr missing ↦ rw (missing, (key_eq_iff job.hpc_user u.username).1 own) refl
      ]
      | inr (inr (_, project)) ↦ rw ((is_one_of_iff job.project u.projects).1 project) refl
    ],
  )

  -- A user whom the check does not turn away finds the jobs of the query that the user may see: all
  -- for the role api alone, admin and support, else the own jobs and, for managers, those of their
  -- projects.
  pub security_check-MaySee :
      (u : User) (query : JobQuery) {found : JobQuery}
      → security_check_with_user (some u) query ≡ ok found
      → (job : JobRow) → (found job ≡ true) ↔ ((query job ≡ true) × MaySee u job)
  unfolding security_check_with_user
  security_check-MaySee u query {found} e job =
      elim (Bool-cases (length u.roles == 1 && has_role u role_api)) [
        | inl api ↦
            (let same : ok query ≡ ok found = sym (rw api) ∙ e in
              let now : query ≡ found = cc in
              let (one, has) = and-eq-true (length u.roles == 1) (has_role u role_api) api in
              rw (← now) (
                all_of query job (
                  inl
                    (inl ((==_iff (length u.roles) 1).0 one, (sc.has_role_iff u role_api).0 has)))))
        | inr no_api ↦ elim (Bool-cases (has_any_role u (role_admin ∷ role_support ∷ []))) [
          | inl other ↦
              (let same : ok query ≡ ok found = sym (rw (no_api, other)) ∙ e in
                let now : query ≡ found = cc in
                rw (← now)
                  (all_of query job (inl (inr ((any_of_two u role_admin role_support).0 other)))))
          | inr no_other ↦ elim (Bool-cases (has_role u role_manager)) [
            | inl manager ↦ elim (Bool-cases (is_blank u.projects)) [
              | inl no_projects ↦
                  (let same : ok (restrict_to (is_own u) query) ≡ ok found =
                      sym (rw (no_api, no_other, manager, no_projects)) ∙ e in
                    let now : restrict_to (is_own u) query ≡ found = cc in
                    rw (← now) (
                      restrict_iff (is_own u) query job (
                        own_iff u job (not_all u no_api no_other)
                          (λ m p. rw (is_blank-eq-true u.projects no_projects) at p))))
              | inr projects ↦
                  (let condition : JobQuery = λ j. is_one_of j.project u.projects || is_own u j in
                    let same : ok (restrict_to condition query) ≡ ok found =
                      sym (rw (no_api, no_other, manager, projects)) ∙ e in
                    let now : restrict_to condition query ≡ found = cc in
                    rw (← now) (
                      restrict_iff condition query job (
                        managed_iff u job (not_all u no_api no_other)
                          ((sc.has_role_iff u role_manager).0 manager))))
            ]
            | inr no_manager ↦ elim (Bool-cases (has_role u role_user)) [
              | inl plain ↦
                  (let same : ok (restrict_to (is_own u) query) ≡ ok found =
                      sym (rw (no_api, no_other, no_manager, plain)) ∙ e in
                    let now : restrict_to (is_own u) query ≡ found = cc in
                    rw (← now) (
                      restrict_iff (is_own u) query job (
                        own_iff u job (not_all u no_api no_other) (λ m p.
                          let never : true ≡ false =
                            sym ((sc.has_role_iff u role_manager).1 m) ∙ no_manager in
                          cc))))
              | inr unknown ↦
                  (let never : err no_role ≡ ok found =
                      sym (rw (no_api, no_other, no_manager, unknown)) ∙ e in
                    cc)
            ]
          ]
        ]
      ]
