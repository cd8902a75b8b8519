-- ===== src/Auth/Access.antt =====
-- How the handlers of internal/auth/auth.go fit together with SecurityCheckWithUser of
-- internal/repository/jobQuery.go: what a user who is let through finds.
use cc_backend.Common.{
  ◌≡◌, refl, sym, ap, ◌∙◌, true, false, ◌&&◌, ◌||◌, some, List, [], ◌∷◌, ◌==◌, length, ◌⊎◌, inl,
  inr, ◌↔◌, Bool-cases,
}
use cc_backend.Common.{ok}
use cc_backend.Maps.{IsIn}
use cc_backend.Auth.{User, Schema, Request, serve, is_blank}
use cc_backend.Auth.Token.{IsVouched, auth_via_jwt-IsVouched}
use cc_backend.Auth.Api.{Server, via_jwt, auth_api, auth_user_api, IsAllowed}
use cc_backend.Auth.Grants.{MayCall, auth_with-MayCall, auth_api-MayCall}
use cc_backend.Auth.Jobs.{
  JobRow, JobQuery, restrict_to, is_own, is_one_of, security_check_with_user, MaySee, any_of_two,
  security_check-MaySee,
}

module _ (sc : Schema) where
  open sc use {has_role, has_any_role, role_api, role_admin, role_support, role_manager, role_user}

  has_any-member :
      (u : User) (rs : List sc.Role)
      → has_any_role u rs ≡ true
      → (r : sc.Role) × IsIn r rs × (has_role u r ≡ true)
  has_any-member u [] e = (let never : false ≡ true = sym (sc.has_any_nil u) ∙ e in cc)
  has_any-member u (r ∷ rs) e = elim (Bool-cases (has_role u r)) [
    | inl has_it ↦ (r, inl refl, has_it)
    | inr lacks ↦
        (let (other, there, has_it) =
            has_any-member u rs (sym (rw lacks) ∙ sym (sc.has_any_cons u r rs) ∙ e) in
          (other, inr there, has_it))
  ]

  -- The check does not turn away the role api alone, nor one of the roles that it knows.
  has_role-known :
      (u : User) (query : JobQuery) (r : sc.Role)
      → has_role u r ≡ true
      → ((r ≡ role_api) × (length u.roles ≡ 1))
        ⊎ IsIn r (role_user ∷ role_manager ∷ role_support ∷ role_admin ∷ [])
      → (found : JobQuery) × (security_check_with_user sc (some u) query ≡ ok found)
  unfolding security_check_with_user
  has_role-known u query r e (inl (api, single)) = (query, rw (single, rw api at e) refl)
  has_role-known u query r e (inr known) =
      elim (Bool-cases (length u.roles == 1 && has_role u role_api)) [
        | inl api ↦ (query, rw api refl)
        | inr no_api ↦ elim (Bool-cases (has_any_role u (role_admin ∷ role_support ∷ []))) [
          | inl other ↦ (query, rw (no_api, other) refl)
          | inr no_other ↦ elim (Bool-cases (has_role u role_manager)) [
            | inl manager ↦ elim (Bool-cases (is_blank u.projects)) [
              | inl none_there ↦
                  (restrict_to (is_own u) query, rw (no_api, no_other, manager, none_there) refl)
              | inr projects ↦ (
                restrict_to (λ job. is_one_of job.project u.projects || is_own u job) query,
                rw (no_api, no_other, manager, projects) refl,
              )
            ]
            | inr no_manager ↦ elim (Bool-cases (has_role u role_user)) [
              | inl plain ↦
                  (restrict_to (is_own u) query, rw (no_api, no_other, no_manager, plain) refl)
              | inr not_plain ↦ elim known [
                | inl is_user ↦
                    (let never : true ≡ false = sym e ∙ ap (has_role u) is_user ∙ not_plain in cc)
                | inr (inl is_manager) ↦
                    (let never : true ≡ false = sym e ∙ ap (has_role u) is_manager ∙ no_manager in
                      cc)
                | inr (inr (inl is_support)) ↦
                    (let is_in : has_any_role u (role_admin ∷ role_support ∷ []) ≡ true =
                        (any_of_two sc u role_admin role_support).1
                          (inr ((sc.has_role_iff u role_support).0 (rw is_support at e))) in
                      let never : true ≡ false = sym is_in ∙ no_other in cc)
                | inr (inr (inr (inl is_admin))) ↦
                    (let is_in : has_any_role u (role_admin ∷ role_support ∷ []) ≡ true =
                        (any_of_two sc u role_admin role_support).1
                          (inl ((sc.has_role_iff u role_admin).0 (rw is_admin at e))) in
                      let never : true ≡ false = sym is_in ∙ no_other in cc)
                | inr (inr (inr (inr there))) ↦ elim there [ ]
              ]
            ]
          ]
        ]
      ]

  api_alone :
      (u : User)
      → IsIn (sc.role_name role_api) u.roles
      → length u.roles ≡ 1
      → (query : JobQuery) → security_check_with_user sc (some u) query ≡ ok query
  unfolding security_check_with_user
  api_alone u api single query = rw (single, (sc.has_role_iff u role_api).1 api) refl

  admin_sees :
      (u : User)
      → has_role u role_admin ≡ true
      → (query : JobQuery) → security_check_with_user sc (some u) query ≡ ok query
  unfolding security_check_with_user
  admin_sees u admin query =
      let other : has_any_role u (role_admin ∷ role_support ∷ []) ≡ true =
        (any_of_two sc u role_admin role_support).1
          (inl ((sc.has_role_iff u role_admin).0 admin)) in
      elim (Bool-cases (length u.roles == 1 && has_role u role_api)) [
        | inl api ↦ rw api refl
        | inr no_api ↦ rw (no_api, other) refl
      ]

-- AuthAPI lets a request through only for a user whom a valid token vouches for, from an address
-- that is allowed, and the check of the jobs then leaves the query of that user as it is.
pub auth_api-security_check :
    (srv : Server) (r : Request) (u : User) (query : JobQuery)
    → IsIn (serve u) (auth_api srv r)
    → IsVouched srv.tokens srv.validate_user srv.get_user r u
      × IsAllowed srv r
      × (security_check_with_user srv.schema (some u) query ≡ ok query)
unfolding via_jwt MayCall
auth_api-security_check srv r u query h =
    let (found, allowed, may) = auth_api-MayCall srv r h in
    let (api, others) = may in
    (
      auth_via_jwt-IsVouched srv.tokens srv.schema.is_valid_role srv.validate_user srv.get_user r
          found,
      allowed,
      elim others [
        | inl single ↦ api_alone srv.schema u api single query
        | inr (more, admin) ↦ admin_sees srv.schema u admin query
      ],
    )

-- A user whom AuthUserAPI lets through is vouched for by a valid token, is not turned away by the
-- check of the jobs, and finds the jobs of the query that the user may see.
pub auth_user_api-security_check :
    (srv : Server) (r : Request) (u : User) (query : JobQuery)
    → IsIn (serve u) (auth_user_api srv r)
    → IsVouched srv.tokens srv.validate_user srv.get_user r u
      × ((found : JobQuery) × (security_check_with_user srv.schema (some u) query ≡ ok found)
          × ((job : JobRow) → (found job ≡ true) ↔ ((query job ≡ true) × MaySee srv.schema u job)))
unfolding via_jwt MayCall auth_user_api
auth_user_api-security_check srv r u query h =
    let sc = srv.schema in
    let others : List sc.Role =
      sc.role_user ∷ sc.role_manager ∷ sc.role_support ∷ sc.role_admin ∷ [] in
    let (via, may) = auth_with-MayCall srv others r h in
    let (api, beside) = may in
    let (found, e) : (found : JobQuery) × (security_check_with_user sc (some u) query ≡ ok found) =
      (elim beside [
        | inl single ↦
            has_role-known sc u query sc.role_api ((sc.has_role_iff u sc.role_api).1 api)
              (inl (refl, single))
        | inr (more, any) ↦
            (let (role, there, has_it) = has_any-member sc u others any in
              has_role-known sc u query role has_it (inr there))
      ]) in
    (
      auth_via_jwt-IsVouched srv.tokens sc.is_valid_role srv.validate_user srv.get_user r via,
      (found, e, security_check-MaySee sc u query e),
    )
