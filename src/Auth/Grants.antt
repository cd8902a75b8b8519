-- ===== src/Auth/Grants.antt =====
-- Whom the handlers AuthAPI, AuthUserAPI and AuthMetricStoreAPI of internal/auth/auth.go let through.
use cc_backend.Common.{and-eq-true}
use cc_backend.Common.{List-cases}
use cc_backend.Common.{
  ◌≤◌, ◌≡◌, refl, sym, ap, ◌∙◌, Bool, true, ◌&&◌, Option, none, some, List, [], ◌∷◌, leb, ◌==◌,
  length, ◌⊎◌, inl, inr, arith, Bool-cases, Option-cases, leb→le, ==_iff,
}
use cc_backend.Common.{ok, Result-cases}
use cc_backend.Bytes.{key_eq, key_eq_iff}
use cc_backend.Maps.{IsIn}
use cc_backend.Auth.{
  User, Schema, Request, AuthError, unknown_ip, unauthorized, Call, serve, refuse,
}
use cc_backend.Auth.Api.{
  Server, wildcard, by_roles, via_jwt, client_address, secured_check, auth_api, auth_with,
  IsAllowed,
}

secured_check-IsAllowed :
    (srv : Server) (user : Option User) (r : Request)
    → secured_check srv user r ≡ none
    → IsAllowed srv r
unfolding secured_check IsAllowed client_address
secured_check-IsAllowed srv none r e = cc
secured_check-IsAllowed srv (some user) r e = elim (List-cases srv.api_allowed_ips) [
  | inl open_for_all ↦ inl open_for_all
  | inr (ip, ips, listed) ↦ elim (Bool-cases (key_eq ip wildcard)) [
    | inl all ↦ inr (inl (ips, rw (listed, (key_eq_iff ip wildcard).0 all) refl))
    | inr one ↦ elim (Bool-cases (srv.schema.contains (ip ∷ ips) (client_address srv r))) [
      | inl there ↦
          inr
            (inr (rw listed ((srv.schema.contains_iff (ip ∷ ips) (client_address srv r)).0 there)))
      | inr missing ↦
          (let refused : some unknown_ip ≡ none = sym (rw (listed, one, missing)) ∙ e in cc)
    ]
  ]
]

not_served :
    (p : AuthError) (calls : List Call) {u : User}
    → (IsIn (serve u) calls → ⊥)
    → IsIn (serve u) (refuse p ∷ calls)
    → ⊥
not_served p calls others (inl e) = cc
not_served p calls others (inr there) = others there

refused_once : (p : AuthError) {u : User} → IsIn (serve u) (refuse p ∷ []) → ⊥
refused_once p h = not_served p [] (λ there. there) h

served : (v : User) {u : User} → IsIn (serve u) (serve v ∷ []) → v ≡ u
served v (inl e) = cc
served v (inr there) = elim there [ ]

by_roles-serve :
    (v : User) (one several : Bool) {u : User}
    → IsIn (serve u) (by_roles v one several)
    → (v ≡ u) × ((length v.roles ≡ 1) × (one ≡ true) ⊎ (2 ≤ length v.roles) × (several ≡ true))
unfolding by_roles
by_roles-serve v one several {u} h = elim (Bool-cases (length v.roles == 1)) [
  | inl single ↦ elim (Bool-cases one) [
    | inl granted ↦ (
      served v (rw (single, granted) at h),
      inl (omega (arith, (==_iff (length v.roles) 1).0 single), granted),
    )
    | inr refused ↦ elim (refused_once unauthorized (rw (single, refused) at h)) [ ]
  ]
  | inr other ↦ elim (Bool-cases (leb 2 (length v.roles))) [
    | inl more ↦ elim (Bool-cases several) [
      | inl granted ↦
          (served v (rw (other, more, granted) at h), inr (leb→le 2 (length v.roles) more, granted))
      | inr refused ↦ elim (refused_once unauthorized (rw (other, more, refused) at h)) [ ]
    ]
    | inr less ↦
        elim (not_served unauthorized (refuse unauthorized ∷ [])
          (λ there. refused_once unauthorized there) (rw (other, less) at h)) [ ]
  ]
]

-- The roles that AuthAPI, AuthUserAPI and AuthMetricStoreAPI ask for: the role api, alone or beside
-- another.
unfoldable pub MayCall : (sc : Schema) → Bool → User → Type 0
MayCall sc beside u =
    IsIn (sc.role_name sc.role_api) u.roles
    × ((length u.roles ≡ 1) ⊎ (2 ≤ length u.roles) × (beside ≡ true))

with_roles :
    (srv : Server) (others : List srv.schema.Role) (v : User) {u : User}
    → IsIn (serve u) (
        by_roles v
          (srv.schema.has_role v srv.schema.role_api)
          (srv.schema.has_role v srv.schema.role_api && srv.schema.has_any_role v others))
    → (v ≡ u) × MayCall srv.schema (srv.schema.has_any_role v others) v
unfolding MayCall
with_roles srv others v {u} h =
    let sc = srv.schema in
    let (same, granted) =
      by_roles-serve v (sc.has_role v sc.role_api)
        (sc.has_role v sc.role_api && sc.has_any_role v others) h in
    elim granted [
      | inl (single, api) ↦ (same, ((sc.has_role_iff v sc.role_api).0 api, inl single))
      | inr (more, both) ↦
          (let (api, other) =
              and-eq-true (sc.has_role v sc.role_api) (sc.has_any_role v others) both in
            (same, ((sc.has_role_iff v sc.role_api).0 api, inr (more, other))))
    ]

pub auth_with-MayCall :
    (srv : Server) (others : List srv.schema.Role) (r : Request) {u : User}
    → IsIn (serve u) (auth_with srv others r)
    → (via_jwt srv r ≡ ok (some u)) × MayCall srv.schema (srv.schema.has_any_role u others) u
unfolding auth_with
auth_with-MayCall srv others r {u} h = elim (Result-cases (via_jwt srv r)) [
  | inl (problem, e) ↦ elim (refused_once problem (rw (auth_with, e) at h)) [ ]
  | inr (none, e) ↦ elim (refused_once unauthorized (rw (auth_with, e) at h)) [ ]
  | inr (some v, e) ↦
      (let (same, may) = with_roles srv others v (rw (auth_with, e) at h) in
        (e ∙ ap (λ w. ok (some w)) same, rw same at may))
]

checked :
    (srv : Server) (user : Option User) {u : User}
    → IsIn (serve u) (elim user [
      | none ↦ refuse unauthorized ∷ []
      | some v ↦
          by_roles v
            (srv.schema.has_role v srv.schema.role_api)
            (srv.schema.has_all_roles v (srv.schema.role_admin ∷ srv.schema.role_api ∷ []))
    ])
    → (user ≡ some u) × MayCall srv.schema (srv.schema.has_role u srv.schema.role_admin) u
unfolding MayCall
checked srv none h = elim (refused_once unauthorized h) [ ]
checked srv (some v) {u} h =
    let sc = srv.schema in
    let both : List sc.Role = sc.role_admin ∷ sc.role_api ∷ [] in
    let (same, granted) =
      by_roles-serve v (sc.has_role v sc.role_api) (sc.has_all_roles v both) h in
    let end : MayCall sc (sc.has_role v sc.role_admin) v = (elim granted [
      | inl (single, api) ↦ ((sc.has_role_iff v sc.role_api).0 api, inl single)
      | inr (more, all) ↦
          (let (admin, rest) =
              and-eq-true (sc.has_role v sc.role_admin) (sc.has_all_roles v (sc.role_api ∷ []))
                (sym (sc.has_all_cons v sc.role_admin (sc.role_api ∷ [])) ∙ all) in
            let (api, end) =
              and-eq-true (sc.has_role v sc.role_api) (sc.has_all_roles v [])
                (sym (sc.has_all_cons v sc.role_api []) ∙ rest) in
            ((sc.has_role_iff v sc.role_api).0 api, inr (more, admin)))
    ]) in
    (
      ap some same,
      mathlib.Core.Path.subst (λ w. MayCall sc (sc.has_role w sc.role_admin) w) same end,
    )

pub auth_api-MayCall :
    (srv : Server) (r : Request) {u : User}
    → IsIn (serve u) (auth_api srv r)
    → (via_jwt srv r ≡ ok (some u))
      × IsAllowed srv r
      × MayCall srv.schema (srv.schema.has_role u srv.schema.role_admin) u
unfolding auth_api
auth_api-MayCall srv r {u} h = elim (Result-cases (via_jwt srv r)) [
  | inl (problem, e) ↦ elim (refused_once problem (rw (auth_api, e) at h)) [ ]
  | inr (user, e) ↦ elim (Option-cases (secured_check srv user r)) [
    | inr (problem, e2) ↦ elim (refused_once problem (rw (auth_api, e, e2) at h)) [ ]
    | inl safe ↦
        (let (found, may) = checked srv user (rw (auth_api, e, safe) at h) in
          (e ∙ ap (λ w. ok w) found, secured_check-IsAllowed srv user r safe, may))
  ]
]
