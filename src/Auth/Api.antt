-- ===== src/Auth/Api.antt =====
-- The handlers of internal/auth/auth.go that stand in front of the pages and the interfaces: which
-- calls they make for a request, and whom they let through.
use cc_backend.Common.{
  ◌≡◌, Bool, ◌&&◌, Option, none, some, List, [], ◌∷◌, leb, ◌==◌, length, ◌⊎◌, if◌then◌else◌,
}
use cc_backend.Common.{Result, ok, err}
use cc_backend.Bytes.{Bytes, key_eq}
use cc_backend.Maps.{IsIn}
use cc_backend.Auth.{
  User, Schema, Request, AuthError, no_user, unknown_ip, unauthorized, please_login, Call, serve,
  refuse, http_error, auth_via_session,
}
use cc_backend.Auth.Token.{Tokens, DbError, auth_via_jwt}

-- What the handlers take from elsewhere: the libraries, the table of users, the host that
-- net.SplitHostPort finds, and the settings.
pub record Server : Type 1 where
  pub schema : Schema
  pub tokens : Tokens
  pub get_user : Bytes → Result DbError (Option User)
  pub split_host_port : Bytes → Option Bytes
  pub validate_user : Bool
  pub api_allowed_ips : List Bytes

unfoldable pub or_if_empty : Bytes → Bytes → Bytes
or_if_empty [] ys = ys
or_if_empty (x ∷ xs) ys = x ∷ xs

abbrev pub wildcard : Bytes
wildcard = b'*' ∷ []

-- The calls for a user by the number of roles: behind the failed test of one role or of several the
-- code runs into the call at the end, and so it does behind the call of the last case.
unfoldable pub by_roles : User → Bool → Bool → List Call
by_roles user one several =
    if length user.roles == 1
    then (if one then serve user ∷ [] else refuse unauthorized ∷ [])
    else if leb 2 (length user.roles)
    then (if several then serve user ∷ [] else refuse unauthorized ∷ [])
    else refuse unauthorized ∷ refuse unauthorized ∷ []

unfoldable pub via_jwt : Server → Request → Result AuthError (Option User)
via_jwt srv r = auth_via_jwt srv.tokens srv.schema.is_valid_role srv.validate_user srv.get_user r

unfoldable pub client_address : Server → Request → Bytes
client_address srv r =
    let address = or_if_empty (or_if_empty r.x_real_ip r.x_forwarded_for) r.remote_addr in
    elim (srv.split_host_port address) [ none ↦ address | some host ↦ host ]

-- securedCheck; `none` is nil
unfoldable pub secured_check : Server → Option User → Request → Option AuthError
secured_check srv none r = some no_user
secured_check srv (some user) r = elim srv.api_allowed_ips [
  | [] ↦ none
  | ip ∷ ips ↦
      if key_eq ip wildcard
      then none
      else if srv.schema.contains (ip ∷ ips) (client_address srv r)
      then none
      else some unknown_ip
]

unfoldable pub auth_api : Server → Request → List Call
auth_api srv r = elim (via_jwt srv r) [
  | err problem ↦ refuse problem ∷ []
  | ok user ↦ elim (secured_check srv user r) [
    | some problem ↦ refuse problem ∷ []
    | none ↦ elim user [
      | none ↦ refuse unauthorized ∷ []
      | some u ↦
          by_roles u (srv.schema.has_role u srv.schema.role_api)
            (srv.schema.has_all_roles u (srv.schema.role_admin ∷ srv.schema.role_api ∷ []))
    ]
  ]
]

-- AuthUserAPI and AuthMetricStoreAPI, which differ in the roles that they ask for beside the role api.
unfoldable pub auth_with : (srv : Server) → List (srv.schema.Role) → Request → List Call
auth_with srv others r = elim (via_jwt srv r) [
  | err problem ↦ refuse problem ∷ []
  | ok none ↦ refuse unauthorized ∷ []
  | ok (some u) ↦
      by_roles u (srv.schema.has_role u srv.schema.role_api)
        (srv.schema.has_role u srv.schema.role_api && srv.schema.has_any_role u others)
]

unfoldable pub auth_user_api : Server → Request → List Call
auth_user_api srv r =
    let sc = srv.schema in
    auth_with srv (sc.role_user ∷ sc.role_manager ∷ sc.role_support ∷ sc.role_admin ∷ []) r

unfoldable pub auth_metric_store_api : Server → Request → List Call
auth_metric_store_api srv r =
    let sc = srv.schema in auth_with srv (sc.role_user ∷ sc.role_manager ∷ sc.role_admin ∷ []) r

unfoldable pub auth_config_api : Server → Request → List Call
auth_config_api srv r = elim ((auth_via_session srv.schema r).1) [
  | err problem ↦ refuse problem ∷ []
  | ok none ↦ refuse unauthorized ∷ []
  | ok (some u) ↦
      if srv.schema.has_role u srv.schema.role_admin then serve u ∷ [] else refuse unauthorized ∷ []
]

unfoldable pub auth_frontend_api : Server → Request → List Call
auth_frontend_api srv r = elim ((auth_via_session srv.schema r).1) [
  | err problem ↦ refuse problem ∷ []
  | ok none ↦ refuse unauthorized ∷ []
  | ok (some u) ↦ serve u ∷ []
]

-- Auth: a token, or else a session
unfoldable pub auth : Server → Request → List Call
auth srv r = elim (via_jwt srv r) [
  | err problem ↦ http_error problem ∷ []
  | ok (some u) ↦ serve u ∷ []
  | ok none ↦ elim ((auth_via_session srv.schema r).1) [
    | err problem ↦ http_error problem ∷ []
    | ok (some u) ↦ serve u ∷ []
    | ok none ↦ refuse please_login ∷ []
  ]
]

-- The list of addresses is empty, starts with the wildcard, or has the address of the request.
unfoldable pub IsAllowed : Server → Request → Type 0
IsAllowed srv r =
    (srv.api_allowed_ips ≡ [])
    ⊎ ((ips : List Bytes) × (srv.api_allowed_ips ≡ wildcard ∷ ips))
    ⊎ IsIn (client_address srv r) srv.api_allowed_ips
