-- ===== src/Auth/Tests.antt =====
-- Users, tokens and sessions as the code of internal/auth sees them, and the jobs they can find.
use cc_backend.Common.{
  ℕ, zero, suc, pos, negsuc, Option, ◌≡◌, refl, sym, ◌∙◌, Bool, true, false, ◌&&◌, ◌||◌, none, some,
  List, [], ◌∷◌, map, ◌==◌, length, inl, inr, ◌↔◌, if◌then◌else◌, Bool-cases,
}
use cc_backend.Common.{ok, err}
use cc_backend.Bytes.{Bytes, key_eq, key_eq_iff, key_eq_refl}
use cc_backend.Maps.{
  Map, find_key, set_key, IsIn, IsIn-append, IsIn-last, All-map, AllKeys, find_key-All, set_key-All,
}
use cc_backend.Auth.{
  User, AuthType, auth_session, auth_token, Schema, Session, Request, AuthError, Call, serve,
  refuse, invalid_session, is_blank, save_session, auth_via_session, bring,
  auth_via_session-save_session,
}
use cc_backend.Auth.Token.{Tokens, DbError, auth_via_jwt, IsVouched}
use cc_backend.Auth.Api.{Server, auth_api, auth_user_api, IsAllowed}
use cc_backend.Auth.Jobs.{JobRow, JobQuery, security_check_with_user, MaySee}
use cc_backend.Auth.Access.{auth_api-security_check, auth_user_api-security_check}
use cc_backend.Auth.Login.{Limiters, Authenticator, login}
use cc_backend.Auth.Limits.{LimitEvent, tries}
use cc_backend.Auth.Ldap.{SyncStep, delete, sync, count}
use cc_backend.Auth.Ldap.Steps.{IsAdded, sync_lem}

abbrev api : Bytes
api = b'a' ∷ b'p' ∷ b'i' ∷ []

abbrev plain : Bytes
plain = b'u' ∷ b's' ∷ b'e' ∷ b'r' ∷ []

abbrev x_name : Bytes
x_name = b'x' ∷ []

abbrev in_list : List Bytes → Bytes → Bool
in_list [] x = false
in_list (y ∷ ys) x = key_eq x y || in_list ys x

in_list_iff : (xs : List Bytes) (x : Bytes) → (in_list xs x ≡ true) ↔ IsIn x xs
in_list_iff [] x = (λ h. let never : false ≡ true = h in cc, λ h. elim h [ ])
in_list_iff (y ∷ ys) x = (
  λ h. elim (Bool-cases (key_eq x y)) [
    | inl same ↦ inl ((key_eq_iff x y).0 same)
    | inr other ↦ inr ((in_list_iff ys x).0 (sym (rw other) ∙ h))
  ],
  λ h. elim h [
    | inl same ↦ rw ((key_eq_iff x y).1 same) refl
    | inr there ↦ elim (Bool-cases (key_eq x y)) [
      | inl same ↦ rw same refl
      | inr other ↦ rw other ((in_list_iff ys x).1 there)
    ]
  ],
)

abbrev any_of : User → List Bytes → Bool
any_of u [] = false
any_of u (r ∷ rs) = in_list u.roles r || any_of u rs

abbrev all_of : User → List Bytes → Bool
all_of u [] = true
all_of u (r ∷ rs) = in_list u.roles r && all_of u rs

-- Roles by their names.
abbrev names : Schema
names = record {
  Role = Bytes;
  role_name = λ r. r;
  auth_type_zero = auth_token;
  role_api = api;
  role_admin = b'a' ∷ b'd' ∷ [];
  role_manager = b'm' ∷ [];
  role_support = b's' ∷ [];
  role_user = plain;
  is_valid_role = in_list (api ∷ plain ∷ []);
  has_role = λ u r. in_list u.roles r;
  has_any_role = any_of;
  has_all_roles = all_of;
  contains = in_list;
  via_local_password = pos 0;
  via_ldap = pos 1;
  via_token = pos 2;
  has_role_iff = λ u r. in_list_iff u.roles r;
  has_any_nil = λ u. refl;
  has_any_cons = λ u r rs. refl;
  has_all_nil = λ u. refl;
  has_all_cons = λ u r rs. refl;
  contains_iff = in_list_iff;
}

-- Values that are texts, and a token that stands for the user of its name.
abbrev texts : Tokens
texts = record {
  Value = List Bytes;
  as_string = λ v. elim v [ x ∷ [] ↦ some x | _ ↦ none ];
  as_array = λ v. some (map (λ x. x ∷ []) v);
  as_strings = λ v. none;
  as_object = λ v. none;
  show = λ v. [];
  parse = λ t. some (
    true,
    (b's' ∷ b'u' ∷ b'b' ∷ [], t ∷ [])
        ∷ (
          b'r' ∷ b'o' ∷ b'l' ∷ b'e' ∷ b's' ∷ [],
          (if length t == 1 then api ∷ [] else api ∷ plain ∷ []),
        )
        ∷ [],
  );
}

abbrev server : Server
server = record {
  schema = names;
  tokens = texts;
  get_user = λ u. err DbError.no_rows;
  split_host_port = λ a. none;
  validate_user = false;
  api_allowed_ips = (b'1' ∷ []) ∷ [];
}

abbrev from_token : Bytes → Request
from_token token = record {
  x_auth_token = token;
  authorization = [];
  x_real_ip = [];
  x_forwarded_for = [];
  x_forwarded_proto = [];
  tls = false;
  remote_addr = b'1' ∷ [];
  session = none;
}

abbrev user_of : Bytes → List Bytes → User
user_of name roles = record {
  username = name;
  name = [];
  password = [];
  roles = roles;
  projects = [];
  auth_type = auth_token;
  auth_source = negsuc 0;
}

-- A token of the role api alone is let through from the address that is allowed.
served_alone :
    auth_api server (from_token (b'x' ∷ [])) ≡ serve (user_of (b'x' ∷ []) (api ∷ [])) ∷ []
unfolding cc_backend.Auth.Api.auth_api cc_backend.Auth.Api.auth_user_api
    cc_backend.Auth.Api.auth_with cc_backend.Auth.Api.via_jwt cc_backend.Auth.Api.secured_check
    cc_backend.Auth.Api.client_address cc_backend.Auth.Api.or_if_empty cc_backend.Auth.Api.by_roles
    cc_backend.Auth.Token.auth_via_jwt cc_backend.Auth.Token.raw_token
    cc_backend.Auth.Token.user_of_claims cc_backend.Auth.Token.get_user_from_jwt
    cc_backend.Auth.Token.extract_string_from_claims cc_backend.Auth.Token.extract_roles_from_claims
    cc_backend.Auth.Token.keep_strings cc_backend.Auth.Token.claim
    cc_backend.Auth.Token.extract_name_from_claims
    cc_backend.Auth.Token.extract_projects_from_claims cc_backend.Auth.is_blank
    cc_backend.Maps.find_key cc_backend.Bytes.key_eq
served_alone = refl

auth_api-security_check_example :
    IsVouched texts false server.get_user (from_token (b'x' ∷ [])) (user_of (b'x' ∷ []) (api ∷ []))
    × IsAllowed server (from_token (b'x' ∷ []))
    × (security_check_with_user names (some (user_of (b'x' ∷ []) (api ∷ []))) (λ job. true)
        ≡ ok (λ job. true))
auth_api-security_check_example =
    auth_api-security_check server (from_token (b'x' ∷ [])) (user_of (b'x' ∷ []) (api ∷ []))
      (λ job. true) (rw served_alone (inl refl))

served_user :
    auth_user_api server (from_token (b'x' ∷ b'y' ∷ []))
    ≡ serve (user_of (b'x' ∷ b'y' ∷ []) (api ∷ plain ∷ [])) ∷ []
unfolding cc_backend.Auth.Api.auth_api cc_backend.Auth.Api.auth_user_api
    cc_backend.Auth.Api.auth_with cc_backend.Auth.Api.via_jwt cc_backend.Auth.Api.secured_check
    cc_backend.Auth.Api.client_address cc_backend.Auth.Api.or_if_empty cc_backend.Auth.Api.by_roles
    cc_backend.Auth.Token.auth_via_jwt cc_backend.Auth.Token.raw_token
    cc_backend.Auth.Token.user_of_claims cc_backend.Auth.Token.get_user_from_jwt
    cc_backend.Auth.Token.extract_string_from_claims cc_backend.Auth.Token.extract_roles_from_claims
    cc_backend.Auth.Token.keep_strings cc_backend.Auth.Token.claim
    cc_backend.Auth.Token.extract_name_from_claims
    cc_backend.Auth.Token.extract_projects_from_claims cc_backend.Auth.is_blank
    cc_backend.Maps.find_key cc_backend.Bytes.key_eq
served_user = refl

auth_user_api-security_check_example :
    IsVouched texts false server.get_user
      (from_token (b'x' ∷ b'y' ∷ []))
      (user_of (b'x' ∷ b'y' ∷ []) (api ∷ plain ∷ []))
    × ((found : JobQuery) × (security_check_with_user names
            (some (user_of (b'x' ∷ b'y' ∷ []) (api ∷ plain ∷ [])))
            (λ job. true)
          ≡ ok found)
        × ((job : JobRow)
            → (found job ≡ true)
              ↔ ((true ≡ true) × MaySee names (user_of (b'x' ∷ b'y' ∷ []) (api ∷ plain ∷ [])) job)))
auth_user_api-security_check_example =
    auth_user_api-security_check server (from_token (b'x' ∷ b'y' ∷ []))
      (user_of (b'x' ∷ b'y' ∷ []) (api ∷ plain ∷ [])) (λ job. true) (rw served_user (inl refl))

abbrev fresh : Session
fresh = record {
  is_new = true;
  max_age = pos 0;
  secure = true;
  same_site_lax = false;
  http_only = false;
  username = none;
  projects = none;
  roles = none;
  auth_source = none;
}

abbrev saved : Session
saved = record {
  is_new = true;
  max_age = pos 9;
  secure = false;
  same_site_lax = true;
  http_only = true;
  username = some (b'x' ∷ []);
  projects = some [];
  roles = some (api ∷ []);
  auth_source = some (negsuc 0);
}

saves :
    save_session (some fresh) true (some (pos 9)) (from_token []) (user_of (b'x' ∷ []) (api ∷ []))
    ≡ some saved
unfolding save_session cc_backend.Auth.signed cc_backend.Bytes.key_eq
saves = refl

auth_via_session-save_session_example : (auth_via_session names (bring saved (from_token []))).1 ≡ (
    if is_blank x_name || is_blank {A = Bytes} (api ∷ [])
    then err invalid_session
    else ok (some (record (user_of (b'x' ∷ []) (api ∷ [])) { auth_type = auth_session })))
auth_via_session-save_session_example =
    auth_via_session-save_session names (some fresh) true (some (pos 9)) (from_token [])
      (from_token []) (user_of (b'x' ∷ []) (api ∷ [])) saves

abbrev place : Bytes
place = b'/' ∷ b'a' ∷ []

-- A limiter that counts down from two.
abbrev twice : Limiters
twice = record {
  Limiter = ℕ;
  new_limiter = 2;
  allow = λ now n. elim n [ zero ↦ (zero, false) | suc k ↦ (k, true) ];
}

-- Everyone who is in the table can log in.
abbrev anyone : Authenticator
anyone = record {
  can_login = λ u r. elim u [ none ↦ (none, false) | some v ↦ (some v, true) ];
  login = λ u r. u;
}

abbrev no_one : Authenticator
no_one = record { can_login = λ u r. (none, false); login = λ u r. none }

-- The host of a text that begins with "//", and no host else.
abbrev parse_url : Bytes → Option (Bytes × Bytes)
parse_url (c ∷ d ∷ rest) = if c == b'/' && d == b'/' then some ([], rest) else some ([], [])
parse_url _ = some ([], [])

-- The same name from two addresses: each has its own limiter.
abbrev tried : List LimitEvent
tried =
    tries (pos 1) (b'1' ∷ []) (b'x' ∷ [])
    ∷ tries (pos 2) (b'2' ∷ []) (b'x' ∷ [])
    ∷ tries (pos 3) (b'1' ∷ []) (b'x' ∷ [])
    ∷ []

-- The new user u stands twice in the directory.
abbrev entries : List (Bytes × Bytes)
entries = (b'u' ∷ [], []) ∷ (b'u' ∷ [], []) ∷ []

synced : sync names true ((b'o' ∷ []) ∷ []) entries ≡ ok (delete (b'o' ∷ []) ∷ [])
unfolding sync cc_backend.Auth.Ldap.mark_db cc_backend.Auth.Ldap.mark_ldap
    cc_backend.Auth.Ldap.sync_steps cc_backend.Maps.find_key cc_backend.Maps.set_key
    cc_backend.Bytes.key_eq
synced = refl

sync_example :
    (IsIn (delete (b'u' ∷ [])) (delete (b'o' ∷ []) ∷ []) ↔ (
      (true ≡ true)
      × IsIn {A = Bytes} (b'u' ∷ []) ((b'o' ∷ []) ∷ [])
      × (count (b'u' ∷ []) entries ≡ 0)))
    × (IsAdded (b'u' ∷ []) (delete (b'o' ∷ []) ∷ [])
        ↔ ((IsIn {A = Bytes} (b'u' ∷ []) ((b'o' ∷ []) ∷ []) → ⊥) × (count (b'u' ∷ []) entries ≡ 1)))
sync_example = sync_lem names true ((b'o' ∷ []) ∷ []) entries synced (b'u' ∷ [])
