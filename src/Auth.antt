-- ===== src/Auth.antt =====
-- internal/auth/auth.go: what a request and a session hold, the calls that a handler makes, and the
-- sessions (AuthViaSession, SaveSession, Logout). The users, roles and sources of the package
-- cc-lib and the store of sessions are parameters.
pub mod Token
pub mod Api
pub mod Grants
pub mod Jobs
pub mod Access
pub mod Login
pub mod Limits
pub mod Ldap
mod Tests
use cc_backend.Common.{
  ℕ, zero, suc, ◌+◌, ◌-◌, ◌*◌, ◌/◌, ◌%◌, ◌^◌, ◌≤◌, ◌<◌, ℤ, pos, negsuc, sub_ℕ, pos_part, neg_part,
  ltb_ℤ, leb_ℤ, ◌≤ℤ◌, ◌<ℤ◌, ◌+ℤ◌, ◌-ℤ◌, ◌≡◌, refl, sym, ap, ◌∙◌, Bool, true, false, not, ◌&&◌, ◌||◌,
  Option, none, some, List, [], ◌∷◌, ◌++◌, map, append-nil, append_assoc, ltb, leb, ◌==◌, length,
  get_elem?, ◌⊎◌, inl, inr, ◌↔◌, ◌≢◌, get_or, set, replicate, take, drop, if◌then◌else◌, arith,
  int_laws, Bool-cases, Option-cases, length-append, length-replicate, length-set, All, All-append,
  le→leb, gt→leb, lt→ltb, ge→ltb, ltb→lt, leb→le, ==_iff,
}
use cc_backend.Common.{Result, ok, err, ◌>>=◌, or_error, bind-eq-ok, guard-eq-ok, Result-cases}
use cc_backend.Bytes.{Bytes, key_eq, key_eq_iff, key_eq_refl}
use cc_backend.Maps.{
  Map, find_key, set_key, IsIn, IsIn-append, IsIn-last, All-map, AllKeys, find_key-All, set_key-All,
}

pub data AuthType : Type 0 where
  auth_session auth_token : AuthType

-- The fields of schema.User that the code uses.
pub record User : Type 0 where
  pub username : Bytes
  pub name : Bytes
  pub password : Bytes
  pub roles : List Bytes
  pub projects : List Bytes
  pub auth_type : AuthType
  pub auth_source : ℤ

-- schema.Role and its functions, the zero value of the type AuthType, the sources of users, and
-- util.Contains.
pub record Schema : Type 1 where
  pub Role : Type 0
  pub role_name : Role → Bytes
  pub auth_type_zero : AuthType
  pub role_api : Role
  pub role_admin : Role
  pub role_manager : Role
  pub role_support : Role
  pub role_user : Role
  pub is_valid_role : Bytes → Bool
  pub has_role : User → Role → Bool
  pub has_any_role : User → List Role → Bool
  pub has_all_roles : User → List Role → Bool
  pub contains : List Bytes → Bytes → Bool
  pub via_local_password : ℤ
  pub via_ldap : ℤ
  pub via_token : ℤ
  pub has_role_iff : (u : User) (r : Role) → (has_role u r ≡ true) ↔ IsIn (role_name r) u.roles
  pub has_any_nil : (u : User) → has_any_role u [] ≡ false
  pub has_any_cons :
      (u : User) (r : Role) (rs : List Role)
      → has_any_role u (r ∷ rs) ≡ (has_role u r || has_any_role u rs)
  pub has_all_nil : (u : User) → has_all_roles u [] ≡ true
  pub has_all_cons :
      (u : User) (r : Role) (rs : List Role)
      → has_all_roles u (r ∷ rs) ≡ (has_role u r && has_all_roles u rs)
  pub contains_iff : (xs : List Bytes) (x : Bytes) → (contains xs x ≡ true) ↔ IsIn x xs

-- A value of a session is `none` where the key is missing or of another type.
pub record Session : Type 0 where
  pub is_new : Bool
  pub max_age : ℤ
  pub secure : Bool
  pub same_site_lax : Bool
  pub http_only : Bool
  pub username : Option Bytes
  pub projects : Option (List Bytes)
  pub roles : Option (List Bytes)
  pub auth_source : Option ℤ

-- The headers that the code reads, "" where one is missing, and what sessionStore.Get yields.
pub record Request : Type 0 where
  pub x_auth_token : Bytes
  pub authorization : Bytes
  pub x_real_ip : Bytes
  pub x_forwarded_for : Bytes
  pub x_forwarded_proto : Bytes
  pub tls : Bool
  pub remote_addr : Bytes
  pub session : Option Session

pub data AuthError : Type 0 where
  session_store_failed invalid_session no_user unknown_ip : AuthError
  missing_subject database_failed unknown_user bad_token token_not_valid : AuthError
  unauthorized please_login no_role too_many_attempts login_failed no_authenticator : AuthError

-- The calls of a handler: onsuccess.ServeHTTP, onfailure, and http.Error with the status 401.
pub data Call : Type 0 where
  serve : User → Call
  refuse : AuthError → Call
  http_error : AuthError → Call

unfoldable pub is_blank : {A : Type 0} → List A → Bool
is_blank [] = true
is_blank (x ∷ xs) = false

-- session.Options.MaxAge = -1
unfoldable pub invalidated : Session → Session
invalidated s = record s { max_age = negsuc 0 }

-- AuthViaSession: the session that it saves, if any, and its result.
unfoldable pub auth_via_session : Schema → Request → Option Session × Result AuthError (Option User)
auth_via_session sc r = elim r.session [
  | none ↦ (none, err session_store_failed)
  | some s ↦
      let username = get_option s.username in
      let roles = get_option s.roles in
      if s.is_new
      then (none, ok none)
      else if is_blank username
      then (some (invalidated s), err invalid_session)
      else if is_blank roles
      then (some (invalidated s), err invalid_session)
      else (
        none,
        ok (
            some (record {
              username = username;
              name = [];
              password = [];
              roles = roles;
              projects = get_option s.projects;
              auth_type = auth_session;
              auth_source = elim s.auth_source [ none ↦ sc.via_local_password | some n ↦ n ];
            })),
      )
]
  where
    get_option : {A : Type 0} → Option (List A) → List A
    get_option none = []
    get_option (some xs) = xs

abbrev https : Bytes
https = b'h' ∷ b't' ∷ b't' ∷ b'p' ∷ b's' ∷ []

-- The session that SaveSession makes of a new one; `max_age` is the configured age in whole seconds,
-- `none` where it is 0.
unfoldable pub signed : Option ℤ → Request → User → Session → Session
signed max_age r u fresh =
    let plain = not r.tls && not (key_eq r.x_forwarded_proto https) in
    record fresh {
      max_age = elim max_age [ none ↦ fresh.max_age | some n ↦ n ];
      secure = if plain then false else fresh.secure;
      same_site_lax = true;
      http_only = true;
      username = some u.username;
      projects = some u.projects;
      roles = some u.roles;
      auth_source = some u.auth_source;
    }

-- SaveSession: the session that is saved; `none` where an error is answered. `fresh` is what
-- sessionStore.New yields, and `can_save` whether Save goes well.
unfoldable pub save_session : Option Session → Bool → Option ℤ → Request → User → Option Session
save_session none can_save max_age r u = none
save_session (some fresh) can_save max_age r u =
    if can_save then some (signed max_age r u fresh) else none

-- What Logout does: the session that it saves, if any, and whether it calls onsuccess.
unfoldable pub logout : Bool → Request → Option Session × Bool
logout can_save r = elim r.session [
  | none ↦ (none, false)
  | some s ↦
      if s.is_new
      then (none, true)
      else if can_save
      then (some (invalidated s), true)
      else (none, false)
]

-- The session that a later request brings: the store hands it back as it was saved.
abbrev pub bring : Session → Request → Request
bring s r = record r { session = some (record s { is_new = false }) }

auth_via_session-signed :
    (sc : Schema) (fresh : Session) (max_age : Option ℤ) (r later : Request) (u : User)
    → (auth_via_session sc (bring (signed max_age r u fresh) later)).1 ≡ (
        if is_blank u.username || is_blank u.roles
        then err invalid_session
        else ok (some (record u { name = []; password = []; auth_type = auth_session })))
unfolding signed auth_via_session
auth_via_session-signed sc fresh max_age r later u = elim (Bool-cases (is_blank u.username)) [
  | inl e ↦ rw e refl
  | inr e ↦ rw e (elim (Bool-cases (is_blank u.roles)) [ inl h ↦ rw h refl | inr h ↦ rw h refl ])
]

-- A request with a session that a login saved is one of the user who logged in, without the name
-- and the password; a user without a name or without roles is refused.
pub auth_via_session-save_session :
    (sc : Schema) (fresh : Option Session) (can_save : Bool) (max_age : Option ℤ)
    (r later : Request) (u : User) {s : Session}
    → save_session fresh can_save max_age r u ≡ some s
    → (auth_via_session sc (bring s later)).1 ≡ (
        if is_blank u.username || is_blank u.roles
        then err invalid_session
        else ok (some (record u { name = []; password = []; auth_type = auth_session })))
unfolding save_session
auth_via_session-save_session sc none can_save max_age r later u e = cc
auth_via_session-save_session sc (some fresh) false max_age r later u e = cc
auth_via_session-save_session sc (some fresh) true max_age r later u {s} e =
    let same : signed max_age r u fresh ≡ s = cc in
    rw (sym same) (auth_via_session-signed sc fresh max_age r later u)
