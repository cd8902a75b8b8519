-- ===== src/Auth/Login.antt =====
-- Login of internal/auth/auth.go with its limiters of attempts: which authenticator decides, where a
-- login is redirected to, and what other attempts change in the limiter of an address and a name.
use cc_backend.Common.{
  ℤ, ltb_ℤ, ◌≡◌, Bool, true, false, ◌&&◌, Option, none, some, List, [], ◌∷◌, ◌++◌, ◌⊎◌,
  if◌then◌else◌,
}
use cc_backend.Bytes.{Bytes}
use cc_backend.Maps.{Map, find_key, set_key}
use cc_backend.Auth.{
  User, Session, Request, AuthError, too_many_attempts, login_failed, no_authenticator, is_blank,
}

-- rateLimiterEntry
pub record LimiterEntry (L : Type 0) : Type 0 where
  pub limiter : L
  pub last_used : ℤ

-- golang.org/x/time/rate: a limiter of five attempts in 15 minutes, and Allow at a time.
pub record Limiters : Type 1 where
  pub Limiter : Type 0
  pub new_limiter : Limiter
  pub allow : ℤ → Limiter → Limiter × Bool

-- The interface Authenticator: CanLogin, and Login, which takes what CanLogin returns.
pub record Authenticator : Type 0 where
  pub can_login : Option User → Request → Option User × Bool
  pub login : Option User → Request → Option User

-- What Login answers: onfailure, an error of SaveSession, or a redirect with a session saved.
pub data Answer : Type 0 where
  failed : AuthError → Answer
  not_saved : Answer
  redirected : User → Session → Bytes → Answer

unfoldable pub limiter_key : Bytes → Bytes → Bytes
limiter_key ip username = ip ++ b':' ∷ username

module _ (ls : Limiters) where
  open ls use {Limiter, new_limiter, allow}

  -- getIPUserLimiter, and the use of the limiter that it returns
  unfoldable pub entry_limiter : Option (LimiterEntry Limiter) → Limiter
  entry_limiter none = new_limiter
  entry_limiter (some entry) = entry.limiter

  unfoldable pub limiter_of : Bytes → Map (LimiterEntry Limiter) → Limiter
  limiter_of key m = entry_limiter (find_key key m)

  unfoldable pub attempt :
      ℤ → Bytes → Bytes → Map (LimiterEntry Limiter) → Map (LimiterEntry Limiter) × Bool
  attempt now ip username m =
      let key = limiter_key ip username in
      let (next, allowed) = allow now (limiter_of key m) in
      (set_key key (record { limiter = next; last_used = now }) m, allowed)

  unfoldable pub cleanup_old_rate_limiters :
      ℤ → Map (LimiterEntry Limiter) → Map (LimiterEntry Limiter)
  cleanup_old_rate_limiters older_than [] = []
  cleanup_old_rate_limiters older_than ((key, entry) ∷ m) =
      let rest = cleanup_old_rate_limiters older_than m in
      if ltb_ℤ entry.last_used older_than then rest else (key, entry) ∷ rest

-- The test of the text that a login asks to be redirected to. `parse_url` is url.Parse, with the
-- scheme and the host of what it yields.
unfoldable pub is_relative : (Bytes → Option (Bytes × Bytes)) → Bytes → Bool
is_relative parse_url redirect = elim (parse_url redirect) [
  | none ↦ false
  | some (scheme, host) ↦ is_blank scheme && is_blank host
]

-- Where a login is redirected to.
unfoldable pub redirect_to : (Bytes → Option (Bytes × Bytes)) → Bytes → Bytes
redirect_to parse_url redirect =
    if is_blank redirect
    then b'/' ∷ []
    else if is_relative parse_url redirect
    then redirect
    else b'/' ∷ []

-- The loop over the authenticators, with SaveSession as `save`.
unfoldable pub try_all :
    (User → Option Session)
    → (Bytes → Option (Bytes × Bytes))
    → Bytes
    → Option User
    → Request
    → List Authenticator
    → Answer
try_all save parse_url redirect db_user r [] = failed no_authenticator
try_all save parse_url redirect db_user r (a ∷ rest) =
    let others = try_all save parse_url redirect db_user r rest in
    let (user, can) = a.can_login db_user r in
    if can
    then (elim (a.login user r) [
      | none ↦ failed login_failed
      | some u ↦ elim (save u) [
        | none ↦ not_saved
        | some s ↦ redirected u s (redirect_to parse_url redirect)
      ]
    ])
    else others

-- Login: the limiters and the answer. `db_user` is the user that GetUser yields, if any.
unfoldable pub login :
    (ls : Limiters)
    → (User → Option Session)
    → (Bytes → Option (Bytes × Bytes))
    → List Authenticator
    → ℤ
    → Bytes
    → Bytes
    → Bytes
    → (Bytes → Option User)
    → Request
    → Map (LimiterEntry ls.Limiter)
    → Map (LimiterEntry ls.Limiter) × Answer
login ls save parse_url authenticators now ip username redirect get_user r m =
    let (after, allowed) = attempt ls now ip username m in
    let db_user = if is_blank username then none else get_user username in
    if allowed
    then (after, try_all save parse_url redirect db_user r authenticators)
    else (after, failed too_many_attempts)

-- None of these can log in, the next one can and logs the user in.
unfoldable pub IsDecided : List Authenticator → Option User → Request → User → Type 0
IsDecided [] db_user r u = ⊥
IsDecided (a ∷ rest) db_user r u =
    let (user, can) = a.can_login db_user r in
    ((can ≡ true) × (a.login user r ≡ some u)) ⊎ ((can ≡ false) × IsDecided rest db_user r u)
