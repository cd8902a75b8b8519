-- ===== src/Auth/Limits.antt =====
-- The limiters of internal/auth/auth.go over any sequence of attempts and cleanups: those of an
-- address and a name go as if no others were there.
use cc_backend.Common.{
  ℤ, ltb_ℤ, ◌≢◌, Bool, ◌&&◌, All, Option, none, some, List, [], ◌∷◌, if◌then◌else◌,
}
use cc_backend.Bytes.{Bytes, key_eq}
use cc_backend.Maps.{Map}
use cc_backend.Auth.Login.{
  LimiterEntry, Limiters, entry_limiter, attempt, cleanup_old_rate_limiters,
}

-- An attempt at a time from an address with a name, or a cleanup of what was last used before.
pub data LimitEvent : Type 0 where
  tries : ℤ → Bytes → Bytes → LimitEvent
  cleans : ℤ → LimitEvent

-- A text without a colon, as an IPv4 address is.
abbrev pub IsPlain : Bytes → Type 0
IsPlain s = All (λ c. c ≢ b':') s

abbrev pub IsFromPlain : LimitEvent → Type 0
IsFromPlain (tries now ip username) = IsPlain ip
IsFromPlain (cleans older_than) = Unit {0}

module _ (ls : Limiters) where
  open ls use {Limiter, new_limiter, allow}

  -- The verdicts on the attempts from an address with a name, in a run from a map of limiters.
  unfoldable pub verdicts : Bytes → Bytes → List LimitEvent → Map (LimiterEntry Limiter) → List Bool
  verdicts ip username [] m = []
  verdicts ip username (tries now ip' username' ∷ events) m =
      let (after, allowed) = attempt ls now ip' username' m in
      let rest = verdicts ip username events after in
      if key_eq ip' ip && key_eq username' username then allowed ∷ rest else rest
  verdicts ip username (cleans older_than ∷ events) m =
      verdicts ip username events (cleanup_old_rate_limiters ls older_than m)

  unfoldable pub kept_entry : ℤ → Option (LimiterEntry Limiter) → Option (LimiterEntry Limiter)
  kept_entry older_than none = none
  kept_entry older_than (some entry) = if ltb_ℤ entry.last_used older_than then none else some entry

  -- What one limiter would decide that only sees the attempts from this address with this name.
  unfoldable pub alone : Bytes → Bytes → List LimitEvent → Option (LimiterEntry Limiter) → List Bool
  alone ip username [] o = []
  alone ip username (tries now ip' username' ∷ events) o =
      let (next, allowed) = allow now (entry_limiter ls o) in
      let met = alone ip username events (some (record { limiter = next; last_used = now })) in
      let missed = alone ip username events o in
      if key_eq ip' ip && key_eq username' username then allowed ∷ met else missed
  alone ip username (cleans older_than ∷ events) o =
      alone ip username events (kept_entry older_than o)
