-- ===== src/Auth/Lockout.antt =====
-- The brute-force protection of server/internal/auth/lockout.go. Durations are in nanoseconds; an
-- e-mail address or an IP address is a number that is only compared, and `none` the empty IP
-- address.
pub mod Limits
use aul_private_location.Base.{
  ℕ, ◌+◌, ◌*◌, ◌-◌, ◌%◌, ◌^◌, Bool, true, false, ◌&&◌, ◌||◌, Option, none, some, ◌==◌, ltb, leb,
  if◌then◌else◌,
}
use aul_private_location.Store.{
  DbError, Outcome, ok, err, World, Act, pure, ◌>>=◌, ◌>>◌, ignore, run_query,
}
use aul_private_location.Store.LoginAttempts.{
  count_recent_failures_by_email, count_recent_failures_by_ip, record_login_attempt,
}

pub record LockoutPolicy : Type 0 where
  pub window : ℕ
  pub email_threshold : ℕ
  pub ip_threshold : ℕ
  pub base_backoff : ℕ
  pub max_backoff : ℕ

abbrev second_ns : ℕ
second_ns = 1000000000

-- `DefaultLockout`
abbrev pub default_lockout : LockoutPolicy
default_lockout = record {
  window = 900 * second_ns;
  email_threshold = 5;
  ip_threshold = 50;
  base_backoff = 30 * second_ns;
  max_backoff = 900 * second_ns;
}

-- int64: the shift keeps the low 64 bits, and the upper half is negative.
abbrev pub int64_half : ℕ
int64_half = 9223372036854775808

abbrev pub int64_mod : ℕ
int64_mod = 18446744073709551616

abbrev pub shifted : ℕ → ℕ → ℕ
shifted base n = (base * 2 ^ n) % int64_mod

abbrev capped : ℕ → ℕ → ℕ
capped max d = if ltb max d || leb int64_half d || d == 0 then max else d

unfoldable pub backoff : LockoutPolicy → ℕ → ℕ
backoff p over =
    let n = if ltb over 1 then 1 else over in
    if ltb 20 n then p.max_backoff else capped p.max_backoff (shifted p.base_backoff (n - 1))

-- `LockStatus`, with the reason as the one of the two counts that locked.
pub data LockStatus : Type 0 where
  unlocked : LockStatus
  locked_account locked_network : ℕ → LockStatus

unfoldable pub check_network : LockoutPolicy → ℕ → Option ℕ → Act DbError LockStatus
check_network p now none = pure unlocked
check_network p now (some ip) = do
  fails ← run_query (count_recent_failures_by_ip now ip p.window)
  pure (
      if leb p.ip_threshold fails
      then locked_network (backoff p (fails - p.ip_threshold + 1))
      else unlocked)

-- `checkLockout`; the second count is read only where the first does not lock.
unfoldable pub check_lockout : LockoutPolicy → ℕ → ℕ → Option ℕ → Act DbError LockStatus
check_lockout p now email ip = do
  fails ← run_query (count_recent_failures_by_email now email p.window)
  if leb p.email_threshold fails
      then pure (locked_account (backoff p (fails - p.email_threshold + 1)))
      else check_network p now ip

-- `recordAttempt`: the IP address is kept only where the server stores it.
unfoldable pub record_attempt : {E : Type 0} → Bool → ℕ → ℕ → Option ℕ → Bool → Act E (Unit {0})
record_attempt store_ip now email ip success =
    ignore
      (run_query (record_login_attempt now (some email) (if store_ip then ip else none) success))
