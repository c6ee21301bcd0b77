-- ===== src/Store/LoginAttempts.antt =====
-- The login-attempt queries of server/internal/store/sqlite_queries.go (misc.sql). An e-mail
-- address or an IP address is a number that is only compared; the column is null where it is
-- `none`.
use aul_private_location.Base.{
  ℕ, ◌*◌, ◌-◌, Bool, not, ◌&&◌, Option, List, [], ◌∷◌, ◌++◌, ltb, if◌then◌else◌, delete, count_rows,
}
use aul_private_location.Store.Schema.{LoginAttempt, tv}
use aul_private_location.Store.{ok, Query}
use aul_private_location.Store.Sessions.{column_is}

-- `COALESCE(max(created_at), epoch)` over the successful attempts.
unfoldable pub last_success : ℕ → List LoginAttempt → ℕ
last_success email [] = 0
last_success email (a ∷ rows) =
    let rest = last_success email rows in
    if column_is email a.email && a.success && ltb rest a.created_at then a.created_at else rest

abbrev pub failed_for : ℕ → ℕ → ℕ → LoginAttempt → Bool
failed_for email cutoff since a =
    column_is email a.email && not a.success && ltb cutoff a.created_at && ltb since a.created_at

-- `window` is in nanoseconds.
unfoldable pub count_recent_failures_by_email : ℕ → ℕ → ℕ → Query ℕ
count_recent_failures_by_email now email window db = (
  ok (
      count_rows (failed_for email (tv (now - window)) (last_success email db.login_attempts))
        db.login_attempts),
  db,
)

unfoldable pub count_recent_failures_by_ip : ℕ → ℕ → ℕ → Query ℕ
count_recent_failures_by_ip now ip window db = (
  ok (
      count_rows (λ a. column_is ip a.ip && not a.success && ltb (tv (now - window)) a.created_at)
        db.login_attempts),
  db,
)

unfoldable pub record_login_attempt : ℕ → Option ℕ → Option ℕ → Bool → Query (Unit {0})
record_login_attempt now email ip success db = (
  ok tt,
  record db {
    login_attempts =
        db.login_attempts
        ++ record { email = email; ip = ip; success = success; created_at = tv now } ∷ [];
  },
)

abbrev day_ns : ℕ
day_ns = 86400000000000

unfoldable pub prune_login_attempts : ℕ → ℕ → Query (Unit {0})
prune_login_attempts now keep_days db = (
  ok tt,
  record db {
    login_attempts =
        delete (λ a. ltb a.created_at (tv (now - keep_days * day_ns))) db.login_attempts;
  },
)
