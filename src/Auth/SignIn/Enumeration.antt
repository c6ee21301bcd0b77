-- ===== src/Auth/SignIn/Enumeration.antt =====
-- What a login tells of the accounts that exist.
use aul_private_location.Base.{
  ℕ, ◌+◌, ◌≡◌, Bool, false, Option, none, some, List, [], ◌∷◌, ◌++◌, arith, find_row, ◌⊎◌,
}
use aul_private_location.Store.Schema.{User}
use aul_private_location.Store.{
  err, ok, no_rows, Outcome, World, run_query, send, audit, login_failed,
}
use aul_private_location.Store.Accounts.{get_user_by_email, has_email}
use aul_private_location.Store.LoginAttempts.{
  count_recent_failures_by_email, count_recent_failures_by_ip, record_login_attempt,
}
use aul_private_location.Auth.{Service, AuthError, invalid_credentials}
use aul_private_location.Auth.Lockout.{LockoutPolicy, check_lockout, check_network, record_attempt}
use aul_private_location.Auth.Validation.{Texts, validate_pubkey}
use aul_private_location.Auth.SignIn.{
  Drawn, SignInInput, login_user, check_user, check_password, refuse_login,
}

-- The same world with other accounts.
abbrev pub with_users : List User → World → World
with_users users w = record w { db = record w.db { users = users } }

-- Two runs on servers that differ in their accounts: `x` where the address has no account, `y` where it
-- is that of `u`. They differ at most in one entry of the audit log, which holds the address in the
-- one and the account in the other.
pub record Alike {E A : Type 0} (users : List User) (u : User) (email : ℕ) (ip : Option ℕ)
    (w : World) (x y : Outcome E A × World) : Type 0 where
  pub answer : y.0 ≡ x.0
  pub tables : y.1.db ≡ record x.1.db { users = users }
  pub calls : y.1.calls ≡ x.1.calls
  pub events :
      ((x.1.sent ≡ w.sent) × (y.1.sent ≡ w.sent))
      ⊎ ((x.1.sent ≡ w.sent ++ audit (login_failed none ip (some email)) ∷ [])
          × (y.1.sent ≡ w.sent ++ audit (login_failed (some u.id) ip none) ∷ []))

module _ (users : List User) where
  lockout-alike :
      (policy : LockoutPolicy) (now email : ℕ) (ip : Option ℕ) (w : World)
      → let (answer, after) = check_lockout policy now email ip w in
        (check_lockout policy now email ip (with_users users w) ≡ (answer, with_users users after))
        × (after.db ≡ w.db)
        × (after.sent ≡ w.sent)
  unfolding check_lockout check_network run_query count_recent_failures_by_email
      count_recent_failures_by_ip
  lockout-alike policy now email none w = (ground arith, ground arith, ground arith)
  lockout-alike policy now email (some ip) w = (ground arith, ground arith, ground arith)

  -- A login to an address without an account and one with a wrong password are refused alike.
  check_user-alike :
      (t : Texts) (store_ip : Bool) (now : ℕ) (drawn : Drawn) (email : ℕ) (input : SignInInput)
      (u : User) (outdated : Bool) (w : World)
      → t.verify_password u.pass_hash input.password ≡ some (false, outdated)
      → let tried = (record_attempt {E = AuthError} store_ip now email input.ip false w).1 in
        (check_user t store_ip now drawn email input (err no_rows) w ≡ (
          err invalid_credentials,
          record tried { sent = w.sent ++ audit (login_failed none input.ip (some email)) ∷ [] },
        ))
        × (check_user t store_ip now drawn email input (ok u) (with_users users w) ≡ (
          err invalid_credentials,
          record (with_users users tried) {
            sent = w.sent ++ audit (login_failed (some u.id) input.ip none) ∷ [];
          },
        ))
  unfolding check_user check_password refuse_login record_attempt run_query record_login_attempt
      send
  check_user-alike t store_ip now drawn email input u outdated w v =
      (ground arith, ground (arith, v))

-- Where only the accounts differ, a login to an address that no account has and one with a wrong
-- password for an account give the same answer, make the same calls of the database and change the
-- other tables in the same way, whichever calls fail. Both log nothing, or a failed login, with the
-- address in the one and the account in the other.
pub login-Alike :
    (svc : Service) (t : Texts) (policy : LockoutPolicy) (store_ip : Bool) (now : ℕ) (drawn : Drawn)
    (input : SignInInput) (users : List User) (u : User) (outdated : Bool) (w : World)
    → find_row (has_email (t.lower_trimmed input.email)) w.db.users ≡ none
    → find_row (has_email (t.lower_trimmed input.email)) users ≡ some u
    → t.verify_password u.pass_hash input.password ≡ some (false, outdated)
    → Alike users u
        (t.lower_trimmed input.email)
        input.ip
        w
        (login_user svc t policy store_ip now drawn input w)
        (login_user svc t policy store_ip now drawn input (with_users users w))
unfolding login_user run_query get_user_by_email validate_pubkey record_attempt
login-Alike svc t policy store_ip now drawn input users u outdated w n f v =
    let email = t.lower_trimmed input.email in
    let (same, kept, quiet) = lockout-alike users policy now email input.ip w in
    let locked = (check_lockout policy now email input.ip w).1 in
    let refused =
      check_user-alike users t store_ip now drawn email input u outdated
        (record locked { calls = locked.calls + 1 }) v in
    ground (arith, same, kept, quiet, refused, n, f)
