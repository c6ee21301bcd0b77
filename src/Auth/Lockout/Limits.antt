-- ===== src/Auth/Lockout/Limits.antt =====
-- How long an account is locked, and what unlocks it.
use aul_private_location.Base.{
  ℕ, ◌+◌, ◌-◌, ◌≤◌, ◌≡◌, Bool, true, false, Option, none, some, List, [], ◌∷◌, ◌++◌, arith, ==_refl,
  if◌then◌else◌, All, select, count_rows,
}
use aul_private_location.Store.Schema.{LoginAttempt, tv}
use aul_private_location.Store.{DbError, ok, World, run_query}
use aul_private_location.Store.LoginAttempts.{
  count_recent_failures_by_email, count_recent_failures_by_ip, record_login_attempt, last_success,
  failed_for,
}
use aul_private_location.Auth.Lockout.{
  LockoutPolicy, backoff, check_lockout, check_network, record_attempt, locked_account,
}

backoff-bounded :
    (p : LockoutPolicy) (over : ℕ)
    → 1 ≤ p.max_backoff
    → (1 ≤ backoff p over) × (backoff p over ≤ p.max_backoff)
unfolding backoff
backoff-bounded p over m = (ground arith, ground arith)

last_success-newest :
    (email time : ℕ) (ip : Option ℕ) (rows : List LoginAttempt)
    → time
      ≤ last_success email
          (rows ++ record { email = some email; ip = ip; success = true; created_at = time } ∷ [])
unfolding last_success
last_success-newest email time ip [] = ground (arith, ==_refl email)
last_success-newest email time ip (a ∷ rows) =
    ground (arith, last_success-newest email time ip rows)

-- No attempt of the rows is newer than `time`.
abbrev pub UpTo : ℕ → List LoginAttempt → Type 0
UpTo time = All (λ a. a.created_at ≤ time)

none_since :
    (email cutoff since time : ℕ) (ip : Option ℕ) (rows : List LoginAttempt)
    → UpTo time rows
    → time ≤ since
    → count_rows
        (failed_for email cutoff since)
        (rows ++ record { email = some email; ip = ip; success = true; created_at = time } ∷ [])
      ≡ 0
unfolding select
none_since email cutoff since time ip [] u h = ground arith
none_since email cutoff since time ip (a ∷ rows) u h =
    ground (arith, u.0, none_since email cutoff since time ip rows u.1 h)

-- The failures of the account within the window and since its last success.
abbrev pub failures : LockoutPolicy → ℕ → ℕ → World → ℕ
failures p now email w =
    count_rows (failed_for email (tv (now - p.window)) (last_success email w.db.login_attempts))
      w.db.login_attempts

-- An account is locked exactly when its failures within the window, since its last success, reach
-- the threshold, unless the database fails; the retry hint is positive and at most the cap, and
-- the check changes no table.
pub account_locked :
    (p : LockoutPolicy) (now email : ℕ) (ip : Option ℕ) (w : World)
    → 1 ≤ p.max_backoff
    → let (r, w') = check_lockout p now email ip w in
      ((t : ℕ)
        → r ≡ ok (locked_account t)
        → (p.email_threshold ≤ failures p now email w) × (1 ≤ t) × (t ≤ p.max_backoff))
      × (w.outage w.calls ≡ false
          → p.email_threshold ≤ failures p now email w
          → (t : ℕ) × (r ≡ ok (locked_account t)))
      × (w'.db ≡ w.db)
unfolding check_lockout check_network run_query count_recent_failures_by_email
    count_recent_failures_by_ip
account_locked p now email ip w m =
    let n = failures p now email w in
    let hint = backoff-bounded p (n - p.email_threshold + 1) m in
    (
      (λ t e. (ground arith, ground (arith, hint), ground (arith, hint))),
      (λ o h. (backoff p (n - p.email_threshold + 1), ground arith)),
      ground arith,
    )

abbrev after_success : Bool → ℕ → ℕ → Option ℕ → World → List LoginAttempt
after_success store_ip now email ip w =
    w.db.login_attempts
    ++ record {
      email = some email;
      ip = (if store_ip then ip else none);
      success = true;
      created_at = tv now;
    }
      ∷ []

-- A successful login unlocks its account: once it is recorded, no failure of the account that came
-- before it counts, at any later time. The clock does not run backwards, and the threshold is
-- positive.
pub success_unlocks :
    (p : LockoutPolicy) (store_ip : Bool) (now later email : ℕ) (ip ip' : Option ℕ) (w : World)
    → 1 ≤ p.email_threshold
    → UpTo (tv now) w.db.login_attempts
    → w.outage w.calls ≡ false
    → (t : ℕ)
    → ¬ (
        (check_lockout p later email ip'
          (record_attempt {E = DbError} store_ip now email ip true w).1).0
        ≡ ok (locked_account t))
unfolding check_lockout check_network run_query count_recent_failures_by_email
    count_recent_failures_by_ip record_attempt record_login_attempt
success_unlocks p store_ip now later email ip ip' w h u o t e = ground (
  arith,
  none_since email (tv (later - p.window))
      (last_success email (after_success store_ip now email ip w)) (tv now)
      (if store_ip then ip else none) w.db.login_attempts u
      (last_success-newest email (tv now) (if store_ip then ip else none) w.db.login_attempts),
)
