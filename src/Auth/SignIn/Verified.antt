-- ===== src/Auth/SignIn/Verified.antt =====
-- What a login has verified, and what it issues.
use aul_private_location.Base.{
  ℕ, ◌+◌, ◌<◌, ltb, ◌≡◌, refl, sym, ap, subst, ◌∙◌, Bool, true, false, Option, none, some, List, [],
  ◌∷◌, arith, ◌==◌, find_row, Bool-cases, Option-cases, inl, inr,
}
use aul_private_location.Store.Schema.{User, Session, Platform, tv}
use aul_private_location.Store.{
  DbError, no_rows, unavailable, Outcome, ok, err, World, run_query, with_tx_as, send,
}
use aul_private_location.Store.Transactions.{Outcome-cases, begun, with_tx_as-commits}
use aul_private_location.Store.Accounts.{get_user_by_email, has_email}
use aul_private_location.Store.Sessions.{live_access, get_session_by_access_hash}
use aul_private_location.Store.LoginAttempts.{
  count_recent_failures_by_email, count_recent_failures_by_ip,
}
use aul_private_location.Auth.{Service, any_error, issue_session, resolve, resolve_found}
use aul_private_location.Auth.Lockout.{LockoutPolicy, unlocked, check_lockout, check_network}
use aul_private_location.Auth.Validation.{Texts, validate_pubkey}
use aul_private_location.Auth.SignIn.{
  Drawn, SignInInput, SignedIn, signed_in, device_by_id, resolve_or_create_device, open_session,
  refuse_login, rehash, check_password, check_user, login_user,
}
use aul_private_location.Auth.SignIn.Devices.{resolve-own}
use aul_private_location.Auth.SignIn.Issuing.{Issued, issue_session-Issued}

open_session-Issued :
    (svc : Service) (now : ℕ) (drawn : Drawn) (user : User) (platform : Platform)
    (input : SignInInput) (w : World) (r : SignedIn)
    → (open_session svc now drawn user platform input w).0 ≡ ok r
    → (r.user ≡ user)
      × (r.device.user_id ≡ user.id)
      × Issued svc now user.id r.device.id r.tokens
          (open_session svc now drawn user platform input w).1.db
unfolding open_session resolve_or_create_device
open_session-Issued svc now drawn user platform input w r e =
    let found = device_by_id now drawn user.id platform input input.device_id w in
    elim (Outcome-cases found.0) [
      | inl (x, h) ↦ ground arith
      | inr (d, h) ↦
          let issue =
            issue_session svc now drawn.session_id user.id d.id drawn.access drawn.refresh in
          let own = resolve-own now drawn user.id platform input input.device_id w d h in
          elim (Outcome-cases (issue found.1).0) [
            | inl (x, g) ↦ ground arith
            | inr (q, g) ↦
                let i =
                  issue_session-Issued svc now drawn.session_id user.id d.id drawn.access
                    drawn.refresh found.1 q g in
                let same : signed_in user d q ≡ r = ground arith in
                let final : (open_session svc now drawn user platform input w).1.db
                    ≡ (issue found.1).1.db =
                  ground arith in
                subst
                  (λ r.
                    (r.user ≡ user)
                    × (r.device.user_id ≡ user.id)
                    × Issued svc now user.id r.device.id r.tokens
                        (open_session svc now drawn user platform input w).1.db)
                  same (refl, own, subst (Issued svc now user.id d.id q) (sym final) i)
          ]
    ]

check_lockout-reads :
    (p : LockoutPolicy) (now email : ℕ) (ip : Option ℕ) (w : World)
    → ((check_lockout p now email ip w).1.db ≡ w.db)
      × ((check_lockout p now email ip w).1.sent ≡ w.sent)
unfolding check_lockout check_network run_query count_recent_failures_by_email
    count_recent_failures_by_ip
check_lockout-reads p now email none w = (ground arith, ground arith)
check_lockout-reads p now email (some i) w = (ground arith, ground arith)

-- A password that was checked was right.
check_user-Right :
    (t : Texts) (store_ip : Bool) (now : ℕ) (drawn : Drawn) (email : ℕ) (input : SignInInput)
    (found : Outcome DbError User) (w : World) (u : User)
    → (check_user t store_ip now drawn email input found w).0 ≡ ok u
    → (found ≡ ok u)
      × (outdated : Bool) × (t.verify_password u.pass_hash input.password ≡ some (true, outdated))
unfolding check_user check_password refuse_login rehash send
check_user-Right t store_ip now drawn email input (err no_rows) w u e = ground arith
check_user-Right t store_ip now drawn email input (err unavailable) w u e = ground arith
check_user-Right t store_ip now drawn email input (ok v) w u e =
    elim (Option-cases (t.verify_password v.pass_hash input.password)) [
      | inl n ↦ ground arith
      | inr ((right, outdated), f) ↦ elim (Bool-cases right) [
        | inl h ↦ (ground arith, outdated, ground arith)
        | inr h ↦ ground arith
      ]
    ]

-- The live row among those of a hash.
live_found :
    (later hash : ℕ) (s : Session) (rows : List Session)
    → find_row (λ s. s.access_token_hash == hash) rows ≡ some s
    → s.revoked_at ≡ none
    → ltb (tv later) s.access_expires_at ≡ true
    → find_row (live_access later hash) rows ≡ some s
unfolding find_row
live_found later hash s [] f u l = cc
live_found later hash s (x ∷ rows) f u l = ground (arith, live_found later hash s rows)

-- The steps of a login that succeeds.
record Steps (svc : Service) (t : Texts) (policy : LockoutPolicy) (now : ℕ) (drawn : Drawn)
    (input : SignInInput) (w : World) (r : SignedIn) (after : World) : Type 0 where
  platform : Platform
  user : User
  start : World
  outdated : Bool
  unlocked_before :
      (check_lockout policy now (t.lower_trimmed input.email) input.ip w).0 ≡ ok unlocked
  there : find_row (has_email (t.lower_trimmed input.email)) w.db.users ≡ some user
  right_password : t.verify_password user.pass_hash input.password ≡ some (true, outdated)
  opened : (with_tx_as any_error (open_session svc now drawn user platform input) start).0 ≡ ok r
  kept :
      after.db ≡ (with_tx_as any_error (open_session svc now drawn user platform input) start).1.db

login-Steps :
    (svc : Service) (t : Texts) (policy : LockoutPolicy) (store_ip : Bool) (now : ℕ) (drawn : Drawn)
    (input : SignInInput) (w : World) (r : SignedIn)
    → (login_user svc t policy store_ip now drawn input w).0 ≡ ok r
    → Steps svc t policy now drawn input w r (login_user svc t policy store_ip now drawn input w).1
unfolding login_user validate_pubkey run_query get_user_by_email send
login-Steps svc t policy store_ip now drawn input w r e =
    let email = t.lower_trimmed input.email in
    let locked = check_lockout policy now email input.ip w in
    let reads = check_lockout-reads policy now email input.ip w in
    elim (Option-cases input.platform) [
      | inl n ↦ ground arith
      | inr (platform, p) ↦ elim (Outcome-cases locked.0) [
        | inl (x, h) ↦ ground arith
        | inr (status, h) ↦
            let looked = run_query (get_user_by_email email) locked.1 in
            let checked = check_user t store_ip now drawn email input looked.0 looked.1 in
            elim (Outcome-cases checked.0) [
              | inl (x, g) ↦ ground arith
              | inr (u, g) ↦
                  let body = open_session svc now drawn u platform input in
                  let right =
                    check_user-Right t store_ip now drawn email input looked.0 looked.1 u g in
                  elim (Outcome-cases (with_tx_as any_error body checked.1).0) [
                    | inl (x, i) ↦ ground arith
                    | inr (q, i) ↦ record {
                      platform = platform;
                      user = u;
                      start = checked.1;
                      outdated = right.1;
                      unlocked_before = ground arith;
                      there = ground (arith, reads.0, right.0);
                      right_password = right.2;
                      opened = ground arith;
                      kept = ground arith;
                    }
                  ]
            ]
      ]
    ]

-- A login that succeeds has verified the caller: it was not locked out, the password is that of the
-- account with the normalised e-mail address, the device belongs to that account, and the session is
-- in the table, unrevoked, of that account and device, found by the token that is handed out.
pub login-Issued :
    (svc : Service) (t : Texts) (policy : LockoutPolicy) (store_ip : Bool) (now : ℕ) (drawn : Drawn)
    (input : SignInInput) (w : World) (r : SignedIn)
    → (login_user svc t policy store_ip now drawn input w).0 ≡ ok r
    → let after = (login_user svc t policy store_ip now drawn input w).1.db in
      ((check_lockout policy now (t.lower_trimmed input.email) input.ip w).0 ≡ ok unlocked)
      × (find_row (has_email (t.lower_trimmed input.email)) w.db.users ≡ some r.user)
      × (outdated : Bool) × (t.verify_password r.user.pass_hash input.password
          ≡ some (true, outdated))
      × (r.device.user_id ≡ r.user.id)
      × Issued svc now r.user.id r.device.id r.tokens after
login-Issued svc t policy store_ip now drawn input w r e =
    let s = login-Steps svc t policy store_ip now drawn input w r e in
    let tx =
      with_tx_as-commits any_error (open_session svc now drawn s.user s.platform input) s.start r
        s.opened in
    let (of_user, own, issued) =
      open_session-Issued svc now drawn s.user s.platform input (begun s.start) r tx.0 in
    let id = ap (λ v. v.id) (sym of_user) in
    (
      s.unlocked_before,
      s.there ∙ ap some (sym of_user),
      s.outdated,
      ap (λ v. t.verify_password v.pass_hash input.password) of_user ∙ s.right_password,
      own ∙ id,
      subst (Issued svc now r.user.id r.device.id r.tokens) (sym (s.kept ∙ tx.1)) (
          subst
            (λ i.
              Issued svc now i r.device.id r.tokens
                (open_session svc now drawn s.user s.platform input (begun s.start)).1.db)
            id issued),
    )

-- A token that a login hands out is accepted: until it expires, and where the call of the database
-- does not fail, `Resolve` answers the account, the device and the session of the login, as long as
-- the table of sessions is as the login left it.
pub login_then_resolve :
    (svc : Service) (t : Texts) (policy : LockoutPolicy) (store_ip : Bool) (now later : ℕ)
    (drawn : Drawn) (input : SignInInput) (w v : World) (r : SignedIn)
    → (login_user svc t policy store_ip now drawn input w).0 ≡ ok r
    → v.db.sessions ≡ (login_user svc t policy store_ip now drawn input w).1.db.sessions
    → v.outage v.calls ≡ false
    → tv later < tv (now + svc.access_ttl)
    → (resolve svc later (some r.tokens.access_token) v).0
      ≡ ok (r.user.id, r.device.id, r.tokens.session.id)
unfolding resolve resolve_found run_query get_session_by_access_hash
login_then_resolve svc t policy store_ip now later drawn input w v r e same o l =
    let i = (login-Issued svc t policy store_ip now drawn input w r e).5 in
    let live =
      live_found later (svc.hash_token r.tokens.access_token) r.tokens.session
        (login_user svc t policy store_ip now drawn input w).1.db.sessions i.found i.unrevoked
        (ground (arith, i.expires)) in
    let here : find_row (live_access later (svc.hash_token r.tokens.access_token)) v.db.sessions
        ≡ some r.tokens.session =
      ap (find_row (live_access later (svc.hash_token r.tokens.access_token))) same ∙ live in
    ground (arith, here, i.of_user, i.of_device)
