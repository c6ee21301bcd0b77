-- ===== src/Auth.antt =====
-- Sessions and their tokens: server/internal/auth/service.go over the session table. Tokens are
-- numbers that are only compared; `hash_token` stands for crypto.HashToken under the server's
-- pepper, and the outcome of crypto.GenerateToken, which may fail, is an argument of each call. One
-- reading of the clock serves a whole call.
pub mod Tokens
pub mod Reuse
pub mod Ownership
pub mod Rotation
pub mod Lockout
pub mod Validation
pub mod SignIn
mod Examples
use aul_private_location.Base.{
  ℕ, ◌+◌, ◌*◌, Bool, true, false, Option, none, some, ◌==◌, if◌then◌else◌, find_row, ◌&&◌,
}
use aul_private_location.Store.Schema.{Db, Session, User, Device}
use aul_private_location.Store.{
  DbError, no_rows, unavailable, Outcome, ok, err, World, Act, stop, pure, ◌>>=◌, ◌>>◌, or_else,
  try, ignore, one_row, Query, run_query, with_tx, send, audit, logout, token_refresh,
  refresh_reuse_detected, session_revoked,
}
use aul_private_location.Store.Sessions.{
  CreateSessionParams, RotateSessionParams, create_session, rotate_session, revoke_session,
  revoke_sessions_for_device, get_session_by_access_hash, get_session_by_refresh_hash,
  get_session_by_prev_refresh_hash,
}

-- The sentinel errors; `other` is any error that is passed on, of the database or of the random
-- source.
pub data AuthError : Type 0 where
  email_taken invalid_credentials refresh_invalid refresh_reused unauthorized : AuthError
  device_not_found other : AuthError
  invalid_email weak_password password_too_long invalid_platform invalid_pubkey : AuthError
  locked_out : ℕ → AuthError

pub record Service : Type 0 where
  pub hash_token : ℕ → ℕ
  pub access_ttl : ℕ
  pub refresh_ttl : ℕ

-- `Result` of a refresh: the user and device are not filled in.
pub record Refreshed : Type 0 where
  pub session : Session
  pub access_token : ℕ
  pub refresh_token : ℕ
  pub access_expires_at : ℕ
  pub refresh_expires_at : ℕ

abbrev pub any_error : DbError → AuthError
any_error _ = other

-- crypto.GenerateToken
abbrev pub generated : Option ℕ → Act AuthError ℕ
generated none = stop other
generated (some t) = pure t

-- The answer to a replayed token, and to a token that another request rotated first.
pub revoke_as_reuse : ℕ → ℕ → Act AuthError Refreshed
revoke_as_reuse now id = do
  ignore (run_query (revoke_session now id))
  send (audit refresh_reuse_detected)
  stop refresh_reused

replay : ℕ → Outcome DbError Session → Act AuthError Refreshed
replay now (ok reused) = revoke_as_reuse now reused.id
replay now (err _) = stop refresh_invalid

abbrev rotation : Service → ℕ → ℕ → ℕ → ℕ → Session → RotateSessionParams
rotation svc now hash access new_refresh session = record {
  id = session.id;
  access_token_hash = svc.hash_token access;
  refresh_token_hash = svc.hash_token new_refresh;
  access_expires_at = now + svc.access_ttl;
  refresh_expires_at = now + svc.refresh_ttl;
  old_refresh_hash = hash;
}

finish_rotation : Service → ℕ → ℕ → ℕ → Session → Outcome DbError Session → Act AuthError Refreshed
finish_rotation svc now access new_refresh session (err no_rows) = revoke_as_reuse now session.id
finish_rotation svc now access new_refresh session (err unavailable) = stop other
finish_rotation svc now access new_refresh session (ok rotated) = do
  send (audit token_refresh)
  pure (record {
    session = rotated;
    access_token = access;
    refresh_token = new_refresh;
    access_expires_at = now + svc.access_ttl;
    refresh_expires_at = now + svc.refresh_ttl;
  })

-- `Refresh` after the token was looked up.
unfoldable pub refresh_found :
    Service → ℕ → ℕ → Option ℕ → Option ℕ → Outcome DbError Session → Act AuthError Refreshed
unfolding finish_rotation replay revoke_as_reuse
refresh_found svc now hash fresh_access fresh_refresh (err unavailable) = stop other
refresh_found svc now hash fresh_access fresh_refresh (err no_rows) = do
  reused ← try (run_query (get_session_by_prev_refresh_hash hash))
  replay now reused
refresh_found svc now hash fresh_access fresh_refresh (ok session) = do
  access ← generated fresh_access
  new_refresh ← generated fresh_refresh
  swapped ← try (run_query (rotate_session now (rotation svc now hash access new_refresh session)))
  finish_rotation svc now access new_refresh session swapped

-- `Refresh`; `none` is the empty token.
unfoldable pub refresh : Service → ℕ → Option ℕ → Option ℕ → Option ℕ → Act AuthError Refreshed
unfolding refresh_found finish_rotation replay revoke_as_reuse
refresh svc now none fresh_access fresh_refresh = stop refresh_invalid
refresh svc now (some token) fresh_access fresh_refresh = do
  found ← try (run_query (get_session_by_refresh_hash now (svc.hash_token token)))
  refresh_found svc now (svc.hash_token token) fresh_access fresh_refresh found

resolve_found : Outcome DbError Session → Act AuthError (ℕ × ℕ × ℕ)
resolve_found (ok s) = pure (s.user_id, s.device_id, s.id)
resolve_found (err no_rows) = stop unauthorized
resolve_found (err unavailable) = stop other

-- `Resolve`: the user, the device and the session of an access token.
unfoldable pub resolve : Service → ℕ → Option ℕ → Act AuthError (ℕ × ℕ × ℕ)
unfolding resolve_found
resolve svc now none = stop unauthorized
resolve svc now (some token) = do
  found ← try (run_query (get_session_by_access_hash now (svc.hash_token token)))
  resolve_found found

unfoldable pub log_out : ℕ → ℕ → Act AuthError (Unit {0})
log_out now session = do
  or_else (run_query (revoke_session now session)) any_error
  send (audit logout)

-- GetDeviceForUser
unfoldable pub get_device_for_user : ℕ → ℕ → Query Device
get_device_for_user id user db =
    (one_row (find_row (λ d. d.id == id && d.user_id == user) db.devices), db)

unfoldable pub device_error : DbError → AuthError
device_error no_rows = device_not_found
device_error unavailable = other

unfoldable pub revoke_device : ℕ → ℕ → ℕ → Act AuthError (Unit {0})
unfolding device_error
revoke_device now user device = do
  owned ← or_else (run_query (get_device_for_user device user)) device_error
  or_else (run_query (revoke_sessions_for_device now owned.id)) any_error
  send (audit session_revoked)

-- The session row of `issueSession`, made inside the transaction of a sign-in.
unfoldable pub issue_session :
    Service → ℕ → ℕ → ℕ → ℕ → Option ℕ → Option ℕ → Act AuthError Refreshed
issue_session svc now id user device fresh_access fresh_refresh = do
  access ← generated fresh_access
  refresh_token ← generated fresh_refresh
  session ←
      or_else
        (run_query (
          create_session now id (record {
            user_id = user;
            device_id = device;
            access_token_hash = svc.hash_token access;
            refresh_token_hash = svc.hash_token refresh_token;
            access_expires_at = now + svc.access_ttl;
            refresh_expires_at = now + svc.refresh_ttl;
          })))
        any_error
  pure (record {
    session = session;
    access_token = access;
    refresh_token = refresh_token;
    access_expires_at = now + svc.access_ttl;
    refresh_expires_at = now + svc.refresh_ttl;
  })
