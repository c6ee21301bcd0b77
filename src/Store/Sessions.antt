-- ===== src/Store/Sessions.antt =====
-- The session queries of server/internal/store/sqlite_queries.go (sessions.sql). `now` is the clock
-- read by the call, `id` the value of uuid.New().
use aul_private_location.Base.{
  ℕ, ◌-◌, ◌*◌, Bool, false, not, ◌&&◌, ◌||◌, Option, none, some, List, [], ◌∷◌, ◌++◌, ◌==◌, ltb,
  if◌then◌else◌, is_none, find_row, modify, any_row, delete, count_rows,
}
use aul_private_location.Store.Schema.{Db, Session, tv, ns_per_ms}
use aul_private_location.Store.{no_rows, unavailable, ok, err, Query, one_row}

pub record CreateSessionParams : Type 0 where
  pub user_id : ℕ
  pub device_id : ℕ
  pub access_token_hash : ℕ
  pub refresh_token_hash : ℕ
  pub access_expires_at : ℕ
  pub refresh_expires_at : ℕ

pub record RotateSessionParams : Type 0 where
  pub id : ℕ
  pub access_token_hash : ℕ
  pub refresh_token_hash : ℕ
  pub access_expires_at : ℕ
  pub refresh_expires_at : ℕ
  pub old_refresh_hash : ℕ

abbrev pub new_session : ℕ → ℕ → CreateSessionParams → Session
new_session now id p = record {
  id = id;
  user_id = p.user_id;
  device_id = p.device_id;
  access_token_hash = p.access_token_hash;
  refresh_token_hash = p.refresh_token_hash;
  prev_refresh_hash = none;
  access_expires_at = tv p.access_expires_at;
  refresh_expires_at = tv p.refresh_expires_at;
  revoked_at = none;
  created_at = tv now;
  rotated_at = tv now;
}

-- The primary key, the two unique columns and the two foreign keys.
unfoldable pub session_allowed : Db → ℕ → CreateSessionParams → Bool
session_allowed db id p =
    not (
      any_row
        (λ s.
          s.id == id
          || s.access_token_hash == p.access_token_hash
          || s.refresh_token_hash == p.refresh_token_hash)
        db.sessions)
    && any_row (λ u. u.id == p.user_id) db.users
    && any_row (λ d. d.id == p.device_id) db.devices

unfoldable pub create_session : ℕ → ℕ → CreateSessionParams → Query Session
unfolding session_allowed
create_session now id p db =
    if session_allowed db id p
    then (
      ok (new_session now id p),
      record db { sessions = db.sessions ++ new_session now id p ∷ [] },
    )
    else (err unavailable, db)

abbrev pub hour_ns : ℕ
hour_ns = 3600 * 1000 * ns_per_ms

-- A nullable time that is set and lies before the bound.
abbrev pub set_before : ℕ → Option ℕ → Bool
set_before t none = false
set_before t (some s) = ltb s t

unfoldable pub delete_expired_sessions : ℕ → Query ℕ
delete_expired_sessions now db =
    let dead = λ (s : Session).
      ltb s.refresh_expires_at (tv (now - 24 * hour_ns))
      || set_before (tv (now - 24 * hour_ns)) s.revoked_at in
    (ok (count_rows dead db.sessions), record db { sessions = delete dead db.sessions })

-- The rows that the two lookups of a live session select.
abbrev pub live_access : ℕ → ℕ → Session → Bool
live_access now hash s =
    s.access_token_hash == hash && is_none s.revoked_at && ltb (tv now) s.access_expires_at

abbrev pub live_refresh : ℕ → ℕ → Session → Bool
live_refresh now hash s =
    s.refresh_token_hash == hash && is_none s.revoked_at && ltb (tv now) s.refresh_expires_at

-- SQL equality on a nullable column.
abbrev pub column_is : ℕ → Option ℕ → Bool
column_is k none = false
column_is k (some j) = j == k

unfoldable pub get_session_by_access_hash : ℕ → ℕ → Query Session
get_session_by_access_hash now hash db = (one_row (find_row (live_access now hash) db.sessions), db)

unfoldable pub get_session_by_refresh_hash : ℕ → ℕ → Query Session
get_session_by_refresh_hash now hash db =
    (one_row (find_row (live_refresh now hash) db.sessions), db)

abbrev pub replayed : ℕ → Session → Bool
replayed hash s = column_is hash s.prev_refresh_hash && is_none s.revoked_at

unfoldable pub get_session_by_prev_refresh_hash : ℕ → Query Session
get_session_by_prev_refresh_hash hash db = (one_row (find_row (replayed hash) db.sessions), db)

abbrev pub revoke_at : ℕ → Session → Session
revoke_at now s = record s { revoked_at = some (tv now) }

unfoldable pub revoke_session : ℕ → ℕ → Query (Unit {0})
revoke_session now id db = (
  ok tt,
  record db {
    sessions = modify (λ s. s.id == id && is_none s.revoked_at) (revoke_at now) db.sessions;
  },
)

unfoldable pub revoke_sessions_for_device : ℕ → ℕ → Query (Unit {0})
revoke_sessions_for_device now device db = (
  ok tt,
  record db {
    sessions =
        modify (λ s. s.device_id == device && is_none s.revoked_at) (revoke_at now) db.sessions;
  },
)

unfoldable pub revoke_sessions_for_user : ℕ → ℕ → Query (Unit {0})
revoke_sessions_for_user now user db = (
  ok tt,
  record db {
    sessions = modify (λ s. s.user_id == user && is_none s.revoked_at) (revoke_at now) db.sessions;
  },
)

-- The compare-and-swap of a rotation: the row must still hold the hash that was presented.
abbrev pub swaps : RotateSessionParams → Session → Bool
swaps p s = s.id == p.id && s.refresh_token_hash == p.old_refresh_hash && is_none s.revoked_at

abbrev pub rotated : ℕ → RotateSessionParams → Session → Session
rotated now p s = record s {
  access_token_hash = p.access_token_hash;
  refresh_token_hash = p.refresh_token_hash;
  prev_refresh_hash = some p.old_refresh_hash;
  access_expires_at = tv p.access_expires_at;
  refresh_expires_at = tv p.refresh_expires_at;
  rotated_at = tv now;
}

-- The unique columns, against the rows that the update leaves alone.
unfoldable pub rotation_allowed : RotateSessionParams → List Session → Bool
rotation_allowed p rows = not (
    any_row
      (λ s.
        not (swaps p s)
        && (s.access_token_hash == p.access_token_hash
            || s.refresh_token_hash == p.refresh_token_hash))
      rows)

unfoldable pub rotate_session : ℕ → RotateSessionParams → Query Session
unfolding rotation_allowed
rotate_session now p db = elim (find_row (swaps p) db.sessions) [
  | none ↦ (err no_rows, db)
  | some s ↦
      if rotation_allowed p db.sessions
      then (
        ok (rotated now p s),
        record db { sessions = modify (swaps p) (rotated now p) db.sessions },
      )
      else (err unavailable, db)
]
